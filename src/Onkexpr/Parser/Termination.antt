-- ===== src/Onkexpr/Parser/Termination.antt =====
-- internal/onkexpr/parser.go: the fuel of `Parse`.
use onekit.Base.{
  ℕ, zero, suc, ◌≤◌, ◌<◌, ◌≡◌, ◌≢◌, refl, true, inl, inr, ◌||◌, Bool-cases, Option, none, some,
  List, Text, String, subst, length, arith,
}
use onekit.Onkexpr.Source.{
  Token, eof, int, punct, same_kind, out_of_fuel, Ensures, holds, refused, Ensures-bind, Ensures-if,
  Ensures-ne,
}
use onekit.Onkexpr.Syntax.{Node, BinaryOp, binary, at}
use onekit.Onkexpr.Lexer.Located.{Lexed, done, space, token, lex-Ensures}
use onekit.Onkexpr.Parser.{
  or_op, and_op, add_op, mul_op, relation_op, postfix_loop, postfix, is_least, unary_body,
  parse_unary, unchained, relation_tail, multiplication, addition, relation, conjunctions,
  disjunctions, branches, parse_ternary, parse_tokens, parse,
}
use onekit.Onkexpr.Parser.Cursor.{State, Parser, peek, advance, is_text, is_punct}
use onekit.Onkexpr.Parser.Progress.{
  Ends, last, more, AfterKept, Eats, Ends-pos, Shorter-trans, Kept-refl, Shorter→Kept,
  advance-Shorter, is_text-ne-eof, punct-Shorter, expect_punct-Shorter, since, later, nested-Eats,
}
use onekit.Onkexpr.Parser.Operands.{
  IsOperator, level-Eats, primary-Eats, dotted-Eats, subscript-Eats,
}

-- A token that is one of some spellings is not the end.
seen : (text : String) (t : Token) → is_text punct text t ≡ true → t.kind ≢ eof
seen text t h = is_text-ne-eof punct text t (cc) h

or_op-IsOperator : IsOperator or_op
or_op-IsOperator t op h = seen "||" t (ground arith)

and_op-IsOperator : IsOperator and_op
and_op-IsOperator t op h = seen "&&" t (ground arith)

add_op-IsOperator : IsOperator add_op
add_op-IsOperator t op h = elim (Bool-cases (is_text punct "+" t)) [
  | inl e ↦ seen "+" t e
  | inr e ↦ seen "-" t (ground arith)
]

mul_op-IsOperator : IsOperator mul_op
mul_op-IsOperator t op h = elim (Bool-cases (is_text punct "*" t)) [
  | inl e ↦ seen "*" t e
  | inr e ↦ elim (Bool-cases (is_text punct "/" t)) [
    | inl e' ↦ seen "/" t e'
    | inr e' ↦ seen "%" t (ground arith)
  ]
]

relation_op-IsOperator : IsOperator relation_op
relation_op-IsOperator t op h = λ end. cc (subst (λ o. o ≡ some op) (none_at_end t end) h)
  where
    none_at_end : (t : Token) → t.kind ≡ eof → relation_op t ≡ none
    none_at_end t end = unfold is_text in rw end

unary_op-ne-eof : (t : Token) → (is_text punct "!" t || is_text punct "-" t) ≡ true → t.kind ≢ eof
unary_op-ne-eof t h = elim (Bool-cases (is_text punct "!" t)) [
  | inl e ↦ seen "!" t e
  | inr e ↦ seen "-" t (ground arith)
]

module _ {F : Type 0} (parse_float : Text → Option F) (f : ℕ) (whole : Parser (Node F))
    (eats : Eats f whole) where
  postfix_loop-Kept :
      (g : ℕ) (node : Node F) (s : State)
      → Ends s.tokens
      → length s.tokens ≤ g
      → length s.tokens < suc f
      → Ensures (AfterKept s) (postfix_loop parse_float g f whole node s)
  unfolding postfix_loop
  postfix_loop-Kept zero node s e short fits = absurd (omega (arith, Ends-pos s.tokens e))
  postfix_loop-Kept (suc g) node s e short fits = elim (Bool-cases (is_punct "." s)) [
    | inl dot ↦
        let w = punct-Shorter "." s e dot in
        rw (dot, postfix_loop)
          (Ensures-bind
            (dotted-Eats parse_float f whole eats node (advance s) w.ends (omega (arith, w.size)))
            λ (node', s') w'.
              let v = Shorter-trans s (advance s) s' w w' in
              later s s' v (
                postfix_loop-Kept g node' s' v.ends (omega (arith, v.size))
                  (omega (arith, v.size))))
    | inr other ↦ elim (Bool-cases (is_punct "[" s)) [
      | inl bracket ↦
          let w = punct-Shorter "[" s e bracket in
          rw (other, postfix_loop, bracket)
            (Ensures-bind
              (subscript-Eats parse_float f whole eats node (peek s).pos (advance s) w.ends
                (omega (arith, w.size)))
              λ (node', s') w'.
                let v = Shorter-trans s (advance s) s' w w' in
                later s s' v (
                  postfix_loop-Kept g node' s' v.ends (omega (arith, v.size))
                    (omega (arith, v.size))))
      | inr neither ↦ rw (other, postfix_loop, neither) (holds (Kept-refl s e))
    ]
  ]

  postfix-Eats : Eats (suc f) (postfix parse_float f whole)
  postfix-Eats s e fits =
      Ensures-bind (primary-Eats parse_float f whole eats s e fits) λ (node, s') w.
        since s s' w
          (postfix_loop-Kept f node s' w.ends (omega (arith, w.size)) (omega (arith, w.size)))

  unary_body-Eats :
      (u : ℕ) (operand : Parser (Node F))
      → u < f
      → Eats (suc u) operand
      → Eats (suc (suc u)) (unary_body parse_float f whole operand)
  unfolding unary_body
  unary_body-Eats u operand le eaten s e fits =
      elim (Bool-cases (is_text punct "!" (peek s) || is_text punct "-" (peek s))) [
        | inr plain ↦ rw (plain, unary_body) (postfix-Eats s e (omega arith))
        | inl op ↦
            let w = advance-Shorter s e (unary_op-ne-eof (peek s) op) in
            elim (Bool-cases (is_least parse_float (peek s) (advance s))) [
              | inl least ↦
                  rw (op, unary_body, least)
                    (holds (
                      Shorter-trans s (advance s) (advance (advance s)) w (
                        advance-Shorter (advance s) w.ends
                          (is_least-ne-eof (peek s) (advance s) least))))
              | inr other ↦
                  rw (op, unary_body, other)
                    (Ensures-bind (eaten (advance s) w.ends (omega (arith, w.size)))
                      λ (x, s') w'. holds (Shorter-trans s (advance s) s' w w'))
            ]
      ]
    where
      is_least-ne-eof :
          (t : Token) (s : State) → is_least parse_float t s ≡ true → (peek s).kind ≢ eof
      is_least-ne-eof t s h =
          is_text-ne-eof int "9223372036854775808" (peek s) (cc) (unfold is_least in ground arith)

  parse_unary-Eats : (u : ℕ) → u ≤ f → Eats (suc u) (parse_unary parse_float u f whole)
  unfolding parse_unary
  parse_unary-Eats zero le s e fits = absurd (omega (arith, Ends-pos s.tokens e))
  parse_unary-Eats (suc u) le s e fits =
      nested-Eats (suc (suc u)) (unary_body parse_float f whole (parse_unary parse_float u f whole))
        (unary_body-Eats u (parse_unary parse_float u f whole) le
          (parse_unary-Eats u (omega arith)))
        s e fits

  addition-Eats : Eats (suc f) (addition parse_float f whole)
  addition-Eats =
      level-Eats parse_float f add_op (multiplication parse_float f whole) add_op-IsOperator (
        level-Eats parse_float f mul_op (parse_unary parse_float f f whole) mul_op-IsOperator
          (parse_unary-Eats f (omega arith)))

  unchained-Kept :
      (node : Node F) (o : Option BinaryOp) (s : State)
      → Ends s.tokens
      → Ensures (AfterKept s) (unchained parse_float node (peek s) o s)
  unchained-Kept node none s e = holds (Kept-refl s e)
  unchained-Kept node (some _) s e = refused

  relation_tail-Kept :
      (left : Node F) (s : State) (o : Option BinaryOp)
      → relation_op (peek s) ≡ o
      → Ends s.tokens
      → length s.tokens < suc f
      → Ensures
          (AfterKept s)
          (relation_tail parse_float (addition parse_float f whole) left (peek s) o s)
  relation_tail-Kept left s none h e fits = holds (Kept-refl s e)
  relation_tail-Kept left s (some op) h e fits =
      let w = advance-Shorter s e (relation_op-IsOperator (peek s) op h) in
      Ensures-bind (addition-Eats (advance s) w.ends (omega (arith, w.size))) λ (right, s') w'.
        later s s' (Shorter-trans s (advance s) s' w w') (
          unchained-Kept (binary (at (peek s).pos) op left right) (relation_op (peek s')) s'
            w'.ends)

  relation-Eats : Eats (suc f) (relation parse_float f whole)
  relation-Eats s e fits = Ensures-bind (addition-Eats s e fits) λ (left, s') w.
      since s s' w
        (relation_tail-Kept left s' (relation_op (peek s')) refl w.ends (omega (arith, w.size)))

  disjunctions-Eats : Eats (suc f) (disjunctions parse_float f whole)
  disjunctions-Eats =
      level-Eats parse_float f or_op (conjunctions parse_float f whole) or_op-IsOperator (
        level-Eats parse_float f and_op (relation parse_float f whole) and_op-IsOperator
          relation-Eats)

  branches-Kept :
      (cond : Node F) (s : State)
      → Ends s.tokens
      → length s.tokens < suc f
      → Ensures (AfterKept s) (branches parse_float whole cond s)
  branches-Kept cond s e fits = elim (Bool-cases (is_punct "?" s)) [
    | inr plain ↦ rw (plain, branches) (holds (Kept-refl s e))
    | inl mark ↦
        let w = punct-Shorter "?" s e mark in
        rw (mark, branches)
          (Ensures-bind (eats (advance s) w.ends (omega (arith, w.size))) λ (a, s₁) w₁.
            let v₁ = Shorter-trans s (advance s) s₁ w w₁ in
            Ensures-bind (expect_punct-Shorter ":" s₁ v₁.ends) λ (_, s₂) w₂.
              let v₂ = Shorter-trans s s₁ s₂ v₁ w₂ in
              Ensures-bind (eats s₂ v₂.ends (omega (arith, v₂.size)))
                λ (b, s₃) w₃. holds (Shorter→Kept s s₃ (Shorter-trans s s₂ s₃ v₂ w₃)))
  ]

module _ {F : Type 0} (parse_float : Text → Option F) where
  parse_ternary-Eats : (f : ℕ) → Eats f (parse_ternary parse_float f)
  unfolding parse_ternary
  parse_ternary-Eats zero s e fits = absurd (omega (arith, Ends-pos s.tokens e))
  parse_ternary-Eats (suc f) s e fits =
      let whole = parse_ternary parse_float f in
      let eats = parse_ternary-Eats f in
      nested-Eats (suc f) _
        (λ s e fits.
          Ensures-bind (disjunctions-Eats parse_float f whole eats s e fits) λ (cond, s') w.
            since s s' w
              (branches-Kept parse_float f whole eats cond s' w.ends (omega (arith, w.size))))
        s e fits

  -- A token list that ends as the lexer's lists do is parsed on the fuel that `parse` gives.
  parse_tokens-Ensures :
      (ts : List Token) → Ends ts → Ensures (λ _. Unit {0}) (parse_tokens parse_float ts)
  unfolding parse_tokens
  parse_tokens-Ensures ts e =
      Ensures-bind
        (parse_ternary-Eats (suc (length ts)) (record { tokens = ts; depth = 0 }) e (omega arith))
        λ (node, s) w. Ensures-if (same_kind (peek s).kind eof) (λ _. holds tt) (λ _. refused)

Lexed-Ends : {i : ℕ} {src : Text} {ts : List Token} → Lexed i src ts → Ends ts
Lexed-Ends done = last refl
Lexed-Ends (space h l) = Lexed-Ends l
Lexed-Ends (token t n at_pos spells l) = more spells.not_eof (Lexed-Ends l)

module _ {F : Type 0} (parse_float : Text → Option F) where
  -- For every source, and whatever the numbers with a fraction are read as, the parser returns an
  -- expression or an error: the nesting of calls and the rounds of its loops stay within the number of
  -- tokens that are left.
  pub parse-ne-out_of_fuel : (src : Text) → parse parse_float src ≢ out_of_fuel
  unfolding parse
  parse-ne-out_of_fuel src =
      Ensures-ne
        (Ensures-bind (lex-Ensures src) λ ts l. parse_tokens-Ensures parse_float ts (Lexed-Ends l))
