-- ===== src/Onkexpr/Parser/Operands.antt =====
-- internal/onkexpr/parser.go: the fuel of the levels of the parser.
use onekit.Base.{
  ℕ, zero, suc, ◌≤◌, ◌<◌, ◌≡◌, ◌≢◌, refl, true, inl, inr, ◌⊎◌, Bool-cases, Option-cases, Option,
  none, some, String, Text, length, arith, text_eq, bytes,
}
use onekit.Base.Int.{ℤ}
use onekit.Base.Decimal.{parse_int64}
use onekit.Onkexpr.Source.{
  Token, TokKind, eof, ident, int, double, string, punct, same_kind, Ensures, holds, refused,
  Ensures-bind, Ensures-if, weaken,
}
use onekit.Onkexpr.Syntax.{Node, BinaryOp, Quantifier, binary, at}
use onekit.Onkexpr.Parser.{
  binary_loop, level, items_loop, items, identifier, punctuation, integer, number, primary_of,
  primary, quantifier_of, quantifier_call, method, dotted, subscript,
}
use onekit.Onkexpr.Parser.Cursor.{State, Parser, peek, advance, is_text, is_punct}
use onekit.Onkexpr.Parser.Progress.{
  Ends, AfterKept, After, Eats, Ends-pos, Shorter-trans, Shorter-Kept_trans, Kept-refl,
  Shorter→Kept, advance-Shorter, punct-Shorter, expect_punct-Shorter, since,
}

-- The tokens that are operators at a level are none of them the end of the source.
abbrev pub IsOperator : (Token → Option BinaryOp) → Type 0
IsOperator op_of = (t : Token) (op : BinaryOp) → op_of t ≡ some op → t.kind ≢ eof

eof-cases : (k : TokKind) → (k ≡ eof) ⊎ (k ≢ eof)
eof-cases eof = inl refl
eof-cases ident = inr (cc)
eof-cases _ = inr (cc)

same_kind-ident : (k : TokKind) → same_kind k ident ≡ true → k ≢ eof
same_kind-ident eof h = cc
same_kind-ident ident h = cc
same_kind-ident _ h = cc

module _ {F : Type 0} (parse_float : Text → Option F) where
  binary_loop-Kept :
      (f n : ℕ) (op_of : Token → Option BinaryOp) (operand : Parser (Node F)) (left : Node F)
      (s : State)
      → IsOperator op_of
      → Eats n operand
      → Ends s.tokens
      → length s.tokens ≤ f
      → length s.tokens < n
      → Ensures (AfterKept s) (binary_loop parse_float f op_of operand left s)
  unfolding binary_loop
  binary_loop-Kept zero n op_of operand left s is_op eats e short fits =
      absurd (omega (arith, Ends-pos s.tokens e))
  binary_loop-Kept (suc f) n op_of operand left s is_op eats e short fits =
      elim (Option-cases (op_of (peek s))) [
        | inl done ↦ rw (done, binary_loop) (holds (Kept-refl s e))
        | inr (op, seen) ↦
            let w = advance-Shorter s e (is_op (peek s) op seen) in
            rw (seen, binary_loop)
              (Ensures-bind (eats (advance s) w.ends (omega (arith, w.size))) λ (right, s') w'.
                let v = Shorter-trans s (advance s) s' w w' in
                weaken (λ (a, u) k. Shorter→Kept s u (Shorter-Kept_trans s s' u v k))
                  (binary_loop-Kept f n op_of operand (binary (at (peek s).pos) op left right) s'
                    is_op eats v.ends (omega (arith, v.size)) (omega (arith, v.size))))
      ]

  -- A level reads an operand and then the loop of its operators.
  pub level-Eats :
      (f : ℕ) (op_of : Token → Option BinaryOp) (operand : Parser (Node F))
      → IsOperator op_of
      → Eats (suc f) operand
      → Eats (suc f) (level parse_float f op_of operand)
  level-Eats f op_of operand is_op eats s e fits = Ensures-bind (eats s e fits) λ (left, s') w.
      since s s' w (
        binary_loop-Kept f (suc f) op_of operand left s' is_op eats w.ends (omega (arith, w.size))
          (omega (arith, w.size)))

  items_loop-Eats :
      (f n : ℕ) (closing : String) (item : Parser (Node F)) (s : State)
      → Eats n item
      → Ends s.tokens
      → length s.tokens ≤ f
      → length s.tokens < n
      → Ensures (After s) (items_loop parse_float f closing item s)
  unfolding items_loop
  items_loop-Eats zero n closing item s eats e short fits =
      absurd (omega (arith, Ends-pos s.tokens e))
  items_loop-Eats (suc f) n closing item s eats e short fits =
      Ensures-bind (eats s e fits) λ (a, s') w. elim (Bool-cases (is_punct "," s')) [
        | inl comma ↦
            let v = Shorter-trans s s' (advance s') w (punct-Shorter "," s' w.ends comma) in
            rw comma (
              Ensures-bind
                (items_loop-Eats f n closing item (advance s') eats v.ends (omega (arith, v.size))
                  (omega (arith, v.size)))
                λ (rest, u) k. holds (Shorter-trans s (advance s') u v k))
        | inr other ↦ rw other (
            Ensures-bind (expect_punct-Shorter closing s' w.ends)
              λ (_, u) k. holds (Shorter-trans s s' u w k))
      ]

  items-Eats :
      (f : ℕ) (closing : String) (item : Parser (Node F))
      → Eats f item
      → Eats f (items parse_float f closing item)
  items-Eats f closing item eats s e fits =
      Ensures-if (is_punct closing s) (λ h. holds (punct-Shorter closing s e h))
        (λ _. items_loop-Eats f f closing item s eats e (omega arith) fits)

  -- The levels, for fuel `f` and a parser of whole expressions that is good below `f` tokens.
  module _ (f : ℕ) (whole : Parser (Node F)) (eats : Eats f whole) where
    identifier-Kept :
        (t : Token) (s : State)
        → Ends s.tokens
        → length s.tokens < suc f
        → Ensures (AfterKept s) (identifier parse_float f whole t s)
    identifier-Kept t s e fits =
        Ensures-if (text_eq t.text (bytes "true")) (λ _. holds (Kept-refl s e))
          (λ _.
            Ensures-if (text_eq t.text (bytes "false")) (λ _. holds (Kept-refl s e))
              (λ _.
                Ensures-if (is_punct "(" s)
                  (λ h.
                    let w = punct-Shorter "(" s e h in
                    Ensures-bind
                      (items-Eats f ")" whole eats (advance s) w.ends (omega (arith, w.size)))
                      λ (args, u) k. holds (Shorter→Kept s u (Shorter-trans s (advance s) u w k)))
                  (λ _. holds (Kept-refl s e))))

    punctuation-Kept :
        (t : Token) (s : State)
        → Ends s.tokens
        → length s.tokens < f
        → Ensures (AfterKept s) (punctuation parse_float f whole t s)
    punctuation-Kept t s e fits = elim (Bool-cases (is_text punct "(" t)) [
      | inl h ↦ rw h (
          Ensures-bind (eats s e fits) λ (inner, s') w.
            Ensures-bind (expect_punct-Shorter ")" s' w.ends)
              λ (_, u) k. holds (Shorter→Kept s u (Shorter-trans s s' u w k)))
      | inr h ↦ rw h (elim (Bool-cases (is_text punct "[" t)) [
        | inl h' ↦ rw h' (
            Ensures-bind (items-Eats f "]" whole eats s e fits)
              λ (elems, u) k. holds (Shorter→Kept s u k))
        | inr h' ↦ rw h' refused
      ])
    ]

    integer-Kept :
        (t : Token) (o : Option ℤ) (s : State)
        → Ends s.tokens
        → Ensures (AfterKept s) (integer parse_float t o s)
    integer-Kept t none s e = refused
    integer-Kept t (some n) s e = holds (Kept-refl s e)

    number-Kept :
        (t : Token) (o : Option F) (s : State)
        → Ends s.tokens
        → Ensures (AfterKept s) (number parse_float t o s)
    number-Kept t none s e = refused
    number-Kept t (some n) s e = holds (Kept-refl s e)

    primary_of-Kept :
        (t : Token) (k : TokKind) (s : State)
        → Ends s.tokens
        → length s.tokens < f
        → Ensures (AfterKept s) (primary_of parse_float f whole t k s)
    primary_of-Kept t int s e fits = integer-Kept t (parse_int64 t.text) s e
    primary_of-Kept t double s e fits = number-Kept t (parse_float t.text) s e
    primary_of-Kept t string s e fits = holds (Kept-refl s e)
    primary_of-Kept t ident s e fits = identifier-Kept t s e (omega arith)
    primary_of-Kept t punct s e fits = punctuation-Kept t s e fits
    primary_of-Kept t eof s e fits = refused

    pub primary-Eats : Eats (suc f) (primary parse_float f whole)
    unfolding primary
    primary-Eats s e fits = elim (eof-cases (peek s).kind) [
      | inl end ↦ rw end refused
      | inr token ↦
          let w = advance-Shorter s e token in
          since s (advance s) w
            (primary_of-Kept (peek s) (peek s).kind (advance s) w.ends (omega (arith, w.size)))
    ]

    quantifier_call-Eats :
        (receiver : Node F) (name : Token) (q : Quantifier)
        → Eats f (quantifier_call parse_float whole receiver name q)
    quantifier_call-Eats receiver name q s e fits =
        elim (Bool-cases (same_kind (peek s).kind ident)) [
          | inr other ↦ rw other refused
          | inl variable ↦
              let w = advance-Shorter s e (same_kind-ident (peek s).kind variable) in
              rw variable (
                Ensures-bind (expect_punct-Shorter "," (advance s) w.ends) λ (_, s₁) w₁.
                  let v₁ = Shorter-trans s (advance s) s₁ w w₁ in
                  Ensures-bind (eats s₁ w₁.ends (omega (arith, v₁.size))) λ (body, s₂) w₂.
                    Ensures-bind (expect_punct-Shorter ")" s₂ w₂.ends)
                      λ (_, s₃) w₃. holds (Shorter-trans s s₁ s₃ v₁ (Shorter-trans s₁ s₂ s₃ w₂ w₃)))
        ]

    method-Eats :
        (receiver : Node F) (name : Token) → Eats f (method parse_float f whole receiver name)
    unfolding method
    method-Eats receiver name s e fits = elim (Option-cases (quantifier_of name.text)) [
      | inl plain ↦
          rw plain (Ensures-bind (items-Eats f ")" whole eats s e fits) λ (args, u) k. holds k)
      | inr (q, seen) ↦ rw seen (quantifier_call-Eats receiver name q s e fits)
    ]

    pub dotted-Eats : (node : Node F) → Eats f (dotted parse_float f whole node)
    dotted-Eats node s e fits =
        Ensures-if (same_kind (peek s).kind ident)
          (λ name.
            let w = advance-Shorter s e (same_kind-ident (peek s).kind name) in
            Ensures-if (is_punct "(" (advance s))
              (λ open_bracket.
                let v =
                  Shorter-trans s (advance s) (advance (advance s)) w
                    (punct-Shorter "(" (advance s) w.ends open_bracket) in
                weaken (λ (a, u) k. Shorter-trans s (advance (advance s)) u v k)
                  (method-Eats node (peek s) (advance (advance s)) v.ends (omega (arith, v.size))))
              (λ _. holds w))
          (λ _. refused)

    pub subscript-Eats : (node : Node F) (i : ℕ) → Eats f (subscript parse_float whole node i)
    subscript-Eats node i s e fits = Ensures-bind (eats s e fits) λ (idx, s') w.
        Ensures-bind (expect_punct-Shorter "]" s' w.ends)
          λ (_, u) k. holds (Shorter-trans s s' u w k)
