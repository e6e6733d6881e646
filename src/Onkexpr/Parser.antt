-- ===== src/Onkexpr/Parser.antt =====
-- internal/onkexpr/parser.go: recursive descent. The levels of precedence call one another down to
-- `primary`, which calls `ternary` again: each is a function of the parser for that call. What is
-- left of the input is no structural part of it, so `ternary`, `unary` and the loops take fuel.
pub mod Cursor
pub mod Progress
mod Operands
pub mod Termination
mod Tests
use onekit.Base.{
  ℕ, zero, suc, ◌+◌, Bool, true, false, ◌&&◌, ◌||◌, Option, none, some, List, [], ◌∷◌, Text, bytes,
  String, text_eq, length, if◌then◌else◌,
}
use onekit.Base.Int.{ℤ, pos}
use onekit.Base.Decimal.{parse_int64}
use onekit.Onkexpr.Arith.{Op, plus, minus, times, over, modulo, min_int64}
use onekit.Onkexpr.Source.{
  Token, TokKind, eof, ident, int, double, string, punct, same_kind, Message, chained_comparison,
  needs_variable, integer_too_big, number_out_of_range, Outcome, ok, failed, out_of_fuel, fail,
  bind,
}
use onekit.Onkexpr.Syntax.{
  Node, Nodes, nil, cons, at, int_lit, double_lit, string_lit, bool_lit, list_lit, select, index,
  call, quantified, unary, binary, ternary, BinaryOp, disjunction, conjunction, equal, not_equal,
  less, less_eq, greater, greater_eq, member, compute, UnaryOp, negation, Quantifier, every,
  some_item,
}
use onekit.Onkexpr.Lexer.{lex}
use Cursor.{
  State, Parser, peek, advance, is_text, is_punct, expect_punct, nested, ◌>>=◌, ◌>>◌, pure, look,
  next, refuse, unexpected_token,
}

-- The operator that a token is at each level, if it is one there.
abbrev pub or_op : Token → Option BinaryOp
or_op t = if is_text punct "||" t then some disjunction else none

abbrev pub and_op : Token → Option BinaryOp
and_op t = if is_text punct "&&" t then some conjunction else none

abbrev pub add_op : Token → Option BinaryOp
add_op t =
    if is_text punct "+" t
    then some (compute plus)
    else if is_text punct "-" t
    then some (compute minus)
    else none

abbrev pub mul_op : Token → Option BinaryOp
mul_op t =
    if is_text punct "*" t
    then some (compute times)
    else if is_text punct "/" t
    then some (compute over)
    else if is_text punct "%" t
    then some (compute modulo)
    else none

-- `relationOps`, and the word `in`.
abbrev pub relation_op : Token → Option BinaryOp
relation_op t =
    if is_text punct "==" t
    then some equal
    else if is_text punct "!=" t
    then some not_equal
    else if is_text punct "<" t
    then some less
    else if is_text punct "<=" t
    then some less_eq
    else if is_text punct ">" t
    then some greater
    else if is_text punct ">=" t
    then some greater_eq
    else if is_text ident "in" t
    then some member
    else none

abbrev pub quantifier_of : Text → Option Quantifier
quantifier_of name =
    if text_eq name (bytes "all")
    then some every
    else if text_eq name (bytes "exists")
    then some some_item
    else none

-- `strconv.ParseFloat` with the tests that the number is finite: the number that a text stands for.
module _ {F : Type 0} (parse_float : Text → Option F) where
  -- The loops of `parseOr`, `parseAnd`, `parseAdd` and `parseMul`, which differ in the operators and
  -- in the parser of an operand.
  unfoldable pub binary_loop :
      ℕ → (Token → Option BinaryOp) → Parser (Node F) → Node F → Parser (Node F)
  binary_loop zero op_of operand left s = out_of_fuel
  binary_loop (suc f) op_of operand left s = elim (op_of (peek s)) [
    | none ↦ ok (left, s)
    | some op ↦
        bind (operand (advance s))
          λ (right, s'). binary_loop f op_of operand (binary (at (peek s).pos) op left right) s'
  ]

  abbrev pub level : ℕ → (Token → Option BinaryOp) → Parser (Node F) → Parser (Node F)
  level f op_of operand = do left ← operand; binary_loop f op_of operand left

  -- The loops of `parseArgs` and of a list literal: items up to the closing bracket.
  unfoldable pub items_loop : ℕ → String → Parser (Node F) → Parser (Nodes F)
  unfolding expect_punct advance is_text
  items_loop zero closing item s = out_of_fuel
  items_loop (suc f) closing item s = bind (item s) λ (a, s'). elim (is_punct "," s') [
    | true ↦ bind (items_loop f closing item (advance s')) λ (rest, s''). ok (cons a rest, s'')
    | false ↦ bind (expect_punct closing s') λ (_, s''). ok (cons a nil, s'')
  ]

  abbrev pub items : ℕ → String → Parser (Node F) → Parser (Nodes F)
  items f closing item s =
      let some_items = items_loop f closing item s in
      if is_punct closing s then ok (nil, advance s) else some_items

  -- `parsePrimary` behind an identifier.
  abbrev pub identifier : ℕ → Parser (Node F) → Token → Parser (Node F)
  identifier f whole t s =
      if text_eq t.text (bytes "true")
      then ok (bool_lit (at t.pos) true, s)
      else if text_eq t.text (bytes "false")
      then ok (bool_lit (at t.pos) false, s)
      else if is_punct "(" s
      then (bind (items f ")" whole (advance s))
          λ (args, s'). ok (call (at t.pos) t.text args [], s'))
      else ok (Node.ident (at t.pos) t.text, s)

  abbrev pub punctuation : ℕ → Parser (Node F) → Token → Parser (Node F)
  punctuation f whole t =
      if is_text punct "(" t
      then (do inner ← whole; expect_punct ")"; pure inner)
      else if is_text punct "[" t
      then (do elems ← items f "]" whole; pure (list_lit (at t.pos) elems))
      else refuse t.pos (unexpected_token t)

  abbrev pub integer : Token → Option ℤ → Parser (Node F)
  integer t none = refuse t.pos (integer_too_big t.text)
  integer t (some n) = pure (int_lit (at t.pos) n)

  abbrev pub number : Token → Option F → Parser (Node F)
  number t none = refuse t.pos (number_out_of_range t.text)
  number t (some x) = pure (double_lit (at t.pos) x)

  -- The `switch` of `parsePrimary`.
  abbrev pub primary_of : ℕ → Parser (Node F) → Token → TokKind → Parser (Node F)
  primary_of f whole t int = integer t (parse_int64 t.text)
  primary_of f whole t double = number t (parse_float t.text)
  primary_of f whole t string = pure (string_lit (at t.pos) t.text)
  primary_of f whole t ident = identifier f whole t
  primary_of f whole t punct = punctuation f whole t
  primary_of f whole t eof = refuse t.pos (unexpected_token t)

  unfoldable pub primary : ℕ → Parser (Node F) → Parser (Node F)
  unfolding advance is_text expect_punct items_loop text_eq parse_int64
  primary f whole s = primary_of f whole (peek s) (peek s).kind (advance s)

  -- `parseMethod` behind the opening bracket.
  abbrev pub quantifier_call : Parser (Node F) → Node F → Token → Quantifier → Parser (Node F)
  quantifier_call whole receiver name q = do
    variable ← next
    if same_kind variable.kind ident
        then pure tt
        else refuse variable.pos (needs_variable name.text)
    expect_punct ","
    body ← whole
    expect_punct ")"
    pure (quantified (at name.pos) q receiver variable.text body)

  abbrev pub method_of : ℕ → Parser (Node F) → Node F → Token → Option Quantifier → Parser (Node F)
  method_of f whole receiver name (some q) = quantifier_call whole receiver name q
  method_of f whole receiver name none = do
    args ← items f ")" whole
    pure (call (at name.pos) name.text (cons receiver args) [])

  unfoldable pub method : ℕ → Parser (Node F) → Node F → Token → Parser (Node F)
  unfolding advance is_text expect_punct items_loop text_eq
  method f whole receiver name = method_of f whole receiver name (quantifier_of name.text)

  -- `parsePostfix` behind a dot: a method, or a field.
  abbrev pub dotted : ℕ → Parser (Node F) → Node F → Parser (Node F)
  dotted f whole node s =
      let name = peek s in
      let behind = advance s in
      if same_kind name.kind ident
      then (if is_punct "(" behind
          then method f whole node name (advance behind)
          else ok (select (at name.pos) node name.text none, behind))
      else fail name.pos (unexpected_token name)

  abbrev pub subscript : Parser (Node F) → Node F → ℕ → Parser (Node F)
  subscript whole node i = do idx ← whole; expect_punct "]"; pure (index (at i) node idx)

  -- The loop of `parsePostfix`, with fuel for its rounds and fuel for the arguments of a method.
  unfoldable pub postfix_loop : ℕ → ℕ → Parser (Node F) → Node F → Parser (Node F)
  unfolding method
  postfix_loop zero f whole node s = out_of_fuel
  postfix_loop (suc g) f whole node s = elim (is_punct "." s) [
    | true ↦ bind (dotted f whole node (advance s)) λ (node', s'). postfix_loop g f whole node' s'
    | false ↦ elim (is_punct "[" s) [
      | true ↦
          bind (subscript whole node (peek s).pos (advance s))
            λ (node', s'). postfix_loop g f whole node' s'
      | false ↦ ok (node, s)
    ]
  ]

  abbrev pub postfix : ℕ → Parser (Node F) → Parser (Node F)
  postfix f whole = do node ← primary f whole; postfix_loop f f whole node

  -- "-" in front of the size of the least integer, which no positive literal can hold.
  unfoldable pub is_least : Token → State → Bool
  unfolding is_text
  is_least t s = is_text punct "-" t && is_text int "9223372036854775808" (peek s)

  -- `parseUnary` between `enter` and `leave`, given the parser for the operand of an operator.
  unfoldable pub unary_body : ℕ → Parser (Node F) → Parser (Node F) → Parser (Node F)
  unfolding is_least primary postfix_loop
  unary_body f whole operand s =
      let t = peek s in
      elim (is_text punct "!" t || is_text punct "-" t) [
        | true ↦ elim (is_least t (advance s)) [
          | true ↦ ok (int_lit (at t.pos) min_int64, advance (advance s))
          | false ↦ bind (operand (advance s)) λ (x, s').
              ok (unary (at t.pos) (if is_text punct "!" t then negation else UnaryOp.minus) x, s')
        ]
        | false ↦ postfix f whole s
      ]

  unfoldable pub parse_unary : ℕ → ℕ → Parser (Node F) → Parser (Node F)
  unfolding nested unary_body
  parse_unary zero f whole s = out_of_fuel
  parse_unary (suc u) f whole s = nested (unary_body f whole (parse_unary u f whole)) s

  -- A comparison behind a comparison is refused.
  abbrev pub unchained : Node F → Token → Option BinaryOp → Parser (Node F)
  unchained node following none = pure node
  unchained node following (some _) = refuse following.pos chained_comparison

  -- `parseRelation` behind its left operand.
  abbrev pub relation_tail : Parser (Node F) → Node F → Token → Option BinaryOp → Parser (Node F)
  relation_tail operand left t none = pure left
  relation_tail operand left t (some op) = do
    _ ← next
    right ← operand
    following ← look
    unchained (binary (at t.pos) op left right) following (relation_op following)

  abbrev pub multiplication : ℕ → Parser (Node F) → Parser (Node F)
  multiplication f whole = level f mul_op (parse_unary f f whole)

  abbrev pub addition : ℕ → Parser (Node F) → Parser (Node F)
  addition f whole = level f add_op (multiplication f whole)

  abbrev pub relation : ℕ → Parser (Node F) → Parser (Node F)
  relation f whole = do
    left ← addition f whole
    t ← look
    relation_tail (addition f whole) left t (relation_op t)

  abbrev pub conjunctions : ℕ → Parser (Node F) → Parser (Node F)
  conjunctions f whole = level f and_op (relation f whole)

  abbrev pub disjunctions : ℕ → Parser (Node F) → Parser (Node F)
  disjunctions f whole = level f or_op (conjunctions f whole)

  abbrev pub branches : Parser (Node F) → Node F → Parser (Node F)
  branches whole cond s = elim (is_punct "?" s) [
    | false ↦ ok (cond, s)
    | true ↦
        (do a ← whole; expect_punct ":"; b ← whole; pure (ternary (at (peek s).pos) cond a b))
          (advance s)
  ]

  unfoldable pub parse_ternary : ℕ → Parser (Node F)
  unfolding nested binary_loop parse_unary
  parse_ternary zero s = out_of_fuel
  parse_ternary (suc f) s =
      nested (do cond ← disjunctions f (parse_ternary f); branches (parse_ternary f) cond) s

  -- `Parse` behind the lexer.
  unfoldable pub parse_tokens : List Token → Outcome (Node F)
  unfolding parse_ternary
  parse_tokens ts =
      bind (parse_ternary (suc (length ts)) (record { tokens = ts; depth = 0 })) λ (node, s).
        if same_kind (peek s).kind eof
        then ok node
        else fail (peek s).pos (unexpected_token (peek s))

  unfoldable pub parse : Text → Outcome (Node F)
  unfolding lex parse_tokens
  parse src = bind (lex src) parse_tokens
