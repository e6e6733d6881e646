-- ===== src/Onkexpr/Parser/Cursor.antt =====
-- internal/onkexpr/parser.go: the parser's state, `peek`, `next`, `isPunct`, `expectPunct`, `enter`
-- and `leave`. The slice and its position are the list of the tokens that are left.
use onekit.Base.{
  ℕ, ◌+◌, ◌-◌, Bool, ◌&&◌, List, [], ◌∷◌, bytes, text_eq, ltb, drop, if◌then◌else◌, String,
}
use onekit.Onkexpr.Source.{
  Token, TokKind, eof, punct, same_kind, Message, unexpected_end, unexpected, ended_before,
  expected, too_deep, Outcome, ok, fail, bind,
}

pub record State : Type 0 where
  pub tokens : List Token
  pub depth : ℕ

-- `maxDepth`
abbrev pub max_depth : ℕ
max_depth = 48

-- `p.tokens[p.pos]`. The lexer's list ends with the end-of-source token, which is never passed, so
-- the list that is left is not empty.
abbrev pub first : List Token → Token
first [] = record { kind = eof; text = []; pos = 0 }
first (t ∷ _) = t

abbrev pub peek : State → Token
peek s = first s.tokens

-- The state behind the token that `next` returns.
unfoldable pub advance : State → State
advance s = if same_kind (peek s).kind eof then s else record s { tokens = drop 1 s.tokens }

unfoldable pub is_text : TokKind → String → Token → Bool
unfolding text_eq
is_text kind text t = same_kind t.kind kind && text_eq t.text (bytes text)

abbrev pub is_punct : String → State → Bool
is_punct text s = is_text punct text (peek s)

abbrev pub Parser {ℓ} : Type ℓ → Type ℓ
Parser A = State → Outcome (A × State)

abbrev pub unexpected_token : Token → Message
unexpected_token t = if same_kind t.kind eof then unexpected_end else unexpected t

unfoldable pub expect_punct : String → Parser (Unit {0})
unfolding advance is_text
expect_punct text s =
    let t = peek s in
    if is_punct text s
    then ok (tt, advance s)
    else if same_kind t.kind eof
    then fail t.pos (ended_before (bytes text))
    else fail t.pos (expected (bytes text) t)

module _ {ℓ κ} {A : Type ℓ} {B : Type κ} where
  infixl 1 ◌>>=◌
  abbrev pub ◌>>=◌ : Parser A → (A → Parser B) → Parser B
  p >>= f = λ s. bind (p s) λ (a, s'). f a s'

infixl 1 ◌>>◌
abbrev pub ◌>>◌ {ℓ} : {B : Type ℓ} → Parser (Unit {0}) → Parser B → Parser B
p >> q = p >>= λ _. q

abbrev pub pure {ℓ} : {A : Type ℓ} → A → Parser A
pure a s = ok (a, s)

-- `peek` and `next` as parsers.
abbrev pub look : Parser Token
look s = ok (peek s, s)

abbrev pub next : Parser Token
next s = ok (peek s, advance s)

abbrev pub refuse {ℓ} : {A : Type ℓ} → ℕ → Message → Parser A
refuse i m s = fail i m

-- `enter` before, and `defer p.leave()` after. A run that fails ends the parse, and its state with it.
unfoldable pub nested {ℓ} : {A : Type ℓ} → Parser A → Parser A
nested p s =
    let inside =
      bind (p (record s { depth = s.depth + 1 }))
        λ (a, s'). ok (a, record s' { depth = s'.depth - 1 }) in
    if ltb max_depth (s.depth + 1) then fail (peek s).pos too_deep else inside
