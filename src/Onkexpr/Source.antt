-- ===== src/Onkexpr/Source.antt =====
-- internal/onkexpr/lexer.go and ast.go: tokens, positions and the errors of the front end.
use onekit.Base.{ℕ, ◌≡◌, ◌≢◌, refl, subst, Bool, true, false, Text, if◌then◌else◌}

-- `tokKind`
pub data TokKind : Type 0 where
  eof ident int double string punct : TokKind

abbrev pub same_kind : TokKind → TokKind → Bool
same_kind eof eof = true
same_kind ident ident = true
same_kind int int = true
same_kind double double = true
same_kind string string = true
same_kind punct punct = true
same_kind _ _ = false

pub record Token : Type 0 where
  pub kind : TokKind
  pub text : Text
  pub pos : ℕ

-- The messages of lexer.go and parser.go, with what they quote.
pub data Message : Type 0 where
  too_long unterminated_string needs_hex invalid_escape : Message
  unexpected_character : ℕ → Message
  unknown_escape : ℕ → Message
  unexpected_end too_deep chained_comparison : Message
  unexpected : Token → Message
  ended_before : Text → Message
  expected : Text → Token → Message
  needs_variable : Text → Message
  integer_too_big number_out_of_range : Text → Message

-- `Error`
pub record SyntaxError : Type 0 where
  pub offset : ℕ
  pub message : Message

-- What the front end returns. `out_of_fuel` has no counterpart in the program.
pub data Outcome {ℓ} (A : Type ℓ) : Type ℓ where
  ok : A → Outcome A
  failed : SyntaxError → Outcome A
  out_of_fuel : Outcome A

abbrev pub fail {ℓ} : {A : Type ℓ} → ℕ → Message → Outcome A
fail i m = failed (record { offset = i; message = m })

abbrev pub bind {ℓ κ} : {A : Type ℓ} {B : Type κ} → Outcome A → (A → Outcome B) → Outcome B
bind (ok a) f = f a
bind (failed e) f = failed e
bind out_of_fuel f = out_of_fuel

-- The run kept within its fuel, and `P` holds of its value if it has one.
pub data Ensures {ℓ κ} {A : Type ℓ} (P : A → Type κ) : Outcome A → Type (ℓ ⊔ κ) where
  holds : {a : A} → P a → Ensures P (ok a)
  refused : {e : SyntaxError} → Ensures P (failed e)

module _ {ℓ κ} {A : Type ℓ} {P : A → Type κ} where
  pub Ensures-ok : {r : Outcome A} {a : A} → Ensures P r → r ≡ ok a → P a
  Ensures-ok (holds h) e = subst P (cc) h
  Ensures-ok refused e = cc

  pub Ensures-ne : {r : Outcome A} → Ensures P r → r ≢ out_of_fuel
  Ensures-ne (holds h) = cc
  Ensures-ne refused = cc

  pub weaken {κ'} :
      {Q : A → Type κ'} {r : Outcome A} → ((a : A) → P a → Q a) → Ensures P r → Ensures Q r
  weaken g (holds {a} h) = holds (g a h)
  weaken g refused = refused

  pub Ensures-if :
      (b : Bool) {x y : Outcome A}
      → (b ≡ true → Ensures P x)
      → (b ≡ false → Ensures P y)
      → Ensures P (if b then x else y)
  Ensures-if true hx hy = hx refl
  Ensures-if false hx hy = hy refl

  pub Ensures-bind {ℓ' κ'} :
      {B : Type ℓ'} {Q : B → Type κ'} {r : Outcome A} {f : A → Outcome B}
      → Ensures P r
      → ((a : A) → P a → Ensures Q (f a))
      → Ensures Q (bind r f)
  Ensures-bind (holds {a} h) k = k a h
  Ensures-bind refused k = refused
