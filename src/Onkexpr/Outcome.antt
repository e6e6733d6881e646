-- ===== src/Onkexpr/Outcome.antt =====
-- internal/onkexpr: the outcomes of an evaluation, `EvalError` with its message as data.
use onekit.Base.{ℕ, Text}
use onekit.Base.Int.{ℤ}

-- The messages of `evalErr`, in the order of the file. The last four stand for Go's run-time
-- panics, which no message announces.
pub data EvalError : Type 0 where
  unsupported_expression : EvalError
  index_out_of_range : ℤ → ℕ → EvalError
  no_such_key : Text → EvalError
  cannot_index cannot_negate : EvalError
  integer_overflow division_by_zero not_finite : EvalError
  has_needs_field : EvalError
  unknown_function : Text → EvalError
  does_not_fit cannot_convert : EvalError
  nil_dereference index_panic uncomparable bad_pattern : EvalError

pub data Result {ℓ} (A : Type ℓ) : Type ℓ where
  ok : A → Result A
  err : EvalError → Result A

infixl 5 ◌>>=◌
abbrev pub ◌>>=◌ {ℓ κ} : {A : Type ℓ} {B : Type κ} → Result A → (A → Result B) → Result B
ok a >>= f = f a
err e >>= f = err e
