-- ===== src/Onkexpr/Exec.antt =====
-- internal/onkexpr/eval.go: actions of the evaluator. The scope is a Go map that the evaluator
-- writes to, so an action returns the scope that it leaves, also beside an error.
use onekit.Base.{Bool, true, false, Option, Text, text_eq, if◌then◌else◌}
use onekit.Onkexpr.Outcome.{Result, ok, err}
use onekit.Onkexpr.Value.{Value}

-- `Scope`; a missing name is `none`.
abbrev pub Scope : Type 0 → Type 0
Scope F = Text → Option (Value F)

abbrev pub Exec : Type 0 → Type 0 → Type 0
Exec F A = Scope F → Result A × Scope F

-- `scope[x] = v`, and `delete(scope, x)` at `none`.
unfoldable pub assign : {F : Type 0} → Text → Option (Value F) → Scope F → Scope F
assign x v s y = if text_eq y x then v else s y

module _ {F A : Type 0} where
  unfoldable pub pure : A → Exec F A
  pure a s = (ok a, s)

  unfoldable pub lift : Result A → Exec F A
  lift r s = (r, s)

  unfoldable pub choose : Bool → Exec F A → Exec F A → Exec F A
  choose true m n = m
  choose false m n = n

module _ {F A B : Type 0} where
  abbrev pub continue : Result A → (A → Exec F B) → Exec F B
  continue (ok a) f s = f a s
  continue (err e) f s = (err e, s)

  infixl 10 ◌>>=◌
  unfoldable pub ◌>>=◌ : Exec F A → (A → Exec F B) → Exec F B
  unfolding pure lift choose
  ◌>>=◌ m f s = let (r, s') = m s in continue r f s'
