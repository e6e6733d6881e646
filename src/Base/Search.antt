-- ===== src/Base/Search.antt =====
-- The depth-first search of internal/onkir/helpers.go that `wsIDField` and `messageHasRaw` share: a graph
-- of messages with cycles, and a set of those seen.
pub mod Ends
pub mod Correct
use onekit.Base.Tests.{◌==◌}
use onekit.Base.Lists.{any}
use Prim.Native.Nat.{ℕ, zero, suc}
use mathlib.Core.Bool.{Bool, true, false, ◌||◌}
use mathlib.Core.List.{List, [], ◌∷◌}

-- What a round of the loop over the fields does: it goes into a message, or returns.
pub data Step {ℓ} (A : Type ℓ) : Type ℓ where
  visit : ℕ → Step A
  hit : A → Step A

-- `absent` has the messages seen by then.
pub data Outcome {ℓ} (A : Type ℓ) : Type ℓ where
  found : A → Outcome A
  absent : List ℕ → Outcome A
  out_of_fuel : Outcome A

-- `seen[message]`
abbrev pub is_in : ℕ → List ℕ → Bool
is_in i seen = any (λ k. k == i) seen

module _ {ℓ} {A : Type ℓ} where
  -- The rest of the loop is run on what a call returned, unless that found something.
  abbrev pub and_then : Outcome A → (List ℕ → Outcome A) → Outcome A
  and_then (found a) rest = found a
  and_then (absent seen) rest = rest seen
  and_then out_of_fuel rest = out_of_fuel

  unfoldable pub walk_steps : (List ℕ → ℕ → Outcome A) → List (Step A) → List ℕ → Outcome A
  walk_steps call [] seen = absent seen
  walk_steps call (hit a ∷ steps) seen = found a
  walk_steps call (visit j ∷ steps) seen = and_then (call seen j) (walk_steps call steps)

  abbrev pub enter : Bool → List ℕ → Outcome A → Outcome A
  enter true seen rest = absent seen
  enter false seen rest = rest

  -- `skips` is `external`; `steps` lists the rounds of the loop over a message's fields.
  unfoldable pub walk : (ℕ → List (Step A)) → (ℕ → Bool) → ℕ → List ℕ → ℕ → Outcome A
  unfolding walk_steps
  walk steps skips zero seen i = out_of_fuel
  walk steps skips (suc fuel) seen i =
      enter (is_in i seen || skips i) seen (walk_steps (walk steps skips fuel) (steps i) (i ∷ seen))
