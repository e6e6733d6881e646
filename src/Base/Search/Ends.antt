-- ===== src/Base/Search/Ends.antt =====
-- The search of internal/onkir/helpers.go ends: each message is entered once.
use Prim.Native.Nat.{ℕ, zero, suc, ◌+◌, ◌≤◌, ◌<◌}
use mathlib.Core.Path.{◌≡◌, refl}
use mathlib.Core.Bool.{Bool, true, false, ◌||◌}
use mathlib.Core.Logic.{inl, inr}
use mathlib.Core.List.{List, [], ◌∷◌}
use native.Mathlib.Omega.{arith}
use onekit.Base.Tests.{◌==◌, if◌then◌else◌, Bool-cases}
use onekit.Base.Lists.{All}
use onekit.Base.Search.{
  Step, visit, hit, Outcome, found, absent, out_of_fuel, is_in, and_then, enter, walk_steps, walk,
}

pub or_false : (b c : Bool) → (b || c) ≡ false → (b ≡ false) × (c ≡ false)
or_false b c h = ground arith

-- How many of the first `n` addresses are not seen yet.
abbrev pub unseen : ℕ → List ℕ → ℕ
unseen zero seen = 0
unseen (suc n) seen = (if is_in n seen then 0 else 1) + unseen n seen

pub unseen-le : (n : ℕ) (seen : List ℕ) → unseen n seen ≤ n
unseen-le zero seen = omega arith
unseen-le (suc n) seen = ground (arith, unseen-le n seen)

unseen-cons-le : (n i : ℕ) (seen : List ℕ) → unseen n (i ∷ seen) ≤ unseen n seen
unseen-cons-le zero i seen = omega arith
unseen-cons-le (suc n) i seen = ground (arith, unseen-cons-le n i seen)

-- The address that is added counts no more, and nothing else counts more.
unseen-cons-lt :
    (n i : ℕ) (seen : List ℕ) → i < n → is_in i seen ≡ false → unseen n (i ∷ seen) < unseen n seen
unseen-cons-lt zero i seen h k = absurd (omega arith)
unseen-cons-lt (suc n) i seen h k = elim (Bool-cases (i == n)) [
  | inl e ↦ ground (arith, k, e, unseen-cons-le n i seen)
  | inr d ↦ ground (arith, d, unseen-cons-lt n i seen (ground (arith, d)) k)
]

pub data Among {ℓ} {A : Type ℓ} (x : A) : List A → Type ℓ where
  first : {xs : List A} → Among x (x ∷ xs)
  later : {y : A} {xs : List A} → Among x xs → Among x (y ∷ xs)

pub All-Among {ℓ κ} :
    {A : Type ℓ} (P : A → Type κ) {x : A} {xs : List A} → All P xs → Among x xs → P x
All-Among P h first = h.0
All-Among P h (later m) = All-Among P h.1 m

-- A step that goes into a message goes to one of the first `n`.
abbrev pub Within {ℓ} : {A : Type ℓ} → ℕ → Step A → Type 0
Within n (visit j) = j < n
Within n (hit a) = Unit

module _ {A : Type 0} (steps : ℕ → List (Step A)) (skips : ℕ → Bool) where
  -- The addresses below `n` are closed under the steps.
  abbrev pub Closed : ℕ → Type 0
  Closed n = (i : ℕ) → i < n → All (Within n) (steps i)

  -- The search has ended, with no fewer seen than before.
  abbrev pub Ended : ℕ → List ℕ → Outcome A → Type 0
  Ended n seen (found a) = Unit
  Ended n seen (absent seen') = unseen n seen' ≤ unseen n seen
  Ended n seen out_of_fuel = ⊥

  Ended-le :
      (n : ℕ) (seen seen' : List ℕ) (o : Outcome A)
      → unseen n seen' ≤ unseen n seen
      → Ended n seen' o
      → Ended n seen o
  Ended-le n seen seen' (found a) h e = tt
  Ended-le n seen seen' (absent s) h e = omega arith
  Ended-le n seen seen' out_of_fuel h e = e

  module _ (n : ℕ) (closed : Closed n) where
    and_then-Ended :
        (fuel : ℕ) (seen : List ℕ) (o : Outcome A) (rest : List ℕ → Outcome A)
        → Ended n seen o
        → unseen n seen < fuel
        → ((s : List ℕ) → unseen n s < fuel → Ended n s (rest s))
        → Ended n seen (and_then o rest)
    and_then-Ended fuel seen (found a) rest h k r = tt
    and_then-Ended fuel seen (absent s) rest h k r =
        Ended-le n seen s (rest s) h (r s (omega arith))
    and_then-Ended fuel seen out_of_fuel rest h k r = h

    walk_steps-Ended :
        (call : List ℕ → ℕ → Outcome A) (fuel : ℕ)
        → ((s : List ℕ) (j : ℕ) → j < n → unseen n s < fuel → Ended n s (call s j))
        → (ss : List (Step A)) → All (Within n) ss
        → (seen : List ℕ) → unseen n seen < fuel
        → Ended n seen (walk_steps call ss seen)
    unfolding walk_steps
    walk_steps-Ended call fuel rec [] w seen h = omega arith
    walk_steps-Ended call fuel rec (hit a ∷ ss) w seen h = tt
    walk_steps-Ended call fuel rec (visit j ∷ ss) w seen h =
        and_then-Ended fuel seen (call seen j) (walk_steps call ss) (rec seen j w.0 h) h
          λ s k. walk_steps-Ended call fuel rec ss w.1 s k

    enter-Ended :
        (b : Bool) (seen : List ℕ) (o : Outcome A)
        → (b ≡ false → Ended n seen o)
        → Ended n seen (enter b seen o)
    enter-Ended true seen o h = omega arith
    enter-Ended false seen o h = h refl

    pub walk-Ended :
        (fuel : ℕ) (seen : List ℕ) (i : ℕ)
        → i < n
        → unseen n seen < fuel
        → Ended n seen (walk steps skips fuel seen i)
    unfolding walk
    walk-Ended zero seen i h k = absurd (omega arith)
    walk-Ended (suc fuel) seen i h k = enter-Ended _ seen _ λ e.
        let less : unseen n (i ∷ seen) < unseen n seen =
          unseen-cons-lt n i seen h (or_false (is_in i seen) (skips i) e).0 in
        Ended-le n seen (i ∷ seen) _ (omega arith) (
          walk_steps-Ended (walk steps skips fuel) fuel (λ s j g q. walk-Ended fuel s j g q)
            (steps i) (closed i h) (i ∷ seen) (omega arith))
