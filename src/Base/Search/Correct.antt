-- ===== src/Base/Search/Correct.antt =====
-- The search of internal/onkir/helpers.go finds what can be reached.
use Prim.Native.Nat.{ℕ, zero, suc, ◌<◌}
use mathlib.Core.Path.{◌≡◌, refl, subst}
use mathlib.Core.Bool.{Bool, true, false, ◌||◌}
use mathlib.Core.Logic.{◌⊎◌, inl, inr}
use mathlib.Core.List.{List, [], ◌∷◌}
use native.Mathlib.Omega.{arith}
use onekit.Base.Tests.{◌==◌, Bool-cases, ==_iff}
use onekit.Base.Lists.{All}
use onekit.Base.Search.{
  Step, visit, hit, Outcome, found, absent, out_of_fuel, is_in, and_then, enter, walk_steps, walk,
}
use onekit.Base.Search.Ends.{
  or_false, unseen-le, Among, first, later, All-Among, Closed, Ended, walk-Ended,
}

module _ {A : Type 0} (steps : ℕ → List (Step A)) (skips : ℕ → Bool) where
  -- Behind messages that are not skipped stands a hit.
  pub data Reaches : ℕ → A → Type 0 where
    here : {i : ℕ} {a : A} → skips i ≡ false → Among (hit a) (steps i) → Reaches i a
    there :
        {i j : ℕ} {a : A} → skips i ≡ false → Among (visit j) (steps i) → Reaches j a → Reaches i a

  -- What the search finds can be reached.
  abbrev Sound : ℕ → Outcome A → Type 0
  Sound i (found a) = Reaches i a
  Sound i _ = Unit

  and_then-Sound :
      (i : ℕ) (o : Outcome A) (rest : List ℕ → Outcome A)
      → Sound i o
      → ((s : List ℕ) → Sound i (rest s))
      → Sound i (and_then o rest)
  and_then-Sound i (found a) rest h k = h
  and_then-Sound i (absent s) rest h k = k s
  and_then-Sound i out_of_fuel rest h k = tt

  Sound-there :
      {i j : ℕ} (o : Outcome A)
      → skips i ≡ false
      → Among (visit j) (steps i)
      → Sound j o
      → Sound i o
  Sound-there (found a) h m k = there h m k
  Sound-there (absent s) h m k = tt
  Sound-there out_of_fuel h m k = tt

  walk_steps-Sound :
      (call : List ℕ → ℕ → Outcome A)
      → ((s : List ℕ) (j : ℕ) → Sound j (call s j))
      → (i : ℕ) → skips i ≡ false
      → (ss : List (Step A)) → ((x : Step A) → Among x ss → Among x (steps i))
      → (seen : List ℕ) → Sound i (walk_steps call ss seen)
  unfolding walk_steps
  walk_steps-Sound call rec i h [] sub seen = tt
  walk_steps-Sound call rec i h (hit a ∷ ss) sub seen = here h (sub (hit a) first)
  walk_steps-Sound call rec i h (visit j ∷ ss) sub seen =
      and_then-Sound i (call seen j) (walk_steps call ss)
        (Sound-there (call seen j) h (sub (visit j) first) (rec seen j))
        λ s. walk_steps-Sound call rec i h ss (λ x m. sub x (later m)) s

  enter-Sound :
      (b : Bool) (i : ℕ) (seen : List ℕ) (o : Outcome A)
      → (b ≡ false → Sound i o)
      → Sound i (enter b seen o)
  enter-Sound true i seen o h = tt
  enter-Sound false i seen o h = h refl

  walk-Sound : (fuel : ℕ) (seen : List ℕ) (i : ℕ) → Sound i (walk steps skips fuel seen i)
  unfolding walk
  walk-Sound zero seen i = tt
  walk-Sound (suc fuel) seen i = enter-Sound _ i seen _ λ e.
      walk_steps-Sound (walk steps skips fuel) (λ s j. walk-Sound fuel s j) i
        (or_false (is_in i seen) (skips i) e).1 (steps i) (λ x m. m) (i ∷ seen)

  -- Seen, or never gone into.
  abbrev Covered : List ℕ → ℕ → Type 0
  Covered s j = (is_in j s || skips j) ≡ true

  abbrev Passed : List ℕ → Step A → Type 0
  Passed s (visit j) = Covered s j
  Passed s (hit a) = ⊥

  -- Every step of the message goes to one that is covered.
  abbrev Done : List ℕ → ℕ → Type 0
  Done s k = All (Passed s) (steps k)

  -- What was seen stays so.
  abbrev Grows : List ℕ → List ℕ → Type 0
  Grows s s' = (k : ℕ) → is_in k s ≡ true → is_in k s' ≡ true

  Covered-Grows : (s s' : List ℕ) (j : ℕ) → Grows s s' → Covered s j → Covered s' j
  Covered-Grows s s' j g h = ground (arith, g j, h)

  Passed-Grows :
      (s s' : List ℕ) (ss : List (Step A)) → Grows s s' → All (Passed s) ss → All (Passed s') ss
  Passed-Grows s s' [] g h = tt
  Passed-Grows s s' (hit a ∷ ss) g h = absurd h.0
  Passed-Grows s s' (visit j ∷ ss) g h = (Covered-Grows s s' j g h.0, Passed-Grows s s' ss g h.1)

  -- Where the search finds nothing, each message seen since then is done, and `Goal` holds.
  abbrev Explored : List ℕ → (List ℕ → Type 0) → Outcome A → Type 0
  Explored seen Goal (absent s) =
      Grows seen s × (((k : ℕ) → is_in k s ≡ true → (is_in k seen ≡ true) ⊎ Done s k) × Goal s)
  Explored seen Goal _ = Unit

  weaken :
      (seen s s' : List ℕ) (k : ℕ)
      → Grows s s'
      → (is_in k seen ≡ true) ⊎ Done s k
      → (is_in k seen ≡ true) ⊎ Done s' k
  weaken seen s s' k g (inl q) = inl q
  weaken seen s s' k g (inr e) = inr (Passed-Grows s s' (steps k) g e)

  -- The rest of the loop, run on what a call has left.
  rest-Explored :
      (seen s : List ℕ) (j : ℕ) (ss : List (Step A)) (o : Outcome A)
      → Explored seen (λ s'. Covered s' j) (absent s)
      → Explored s (λ s'. All (Passed s') ss) o
      → Explored seen (λ s'. All (Passed s') (visit j ∷ ss)) o
  rest-Explored seen s j ss (found a) h e = tt
  rest-Explored seen s j ss out_of_fuel h e = tt
  rest-Explored seen s j ss (absent s') (g, (d, c)) (g', (d', p)) =
      (λ k q. g' k (g k q), (λ k q. either k (d' k q), (Covered-Grows s s' j g' c, p)))
    where
      either : (k : ℕ) → (is_in k s ≡ true) ⊎ Done s' k → (is_in k seen ≡ true) ⊎ Done s' k
      either k (inl q) = weaken seen s s' k g' (d k q)
      either k (inr e) = inr e

  and_then-Explored :
      (seen : List ℕ) (j : ℕ) (ss : List (Step A)) (o : Outcome A) (rest : List ℕ → Outcome A)
      → Explored seen (λ s. Covered s j) o
      → ((s : List ℕ) → Explored s (λ s'. All (Passed s') ss) (rest s))
      → Explored seen (λ s. All (Passed s) (visit j ∷ ss)) (and_then o rest)
  and_then-Explored seen j ss (found a) rest h k = tt
  and_then-Explored seen j ss out_of_fuel rest h k = tt
  and_then-Explored seen j ss (absent s) rest h k = rest-Explored seen s j ss (rest s) h (k s)

  walk_steps-Explored :
      (call : List ℕ → ℕ → Outcome A)
      → ((s : List ℕ) (j : ℕ) → Explored s (λ s'. Covered s' j) (call s j))
      → (ss : List (Step A)) (seen : List ℕ)
      → Explored seen (λ s. All (Passed s) ss) (walk_steps call ss seen)
  unfolding walk_steps
  walk_steps-Explored call rec [] seen = (λ k q. q, (λ k q. inl q, tt))
  walk_steps-Explored call rec (hit a ∷ ss) seen = tt
  walk_steps-Explored call rec (visit j ∷ ss) seen =
      and_then-Explored seen j ss (call seen j) (walk_steps call ss) (rec seen j)
        λ s. walk_steps-Explored call rec ss s

  -- The message that was entered is done itself.
  entered :
      (i : ℕ) (seen : List ℕ) (o : Outcome A)
      → Explored (i ∷ seen) (λ s. Done s i) o
      → Explored seen (λ s. Covered s i) o
  entered i seen (found a) h = tt
  entered i seen out_of_fuel h = tt
  entered i seen (absent s) (g, (d, p)) = (
    λ k q. g k (ground (arith, q)),
    (λ k q. either k (d k q), ground (arith, g i (ground arith))),
  )
    where
      either : (k : ℕ) → (is_in k (i ∷ seen) ≡ true) ⊎ Done s k → (is_in k seen ≡ true) ⊎ Done s k
      either k (inr e) = inr e
      either k (inl q) = elim (Bool-cases (i == k)) [
        | inl e ↦ inr (subst (Done s) ((==_iff i k).0 e) p)
        | inr d ↦ inl (ground (arith, q, d))
      ]

  enter-Explored :
      (b : Bool) (i : ℕ) (seen : List ℕ) (o : Outcome A)
      → (b ≡ true → Covered seen i)
      → Explored (i ∷ seen) (λ s. Done s i) o
      → Explored seen (λ s. Covered s i) (enter b seen o)
  enter-Explored true i seen o h k = (λ k q. q, (λ k q. inl q, h refl))
  enter-Explored false i seen o h k = entered i seen o k

  walk-Explored :
      (fuel : ℕ) (seen : List ℕ) (i : ℕ)
      → Explored seen (λ s. Covered s i) (walk steps skips fuel seen i)
  unfolding walk
  walk-Explored zero seen i = tt
  walk-Explored (suc fuel) seen i =
      enter-Explored _ i seen _ (λ e. e)
        (walk_steps-Explored (walk steps skips fuel) (λ s j. walk-Explored fuel s j) (steps i)
          (i ∷ seen))

  -- A set that is done, as what the search of the empty set leaves, holds no way to a hit.
  no_way :
      (s : List ℕ) (i : ℕ) (a : A)
      → ((k : ℕ) → is_in k s ≡ true → Done s k)
      → Covered s i
      → ¬ Reaches i a
  no_way s i a d c (here h m) = All-Among (Passed s) (d i (ground (arith, c, h))) m
  no_way s i a d c (there {j} h m r) =
      no_way s j a d (All-Among (Passed s) (d i (ground (arith, c, h))) m) r

  -- The search of all of the first `n` messages finds what can be reached, and nothing only where
  -- nothing can.
  abbrev pub Verdict : ℕ → Outcome A → Type 0
  Verdict i (found a) = Reaches i a
  Verdict i (absent s) = (a : A) → ¬ Reaches i a
  Verdict i out_of_fuel = ⊥

  verdict :
      (n i : ℕ) (o : Outcome A)
      → Ended steps skips n [] o
      → Sound i o
      → Explored [] (λ s. Covered s i) o
      → Verdict i o
  verdict n i (found a) h k e = k
  verdict n i (absent s) h k (g, (d, c)) = λ a. no_way s i a (λ k q. done k (d k q)) c
    where
      done : (k : ℕ) → (false ≡ true) ⊎ Done s k → Done s k
      done k (inl q) = ground (arith, q)
      done k (inr e) = e
  verdict n i out_of_fuel h k e = h

  pub walk-Verdict :
      (n : ℕ) → Closed steps skips n → (i : ℕ) → i < n → Verdict i (walk steps skips (suc n) [] i)
  walk-Verdict n closed i h =
      verdict n i _ (walk-Ended steps skips n closed (suc n) [] i h (omega (arith, unseen-le n [])))
        (walk-Sound (suc n) [] i) (walk-Explored (suc n) [] i)
