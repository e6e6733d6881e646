-- ===== src/Onkcompile/Checked.antt =====
-- What a check of the compiler does: an `error` that may be nil, or Go's panic on an index out of range.
use onekit.Base.{
  ℕ, ◌≡◌, refl, Bool, true, false, Option, none, some, List, [], ◌∷◌, Text, get_elem?, All,
  if◌then◌else◌, arith,
}
use onekit.Onkir.Schema.{Arg}
use onekit.Onkcompile.Errors.{CompileError}

pub data Checked : Type 0 where
  passed panics : Checked
  refused : CompileError → Checked

-- `if b { return &Error{…} }`
abbrev pub when : Bool → CompileError → Checked
when true e = refused e
when false e = passed

-- `if err := …; err != nil { return err }`, and what comes next.
abbrev pub and_next : Checked → Checked → Checked
and_next passed c = c
and_next panics c = panics
and_next (refused e) c = refused e

unfoldable pub pass_all : List Checked → Checked
pass_all [] = passed
pass_all (c ∷ cs) = and_next c (pass_all cs)

unfoldable pub pass_each {ℓ} : {A : Type ℓ} → (A → Checked) → List A → Checked
pass_each f [] = passed
pass_each f (x ∷ xs) = and_next (f x) (pass_each f xs)

-- A `switch`: the first case whose condition holds.
unfoldable pub switch : List (Bool × Checked) → Checked
switch [] = passed
switch ((b, c) ∷ cases) = let rest = switch cases in if b then c else rest

abbrev use_value : Option Arg → (Text → Checked) → Checked
use_value none f = panics
use_value (some a) f = f a.value

-- `decorator.Args[index].Value`
abbrev pub with_value : ℕ → List Arg → (Text → Checked) → Checked
with_value index args f = use_value (get_elem? args index) f

-- How a check ends if it does not pass: in a panic only where `Q` holds, and with an error of which `P` does.
abbrev pub Ends : Type 0 → (CompileError → Type 0) → Checked → Type 0
Ends Q P passed = Unit
Ends Q P panics = Q
Ends Q P (refused e) = P e

-- The check returns.
abbrev pub Returns : Checked → Type 0
Returns = Ends (false ≡ true) (λ _. Unit)

-- An error of the check has the property.
abbrev pub Refuses : (CompileError → Type 0) → Checked → Type 0
Refuses P = Ends Unit P

module _ (Q : Type 0) (P : CompileError → Type 0) where
  pub when-Ends : (b : Bool) (e : CompileError) → P e → Ends Q P (when b e)
  when-Ends true e h = h
  when-Ends false e h = tt

  pub and_next-Ends :
      (a b : Checked) → Ends Q P a → (a ≡ passed → Ends Q P b) → Ends Q P (and_next a b)
  and_next-Ends passed b h k = k refl
  and_next-Ends panics b h k = h
  and_next-Ends (refused e) b h k = h

  pub pass_all-Ends : (cs : List Checked) → All (Ends Q P) cs → Ends Q P (pass_all cs)
  unfolding pass_all
  pass_all-Ends [] h = tt
  pass_all-Ends (c ∷ cs) h = and_next-Ends c (pass_all cs) h.0 (λ e. pass_all-Ends cs h.1)

  -- Each check ends so where those before it pass.
  abbrev pub Chained : List Checked → Type 0
  Chained [] = Unit
  Chained (c ∷ cs) = Ends Q P c × (c ≡ passed → Chained cs)

  pub pass_all-Chained : (cs : List Checked) → Chained cs → Ends Q P (pass_all cs)
  unfolding pass_all
  pass_all-Chained [] h = tt
  pass_all-Chained (c ∷ cs) h = and_next-Ends c (pass_all cs) h.0 (λ e. pass_all-Chained cs (h.1 e))

  pub pass_each-Ends {ℓ} :
      {A : Type ℓ} (f : A → Checked)
      → ((x : A) → Ends Q P (f x))
      → (xs : List A) → Ends Q P (pass_each f xs)
  unfolding pass_each
  pass_each-Ends f h [] = tt
  pass_each-Ends f h (x ∷ xs) =
      and_next-Ends (f x) (pass_each f xs) (h x) (λ e. pass_each-Ends f h xs)

pub when-Returns : (b : Bool) (e : CompileError) → Returns (when b e)
when-Returns b e = when-Ends (false ≡ true) (λ _. Unit) b e tt

pub switch-Returns :
    (cases : List (Bool × Checked)) → All (λ c. Returns c.1) cases → Returns (switch cases)
unfolding switch
switch-Returns [] h = tt
switch-Returns ((true, c) ∷ cases) h = h.0
switch-Returns ((false, c) ∷ cases) h = switch-Returns cases h.1

pub and_next-Returns :
    (a b : Checked) → Returns a → (a ≡ passed → Returns b) → Returns (and_next a b)
and_next-Returns = and_next-Ends (false ≡ true) (λ _. Unit)

abbrev pub ChainReturns : List Checked → Type 0
ChainReturns = Chained (false ≡ true) (λ _. Unit)

pub pass_all-Returns : (cs : List Checked) → ChainReturns cs → Returns (pass_all cs)
pass_all-Returns = pass_all-Chained (false ≡ true) (λ _. Unit)

pub pass_each-Returns {ℓ} :
    {A : Type ℓ} (f : A → Checked)
    → ((x : A) → Returns (f x))
    → (xs : List A) → Returns (pass_each f xs)
pass_each-Returns f h xs = pass_each-Ends (false ≡ true) (λ _. Unit) f h xs

pub and_next-passed : (a b : Checked) → and_next a b ≡ passed → (a ≡ passed) × (b ≡ passed)
and_next-passed passed b h = (refl, h)
and_next-passed panics b h = ground (arith, h)
and_next-passed (refused e) b h = ground (arith, h)

pub pass_all-passed : (cs : List Checked) → pass_all cs ≡ passed → All (λ c. c ≡ passed) cs
unfolding pass_all
pass_all-passed [] h = tt
pass_all-passed (c ∷ cs) h =
    let both = and_next-passed c (pass_all cs) h in (both.0, pass_all-passed cs both.1)

pub pass_each-passed {ℓ} :
    {A : Type ℓ} (f : A → Checked) (xs : List A)
    → pass_each f xs ≡ passed
    → All (λ x. f x ≡ passed) xs
unfolding pass_each
pass_each-passed f [] h = tt
pass_each-passed f (x ∷ xs) h =
    let both = and_next-passed (f x) (pass_each f xs) h in (both.0, pass_each-passed f xs both.1)

pub when_passed : (b : Bool) (e : CompileError) → when b e ≡ passed → b ≡ false
when_passed true e h = ground (arith, h)
when_passed false e h = refl
