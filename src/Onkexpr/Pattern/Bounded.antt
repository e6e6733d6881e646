-- ===== src/Onkexpr/Pattern/Bounded.antt =====
-- internal/onkexpr/regex.go: the fuel of the validation, by the runes that each step leaves.
use onekit.Base.{
  ℕ, zero, suc, ◌+◌, ◌-◌, ◌*◌, ◌≤◌, ◌<◌, ◌≡◌, ◌≢◌, refl, Bool, true, false, not, ◌&&◌, ◌||◌, Option,
  none, some, List, [], ◌∷◌, length, between, ltb, ◌==◌, if◌then◌else◌, arith, inl, inr, Bool-cases,
}
use onekit.Onkexpr.Pattern.{
  PatternError, Parsed, ok, failed, out_of_fuel, Cursor, from, rest_of, Reader, bind, behind, Info,
  plain, join, escape, class_char, class_end, class_range, class_loop, class_start, class, closed,
  group_start, atom, number_loop, bounds_end, upper_bound, bounds_tail, bounds_from, Quant, absent,
  optional, repeat, quantified, quantifier, repeated, concat_end, concat_loop, next_branch,
  branch_loop, alternation, at_end, validate_runes,
}

-- The reader stays within its fuel, and leaves at most so many runes.
data Left {A : Type 0} (n : ℕ) : Parsed (A × Cursor) → Type 0 where
  left : {a : A} {s : Cursor} → length (rest_of s) ≤ n → Left n (ok (a, s))
  stopped : {e : PatternError} → Left n (failed e)

-- The same of a step with no value.
data At (n : ℕ) : Parsed Cursor → Type 0 where
  at : {s : Cursor} → length (rest_of s) ≤ n → At n (ok s)
  halted : {e : PatternError} → At n (failed e)

module _ {A : Type 0} {n : ℕ} where
  Left-if :
      (b : Bool) {x y : Parsed (A × Cursor)}
      → (b ≡ true → Left n x)
      → (b ≡ false → Left n y)
      → Left n (if b then x else y)
  Left-if true hx hy = hx refl
  Left-if false hx hy = hy refl

  at-Left :
      {m : ℕ} {r : Parsed Cursor} {f : Cursor → Parsed (A × Cursor)}
      → At m r
      → ((s : Cursor) → length (rest_of s) ≤ m → Left n (f s))
      → Left n (bind r f)
  at-Left (at {s} h) k = k s h
  at-Left halted k = stopped

  Left-bind :
      {B : Type 0} {m : ℕ} {r : Parsed (B × Cursor)} (f : B × Cursor → Parsed (A × Cursor))
      → Left m r
      → ((b : B) (s : Cursor) → length (rest_of s) ≤ m → Left n (f (b, s)))
      → Left n (bind r f)
  Left-bind f (left {a} {s} h) k = k a s h
  Left-bind f stopped k = stopped

module _ {n : ℕ} where
  At-if :
      (b : Bool) {x y : Parsed Cursor}
      → (b ≡ true → At n x)
      → (b ≡ false → At n y)
      → At n (if b then x else y)
  At-if true hx hy = hx refl
  At-if false hx hy = hy refl

  At-bind :
      {m : ℕ} {r : Parsed Cursor} {f : Cursor → Parsed Cursor}
      → At m r
      → ((s : Cursor) → length (rest_of s) ≤ m → At n (f s))
      → At n (bind r f)
  At-bind (at {s} h) k = k s h
  At-bind halted k = halted

  raise : {m : ℕ} {r : Parsed Cursor} → m ≤ n → At m r → At n r
  raise le (at h) = at (omega arith)
  raise le halted = halted

  left-At :
      {B : Type 0} {m : ℕ} {r : Parsed (B × Cursor)} (f : B × Cursor → Parsed Cursor)
      → Left m r
      → ((b : B) (s : Cursor) → length (rest_of s) ≤ m → At n (f (b, s)))
      → At n (bind r f)
  left-At f (left {a} {s} h) k = k a s h
  left-At f stopped k = halted

le_refl : (n : ℕ) → n ≤ n
le_refl n = omega arith

le_step : (n : ℕ) → n ≤ suc n
le_step n = omega arith

ruleset steps = (Left-if, left, stopped, At-if, at, halted, le_refl, le_step)

escape-Left :
    (in_class : Bool) (b : Option ℕ) (rest : List ℕ)
    → Left (length rest) (escape in_class (from b rest))
unfolding escape
escape-Left in_class b [] = stopped
escape-Left in_class b (c ∷ rest) = search steps depth 14

class_char-Left : (b : Option ℕ) (c : ℕ) (rest : List ℕ) → Left (length rest) (class_char b c rest)
unfolding class_char
class_char-Left b c rest = search (steps, escape-Left) depth 14

number_loop-le :
    (value : ℕ) (found : Bool) (b : Option ℕ) (rest : List ℕ)
    → length (rest_of (number_loop value found b rest).1) ≤ length rest
unfolding number_loop
number_loop-le value found b [] = omega arith
number_loop-le value found b (c ∷ rest) = elim (Bool-cases (between b'0' b'9' c)) [
  | inl e ↦ rw e (
      omega (
        arith,
        number_loop-le
            (if ltb 10000 (value * 10 + (c - b'0')) then 10000 else value * 10 + (c - b'0')) true
            (some c) rest,
      ))
  | inr e ↦ rw e (omega arith)
]

bounds_end-At : (low high : ℕ) (s : Cursor) → At (length (rest_of s)) (bounds_end low high s)
unfolding bounds_end
bounds_end-At low high (from b []) = halted
bounds_end-At low high (from b (c ∷ rest)) = search steps

quantified-Left : (q : Quant) (s : Cursor) → Left (length (rest_of s)) (quantified q s)
unfolding quantified
quantified-Left q (from b []) = search steps
quantified-Left q (from b (c ∷ rest)) = search steps

class_end-At :
    (low : ℕ) (n : ℕ) (high : ℕ) (s : Cursor)
    → length (rest_of s) ≤ n
    → At n (class_end low (high, s))
class_end-At low n high s h = search (steps, h) depth 6

class_range-At : (low : ℕ) (s : Cursor) → At (length (rest_of s)) (class_range low s)
unfolding class_range
class_range-At low (from b []) = at (omega arith)
class_range-At low (from b (d ∷ [])) = at (omega arith)
class_range-At low (from b (d ∷ c ∷ rest)) =
    At-if (d == b'-' && not (c == b']'))
      (λ _.
        left-At _ (class_char-Left (some d) c rest)
          λ high s h. class_end-At low _ high s (omega arith))
      (λ _. at (omega arith))

class_loop-At :
    (f : ℕ) (started : Bool) (s : Cursor)
    → length (rest_of s) < f
    → At (length (rest_of s)) (class_loop f started s)
unfolding class_loop
class_loop-At zero started s h = absurd (omega arith)
class_loop-At (suc f) started (from b []) h = halted
class_loop-At (suc f) started (from b (c ∷ rest)) h =
    At-if (c == b']') (λ _. At-if started (λ _. at (omega arith)) (λ _. halted))
      (λ _. left-At _ (class_char-Left b c rest) λ low s hs.
        At-bind (class_range-At low s)
          λ s' hs'. raise (omega arith) (class_loop-At f true s' (omega arith)))

class_start-le : (b : ℕ) (rest : List ℕ) → length (rest_of (class_start b rest)) ≤ length rest
unfolding class_start
class_start-le b [] = omega arith
class_start-le b (c ∷ rest) = elim (Bool-cases (c == b'^')) [
  | inl e ↦ rw e (omega arith)
  | inr e ↦ rw e (omega arith)
]

class-Left : (b : ℕ) (rest : List ℕ) → Left (length rest) (class b rest)
class-Left b rest =
    at-Left
      (class_loop-At (suc (length rest)) false (class_start b rest)
        (omega (arith, class_start-le b rest)))
      λ s h. left (omega (arith, class_start-le b rest))

group_start-At : (b : ℕ) (rest : List ℕ) → At (length rest) (group_start b rest)
unfolding group_start
group_start-At b [] = at (omega arith)
group_start-At b (c ∷ []) = At-if (c == b'?') (λ _. halted) (λ _. at (omega arith))
group_start-At b (c ∷ d ∷ rest) =
    At-if (c == b'?') (λ _. At-if (d == b':') (λ _. at (omega arith)) (λ _. halted))
      (λ _. at (omega arith))

-- A reader that leaves no more than it is given.
abbrev Keeping : {A : Type 0} → Reader A → Type 0
Keeping reader = (s : Cursor) → Left (length (rest_of s)) (reader s)

closed-Left :
    (n : ℕ) (info : Info) (s : Cursor) → length (rest_of s) ≤ n → Left n (closed (info, s))
closed-Left n info (from b []) h = stopped
closed-Left n info (from b (c ∷ rest)) h =
    Left-if (c == b')') (λ _. left (omega arith)) (λ _. stopped)

group-Left :
    (inner : Reader Info) (c : ℕ) (rest : List ℕ)
    → Keeping inner
    → Left (length rest) (bind (group_start c rest) λ s. bind (inner s) closed)
group-Left inner c rest h =
    at-Left (group_start-At c rest)
      λ s hs. Left-bind closed (h s) λ info s' hs'. closed-Left (length rest) info s' (omega arith)

escaped-Left :
    (c : ℕ) (rest : List ℕ)
    → Left (length rest) (bind (escape false (behind c rest)) (λ (r, s). ok (plain, s)))
escaped-Left c rest = Left-bind _ (escape-Left false (some c) rest) λ r s h. left h

atom-Left :
    (inner : Reader Info) (c : ℕ) (rest : List ℕ)
    → Keeping inner
    → Left (length rest) (atom inner c rest)
unfolding atom
atom-Left inner c rest h = search (steps, group-Left, class-Left, escaped-Left) depth 14

upper_bound-At :
    (low : ℕ) (n : ℕ) (read : (ℕ × Bool) × Cursor)
    → length (rest_of read.1) ≤ n
    → At n (upper_bound low read)
upper_bound-At low n ((high, found), s) h =
    At-if found (λ _. raise h (bounds_end-At low high s)) (λ _. halted)

bounds_tail-At : (low : ℕ) (s : Cursor) → At (length (rest_of s)) (bounds_tail low s)
unfolding bounds_tail
bounds_tail-At low (from b []) = halted
bounds_tail-At low (from b (c ∷ rest)) =
    At-if (c == b',')
      (λ _.
        upper_bound-At low _ (number_loop 0 false (some c) rest)
          (omega (arith, number_loop-le 0 false (some c) rest)))
      (λ _. bounds_end-At low low (from b (c ∷ rest)))

bounds_from-At :
    (n : ℕ) (read : (ℕ × Bool) × Cursor) → length (rest_of read.1) ≤ n → At n (bounds_from read)
bounds_from-At n ((low, found), s) h =
    At-if found (λ _. raise h (bounds_tail-At low s)) (λ _. halted)

lift : {A : Type 0} {m n : ℕ} {r : Parsed (A × Cursor)} → m ≤ n → Left m r → Left n r
lift le (left h) = left (omega arith)
lift le stopped = stopped

quantifier-Left : (s : Cursor) → Left (length (rest_of s)) (quantifier s)
unfolding quantifier
quantifier-Left (from b []) = left (omega arith)
quantifier-Left (from b (c ∷ rest)) =
    Left-if (c == b'?') (λ _. lift (omega arith) (quantified-Left optional (behind c rest)))
      (λ _.
        Left-if (c == b'*' || c == b'+')
          (λ _. lift (omega arith) (quantified-Left repeat (behind c rest)))
          (λ _.
            Left-if (c == b'{')
              (λ _.
                at-Left
                  (bounds_from-At (length rest) (number_loop 0 false (some c) rest)
                    (number_loop-le 0 false (some c) rest))
                  λ s h. lift (omega arith) (quantified-Left repeat s))
              (λ _. left (omega arith))))

-- The end of a round goes on, or stops.
repeated-Left :
    {A : Type 0} (n : ℕ) (info a : Info) (q : Quant) (f : Info → Parsed (A × Cursor))
    → ((info' : Info) → Left n (f info'))
    → Left n (bind (repeated info a q) f)
repeated-Left n info a absent f h = h _
repeated-Left n info a optional f h = h _
repeated-Left n info a repeat f h = elim (Bool-cases a.repeats) [
  | inl e ↦ rw e stopped
  | inr e ↦ rw e (elim (Bool-cases a.alternation) [ inl e' ↦ rw e' stopped | inr e' ↦ rw e' (h _) ])
]

concat_end-Left :
    (n : ℕ) (started : Bool) (info : Info) (s : Cursor)
    → length (rest_of s) ≤ n
    → Left n (concat_end started info s)
concat_end-Left n started info s h = Left-if started (λ _. left h) (λ _. stopped)

concat_loop-Left :
    (f : ℕ) (inner : Reader Info) (started : Bool) (info : Info) (s : Cursor)
    → Keeping inner
    → length (rest_of s) < f
    → Left (length (rest_of s)) (concat_loop f inner started info s)
unfolding concat_loop
concat_loop-Left zero inner started info s k h = absurd (omega arith)
concat_loop-Left (suc f) inner started info (from b []) k h =
    concat_end-Left 0 started info (from b []) (omega arith)
concat_loop-Left (suc f) inner started info (from b (c ∷ rest)) k h =
    Left-if (c == b'|' || c == b')')
      (λ _. concat_end-Left _ started info (from b (c ∷ rest)) (omega arith))
      (λ _. Left-bind _ (atom-Left inner c rest k) λ a s hs.
        Left-bind _ (quantifier-Left s) λ q s' hs'.
          repeated-Left _ info a q _
            λ info'. lift (omega arith) (concat_loop-Left f inner true info' s' k (omega arith)))

next_branch-Left :
    (n : ℕ) (loop : Info → Cursor → Parsed (Info × Cursor)) (info : Info) (s : Cursor)
    → length (rest_of s) ≤ n
    → ((info' : Info) (s' : Cursor) → length (rest_of s') < n → Left n (loop info' s'))
    → Left n (next_branch loop info s)
next_branch-Left n loop info (from b []) h k = left h
next_branch-Left n loop info (from b (c ∷ rest)) h k =
    Left-if (c == b'|') (λ _. k _ (behind c rest) (omega arith)) (λ _. left h)

branch_loop-Left :
    (f : ℕ) (inner : Reader Info) (info : Info) (s : Cursor)
    → Keeping inner
    → length (rest_of s) < f
    → Left (length (rest_of s)) (branch_loop f inner info s)
unfolding branch_loop
branch_loop-Left zero inner info s k h = absurd (omega arith)
branch_loop-Left (suc f) inner info s k h =
    Left-bind _ (concat_loop-Left (suc (length (rest_of s))) inner false plain s k (omega arith))
      λ branch s' hs.
        next_branch-Left _ (branch_loop f inner) (join info branch) s' hs
          λ info' s'' hs'. lift (omega arith) (branch_loop-Left f inner info' s'' k (omega arith))

-- Fuel for the levels that are left is enough.
alternation-Left : (f depth : ℕ) → 10 ≤ f + depth → depth ≤ 9 → Keeping (alternation f depth)
unfolding alternation
alternation-Left zero depth h le s = absurd (omega arith)
alternation-Left (suc f) depth h le s =
    Left-if (ltb 8 depth) (λ _. stopped)
      (λ e.
        branch_loop-Left (suc (length (rest_of s))) (alternation f (suc depth)) plain s
          (alternation-Left f (suc depth) (omega arith) (ground arith)) (omega arith))

at_end-ne : (n : ℕ) (r : Parsed (Info × Cursor)) → Left n r → bind r at_end ≢ out_of_fuel
at_end-ne n r (left {s = from b []} h) = cc
at_end-ne n r (left {s = from b (c ∷ rest)} h) = cc
at_end-ne n r stopped = cc

-- For every pattern the validation returns: each round of a loop takes a rune, and the bound on the depth
-- of groups is met before the fuel for groups is used up.
pub validate_runes-ne-out_of_fuel : (runes : List ℕ) → validate_runes runes ≢ out_of_fuel
unfolding validate_runes
validate_runes-ne-out_of_fuel runes =
    at_end-ne (length runes) _ (alternation-Left 10 0 (omega arith) (omega arith) (from none runes))
