-- ===== src/Httpkit/Guard.antt =====
-- httpkit/guard.go: the patterns of `@guard`, filled from the path of a request.
use mathlib.Core.List
use mathlib.Core.Option.{some-injective}
use onekit.Base.{
  ℕ, ◌≡◌, ◌≢◌, refl, ap, sym, subst, ◌∙◌, Bool, true, false, not, Option, none, some, List, [], ◌∷◌,
  map, Text, bytes, text_eq, cut_prefix, ◌&&◌, ◌||◌, ltb, ◌==◌, any, All, if◌then◌else◌, arith,
}
use onekit.Base.Strings.{Lacks, split, join, split-join, split-Lacks, split-ne-nil}

-- A byte that no value may hold: a slash, a backslash, a control character.
abbrev is_unsafe : ℕ → Bool
is_unsafe c = c == b'/' || c == 0x5C || ltb c 0x20 || c == 0x7F

-- `safeGuardValue`
unfoldable pub safe_guard_value : Text → Bool
safe_guard_value value =
    not (text_eq value [] || text_eq value (bytes ".") || text_eq value (bytes ".."))
    && not (any is_unsafe value)

abbrev pub both {ℓ} : {A : Type ℓ} → Option A → Option (List A) → Option (List A)
both none _ = none
both (some a) none = none
both (some a) (some rest) = some (a ∷ rest)

module _ (path_value : Text → Text) where
  abbrev pub fill : Text → Option Text → Option Text
  unfolding safe_guard_value
  fill segment none = some segment
  fill segment (some name) =
      let value = path_value name in if safe_guard_value value then some value else none

  -- A round of the loop over the segments.
  unfoldable pub resolve_segment : Text → Option Text
  unfolding fill cut_prefix
  resolve_segment segment = fill segment (cut_prefix (bytes ":") segment)

  unfoldable pub resolve_segments : List Text → Option (List Text)
  unfolding resolve_segment
  resolve_segments [] = some []
  resolve_segments (s ∷ ss) = both (resolve_segment s) (resolve_segments ss)

  abbrev joined : Option (List Text) → Option Text
  unfolding join
  joined none = none
  joined (some ss) = some (join (bytes "/") ss)

  -- `ResolveGuard`
  unfoldable pub resolve_guard : Text → Option Text
  unfolding split resolve_segments joined
  resolve_guard pattern = joined (resolve_segments (split b'/' pattern))

  -- `ResolveGuards`
  unfoldable pub resolve_guards : List Text → Option (List Text)
  unfolding resolve_guard
  resolve_guards [] = some []
  resolve_guards (p ∷ ps) = both (resolve_guard p) (resolve_guards ps)

  -- What a segment becomes: the value of its placeholder, or itself.
  abbrev filled_by : Text → Option Text → Text
  filled_by segment none = segment
  filled_by segment (some name) = path_value name

  unfoldable pub filled : Text → Text
  unfolding cut_prefix
  filled segment = filled_by segment (cut_prefix (bytes ":") segment)

  -- A safe value has no slash.
  any_unsafe-Lacks : (s : Text) → any is_unsafe s ≡ false → Lacks b'/' s
  any_unsafe-Lacks [] h = tt
  any_unsafe-Lacks (c ∷ s) h = (ground (arith, h), any_unsafe-Lacks s (ground (arith, h)))

  pub safe_guard_value-Lacks : (s : Text) → safe_guard_value s ≡ true → Lacks b'/' s
  unfolding safe_guard_value
  safe_guard_value-Lacks s h = any_unsafe-Lacks s (ground (arith, h))

  -- A segment is refused, or becomes what fills it, which has no slash.
  data OneOf (s : Text) : Option Text → Type 0 where
    refused : OneOf s none
    filled_in : Lacks b'/' (filled s) → OneOf s (some (filled s))

  data AllOf (ss : List Text) : Option (List Text) → Type 0 where
    refused : AllOf ss none
    filled_in : All (Lacks b'/') (map filled ss) → AllOf ss (some (map filled ss))

  value-OneOf :
      (s value : Text) (b : Bool)
      → value ≡ filled s
      → safe_guard_value value ≡ b
      → OneOf s (if b then some value else none)
  value-OneOf s value true e h =
      rw e (OneOf.filled_in (subst (Lacks b'/') e (safe_guard_value-Lacks value h)))
  value-OneOf s value false e h = OneOf.refused

  fill-OneOf :
      (s : Text) (o : Option Text) → Lacks b'/' s → filled s ≡ filled_by s o → OneOf s (fill s o)
  unfolding fill
  fill-OneOf s none h e = subst (λ r. OneOf s (some r)) e (OneOf.filled_in (rw e h))
  fill-OneOf s (some name) h e = value-OneOf s (path_value name) _ (sym e) refl

  both-AllOf :
      (s : Text) (ss : List Text) (o : Option Text) (os : Option (List Text))
      → OneOf s o
      → AllOf ss os
      → AllOf (s ∷ ss) (both o os)
  both-AllOf s ss _ _ OneOf.refused _ = AllOf.refused
  both-AllOf s ss _ _ (OneOf.filled_in h) AllOf.refused = AllOf.refused
  both-AllOf s ss _ _ (OneOf.filled_in h) (AllOf.filled_in k) = AllOf.filled_in (h, k)

  resolve_segments-AllOf : (ss : List Text) → All (Lacks b'/') ss → AllOf ss (resolve_segments ss)
  unfolding resolve_segments resolve_segment
  resolve_segments-AllOf [] h = AllOf.filled_in tt
  resolve_segments-AllOf (s ∷ ss) h =
      both-AllOf s ss _ _ (fill-OneOf s (cut_prefix (bytes ":") s) h.0 (unfold filled in refl))
        (resolve_segments-AllOf ss h.1)

  map-ne-nil : (ss : List Text) → ss ≢ [] → map filled ss ≢ []
  map-ne-nil [] h = absurd (h refl)
  map-ne-nil (s ∷ ss) h = List.cons-ne-nil _ _

  joined-AllOf :
      (ss : List Text) (o : Option (List Text)) (r : Text)
      → ss ≢ []
      → AllOf ss o
      → joined o ≡ some r
      → split b'/' r ≡ map filled ss
  unfolding joined
  joined-AllOf ss _ r h AllOf.refused e = ground (arith, e)
  joined-AllOf ss _ r h (AllOf.filled_in k) e =
      ap (split b'/') (sym (some-injective _ _ e))
      ∙ split-join b'/' (map filled ss) (map-ne-nil ss h) k

-- The value of the placeholder that the segment is, if it is one, is safe.
abbrev pub SafeAt : (Text → Text) → Text → Type 0
SafeAt path_value s =
    (name : Text) → cut_prefix (bytes ":") s ≡ some name → safe_guard_value (path_value name) ≡ true

abbrev pub Resolves {ℓ} : {A : Type ℓ} → Option A → Type ℓ
Resolves {A = A} o = (a : A) × (o ≡ some a)

module _ (path_value : Text → Text) where
  fill-Resolves :
      (s : Text) (o : Option Text)
      → ((name : Text) → o ≡ some name → safe_guard_value (path_value name) ≡ true)
      → Resolves (fill path_value s o)
  unfolding fill
  fill-Resolves s none h = (s, refl)
  fill-Resolves s (some name) h = (path_value name, rw (h name refl) refl)

  both-Resolves :
      (o : Option Text) (os : Option (List Text)) → Resolves o → Resolves os → Resolves (both o os)
  both-Resolves o os (a, e) (rest, e') = (a ∷ rest, rw (e, e') refl)

  resolve_segments-Resolves :
      (ss : List Text) → All (SafeAt path_value) ss → Resolves (resolve_segments path_value ss)
  unfolding resolve_segments resolve_segment
  resolve_segments-Resolves [] h = ([], refl)
  resolve_segments-Resolves (s ∷ ss) h =
      both-Resolves _ _ (fill-Resolves s (cut_prefix (bytes ":") s) h.0)
        (resolve_segments-Resolves ss h.1)

  pub resolve_guard-Resolves :
      (pattern : Text)
      → All (SafeAt path_value) (split b'/' pattern)
      → Resolves (resolve_guard path_value pattern)
  unfolding resolve_guard joined
  resolve_guard-Resolves pattern h =
      let (ss, e) = resolve_segments-Resolves (split b'/' pattern) h in
      (join (bytes "/") ss, rw e refl)

  pub resolve_guards-Resolves :
      (patterns : List Text)
      → All (λ p. All (SafeAt path_value) (split b'/' p)) patterns
      → Resolves (resolve_guards path_value patterns)
  unfolding resolve_guards
  resolve_guards-Resolves [] h = ([], refl)
  resolve_guards-Resolves (p ∷ ps) h =
      let (r, e) = resolve_guard-Resolves p h.0 in
      let (rs, e') = resolve_guards-Resolves ps h.1 in (r ∷ rs, rw (e, e') refl)

-- A pattern that `ResolveGuard` resolves has as many segments as before, with the value of its path
-- parameter for each placeholder and the others unchanged: no value adds a segment of its own.
pub resolve_guard-split :
    (path_value : Text → Text) (pattern r : Text)
    → resolve_guard path_value pattern ≡ some r
    → split b'/' r ≡ map (filled path_value) (split b'/' pattern)
unfolding resolve_guard
resolve_guard-split path_value pattern r h =
    joined-AllOf path_value (split b'/' pattern) _ r (split-ne-nil b'/' pattern)
      (resolve_segments-AllOf path_value (split b'/' pattern) (split-Lacks b'/' pattern)) h
