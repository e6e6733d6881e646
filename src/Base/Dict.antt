-- ===== src/Base/Dict.antt =====
-- Go maps with string keys, as association lists in the order of insertion.
use mathlib.Core.Path.{◌≡◌, refl, sym, subst, ◌∙◌}
use mathlib.Core.Bool.{false}
use mathlib.Core.List.{List, [], ◌∷◌}
use mathlib.Core.Option.{Option, none, some, none-ne-some}
use native.Mathlib.Omega.{arith}
use onekit.Base.Tests.{if◌then◌else◌, Bool-cases}
use onekit.Base.Lists.{All, All-map}
use onekit.Base.Bytes.{Text, text_eq, text_eq→eq, text_eq_refl}
use mathlib.Core.Logic.{inl, inr}

abbrev pub Dict {ℓ} : Type ℓ → Type ℓ
Dict V = List (Text × V)

eq_swap : (j k : Text) → text_eq j k ≡ false → text_eq k j ≡ false
eq_swap j k h = elim (Bool-cases (text_eq k j)) [
  | inl e ↦ absurd (ground (arith, h, text_eq_refl j, text_eq→eq k j e))
  | inr e ↦ e
]

module _ {ℓ} {V : Type ℓ} where
  unfoldable pub lookup : Text → Dict V → Option V
  lookup k [] = none
  lookup k ((j, v) ∷ d) = if text_eq j k then some v else lookup k d

  -- `d[k] = v`
  unfoldable pub insert : Text → V → Dict V → Dict V
  insert k v [] = (k, v) ∷ []
  insert k v ((j, w) ∷ d) =
      let rest = insert k v d in if text_eq j k then (k, v) ∷ d else (j, w) ∷ rest

  pub lookup-insert_self : (k : Text) (v : V) (d : Dict V) → lookup k (insert k v d) ≡ some v
  unfolding lookup insert
  lookup-insert_self k v [] = rw (text_eq_refl k) refl
  lookup-insert_self k v ((j, w) ∷ d) = ground (arith, text_eq_refl k, lookup-insert_self k v d)

  -- What a key has is the value of each of its entries, where no key has two.
  abbrev pub Distinct : Dict V → Type ℓ
  Distinct [] = Unit
  Distinct ((k, _) ∷ d) = (lookup k d ≡ none) × Distinct d

  lookup-insert-none :
      (j k : Text) (v : V) (d : Dict V)
      → text_eq k j ≡ false
      → lookup j d ≡ none
      → lookup j (insert k v d) ≡ none
  unfolding lookup insert
  lookup-insert-none j k v [] h e = rw h refl
  lookup-insert-none j k v ((i, w) ∷ d) h e = ground (arith, h, e, lookup-insert-none j k v d h)

  pub insert-Distinct : (k : Text) (v : V) (d : Dict V) → Distinct d → Distinct (insert k v d)
  unfolding insert
  insert-Distinct k v [] h = (unfold lookup in refl, tt)
  insert-Distinct k v ((j, w) ∷ d) (h, hs) = elim (Bool-cases (text_eq j k)) [
    | inl e ↦ rw e (subst (λ i. lookup i d ≡ none) (text_eq→eq j k e) h, hs)
    | inr e ↦ rw e (lookup-insert-none j k v d (eq_swap j k e) h, insert-Distinct k v d hs)
  ]

  -- Each entry is what its key has.
  abbrev pub Entry : Dict V → Text × V → Type ℓ
  Entry d (k, v) = lookup k d ≡ some v

  Entry-cons :
      (j k : Text) (w v : V) (d : Dict V)
      → lookup j d ≡ none
      → lookup k d ≡ some v
      → lookup k ((j, w) ∷ d) ≡ some v
  unfolding lookup
  Entry-cons j k w v d h e = elim (Bool-cases (text_eq j k)) [
    | inl t ↦
        absurd (none-ne-some v (sym (subst (λ i. lookup i d ≡ none) (text_eq→eq j k t) h) ∙ e))
    | inr t ↦ rw t e
  ]

  pub Distinct-Entry : (d : Dict V) → Distinct d → All (Entry d) d
  Distinct-Entry [] h = tt
  Distinct-Entry ((j, w) ∷ d) (h, hs) = (
    unfold lookup in rw (text_eq_refl j) refl,
    All-map (Entry d) (Entry ((j, w) ∷ d)) d (λ (k, v) e. Entry-cons j k w v d h e)
        (Distinct-Entry d hs),
  )

  pub lookup-insert_other :
      (j k : Text) (v : V) (d : Dict V) → text_eq k j ≡ false → lookup j (insert k v d) ≡ lookup j d
  unfolding lookup insert
  lookup-insert_other j k v [] h = rw h refl
  lookup-insert_other j k v ((i, w) ∷ d) h =
      ground
        (arith, h, lookup-insert_other j k v d h, text_eq→eq i k, text_eq→eq i j, text_eq_refl j)

  insert_absent :
      (j k : Text) (v : V) (d : Dict V)
      → lookup j (insert k v d) ≡ none
      → (text_eq k j ≡ false) × (lookup j d ≡ none)
  insert_absent j k v d h = elim (Bool-cases (text_eq k j)) [
    | inl e ↦ absurd (
        none-ne-some v (
          sym (subst (λ i. lookup i (insert k v d) ≡ none) (sym (text_eq→eq k j e)) h)
          ∙ lookup-insert_self k v d))
    | inr e ↦ (e, sym (lookup-insert_other j k v d e) ∙ h)
  ]

  absent_cons :
      (j k : Text) (v : V) (es : Dict V)
      → text_eq k j ≡ false
      → lookup j es ≡ none
      → lookup j ((k, v) ∷ es) ≡ none
  unfolding lookup
  absent_cons j k v es e q = rw e q

  -- `for k, v := range es { d[k] = v }`
  unfoldable pub insert_all : Dict V → Dict V → Dict V
  unfolding insert
  insert_all [] d = d
  insert_all ((k, v) ∷ es) d = insert_all es (insert k v d)

  -- What is in neither map is not in both together.
  pub insert_all_absent :
      (j : Text) (es d : Dict V)
      → lookup j (insert_all es d) ≡ none
      → (lookup j d ≡ none) × (lookup j es ≡ none)
  unfolding insert_all
  insert_all_absent j [] d h = (h, unfold lookup in refl)
  insert_all_absent j ((k, v) ∷ es) d h =
      let both = insert_all_absent j es (insert k v d) h in
      let (e, q) = insert_absent j k v d both.0 in (q, absent_cons j k v es e both.1)

  -- A property of the keys of all entries holds of a key that has a value.
  pub All-lookup {κ} :
      (P : Text → Type κ) (k : Text) (v : V) (d : Dict V)
      → All (λ (e : Text × V). P e.0) d
      → lookup k d ≡ some v
      → P k
  unfolding lookup
  All-lookup P k v [] h e = absurd (none-ne-some v e)
  All-lookup P k v ((j, w) ∷ d) h e = elim (Bool-cases (text_eq j k)) [
    | inl t ↦ subst P (text_eq→eq j k t) h.0
    | inr t ↦ All-lookup P k v d h.1 (ground (arith, t, e))
  ]
