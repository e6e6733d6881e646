-- ===== src/Base/Sort.antt =====
-- `sort.Strings`, and `sort.Slice` with a comparison, of Go's standard library. Items that compare equal may
-- come in any order; here they keep theirs.
use mathlib.Core.Path.{◌≡◌, refl, subst}
use mathlib.Core.Bool.{Bool, true, false, ◌&&◌, ◌||◌}
use mathlib.Core.List.{List, [], ◌∷◌}
use mathlib.Core.List
use onekit.Base.Tests.{ltb, ◌==◌, if◌then◌else◌, Bool-cases}
use onekit.Base.Bytes.{Text}
use mathlib.Core.Logic.{◌⊎◌, inl, inr}
use onekit.Base.Search.Ends.{Among, first, later}
use native.Mathlib.Omega.{arith}

-- `<` on strings.
unfoldable pub less : Text → Text → Bool
less [] [] = false
less [] (y ∷ ys) = true
less (x ∷ xs) [] = false
less (x ∷ xs) (y ∷ ys) = ltb x y || (x == y) && less xs ys

module _ {ℓ} {A : Type ℓ} (before : A → A → Bool) where
  put : A → List A → List A
  put x [] = x ∷ []
  put x (y ∷ ys) = let rest = put x ys in if before y x then y ∷ rest else x ∷ y ∷ ys

  unfoldable pub sort : List A → List A
  unfolding put
  sort [] = []
  sort (x ∷ xs) = put x (sort xs)

  put-ne-nil : (x : A) (xs : List A) → ¬ (put x xs ≡ [])
  unfolding put
  put-ne-nil x [] = List.cons-ne-nil _ _
  put-ne-nil x (y ∷ ys) =
      ground (arith, List.cons-ne-nil {A = A} y (put x ys), List.cons-ne-nil {A = A} x (y ∷ ys))

  -- Nothing is lost: only the empty list is sorted into it.
  pub sort-nil : (xs : List A) → sort xs ≡ [] → xs ≡ []
  unfolding sort
  sort-nil [] h = refl
  sort-nil (x ∷ xs) h = absurd (put-ne-nil x (sort xs) h)

  put_front : (x a y : A) (ys : List A) → (a ≡ x) ⊎ Among a (y ∷ ys) → Among a (x ∷ y ∷ ys)
  put_front x a y ys (inl e) = subst (λ c. Among a (c ∷ y ∷ ys)) e first
  put_front x a y ys (inr m) = later m

  put_behind :
      (x a y : A) (ys zs : List A)
      → ((a ≡ x) ⊎ Among a ys → Among a zs)
      → (a ≡ x) ⊎ Among a (y ∷ ys)
      → Among a (y ∷ zs)
  put_behind x a y ys zs f (inl e) = later (f (inl e))
  put_behind x a y ys zs f (inr first) = first
  put_behind x a y ys zs f (inr (later m)) = later (f (inr m))

  behind_put :
      (x a y : A) (ys zs : List A)
      → (Among a zs → (a ≡ x) ⊎ Among a ys)
      → Among a (y ∷ zs)
      → (a ≡ x) ⊎ Among a (y ∷ ys)
  behind_put x a y ys zs f first = inr first
  behind_put x a y ys zs f (later m) = elim (f m) [ inl e ↦ inl e | inr k ↦ inr (later k) ]

  front_put : (x a y : A) (ys : List A) → Among a (x ∷ y ∷ ys) → (a ≡ x) ⊎ Among a (y ∷ ys)
  front_put x a y ys first = inl refl
  front_put x a y ys (later m) = inr m

  put-Among : (x a : A) (xs : List A) → (a ≡ x) ⊎ Among a xs → Among a (put x xs)
  unfolding put
  put-Among x a [] (inl e) = subst (λ c. Among a (c ∷ [])) e first
  put-Among x a [] (inr m) = elim m [ ]
  put-Among x a (y ∷ ys) m = elim (Bool-cases (before y x)) [
    | inl b ↦ rw b (put_behind x a y ys (put x ys) (put-Among x a ys) m)
    | inr b ↦ rw b (put_front x a y ys m)
  ]

  Among-put : (x a : A) (xs : List A) → Among a (put x xs) → (a ≡ x) ⊎ Among a xs
  unfolding put
  Among-put x a [] first = inl refl
  Among-put x a [] (later m) = elim m [ ]
  Among-put x a (y ∷ ys) m = elim (Bool-cases (before y x)) [
    | inl b ↦
        behind_put x a y ys (put x ys) (Among-put x a ys)
          (subst (λ c. Among a (if c then y ∷ put x ys else x ∷ y ∷ ys)) b m)
    | inr b ↦ front_put x a y ys (subst (λ c. Among a (if c then y ∷ put x ys else x ∷ y ∷ ys)) b m)
  ]

  -- Sorting keeps the items, and adds none.
  pub sort-Among : (a : A) (xs : List A) → Among a xs → Among a (sort xs)
  unfolding sort
  sort-Among a [] m = elim m [ ]
  sort-Among a (x ∷ xs) first = put-Among x a (sort xs) (inl refl)
  sort-Among a (x ∷ xs) (later m) = put-Among x a (sort xs) (inr (sort-Among a xs m))

  pub Among-sort : (a : A) (xs : List A) → Among a (sort xs) → Among a xs
  unfolding sort
  Among-sort a [] m = m
  Among-sort a (x ∷ xs) m = elim (Among-put x a (sort xs) m) [
    | inl e ↦ subst (λ c. Among a (c ∷ xs)) e first
    | inr k ↦ later (Among-sort a xs k)
  ]

abbrev pub sort_texts : List Text → List Text
sort_texts = sort less
