-- ===== src/Onkcompile/Headers/Accepted.antt =====
-- internal/onkcompile/validate_service.go: what headers are that `validateHeaders` accepts.
use onekit.Base.{
  ◌≡◌, refl, subst, Bool, true, false, not, List, [], ◌∷◌, Text, text_eq, text_eq_refl, text_eq→eq,
  inl, inr, Bool-cases, any, arith,
}
use onekit.Onkschema.{HeaderDecl}
use onekit.Onkcompile.Errors.{contains}
use onekit.Onkcompile.Checked.{passed, and_next-passed, pass_all-passed, when_passed}
use onekit.Onkcompile.Headers.{
  valid_header_name, name_checks, header_checks, headers_checked, validate_headers,
}

true_of_not : (b : Bool) → not b ≡ false → b ≡ true
true_of_not b h = ground (arith, h)

module _ (to_lower : Text → Text) where
  -- The names are valid, and different in lower case.
  abbrev pub Headers : List HeaderDecl → Type 0
  Headers [] = Unit
  Headers (h ∷ hs) =
      (valid_header_name h.name ≡ true)
      × ((any (λ (o : HeaderDecl). text_eq (to_lower o.name) (to_lower h.name)) hs ≡ false)
          × Headers hs)

  abbrev NewHeaders : List Text → List HeaderDecl → Type 0
  NewHeaders seen [] = Unit
  NewHeaders seen (h ∷ hs) =
      (valid_header_name h.name ≡ true)
      × ((contains seen (to_lower h.name) ≡ false) × NewHeaders (to_lower h.name ∷ seen) hs)

  seen_absent :
      (k : Text) (seen : List Text) (hs : List HeaderDecl)
      → contains seen k ≡ true
      → NewHeaders seen hs
      → any (λ (o : HeaderDecl). text_eq (to_lower o.name) k) hs ≡ false
  seen_absent k seen [] e h = refl
  seen_absent k seen (o ∷ hs) e h = elim (Bool-cases (text_eq (to_lower o.name) k)) [
    | inl s ↦
        let absent : contains seen k ≡ false =
          subst (λ j. contains seen j ≡ false) (text_eq→eq _ _ s) h.1.0 in
        ground (arith, e, absent)
    | inr s ↦ let rest = seen_absent k (to_lower o.name ∷ seen) hs (rw s e) h.1.1 in rw s rest
  ]

  NewHeaders-Headers : (seen : List Text) (hs : List HeaderDecl) → NewHeaders seen hs → Headers hs
  NewHeaders-Headers seen [] h = tt
  NewHeaders-Headers seen (o ∷ hs) h = (
    h.0,
    (
      seen_absent (to_lower o.name) (to_lower o.name ∷ seen) hs
          (rw (text_eq_refl (to_lower o.name)) refl) h.1.1,
      NewHeaders-Headers (to_lower o.name ∷ seen) hs h.1.1,
    ),
  )

module _ (to_lower : Text → Text) (equal_fold : Text → Text → Bool) (path : Text) where
  headers-NewHeaders :
      (seen : List Text) (hs : List HeaderDecl)
      → headers_checked to_lower equal_fold path seen hs ≡ passed
      → NewHeaders to_lower seen hs
  unfolding headers_checked header_checks name_checks
  headers-NewHeaders seen [] h = tt
  headers-NewHeaders seen (o ∷ hs) h =
      let both = and_next-passed _ _ h in
      let checks = pass_all-passed (header_checks to_lower equal_fold path seen o) both.0 in
      let names = pass_all-passed (name_checks to_lower equal_fold path seen o) checks.0 in
      (
        true_of_not _ (when_passed _ _ names.1.0),
        (when_passed _ _ names.1.1.0, headers-NewHeaders (to_lower o.name ∷ seen) hs both.1),
      )

  -- Headers that `validateHeaders` accepts have names that are tokens of HTTP, and no two have the same name in
  -- lower case.
  pub validate_headers-Headers :
      (hs : List HeaderDecl)
      → validate_headers to_lower equal_fold path hs ≡ passed
      → Headers to_lower hs
  unfolding validate_headers
  validate_headers-Headers hs h = NewHeaders-Headers to_lower [] hs (headers-NewHeaders [] hs h)
