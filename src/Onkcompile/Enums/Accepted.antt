-- ===== src/Onkcompile/Enums/Accepted.antt =====
-- internal/onkcompile/validate.go: what an enum is that `validateEnumDecl` accepts.
use onekit.Base.{
  ◌≡◌, ◌≢◌, refl, subst, true, false, Option, none, some, List, [], ◌∷◌, Text, text_eq,
  text_eq_refl, text_eq→eq, bytes, inl, inr, Bool-cases, ◌==◌, any, length, arith,
}
use mathlib.Core.List
use onekit.Base.Dict.{lookup}
use onekit.Onkir.Schema.{Arg}
use onekit.Onkschema.{Decorator, EnumValueDecl, EnumDecl}
use onekit.Onkcompile.Errors.{CompileError, Options}
use onekit.Onkcompile.Names.{generated_identifier}
use onekit.Onkcompile.Decls.{find_declared, first_value}
use onekit.Onkcompile.Checked.{
  Checked, passed, with_value, and_next-passed, pass_all-passed, when_passed,
}
use onekit.Onkcompile.Values.{Readers}
use onekit.Onkcompile.Fields.{Seen, collides}
use onekit.Onkcompile.Enums.{
  json_value, json_checks, json_checked, value_checks, values_checked, enum_checks,
  validate_enum_decl,
}

-- No two of the values have the same text.
abbrev pub Unlike : (EnumValueDecl → Text) → List EnumValueDecl → Type 0
Unlike f [] = Unit
Unlike f (v ∷ vs) = (any (λ o. text_eq (f o) (f v)) vs ≡ false) × Unlike f vs

-- The identifier that the generators make of a value's name.
abbrev pub identifier_of : EnumValueDecl → Text
identifier_of v = generated_identifier v.name

abbrev wire_of : Text → Option Decorator → Text
wire_of name none = name
wire_of name (some d) = first_value d.args

-- The name on the wire: that of `@json`, or that of the value.
abbrev pub wire_name : EnumValueDecl → Text
unfolding find_declared
wire_name v = wire_of v.name (find_declared v.decorators (bytes "json"))

-- None of the values has been seen, by a text of it, and each adds its own.
abbrev AllNew : (EnumValueDecl → Text) → Seen → List EnumValueDecl → Type 0
AllNew f seen [] = Unit
AllNew f seen (v ∷ vs) = (lookup (f v) seen ≡ none) × AllNew f ((f v, v.name) ∷ seen) vs

collides_passed : (o : Option Text) (e : Text → CompileError) → collides o e ≡ passed → o ≡ none
unfolding collides
collides_passed none e h = refl
collides_passed (some p) e h = ground (arith, h)

seen_differ :
    (f : EnumValueDecl → Text) (k p : Text) (seen : Seen) (vs : List EnumValueDecl)
    → lookup k seen ≡ some p
    → AllNew f seen vs
    → any (λ o. text_eq (f o) k) vs ≡ false
seen_differ f k p seen [] e h = refl
seen_differ f k p seen (v ∷ vs) e h = elim (Bool-cases (text_eq (f v) k)) [
  | inl s ↦
      let found : lookup k seen ≡ none = subst (λ j. lookup j seen ≡ none) (text_eq→eq _ _ s) h.0 in
      ground (arith, e, found)
  | inr s ↦
      let rest = seen_differ f k p ((f v, v.name) ∷ seen) vs (unfold lookup in (rw s e)) h.1 in
      rw s rest
]

AllNew-Unlike :
    (f : EnumValueDecl → Text) (seen : Seen) (vs : List EnumValueDecl)
    → AllNew f seen vs
    → Unlike f vs
unfolding lookup
AllNew-Unlike f seen [] h = tt
AllNew-Unlike f seen (v ∷ vs) h = (
  seen_differ f (f v) v.name ((f v, v.name) ∷ seen) vs (rw (text_eq_refl (f v)) refl) h.1,
  AllNew-Unlike f ((f v, v.name) ∷ seen) vs h.1,
)

differ_names :
    (v : EnumValueDecl) (vs : List EnumValueDecl)
    → any (λ o. text_eq (identifier_of o) (identifier_of v)) vs ≡ false
    → any (λ (o : EnumValueDecl). text_eq o.name v.name) vs ≡ false
differ_names v [] h = refl
differ_names v (o ∷ vs) h = elim (Bool-cases (text_eq o.name v.name)) [
  | inl s ↦
      let same : text_eq (identifier_of o) (identifier_of v) ≡ true =
        subst (λ n. text_eq (identifier_of o) (generated_identifier n) ≡ true) (text_eq→eq _ _ s)
          (text_eq_refl _) in
      ground (arith, h, same)
  | inr s ↦ rw s (differ_names v vs (ground (arith, h)))
]

Unlike-identifier_of : (vs : List EnumValueDecl) → Unlike identifier_of vs → Unlike (λ v. v.name) vs
Unlike-identifier_of [] h = tt
Unlike-identifier_of (v ∷ vs) h = (differ_names v vs h.0, Unlike-identifier_of vs h.1)

first_passed :
    (args : List Arg) (f : Text → Checked)
    → with_value 0 args f ≡ passed
    → f (first_value args) ≡ passed
first_passed [] f h = ground (arith, h)
first_passed (a ∷ args) f h = h

not_empty : (vs : List EnumValueDecl) → (length vs == 0) ≡ false → vs ≢ []
not_empty [] h e = ground (arith, h)
not_empty (v ∷ vs) h e = List.cons-ne-nil v vs e

module _ {F : Type 0} (readers : Readers F) (path : Text) (options : Options) where
  wire_passed :
      (name : Text) (o : Option Decorator) (f : Text → Checked)
      → json_value readers path options name o f ≡ passed
      → f (wire_of name o) ≡ passed
  wire_passed name none f h = h
  wire_passed name (some d) f h = first_passed d.args f h

  values-AllNew :
      (names jsons : Seen) (vs : List EnumValueDecl)
      → values_checked readers path options names jsons vs ≡ passed
      → AllNew identifier_of names vs × AllNew wire_name jsons vs
  unfolding values_checked value_checks json_checked json_checks
  values-AllNew names jsons [] h = (tt, tt)
  values-AllNew names jsons (v ∷ vs) h =
      let both = and_next-passed _ _ h in
      let checks = pass_all-passed (value_checks readers path options v names) both.0 in
      let wire = wire_passed v.name (find_declared v.decorators (bytes "json")) _ both.1 in
      let json =
        pass_all-passed
          (json_checks readers path options v jsons
            (λ jsons'.
              values_checked readers path options ((identifier_of v, v.name) ∷ names) jsons' vs)
            (wire_name v))
          wire in
      let rest =
        values-AllNew ((identifier_of v, v.name) ∷ names) ((wire_name v, v.name) ∷ jsons) vs
          json.1.0 in
      ((collides_passed _ _ checks.1.1.0, rest.0), (collides_passed _ _ json.0, rest.1))

  -- An enum that `validateEnumDecl` accepts has a value; no two values have the same name, or names of which
  -- the generators make the same identifier, or the same name on the wire.
  pub validate_enum_decl-Unlike :
      (e : EnumDecl)
      → validate_enum_decl readers path options e ≡ passed
      → (e.values ≢ [])
        × (Unlike (λ v. v.name) e.values
            × (Unlike identifier_of e.values × Unlike wire_name e.values))
  unfolding validate_enum_decl enum_checks
  validate_enum_decl-Unlike e h =
      let checks = pass_all-passed (enum_checks readers path options e) h in
      let new = values-AllNew [] [] e.values checks.1.1.0 in
      let ids = AllNew-Unlike identifier_of [] e.values new.0 in
      (
        not_empty e.values (when_passed _ _ checks.1.0),
        (Unlike-identifier_of e.values ids, (ids, AllNew-Unlike wire_name [] e.values new.1)),
      )
