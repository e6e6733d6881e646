-- ===== src/Onkcompat/Self.antt =====
-- internal/onkcompat/compat.go: a package compared with itself.
use onekit.Base.{
  ℕ, suc, ◌≡◌, refl, ap, ◌∙◌, Bool, true, false, not, Option, some, List, [], ◌∷◌, Text, text_eq,
  text_eq_refl, ◌&&◌, ==_refl, any, All, All-map, arith, if◌then◌else◌,
}
use onekit.Base.Dict.{
  Dict, lookup, insert, insert_all, Entry, Distinct-Entry, lookup-insert_self, lookup-insert_other,
}
use onekit.Base.Sort.{sort}
use onekit.Onkir.Schema
use onekit.Onkir.Schema.{Schema, Field, EnumValue, File, Service, Method}
use onekit.Onkir.Decorators.{json_name}
use onekit.Onkcompat.Signatures.{is_required}
use onekit.Onkcompat.Collect.{Package, fold_map, Use, messages, enums, fields, routes}
use onekit.Onkcompat.Collect.Distinct.{
  messages-Distinct, enums-Distinct, fields-Distinct, routes-Distinct,
}
use onekit.Onkcompat.Compare.{
  Finding, report, each, with_new, field_findings, compare_field, old_field, new_field,
  message_findings, compare_message, add_value, wire_names, old_value, compare_enum,
  added_enum_values, positions_from, child, moved, positions_compared, compare_enum_positions,
  group, compare_part, compare_route,
}
use onekit.Onkcompat.Report.{
  old_message, old_enum, enum_findings, compare_kept_enum, old_route, package_findings,
  all_findings, before_finding, compare_packages,
}

-- Nothing is reported of a text and itself.
same_unreported : (s : Text) (f : Finding) → report (not (text_eq s s)) f ≡ []
same_unreported s f = rw (text_eq_refl s) refl

nothing {ℓ} :
    {A : Type ℓ} (f : A → List Finding) (xs : List A) → All (λ x. f x ≡ []) xs → each f xs ≡ []
unfolding each
nothing f [] h = refl
nothing f (x ∷ xs) h = rw (h.0, nothing f xs h.1) refl

-- An entry is compared with what its own map has for its key.
with_itself :
    {V : Type 0} (f : Finding) (compare : V → List Finding) (v : V) (o : Option V)
    → o ≡ some v
    → compare v ≡ []
    → with_new f compare o ≡ []
with_itself f compare v o e h = rw e h

never_more_strict : (u r : Bool) → (u && not r && r) ≡ false
never_more_strict u r = ground arith

never_less_strict : (u r : Bool) → (u && r && not r) ≡ false
never_less_strict u r = ground arith

unreported : (b : Bool) (f : Finding) → b ≡ false → report b f ≡ []
unreported b f h = rw h refl

module _ (schema : Schema) where
  compare_field-nil :
      (path : Text) (use_ : Use) (f : Field) → compare_field schema schema path use_ f f ≡ []
  unfolding compare_field field_findings
  compare_field-nil path use_ f =
      nothing (λ fs. fs) (field_findings schema schema path use_ f f)
        (
          same_unreported _ _,
          (
            same_unreported _ _,
            (
              unreported _ _ (never_more_strict use_.in_request (is_required f)),
              (unreported _ _ (never_less_strict use_.in_response (is_required f)), tt),
            ),
          ),
        )

  old_field-nil :
      (name : Text) (use_ : Use) (d : Dict Field) (e : Text × Field)
      → Entry d e
      → old_field schema schema name use_ d e ≡ []
  unfolding old_field
  old_field-nil name use_ d (k, f) h = with_itself _ _ f (lookup k d) h (compare_field-nil _ use_ f)

  new_field-nil :
      (name : Text) (use_ : Use) (d : Dict Field) (e : Text × Field)
      → Entry d e
      → new_field schema schema name use_ d e ≡ []
  unfolding new_field
  new_field-nil name use_ d (k, f) h = rw h refl

  compare_message-nil :
      (name : Text) (m : Schema.Message) (use_ : Use)
      → compare_message schema schema name m m use_ ≡ []
  unfolding compare_message message_findings
  compare_message-nil name m use_ =
      let entries = Distinct-Entry (fields m) (fields-Distinct m) in
      nothing (λ fs. fs) (message_findings schema schema name m m use_)
        (
          same_unreported _ _,
          (
            nothing _ (fields m)
                (All-map _ _ (fields m) (old_field-nil name use_ (fields m)) entries),
            (
              nothing _ (fields m)
                  (All-map _ _ (fields m) (new_field-nil name use_ (fields m)) entries),
              tt,
            ),
          ),
        )

-- The names of the values of an enum are different.
abbrev pub Unique : List EnumValue → Type 0
Unique [] = Unit
Unique (v ∷ vs) = (any (λ (o : EnumValue). text_eq o.name v.name) vs ≡ false) × Unique vs

add_value_absent :
    (k : Text) (vs : List EnumValue) (d : Dict Text)
    → any (λ (o : EnumValue). text_eq o.name k) vs ≡ false
    → lookup k (fold_map add_value vs d) ≡ lookup k d
unfolding fold_map add_value
add_value_absent k [] d h = refl
add_value_absent k (v ∷ vs) d h =
    add_value_absent k vs (insert v.name (json_name v) d) (ground (arith, h))
    ∙ lookup-insert_other k v.name (json_name v) d (ground (arith, h))

add_value_found :
    (vs : List EnumValue) (d : Dict Text)
    → Unique vs
    → All (λ (v : EnumValue). lookup v.name (fold_map add_value vs d) ≡ some (json_name v)) vs
unfolding fold_map add_value
add_value_found [] d h = tt
add_value_found (v ∷ vs) d h = (
  add_value_absent v.name vs (insert v.name (json_name v) d) h.0
      ∙ lookup-insert_self v.name (json_name v) d,
  add_value_found vs (insert v.name (json_name v) d) h.1,
)

compare_enum-nil : (name : Text) (e : Schema.Enum) → Unique e.values → compare_enum name e e ≡ []
unfolding compare_enum wire_names
compare_enum-nil name e h = nothing (old_value name (wire_names e.values)) e.values (
    All-map _ _ e.values
      (λ v k.
        unfold old_value in
        with_itself _ _ (json_name v) (lookup v.name (wire_names e.values)) k (same_unreported _ _))
      (add_value_found e.values [] h))

named_itself :
    (vs : List EnumValue)
    → All (λ (v : EnumValue). any (λ (o : EnumValue). text_eq o.name v.name) vs ≡ true) vs
named_itself [] = tt
named_itself (v ∷ vs) = (
  ground (arith, text_eq_refl v.name),
  All-map _ _ vs (λ (w : EnumValue) k. ground (arith, k)) (named_itself vs),
)

added_enum_values-nil : (name : Text) (e : Schema.Enum) → added_enum_values name e e ≡ []
unfolding added_enum_values
added_enum_values-nil name e =
    nothing _ e.values
      (All-map _ _ e.values (λ (v : EnumValue) k. rw k refl) (named_itself e.values))

positions_absent :
    (k : Text) (i : ℕ) (vs : List EnumValue) (d : Dict ℕ)
    → any (λ (o : EnumValue). text_eq o.name k) vs ≡ false
    → lookup k (positions_from i vs d) ≡ lookup k d
unfolding positions_from
positions_absent k i [] d h = refl
positions_absent k i (v ∷ vs) d h =
    positions_absent k (suc i) vs (insert v.name i d) (ground (arith, h))
    ∙ lookup-insert_other k v.name i d (ground (arith, h))

unmoved : (path : Text) (i : ℕ) (o : Option ℕ) → o ≡ some i → moved path i o ≡ []
unmoved path i o h = rw (h, ==_refl i) refl

positions_compared-nil :
    (name : Text) (i : ℕ) (vs : List EnumValue) (d : Dict ℕ)
    → Unique vs
    → positions_compared name (positions_from i vs d) i vs ≡ []
unfolding positions_compared positions_from
positions_compared-nil name i [] d h = refl
positions_compared-nil name i (v ∷ vs) d h =
    rw
      (
        unmoved (child name v.name) i _ (
            positions_absent v.name (suc i) vs (insert v.name i d) h.0
            ∙ lookup-insert_self v.name i d),
        positions_compared-nil name (suc i) vs (insert v.name i d) h.1,
      )
      refl

compare_enum_positions-nil :
    (name : Text) (e : Schema.Enum) → Unique e.values → compare_enum_positions name e e ≡ []
unfolding compare_enum_positions
compare_enum_positions-nil name e h = positions_compared-nil name 0 e.values [] h

compare_route-nil : (key : Text) (parts : List Text) → compare_route key parts parts ≡ []
unfolding compare_route
compare_route-nil key parts = nothing _ _ (part_nil (insert_all (group parts) (group parts)))
  where
    part_nil :
        (d : Dict (List Text)) → All (λ e. compare_part key (group parts) (group parts) e ≡ []) d
    part_nil [] = tt
    part_nil ((kind, vs) ∷ d) = (unfold compare_part in same_unreported _ _, part_nil d)

if_nil : (b : Bool) (fs : List Finding) → fs ≡ [] → (if b then fs else []) ≡ []
if_nil true fs h = h
if_nil false fs h = refl

module _ (p : Package) where
  old_message-nil : (e : Text × Schema.Message) → Entry (messages p) e → old_message p p e ≡ []
  unfolding old_message
  old_message-nil (k, m) h =
      with_itself _ _ m (lookup k (messages p)) h (compare_message-nil p.schema k m _)

  old_enum-nil :
      (e : Text × Schema.Enum) → Entry (enums p) e × Unique e.1.values → old_enum p p e ≡ []
  unfolding old_enum compare_kept_enum enum_findings
  old_enum-nil (k, e) (h, u) = with_itself _ _ e (lookup k (enums p)) h (
      nothing (λ fs. fs) (enum_findings p p k e e)
        (
          compare_enum-nil k e u,
          (
            if_nil _ _ (added_enum_values-nil k e),
            (if_nil _ _ (compare_enum_positions-nil k e u), tt),
          ),
        ))

-- The enums of a package have no two values of one name.
abbrev pub UniqueValues : Package → Type 0
UniqueValues p = All (λ (e : Text × Schema.Enum). Unique e.1.values) (enums p)

old_route-nil :
    (to_lower : Text → Text) (p : Package) (e : Text × List Text)
    → Entry (routes to_lower p) e
    → old_route to_lower p p e ≡ []
unfolding old_route
old_route-nil to_lower p (k, parts) h =
    with_itself _ _ parts (lookup k (routes to_lower p)) h (compare_route-nil k parts)

both_hold :
    {A : Type 0} (P Q : A → Type 0) (xs : List A) → All P xs → All Q xs → All (λ x. P x × Q x) xs
both_hold P Q [] h k = tt
both_hold P Q (x ∷ xs) h k = ((h.0, k.0), both_hold P Q xs h.1 k.1)

-- `Compare` finds nothing between a package and itself, where no enum has two values of one name.
pub compare_packages_self :
    (to_lower : Text → Text) (p : Package) → UniqueValues p → compare_packages to_lower p p ≡ []
unfolding compare_packages all_findings package_findings sort
compare_packages_self to_lower p h = ap (sort before_finding) (
    nothing (λ fs. fs) (package_findings to_lower p p)
      (
        nothing _ (messages p) (
            All-map _ _ (messages p) (old_message-nil p)
              (Distinct-Entry (messages p) (messages-Distinct p))),
        (
          nothing _ (enums p) (
              All-map _ _ (enums p) (old_enum-nil p)
                (both_hold _ _ (enums p) (Distinct-Entry (enums p) (enums-Distinct p)) h)),
          (
            nothing _ (routes to_lower p) (
                All-map _ _ (routes to_lower p) (old_route-nil to_lower p)
                  (Distinct-Entry (routes to_lower p) (routes-Distinct to_lower p))),
            tt,
          ),
        ),
      ))
