-- ===== src/Onkcompat/Report.antt =====
-- internal/onkcompat/compat.go: `Compare`.
use onekit.Base.{Bool, not, List, [], ◌∷◌, ◌++◌, Text, bytes, text_eq, ◌&&◌, if◌then◌else◌}
use onekit.Base.Decimal.{format_nat}
use onekit.Base.Dict.{Dict, lookup}
use onekit.Base.Sort.{less, sort}
use onekit.Onkir.Schema
use onekit.Onkcompat.Collect.{
  Package, fold_map, Use, in_both, use_of, mark_use, enum_usage_key, message_usage, messages, enums,
  routes,
}
use onekit.Onkcompat.Compare.{
  Change, message_removed, message_rules_changed, field_removed, field_type_changed,
  field_contract_changed, field_became_required, field_became_optional, required_field_added,
  enum_removed, enum_value_removed, enum_json_changed, enum_value_added, route_removed,
  enum_value_moved, route_part_changed, Finding, finding, each, all_of, with_new, compare_message,
  compare_enum, added_enum_values, compare_enum_positions, is_number_encoded, compare_route,
}

-- `Finding.Message`
unfoldable pub message_text : Change → Text
unfolding format_nat
message_text message_removed = bytes "message was removed"
message_text message_rules_changed = bytes "message rules changed"
message_text field_removed = bytes "field was removed"
message_text field_type_changed = bytes "field type, cardinality, or oneof contract changed"
message_text field_contract_changed = bytes "field validation or JSON mapping changed"
message_text field_became_required = bytes "field became required"
message_text field_became_optional = bytes "field became optional in a response"
message_text required_field_added = bytes "required field was added"
message_text enum_removed = bytes "enum was removed"
message_text enum_value_removed = bytes "enum value was removed"
message_text enum_json_changed = bytes "enum JSON value changed"
message_text enum_value_added =
    bytes "enum value was added to a response enum; older clients reject unknown values"
message_text route_removed = bytes "HTTP route was removed or changed"
message_text (enum_value_moved i j) =
    bytes "enum value moved from "
    ++ format_nat i
    ++ bytes " to "
    ++ format_nat j
    ++ bytes ", changing its @encode(number) wire value"
message_text (route_part_changed label) = label ++ bytes " changed"

-- The order of the findings.
unfoldable pub before_finding : Finding → Finding → Bool
unfolding less message_text
before_finding a b =
    if text_eq a.path b.path
    then less (message_text a.change) (message_text b.change)
    else less a.path b.path

module _ (previous current : Package) where
  -- `usage`: the uses in the current package are added to those in the previous one.
  unfoldable pub all_usage : Dict Use
  unfolding message_usage mark_use fold_map
  all_usage =
      fold_map (λ (name, u). mark_use name u) (message_usage current) (message_usage previous)

  abbrev is_unused : Use → Bool
  is_unused u = not u.in_request && not u.in_response

  abbrev pub or_both : Use → Use
  or_both u = if is_unused u then in_both else u

  unfoldable pub old_message : Text × Schema.Message → List Finding
  unfolding compare_message use_of all_usage messages lookup
  old_message (name, old) =
      with_new (finding name message_removed)
        (λ new.
          compare_message previous.schema current.schema name old new
            (or_both (use_of all_usage name)))
        (lookup name (messages current))

  unfoldable pub enum_findings : Text → Schema.Enum → Schema.Enum → List (List Finding)
  unfolding compare_enum added_enum_values compare_enum_positions is_number_encoded use_of all_usage
      messages
  enum_findings name old new =
      compare_enum name old new
      ∷ (if (use_of all_usage (enum_usage_key name)).in_response
          then added_enum_values name old new
          else [])
      ∷ (if is_number_encoded previous.schema (messages previous) name
          then compare_enum_positions name old new
          else [])
      ∷ []

  unfoldable pub compare_kept_enum : Text → Schema.Enum → Schema.Enum → List Finding
  unfolding enum_findings each
  compare_kept_enum name old new = all_of (enum_findings name old new)

  unfoldable pub old_enum : Text × Schema.Enum → List Finding
  unfolding compare_kept_enum enums lookup
  old_enum (name, old) =
      with_new (finding name enum_removed) (compare_kept_enum name old)
        (lookup name (enums current))

module _ (to_lower : Text → Text) (previous current : Package) where
  unfoldable pub old_route : Text × List Text → List Finding
  unfolding compare_route routes lookup
  old_route (key, old) =
      with_new (finding key route_removed) (compare_route key old)
        (lookup key (routes to_lower current))

  -- What is found, in the order of the maps.
  unfoldable pub package_findings : List (List Finding)
  unfolding old_message old_enum old_route messages enums routes each
  package_findings =
      each (old_message previous current) (messages previous)
      ∷ each (old_enum previous current) (enums previous)
      ∷ each old_route (routes to_lower previous)
      ∷ []

  unfoldable pub all_findings : List Finding
  unfolding package_findings each
  all_findings = all_of package_findings

  -- `Compare`
  unfoldable pub compare_packages : List Finding
  unfolding all_findings sort before_finding
  compare_packages = sort before_finding all_findings
