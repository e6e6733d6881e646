-- ===== src/Onkcompat/Compare.antt =====
-- internal/onkcompat/compat.go: the comparison of two packages.
use onekit.Base.{
  ℕ, suc, Bool, true, false, not, Option, none, some, List, [], ◌∷◌, ◌++◌, Text, bytes, text_eq,
  ◌&&◌, ◌||◌, ◌==◌, any,
}
use onekit.Base.Dict.{Dict, lookup, insert, insert_all}
use onekit.Base.Strings.{cut, join}
use onekit.Onkir.Schema
use onekit.Onkir.Schema.{FieldType, Field, EnumValue, Decorator}
use onekit.Onkir.Decorators.{find_decorator, json_name}
use onekit.Onkir.Members.{or_empty, value_in}
use onekit.Onkir.Names.{enum_full_name}
use onekit.Onkcompat.Signatures.{
  is_required, message_rules_signature, field_type_signature, field_contract_signature,
}
use onekit.Onkcompat.Collect.{fold_map, Use, fields}

-- The message of a finding, with the numbers or the label that its text names.
pub data Change : Type 0 where
  message_removed message_rules_changed field_removed field_type_changed : Change
  field_contract_changed field_became_required field_became_optional required_field_added : Change
  enum_removed enum_value_removed enum_json_changed enum_value_added route_removed : Change
  enum_value_moved : ℕ → ℕ → Change
  route_part_changed : Text → Change

-- `Finding`
pub record Finding : Type 0 where
  pub path : Text
  pub change : Change
  pub before : Text
  pub after : Text

abbrev pub finding : Text → Change → Finding
finding path change = record { path = path; change = change; before = []; after = [] }

-- `if b { findings = append(findings, f) }`
abbrev pub report : Bool → Finding → List Finding
report true f = f ∷ []
report false f = []

-- The findings of a loop.
unfoldable pub each {ℓ} : {A : Type ℓ} → (A → List Finding) → List A → List Finding
each f [] = []
each f (x ∷ xs) = f x ++ each f xs

-- The parts of a body that appends findings, one after the other.
abbrev pub all_of : List (List Finding) → List Finding
all_of = each (λ fs. fs)

-- A loop over the entries of a map whose keys are looked up in another one.
abbrev pub with_new {ℓ} : {V : Type ℓ} → Finding → (V → List Finding) → Option V → List Finding
with_new removed compare none = removed ∷ []
with_new removed compare (some v) = compare v

abbrev pub child : Text → Text → Text
child name leaf = name ++ bytes "." ++ leaf

module _ (old_schema new_schema : Schema.Schema) where
  -- The body of the loop over the old fields, for a field that is there in both.
  unfoldable pub field_findings : Text → Use → Field → Field → List (List Finding)
  unfolding field_type_signature field_contract_signature is_required
  field_findings path use_ old new =
      report
        (not (text_eq (field_type_signature old_schema old) (field_type_signature new_schema new)))
        (finding path field_type_changed)
      ∷ report (not (text_eq (field_contract_signature old) (field_contract_signature new)))
          (finding path field_contract_changed)
      ∷ report (use_.in_request && not (is_required old) && is_required new)
          (finding path field_became_required)
      ∷ report (use_.in_response && is_required old && not (is_required new))
          (finding path field_became_optional)
      ∷ []

  unfoldable pub compare_field : Text → Use → Field → Field → List Finding
  unfolding field_findings each
  compare_field path use_ old new = all_of (field_findings path use_ old new)

  unfoldable pub old_field : Text → Use → Dict Field → Text × Field → List Finding
  unfolding compare_field lookup
  old_field name use_ new_fields (field_name, old) =
      with_new (finding (child name field_name) field_removed)
        (compare_field (child name field_name) use_ old) (lookup field_name new_fields)

  abbrev is_absent {ℓ} : {V : Type ℓ} → Option V → Bool
  is_absent none = true
  is_absent (some _) = false

  unfoldable pub new_field : Text → Use → Dict Field → Text × Field → List Finding
  unfolding is_required lookup
  new_field name use_ old_fields (field_name, new) =
      report (is_absent (lookup field_name old_fields) && use_.in_request && is_required new)
        (finding (child name field_name) required_field_added)

  unfoldable pub message_findings :
      Text → Schema.Message → Schema.Message → Use → List (List Finding)
  unfolding message_rules_signature old_field new_field fields each
  message_findings name old new use_ =
      report (not (text_eq (message_rules_signature old) (message_rules_signature new)))
        (finding name message_rules_changed)
      ∷ each (old_field name use_ (fields new)) (fields old)
      ∷ each (new_field name use_ (fields old)) (fields new)
      ∷ []

  -- `compareMessage`
  unfoldable pub compare_message : Text → Schema.Message → Schema.Message → Use → List Finding
  unfolding message_findings each
  compare_message name old new use_ = all_of (message_findings name old new use_)

unfoldable pub add_value : EnumValue → Dict Text → Dict Text
unfolding json_name insert
add_value v d = insert v.name (json_name v) d

-- The wire names of an enum, by the names of its values.
unfoldable pub wire_names : List EnumValue → Dict Text
unfolding add_value fold_map
wire_names vs = fold_map add_value vs []

unfoldable pub old_value : Text → Dict Text → EnumValue → List Finding
unfolding json_name lookup
old_value name new_names v =
    with_new (finding (child name v.name) enum_value_removed)
      (λ s. report (not (text_eq s (json_name v))) (finding (child name v.name) enum_json_changed))
      (lookup v.name new_names)

-- `compareEnum`
unfoldable pub compare_enum : Text → Schema.Enum → Schema.Enum → List Finding
unfolding old_value wire_names each
compare_enum name old new = each (old_value name (wire_names new.values)) old.values

-- `addedEnumValues`
unfoldable pub added_enum_values : Text → Schema.Enum → Schema.Enum → List Finding
unfolding each
added_enum_values name old new =
    each
      (λ v.
        report (not (any (λ (o : EnumValue). text_eq o.name v.name) old.values))
          (finding (child name v.name) enum_value_added))
      new.values

-- The last position of each name.
unfoldable pub positions_from : ℕ → List EnumValue → Dict ℕ → Dict ℕ
unfolding insert
positions_from i [] d = d
positions_from i (v ∷ vs) d = positions_from (suc i) vs (insert v.name i d)

abbrev pub moved : Text → ℕ → Option ℕ → List Finding
moved path i none = []
moved path i (some j) = report (not (j == i)) (finding path (enum_value_moved i j))

unfoldable pub positions_compared : Text → Dict ℕ → ℕ → List EnumValue → List Finding
unfolding lookup
positions_compared name positions i [] = []
positions_compared name positions i (v ∷ vs) =
    moved (child name v.name) i (lookup v.name positions)
    ++ positions_compared name positions (suc i) vs

-- `compareEnumPositions`
unfoldable pub compare_enum_positions : Text → Schema.Enum → Schema.Enum → List Finding
unfolding positions_from positions_compared
compare_enum_positions name old new =
    positions_compared name (positions_from 0 new.values []) 0 old.values

abbrev enum_of : Option FieldType → Option ℕ
enum_of (some (FieldType.enum i)) = some i
enum_of _ = none

abbrev encodes_number : Field → Bool
unfolding find_decorator
encodes_number f =
    text_eq (or_empty (value_in (find_decorator f.decorators (bytes "encode")))) (bytes "number")

field_encodes : Schema.Schema → Text → Field → Bool
unfolding encodes_number enum_full_name
field_encodes schema name f = elim (enum_of f.type) [
  | none ↦ false
  | some i ↦ encodes_number f && text_eq (enum_full_name schema (schema.enum_at i)) name
]

-- `numberEncodedEnums`
unfoldable pub is_number_encoded : Schema.Schema → Dict Schema.Message → Text → Bool
unfolding field_encodes
is_number_encoded schema [] name = false
is_number_encoded schema ((_, m) ∷ d) name =
    any (field_encodes schema name) m.fields || is_number_encoded schema d name

-- The parts of a route grouped by what stands before `=`.
unfoldable pub add_part : Text × Text → Dict (List Text) → Dict (List Text)
unfolding lookup insert
add_part (kind, v) d =
    insert kind (elim (lookup kind d) [ none ↦ v ∷ [] | some vs ↦ vs ++ v ∷ [] ]) d

unfoldable pub group : List Text → Dict (List Text)
unfolding add_part cut fold_map
group parts = fold_map (λ s. add_part (cut b'=' s)) parts []

-- `routePartLabels`
abbrev labels : Dict Text
labels =
    (bytes "service", bytes "service name")
    ∷ (bytes "method", bytes "method name")
    ∷ (bytes "request", bytes "request message")
    ∷ (bytes "response", bytes "response message")
    ∷ (bytes "stream", bytes "streaming mode")
    ∷ (bytes "body", bytes "body field")
    ∷ (bytes "query", bytes "query parameters")
    ∷ (bytes "header", bytes "headers")
    ∷ (bytes "error", bytes "error responses")
    ∷ (bytes "requires", bytes "required scopes")
    ∷ (bytes "authorize", bytes "authorization rules")
    ∷ (bytes "meta", bytes "route metadata")
    ∷ (bytes "guard", bytes "route guards")
    ∷ (bytes "success", bytes "success status")
    ∷ (bytes "http", bytes "raw HTTP handler")
    ∷ (bytes "http-request", bytes "raw HTTP request kind")
    ∷ (bytes "http-response", bytes "raw HTTP response kind")
    ∷ []

abbrev or_kind : Text → Option Text → Text
or_kind kind none = kind
or_kind kind (some s) = s

abbrev or_no_parts : Option (List Text) → List Text
or_no_parts none = []
or_no_parts (some vs) = vs

unfoldable pub parts_text : Text → Dict (List Text) → Text
unfolding join lookup
parts_text kind d = join (bytes ", ") (or_no_parts (lookup kind d))

unfoldable pub compare_part :
    Text → Dict (List Text) → Dict (List Text) → Text × List Text → List Finding
unfolding parts_text lookup
compare_part key old new (kind, _) =
    let before = parts_text kind old in
    let after = parts_text kind new in
    report (not (text_eq before after)) (record {
      path = key;
      change = route_part_changed (or_kind kind (lookup kind labels));
      before = before;
      after = after;
    })

-- `compareRoute`: the kinds of the old parts, and those of the new ones besides.
unfoldable pub compare_route : Text → List Text → List Text → List Finding
unfolding group compare_part insert_all each
compare_route key old new =
    let old_parts = group old in
    let new_parts = group new in
    each (compare_part key old_parts new_parts) (insert_all new_parts old_parts)
