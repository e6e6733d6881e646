-- ===== src/Onkir/Tests.antt =====
-- internal/onkir/helpers.go, run on a schema whose messages lead back to themselves, and on routes.
use onekit.Base.{
  ◌≡◌, refl, true, false, none, some, List, [], ◌∷◌, Text, bytes, text_eq, ◌↔◌, arith,
}
use onekit.Base.Int.{pos}
use onekit.Base.Decimal.{parse_int64}
use onekit.Base.Strings.{trim_space}
use onekit.Base.Utf8.{has_suffix}
use onekit.Onkir.Schema
use onekit.Onkir.Schema.{Schema, Field, FieldType, ScalarKind, Decorator}
use onekit.Onkir.Paths.{path_param_names, wildcard_param, path_placeholder}
use onekit.Onkir.Paths.Routes.{
  Segment, literal, param, wildcard, render, path_param_names-render, wildcard_param-render,
}
use onekit.Onkir.ByteSize.{
  parse_byte_size, strip_unit, units, exact_size, parse_byte_size-exact_size,
}
use onekit.Onkir.Walk.{ws_id_field, message_has_raw}
use onekit.Onkir.Walk.Reach.{Stored, Finds, ws_id_field-Finds, message_has_raw-RawBehind}
use onekit.Onkir.Walk.Behind.{RawBehind}
use onekit.Onkexpr.Samples.{field_of, pet}

abbrev route : List Segment
route = literal (bytes "pets") ∷ param (bytes "id") ∷ wildcard (bytes "rest") ∷ []

route_text : render route ≡ bytes "/pets/{id}/{rest...}"
route_text = refl

path_param_names-render_example :
    path_param_names (bytes "/pets/{id}/{rest...}") ≡ bytes "id" ∷ bytes "rest" ∷ []
path_param_names-render_example =
    path_param_names-render route
      (unfold has_suffix in (omega arith, ((omega arith, (omega arith, refl)), (omega arith, tt))))

wildcard_param-render_example : wildcard_param (bytes "/pets/{id}/{rest...}") ≡ some (bytes "rest")
wildcard_param-render_example =
    wildcard_param-render (literal (bytes "pets") ∷ param (bytes "id") ∷ []) (bytes "rest")
      (omega arith)

wildcard_spelled : path_placeholder (bytes "/pets/{rest...}") (bytes "rest") ≡ bytes "{rest...}"
unfolding path_placeholder text_eq
wildcard_spelled = refl

mebibytes : parse_byte_size (bytes " 2 MiB ") ≡ some (pos 2_097_152)
unfolding parse_byte_size
mebibytes = refl

too_large : parse_byte_size (bytes "4294967297GiB") ≡ none
unfolding parse_byte_size
too_large = refl

parse_byte_size-exact_size_example :
    parse_byte_size (bytes "64KiB")
    ≡ exact_size
        (strip_unit units (trim_space (bytes "64KiB"))).1
        (parse_int64 (strip_unit units (trim_space (bytes "64KiB"))).0)
parse_byte_size-exact_size_example = parse_byte_size-exact_size (bytes "64KiB")

abbrev tagged : Text → Field → Field
tagged name f = record f { decorators = record { name = name; args = [] } ∷ [] }

abbrev frame : List Field → Schema.Message
frame fields = record pet { fields = fields; decorators = [] }

abbrev self_field : Field
self_field = field_of (bytes "next") (FieldType.message 0) false

abbrev pet_id : Field
pet_id = tagged (bytes "ws_id") (field_of (bytes "id") (FieldType.scalar ScalarKind.string) false)

abbrev raw_body : Field
raw_body = tagged (bytes "raw") (field_of (bytes "body") (FieldType.scalar ScalarKind.bytes) false)

-- Every message leads back to the first, which has an id and a raw body.
abbrev looped : Schema
looped = record {
  message_at = λ _. frame (self_field ∷ pet_id ∷ raw_body ∷ []);
  enum_at =
      λ _. record { name = []; schema_name = []; values = []; package_name = none; parent = none };
}

looped-Stored : Stored 1 looped
looped-Stored = λ i h. omega arith

ws_id_field-Finds_example : Finds looped 0 (ws_id_field looped 1 0)
ws_id_field-Finds_example = ws_id_field-Finds looped 1 looped-Stored 0 (omega arith)

message_has_raw-RawBehind_example :
    (message_has_raw looped 1 (λ _. false) 0 ≡ true) ↔ RawBehind looped (λ _. false) 0
message_has_raw-RawBehind_example =
    message_has_raw-RawBehind looped (λ _. false) 1 looped-Stored 0 (omega arith)
