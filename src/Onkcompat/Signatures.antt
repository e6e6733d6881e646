-- ===== src/Onkcompat/Signatures.antt =====
-- internal/onkcompat/compat.go: what is compared of a field, a header and a method, as texts.
pub mod Types
pub mod Constraints
pub mod Contract
use onekit.Base.{
  ℕ, Bool, true, false, not, Option, none, some, List, [], ◌∷◌, ◌++◌, map, Text, bytes, text_eq,
  ◌&&◌, ◌||◌, any, keep, if◌then◌else◌,
}
use onekit.Base.Int.{ℤ, pos, eqb_ℤ}
use onekit.Base.Decimal.{format_int}
use onekit.Base.Strings.{join}
use onekit.Base.Sort.{sort_texts}
use onekit.Onkir.Schema
use onekit.Onkir.Schema.{
  Schema, ScalarKind, FieldType, Field, Oneof, OneofVariant, Arg, Decorator, Header, Service,
  Method,
}
use onekit.Onkir.Decorators.{find_decorator, value}
use onekit.Onkir.Members.{
  is_some, or_empty, discriminator, flatten, tag, required, format, auth_type, field_has,
}
use onekit.Onkir.Methods.{
  required_scopes, guards, is_raw_http, raw_content_type, raw_request_kind, raw_response_kind,
  success_status, is_stream, body_field, meta, MetaEntry, status_code,
}
use onekit.Onkir.Names.{scalar_name, full_name, enum_full_name}
use onekit.Onkexpr.Authorize.{authorize_rules}

-- `%t`
abbrev bool_text : Bool → Text
bool_text true = bytes "true"
bool_text false = bytes "false"

-- `decoratorSignature`
unfoldable pub decorator_signature : Decorator → Text
unfolding join
decorator_signature d = join (bytes ":") (d.name ∷ map (λ a. a.name ++ bytes "=" ++ a.value) d.args)

-- `isRequired`
unfoldable pub is_required : Field → Bool
unfolding find_decorator
is_required f = not f.optional || field_has f (bytes "required")

-- `messageRulesSignature`
unfoldable pub message_rules_signature : Schema.Message → Text
unfolding decorator_signature join
message_rules_signature m =
    join (bytes "|") (
      sort_texts (map decorator_signature (keep (λ d. text_eq d.name (bytes "rule")) m.decorators)))

module _ (schema : Schema) where
  type_text : FieldType → Text
  unfolding full_name enum_full_name
  type_text (FieldType.scalar k) = scalar_name k
  type_text (FieldType.message i) = bytes "message:" ++ full_name schema (schema.message_at i)
  type_text (FieldType.enum i) = bytes "enum:" ++ enum_full_name schema (schema.enum_at i)
  type_text (FieldType.map_of k t) = bytes "map:" ++ scalar_name k ++ bytes ":" ++ type_text t

  -- `typeName`
  unfoldable pub type_name : Option FieldType → Text
  unfolding type_text
  type_name none = []
  type_name (some t) = type_text t

  variant_signature : OneofVariant → Text
  unfolding type_name tag decorator_signature join
  variant_signature v =
      v.name
      ++ bytes ":"
      ++ type_name v.type
      ++ bytes ":"
      ++ tag v
      ++ bytes ":"
      ++ join (bytes ",") (sort_texts (map decorator_signature v.decorators))

  abbrev or_type : Text → Text
  or_type s = if text_eq s [] then bytes "type" else s

  oneof_parts : Option Oneof → List Text
  unfolding variant_signature join flatten
  oneof_parts none = []
  oneof_parts (some o) =
      bytes "oneof"
      ∷ (bytes "variants=" ++ join (bytes "|") (sort_texts (map variant_signature o.variants)))
      ∷ (bytes "discriminator=" ++ or_type (or_empty (discriminator o)))
      ∷ (bytes "flatten=" ++ bool_text (flatten o))
      ∷ []

  -- `fieldTypeSignature`
  unfoldable pub field_type_signature : Field → Text
  unfolding oneof_parts type_name join
  field_type_signature f =
      join (bytes "|")
        (type_name f.type ∷ (bytes "repeated=" ++ bool_text f.repeated) ∷ oneof_parts f.oneof)

abbrev single_value : List Arg → Text → Bool
single_value (a ∷ []) s = text_eq a.value s
single_value _ s = false

abbrev is_64_bit : Option FieldType → Bool
is_64_bit (some (FieldType.scalar ScalarKind.int64)) = true
is_64_bit (some (FieldType.scalar ScalarKind.uint64)) = true
is_64_bit _ = false

-- `int64AsNumber`
unfoldable pub int64_as_number : Field → Bool
int64_as_number f =
    f.int64_number
    || is_64_bit f.type
      && any (λ d. text_eq d.name (bytes "encode") && single_value d.args (bytes "number"))
          f.decorators

-- A decorator that stands in the contract of a field.
abbrev in_contract : Bool → Decorator → Bool
in_contract numeric d =
    not (text_eq d.name (bytes "query") || text_eq d.name (bytes "required"))
    && not (numeric && text_eq d.name (bytes "encode"))

abbrev only_if : Bool → Text → List Text
only_if b s = if b then s ∷ [] else []

-- The texts of the decorators and flags in the contract of a field.
unfoldable pub contract_parts : Field → List Text
unfolding int64_as_number decorator_signature
contract_parts f =
    let numeric = int64_as_number f in
    map decorator_signature (keep (in_contract numeric) f.decorators)
    ++ only_if numeric (bytes "encode:number")
    ++ only_if f.emit_zero (bytes "emit:zero")
    ++ only_if f.nullable (bytes "nullable")

-- `fieldContractSignature`
unfoldable pub field_contract_signature : Field → Text
unfolding contract_parts join
field_contract_signature f = join (bytes "|") (sort_texts (contract_parts f))

-- `strings.ToLower`, which needs the tables of Unicode.
module _ (to_lower : Text → Text) where
  abbrev is_compared : Decorator → Bool
  is_compared d = not (
      text_eq d.name (bytes "example")
      || text_eq d.name (bytes "deprecated")
      || text_eq d.name (bytes "auth_scheme_name"))

  -- `headerSignature`
  unfoldable pub header_signature : Header → Text
  unfolding decorator_signature find_decorator join
  header_signature h = join (bytes ":") (
      sort_texts (
        to_lower h.name
        ∷ scalar_name h.type
        ∷ (bytes "required=" ++ bool_text (required h))
        ∷ map decorator_signature (keep is_compared h.decorators)))

  abbrev is_signed : Header → Bool
  unfolding find_decorator
  is_signed h = required h || is_some (format h) || is_some (auth_type h)

  module _ (schema : Schema) where
    abbrev or_field_name : Text → Text → Text
    or_field_name name s = if text_eq s [] then name else s

    abbrev query_part : Field → Option Decorator → List Text
    query_part f none = []
    query_part f (some d) =
        (bytes "query=" ++ f.name ++ bytes ":" ++ or_field_name f.name (or_empty (value d))) ∷ []

    query_parts : List Field → List Text
    unfolding find_decorator
    query_parts [] = []
    query_parts (f ∷ fs) =
        query_part f (find_decorator f.decorators (bytes "query")) ++ query_parts fs

    abbrev prefixed : Text → List Text → List Text
    prefixed p = map (λ s. p ++ s)

    abbrev body_part : Option Text → List Text
    body_part none = []
    body_part (some b) = (bytes "body=" ++ b) ∷ []

    abbrev or_500 : Option ℤ → ℤ
    or_500 none = pos 500
    or_500 (some n) = n

    error_part : ℕ → Text
    unfolding full_name status_code format_int
    error_part i =
        bytes "error="
        ++ full_name schema (schema.message_at i)
        ++ bytes ":"
        ++ format_int (or_500 (status_code (schema.message_at i)))

    raw_parts : Method → List Text
    unfolding raw_content_type raw_request_kind raw_response_kind
    raw_parts m =
        if is_raw_http m
        then (bytes "http=" ++ raw_content_type m)
          ∷ (bytes "http-request=" ++ raw_request_kind m)
          ∷ (bytes "http-response=" ++ raw_response_kind m)
          ∷ []
        else []

    success_part : Method → List Text
    unfolding success_status format_int
    success_part m =
        if eqb_ℤ (success_status m) (pos 200)
        then []
        else (bytes "success=" ++ format_int (success_status m)) ∷ []

    -- `methodSignature`
    unfoldable pub method_signature : Service → Method → List Text
    unfolding full_name query_parts header_signature is_signed required_scopes authorize_rules
        decorator_signature raw_parts success_part error_part
    method_signature s m = sort_texts (
        (bytes "service=" ++ s.name)
          ∷ (bytes "method=" ++ m.name)
          ∷ (bytes "request=" ++ full_name schema (schema.message_at m.request))
          ∷ (bytes "response=" ++ full_name schema (schema.message_at m.response))
          ∷ (bytes "stream=" ++ bool_text (is_stream m))
          ∷ body_part (body_field m)
        ++ query_parts (schema.message_at m.request).fields
        ++ prefixed (bytes "header=")
            (map header_signature (keep is_signed (s.headers ++ m.headers)))
        ++ prefixed (bytes "requires=") (required_scopes m)
        ++ prefixed (bytes "authorize=") (map decorator_signature (authorize_rules m.decorators))
        ++ raw_parts m
        ++ success_part m
        ++ map (λ (e : MetaEntry). bytes "meta=" ++ e.key ++ bytes "=" ++ e.value) (meta m)
        ++ prefixed (bytes "guard=") (guards m)
        ++ map error_part m.error_types)
