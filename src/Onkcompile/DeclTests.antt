-- ===== src/Onkcompile/DeclTests.antt =====
-- internal/onkcompile, run on declarations of fields and enums.
use onekit.Onkir.Names.{kind_in}
use onekit.Base.{
  map, String, ℕ, ◌≡◌, ◌≢◌, refl, Bool, true, false, none, some, List, [], ◌∷◌, Text, bytes,
  text_eq, ltb,
}
use onekit.Base.Decimal.{parse_nat}
use onekit.Onkir.Schema.{Arg}
use onekit.Onkschema.{Decorator, named, FieldDecl, EnumDecl}
use onekit.Onkschema.{HeaderDecl}
use onekit.Onkcompile.Errors.{Options, at_line, min_above_max, argument_count}
use onekit.Onkcompile.Checked.{passed, refused, Returns}
use onekit.Onkcompile.Decorators.{field_decorators, at_place, validate_decorators}
use onekit.Onkcompile.Values.{node, no_part, Readers}
use onekit.Onkcompile.Fields.{validate_field_decl}
use onekit.Onkcompile.Fields.Returns.{validate_field_decl-Returns}
use onekit.Onkcompile.Names.{lower_ascii}
use onekit.Onkcompile.Headers.{validate_headers}
use onekit.Onkcompile.Headers.Returns.{validate_headers-Returns}
use onekit.Onkcompile.Headers.Accepted.{Headers, validate_headers-Headers}
use onekit.Onkcompile.Enums.{validate_enum_decl}
use onekit.Onkcompile.Enums.Accepted.{Unlike, identifier_of, wire_name, validate_enum_decl-Unlike}

abbrev starts_upper : Text → Bool
starts_upper [] = false
starts_upper (c ∷ s) = ltb c 0x5B

-- Floats that are natural numbers, and patterns that are all literals.
abbrev readers : Readers ℕ
unfolding parse_nat
readers = record {
  parse_float = parse_nat;
  is_above = λ a b. ltb b a;
  compiles = λ s. true;
  parse_regexp = λ s. some (node false no_part);
  to_lower = λ s. s;
  starts_upper = starts_upper;
}

abbrev options : Options
options = record { allow_legacy_contracts = false; targets = none }

abbrev value : String → Arg
value v = record { name = []; value = bytes v; quoted = false }

abbrev decorator : String → List Arg → ℕ → Decorator
decorator name args line = record { name = bytes name; args = args; line = line; col = 3 }

abbrev field : List Decorator → FieldDecl
field ds = record {
  name = bytes "title";
  type = some (named (bytes "string"));
  repeated = false;
  optional = false;
  decorators = ds;
  oneof = none;
  line = 4;
}

abbrev titled : FieldDecl
titled = field (decorator "required" [] 4 ∷ decorator "len" (value "1" ∷ value "9" ∷ []) 5 ∷ [])

abbrev swapped : FieldDecl
swapped = field (decorator "len" (value "9" ∷ value "1" ∷ []) 5 ∷ [])

abbrev short : FieldDecl
short = field (decorator "required" [] 4 ∷ decorator "len" (value "9" ∷ []) 5 ∷ [])

titled_passes : validate_field_decl readers (bytes "a") options titled ≡ passed
unfolding validate_field_decl text_eq
titled_passes = refl

swapped_refused :
    validate_field_decl readers (bytes "a") options swapped
    ≡ refused (at_line (bytes "a") 4 (min_above_max (bytes "len")))
unfolding validate_field_decl text_eq
swapped_refused = refl

short_refused :
    validate_decorators (bytes "a") 4 short.decorators field_decorators
    ≡ refused
        (at_place (bytes "a") 4 (decorator "len" (value "9" ∷ []) 5) (argument_count (bytes "len")))
unfolding validate_decorators field_decorators text_eq
short_refused = refl

validate_field_decl-Returns_example :
    Returns (validate_field_decl readers (bytes "a") options short)
validate_field_decl-Returns_example = validate_field_decl-Returns readers (bytes "a") options short

abbrev colors : EnumDecl
colors = record {
  name = bytes "Color";
  values =
      record {
        name = bytes "RED";
        decorators = decorator "json" (value "red" ∷ []) 2 ∷ [];
        line = 2;
      }
      ∷ record { name = bytes "GREEN"; decorators = []; line = 3 }
      ∷ [];
  line = 1;
}

colors_pass : validate_enum_decl readers (bytes "a") options colors ≡ passed
unfolding validate_enum_decl text_eq
colors_pass = refl

validate_enum_decl-Unlike_example :
    (colors.values ≢ [])
    × (Unlike (λ v. v.name) colors.values
        × (Unlike identifier_of colors.values × Unlike wire_name colors.values))
validate_enum_decl-Unlike_example =
    validate_enum_decl-Unlike readers (bytes "a") options colors colors_pass

abbrev same_text : Text → Text → Bool
unfolding text_eq
same_text a b = text_eq a b

abbrev headers : List HeaderDecl
headers =
    record {
      name = bytes "Authorization";
      type = bytes "string";
      decorators = decorator "required" [] 2 ∷ decorator "auth" (value "bearer" ∷ []) 2 ∷ [];
      line = 2;
    }
    ∷ record { name = bytes "X-Trace"; type = bytes "string"; decorators = []; line = 3 }
    ∷ []

headers_pass : validate_headers (map lower_ascii) same_text (bytes "a") headers ≡ passed
unfolding validate_headers text_eq kind_in
headers_pass = refl

validate_headers-Returns_example :
    Returns (validate_headers (map lower_ascii) same_text (bytes "a") headers)
validate_headers-Returns_example =
    validate_headers-Returns (map lower_ascii) same_text (bytes "a") headers

validate_headers-Headers_example : Headers (map lower_ascii) headers
validate_headers-Headers_example =
    validate_headers-Headers (map lower_ascii) same_text (bytes "a") headers headers_pass
