-- ===== src/Onkexpr/Samples.antt =====
-- internal/onkexpr: a schema, a message and names that the tests share.
use onekit.Base.{
  Option, Bool, true, false, none, some, List, [], ◌∷◌, Text, bytes, text_eq, if◌then◌else◌,
}
use onekit.Base.Int.{ℤ, ◌+ℤ◌, ◌-ℤ◌, ◌*ℤ◌, quot, neg_ℤ, ltb_ℤ, eqb_ℤ}
use onekit.Onkir.Schema
use onekit.Onkir.Schema.{Schema, Field, Arg, Decorator, FieldType, ScalarKind}
use onekit.Onkexpr.Pattern.{MatchesValid}
use onekit.Onkexpr.Syntax.{Ty}
use onekit.Onkexpr.Value.{Value, Values, Entries, FloatOps}
use onekit.Onkexpr.Exec.{Scope}
use onekit.Onkexpr.Check.Types.{Names}

-- Numbers with a fraction, of which these runs have none, as integers.
abbrev pub whole_numbers : FloatOps ℤ
whole_numbers = record {
  add = ◌+ℤ◌;
  sub = ◌-ℤ◌;
  mul = ◌*ℤ◌;
  div = quot;
  neg = neg_ℤ;
  lt = ltb_ℤ;
  eq = eqb_ℤ;
  is_inf = λ x. false;
  is_nan = λ x. false;
  of_int = λ n. n;
  to_int = λ x. x;
}

-- The match of a text by patterns that are literals.
abbrev pub equal_texts : Text → Text → Option Bool
equal_texts re s = some (text_eq re s)

pub equal_texts-MatchesValid : MatchesValid equal_texts
equal_texts-MatchesValid re s h e = cc

abbrev pub field_of : Text → FieldType → Bool → Field
field_of name type repeated = record {
  name = name;
  type = some type;
  repeated = repeated;
  optional = false;
  decorators = [];
  oneof = none;
  int64_number = false;
  emit_zero = false;
  nullable = false;
}

abbrev pub argument : Text → Arg
argument s = record { name = []; value = s; quoted = true }

-- `@rule(expression, message)`
abbrev rule : Text → Text → Decorator
rule src message = record { name = bytes "rule"; args = argument src ∷ argument message ∷ [] }

abbrev pub pet_rule : Text
pet_rule =
    bytes "self.kind == \"cat\" && self.tags.all(t, t != self.name) && size(self.tags[1]) < 2"

abbrev pub name_field : Field
name_field = record (field_of (bytes "name") (FieldType.scalar ScalarKind.string) false) {
  decorators = rule (bytes "size(value) > 3") (bytes "the name is short") ∷ [];
}

abbrev pub kind_field : Field
kind_field = field_of (bytes "kind") (FieldType.enum 0) false

abbrev pub tags_field : Field
tags_field = field_of (bytes "tags") (FieldType.scalar ScalarKind.string) true

abbrev pub pet : Schema.Message
pet = record {
  name = bytes "Pet";
  schema_name = bytes "Pet";
  error_type = false;
  fields = name_field ∷ kind_field ∷ tags_field ∷ [];
  nested = [];
  nested_enums = [];
  decorators = rule pet_rule (bytes "no cat") ∷ [];
  package_name = none;
  parent = none;
}

abbrev pub kind_enum : Schema.Enum
kind_enum = record {
  name = bytes "Kind";
  schema_name = bytes "Kind";
  values = record { name = bytes "cat"; decorators = [] } ∷ [];
  package_name = none;
  parent = none;
}

abbrev pub schema : Schema
schema = record { message_at = λ m. pet; enum_at = λ e. kind_enum }

-- `self` is the message.
abbrev pub names : Names
names = record {
  scope = [];
  env = λ name. if text_eq name (bytes "self") then some (Ty.message 0) else none;
}

abbrev pub strings : List Text → Values ℤ
strings [] = Values.nil
strings (s ∷ ss) = Values.cons (Value.string s) (strings ss)

-- The field `kind` is missing.
abbrev pub tom : Entries ℤ
tom =
    Entries.entry (bytes "name") (Value.string (bytes "Tom"))
      (Entries.entry (bytes "tags") (Value.list (strings (bytes "a" ∷ bytes "b" ∷ []))) Entries.end)

abbrev pub scope : Scope ℤ
scope name = if text_eq name (bytes "self") then some (Value.object tom) else none
