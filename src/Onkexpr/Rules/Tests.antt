-- ===== src/Onkexpr/Rules/Tests.antt =====
-- internal/onkexpr: a message with rules, decoded and tested, and the theorems at it.
use onekit.Base.{◌≡◌, refl, Option, none, List, [], ◌∷◌, Text, bytes, text_eq}
use onekit.Base.Int.{ℤ}
use onekit.Onkexpr.Outcome.{Result}
use onekit.Onkexpr.Syntax.{Ty}
use onekit.Onkexpr.Value
use onekit.Onkexpr.Value.{Value}
use onekit.Onkexpr.Samples.{equal_texts, whole_numbers, schema, tom}
use onekit.Onkexpr.Check.Types.{require, find_field}
use onekit.Onkexpr.Soundness.Typed
use onekit.Onkexpr.Soundness.Typed.{HasType, Fields}
use onekit.Onkexpr.Json
use onekit.Onkexpr.Json.{Json, Decoded, from_json}
use onekit.Onkexpr.Json.Decodes.{Unique, OfType, from_json-OfType}
use onekit.Onkexpr.Rules
use onekit.Onkexpr.Rules.{Compiled, Rule, rules_for, violations}

abbrev raw : Json ℤ
raw = Json.members (
    Json.member (bytes "tags")
      (Json.array (Json.cons (Json.text (bytes "a")) (Json.cons (Json.text (bytes "b")) Json.nil)))
      (Json.member (bytes "name") (Json.text (bytes "Tom")) Json.end))

abbrev no_base64 : Text → Option Text
no_base64 s = none

abbrev no_float : Text → Option ℤ
no_float s = none

-- In the order of the fields; a field that is missing stays so.
raw_decodes :
    from_json whole_numbers no_float no_base64 schema (Ty.message 0) raw
    ≡ Json.ok (Value.object tom)
unfolding from_json text_eq
raw_decodes = refl

not_an_object :
    from_json whole_numbers no_float no_base64 schema (Ty.message 0) (Json.text [])
    ≡ Json.failed Json.expected_object
unfolding from_json
not_an_object = refl

schema-Unique : Unique schema
unfolding find_field text_eq
schema-Unique i = (refl, (refl, (refl, tt)))

from_json-OfType_example : OfType schema (Value.object tom) (Ty.message 0)
from_json-OfType_example =
    from_json-OfType whole_numbers no_float no_base64 schema schema-Unique (Ty.message 0) raw
      (Value.object tom) raw_decodes

-- Only run on a message whose rules compile.
abbrev rules_in : Compiled (List (Rule ℤ)) → List (Rule ℤ)
rules_in (Rules.ok rules) = rules
rules_in (Rules.failed e) = []

abbrev pet_rules : List (Rule ℤ)
pet_rules = rules_in (rules_for schema no_float 0)

-- The rule of the message holds, that of the field `name` does not.
tom_breaks :
    violations whole_numbers schema equal_texts no_float 0 tom
    ≡ Rules.ok (Result.ok (bytes "the name is short" ∷ []))
unfolding violations require
tom_breaks = refl
