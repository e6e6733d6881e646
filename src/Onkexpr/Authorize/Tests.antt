-- ===== src/Onkexpr/Authorize/Tests.antt =====
-- internal/onkexpr: a method with rules of authorization, and the theorems at it.
use onekit.Base.{◌≡◌, refl, Option, none, some, List, [], ◌∷◌, Text, bytes, text_eq, All}
use onekit.Base.Int.{ℤ}
use onekit.Onkir.Schema
use onekit.Onkir.Schema.{Schema, Decorator}
use onekit.Onkexpr.Syntax.{Ty}
use onekit.Onkexpr.Value
use onekit.Onkexpr.Value.{Value}
use onekit.Onkexpr.Samples.{equal_texts, equal_texts-MatchesValid, whole_numbers, schema, argument}
use onekit.Onkexpr.Check.Types.{require}
use onekit.Onkexpr.Soundness.Typed
use onekit.Onkexpr.Soundness.Typed.{HasType, Good}
use onekit.Onkexpr.Soundness.Fields.{Named}
use onekit.Onkexpr.Rules
use onekit.Onkexpr.Rules.{Compiled}
use onekit.Onkexpr.Authorize.{AuthRule, auth_rules_for}
use onekit.Onkexpr.Authorize.Sound.{
  RulesOf, Answers, auth_rules_for-RulesOf, eval_bool-auth_rules_for,
}

abbrev authorize : Text → Text → Decorator
authorize src message = record {
  name = bytes "authorize";
  args = argument src ∷ argument message ∷ [];
}

abbrev rename : Schema.Method
rename = record {
  name = bytes "Rename";
  request = 0;
  response = 0;
  error_types = [];
  decorators = authorize (bytes "auth.name == req.name") (bytes "not yours") ∷ [];
  headers = [];
  principal = some 0;
}

abbrev no_float : Text → Option ℤ
no_float s = none

-- Only run on a method whose rules compile.
abbrev rules_in : Compiled (List (AuthRule ℤ)) → List (AuthRule ℤ)
rules_in (Rules.ok rules) = rules
rules_in (Rules.failed e) = []

abbrev rename_rules : List (AuthRule ℤ)
rename_rules = rules_in (auth_rules_for schema no_float rename)

rename_rules_compile : auth_rules_for schema no_float rename ≡ Rules.ok rename_rules
unfolding auth_rules_for require
rename_rules_compile = refl

no_principal :
    auth_rules_for {F = ℤ} schema no_float (record rename { principal = none })
    ≡ Rules.failed Rules.needs_principal
unfolding auth_rules_for text_eq
no_principal = refl

schema-Named : Named schema
schema-Named e = cc

empty-HasType : HasType {F = ℤ} schema (Value.object Value.end) (Ty.message 0)
empty-HasType = Typed.is_message Typed.no_field

auth_rules_for-RulesOf_example :
    RulesOf schema no_float rename.principal rename.request rename.decorators rename_rules
auth_rules_for-RulesOf_example =
    auth_rules_for-RulesOf schema no_float rename rename_rules rename_rules_compile

eval_bool-auth_rules_for_example :
    All
      (Answers whole_numbers schema equal_texts schema-Named equal_texts-MatchesValid no_float 0 0
        Value.end Value.end)
      rename_rules
eval_bool-auth_rules_for_example =
    eval_bool-auth_rules_for whole_numbers schema equal_texts schema-Named equal_texts-MatchesValid
      no_float rename 0 rename_rules Value.end Value.end refl rename_rules_compile empty-HasType
      empty-HasType
