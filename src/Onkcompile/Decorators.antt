-- ===== src/Onkcompile/Decorators.antt =====
-- internal/onkcompile/validate.go: `validateDecorators` with the tables of what each decorator takes.
pub mod Located
pub mod Counted
use onekit.Base.{
  ℕ, ◌≡◌, ◌≤◌, refl, Bool, true, false, not, Option, none, some, List, [], ◌∷◌, Text, bytes,
  text_eq, ◌&&◌, ◌||◌, ltb, ◌==◌, any, length, if◌then◌else◌,
}
use onekit.Base.Int.{ℤ, pos, ltb_ℤ}
use onekit.Base.Decimal.{parse_int64}
use onekit.Base.Dict.{lookup}
use onekit.Onkir.Schema.{Arg}
use onekit.Onkschema.{Decorator}
use onekit.Onkcompile.Errors.{
  Complaint, CompileError, unknown_decorator, duplicate_decorator, argument_count, empty_argument,
  named_argument, error_status, auth_kind, flatten_argument, flatten_prefix, contains,
}
use onekit.Onkcompile.Names.{is_generated_key}
use onekit.Onkcompile.Checked.{
  Checked, passed, refused, when, and_next, pass_all, pass_each, with_value,
}

-- `decoratorRule`; no most is -1.
pub record Rule : Type 0 where
  pub min_args : ℕ
  pub max_args : Option ℕ

abbrev exactly : ℕ → Rule
exactly n = record { min_args = n; max_args = some n }

abbrev at_most_one : Rule
at_most_one = record { min_args = 0; max_args = some 1 }

abbrev pub Rules : Type 0
Rules = List (Text × Rule)

-- `messageDecorators`
unfoldable pub message_decorators : Rules
message_decorators =
    (bytes "status", exactly 1) ∷ (bytes "rule", exactly 2) ∷ (bytes "principal", exactly 0) ∷ []

-- `fieldDecorators`
unfoldable pub field_decorators : Rules
field_decorators =
    (bytes "email", exactly 0)
    ∷ (bytes "uuid", exactly 0)
    ∷ (bytes "uri", exactly 0)
    ∷ (bytes "required", exactly 0)
    ∷ (bytes "nullable", exactly 0)
    ∷ (bytes "unwrap", exactly 0)
    ∷ (bytes "object", exactly 0)
    ∷ (bytes "len", exactly 2)
    ∷ (bytes "range", exactly 2)
    ∷ (bytes "in", record { min_args = 1; max_args = none })
    ∷ (bytes "pattern", exactly 1)
    ∷ (bytes "gt", exactly 1)
    ∷ (bytes "gte", exactly 1)
    ∷ (bytes "lt", exactly 1)
    ∷ (bytes "lte", exactly 1)
    ∷ (bytes "min_items", exactly 1)
    ∷ (bytes "max_items", exactly 1)
    ∷ (bytes "flatten", at_most_one)
    ∷ (bytes "encode", exactly 1)
    ∷ (bytes "empty", exactly 1)
    ∷ (bytes "query", at_most_one)
    ∷ (bytes "ws_id", exactly 0)
    ∷ (bytes "raw", exactly 0)
    ∷ (bytes "ws_timeout", exactly 0)
    ∷ (bytes "deprecated", at_most_one)
    ∷ (bytes "rule", exactly 2)
    ∷ []

-- `headerDecorators`
unfoldable pub header_decorators : Rules
header_decorators =
    (bytes "required", exactly 0)
    ∷ (bytes "format", exactly 1)
    ∷ (bytes "example", exactly 1)
    ∷ (bytes "deprecated", at_most_one)
    ∷ (bytes "auth", exactly 1)
    ∷ (bytes "auth_scheme_name", exactly 1)
    ∷ []

-- `enumValueDecorators`
unfoldable pub enum_value_decorators : Rules
enum_value_decorators = (bytes "json", exactly 1) ∷ []

-- `variantDecorators`
unfoldable pub variant_decorators : Rules
variant_decorators =
    (bytes "tag", exactly 1) ∷ (bytes "json", exactly 1) ∷ (bytes "ws_cancel", exactly 0) ∷ []

-- The position of the decorator, or that of the declaration where it has none.
abbrev pub at_place : Text → ℕ → Decorator → Complaint → CompileError
at_place path line d msg = record {
  path = path;
  line = if ltb 0 d.line then d.line else line;
  column = if ltb 0 d.line then d.col else 0;
  code = [];
  msg = msg;
}

abbrev pub exceeds : Option ℕ → ℕ → Bool
exceeds none n = false
exceeds (some most) n = ltb most n

-- The loop over the arguments.
unfoldable pub argument_checks : Text → ℕ → Decorator → Arg → List Checked
argument_checks path line d a =
    when
      (not (text_eq a.name [])
        && (not (text_eq d.name (bytes "flatten")) || not (text_eq a.name (bytes "prefix"))))
      (at_place path line d (named_argument d.name a.name))
    ∷ when
        (text_eq a.value []
          && not (text_eq d.name (bytes "flatten"))
          && not (text_eq d.name (bytes "in")))
        (at_place path line d (empty_argument d.name))
    ∷ []

abbrev pub argument_checked : Text → ℕ → Decorator → Arg → Checked
unfolding pass_all argument_checks
argument_checked path line d a = pass_all (argument_checks path line d a)

abbrev pub is_error_status : Option ℤ → Bool
is_error_status none = false
is_error_status (some s) = not (ltb_ℤ s (pos 400)) && not (ltb_ℤ (pos 599) s)

abbrev pub prefix_checked : Text → ℕ → Decorator → Arg → Checked
unfolding is_generated_key
prefix_checked path line d a =
    when (text_eq a.name (bytes "prefix") && not (is_generated_key a.value))
      (at_place path line d flatten_prefix)

abbrev pub is_unnamed : List Arg → Bool
is_unnamed (a ∷ []) = not (text_eq a.name (bytes "prefix"))
is_unnamed _ = false

-- The `switch` on the name.
unfoldable pub value_checked : Text → ℕ → Decorator → Checked
unfolding parse_int64 pass_each
value_checked path line d =
    if text_eq d.name (bytes "status")
    then with_value 0 d.args
        (λ v. when (not (is_error_status (parse_int64 v))) (at_place path line d error_status))
    else if text_eq d.name (bytes "auth")
    then with_value 0 d.args (λ v.
      when
        (not (text_eq v (bytes "api_key"))
          && not (text_eq v (bytes "bearer"))
          && not (text_eq v (bytes "basic")))
        (at_place path line d auth_kind))
    else if text_eq d.name (bytes "flatten")
    then and_next (when (is_unnamed d.args) (at_place path line d flatten_argument))
        (pass_each (prefix_checked path line d) d.args)
    else passed

-- One round of the loop over the decorators, with the names seen.
unfoldable pub rule_checks : Text → ℕ → List Text → Rule → Decorator → List Checked
unfolding pass_each argument_checked value_checked
rule_checks path line seen rule d =
    when (contains seen d.name && not (text_eq d.name (bytes "rule")))
      (at_place path line d (duplicate_decorator d.name))
    ∷ when (ltb (length d.args) rule.min_args || exceeds rule.max_args (length d.args))
        (at_place path line d (argument_count d.name))
    ∷ pass_each (argument_checked path line d) d.args
    ∷ value_checked path line d
    ∷ []

abbrev pub decorator_checked : Text → ℕ → List Text → Option Rule → Decorator → Checked
unfolding pass_all rule_checks
decorator_checked path line seen none d = refused (at_place path line d (unknown_decorator d.name))
decorator_checked path line seen (some rule) d = pass_all (rule_checks path line seen rule d)

unfoldable pub decorators_checked : Text → ℕ → Rules → List Text → List Decorator → Checked
unfolding decorator_checked lookup
decorators_checked path line rules seen [] = passed
decorators_checked path line rules seen (d ∷ ds) =
    and_next (decorator_checked path line seen (lookup d.name rules) d)
      (decorators_checked path line rules (d.name ∷ seen) ds)

-- `validateDecorators`
unfoldable pub validate_decorators : Text → ℕ → List Decorator → Rules → Checked
unfolding decorators_checked
validate_decorators path line ds rules = decorators_checked path line rules [] ds
