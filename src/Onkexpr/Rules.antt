-- ===== src/Onkexpr/Rules.antt =====
-- internal/onkexpr/rules.go: the rules of a message, and which of them a value breaks.
pub mod Verdicts
pub mod Violations
mod Tests
use onekit.Base.{
  ℕ, Bool, true, false, not, Option, none, some, List, [], ◌∷◌, ◌++◌, Text, bytes, text_eq,
  if◌then◌else◌,
}
use onekit.Onkir.Schema.{Schema, Field, Arg, Decorator}
use onekit.Onkexpr.Outcome.{EvalError, Result}
use onekit.Onkexpr.Source.{Outcome, SyntaxError}
use onekit.Onkexpr.Syntax.{Ty, Node}
use onekit.Onkexpr.Value
use onekit.Onkexpr.Value.{Value, Entries, FloatOps, find}
use onekit.Onkexpr.Exec.{Scope}
use onekit.Onkexpr.Operators.{zero_value}
use onekit.Onkexpr.Check.{check_rule}
use onekit.Onkexpr.Check.Types.{Names, Checked, Complaint, field_type, has_no_type}
use onekit.Onkexpr.Eval.{eval_bool}

-- `out_of_fuel` has no counterpart in the program.
pub data RuleError : Type 0 where
  needs_two_arguments : RuleError
  needs_principal : RuleError
  no_type : Text → RuleError
  nil_dereference : RuleError
  syntax : SyntaxError → RuleError
  ill_typed : ℕ → Complaint → RuleError
  out_of_fuel : RuleError

pub data Compiled {ℓ} (A : Type ℓ) : Type ℓ where
  ok : A → Compiled A
  failed : RuleError → Compiled A

module _ {A B : Type 0} where
  infixl 5 ◌>>=◌
  abbrev pub ◌>>=◌ : Compiled A → (A → Compiled B) → Compiled B
  ok a >>= f = f a
  failed e >>= f = failed e

-- `Rule`
pub record Rule (F : Type 0) : Type 0 where
  pub source : Text
  pub message : Text
  pub expr : Node F
  pub field : Option Field

-- `self` is the message, and `value` the field that the rule stands at.
abbrev pub names_of : ℕ → Option Ty → Names
names_of i t = record {
  scope = [];
  env = λ name.
      if text_eq name (bytes "self")
      then some (Ty.message i)
      else if text_eq name (bytes "value")
      then t
      else none;
}

-- The error of `FieldType`, or its panic where a field that is no oneof has no type.
abbrev pub type_error : Field → RuleError
type_error f = if has_no_type f.oneof f.type then nil_dereference else no_type f.name

abbrev pub typed_names : ℕ → Field → Option Ty → Compiled Names
typed_names i f none = failed (type_error f)
typed_names i f (some t) = ok (names_of i (some t))

-- `Env`
abbrev pub env : ℕ → Option Field → Compiled Names
env i none = ok (names_of i none)
env i (some f) = typed_names i f (field_type f)

abbrev pub compiled : {F : Type 0} → Outcome (Checked (Node F)) → Compiled (Node F)
compiled (Outcome.ok (Checked.ok n)) = ok n
compiled (Outcome.ok (Checked.failed i e)) = failed (ill_typed i e)
compiled (Outcome.failed e) = failed (syntax e)
compiled Outcome.out_of_fuel = failed out_of_fuel

module _ {F : Type 0} (schema : Schema) (parse_float : Text → Option F) where
  -- `CompileRule`
  unfoldable pub compile_rule : ℕ → Option Field → Text → Compiled (Node F)
  unfolding check_rule field_type
  compile_rule i f src = do c ← env i f; compiled (check_rule schema parse_float c src)

  -- One round of the loop of `add`, before the rest of it.
  abbrev pub add_rule :
      ℕ → Option Field → List Arg → Compiled (List (Rule F)) → Compiled (List (Rule F))
  add_rule i f (src ∷ message ∷ []) rest = do
    n ← compile_rule i f src.value
    rules ← rest
    ok (record { source = src.value; message = message.value; expr = n; field = f } ∷ rules)
  add_rule i f _ rest = failed needs_two_arguments

  -- `add`
  unfoldable pub rules_of : ℕ → Option Field → List Decorator → Compiled (List (Rule F))
  unfolding compile_rule
  rules_of i f [] = ok []
  rules_of i f (d ∷ ds) =
      let rest = rules_of i f ds in
      if text_eq d.name (bytes "rule") then add_rule i f d.args rest else rest

  unfoldable pub field_rules : ℕ → List Field → Compiled (List (Rule F))
  unfolding rules_of
  field_rules i [] = ok []
  field_rules i (f ∷ fs) = do
    rules ← rules_of i (some f) f.decorators
    rest ← field_rules i fs
    ok (rules ++ rest)

  -- `RulesFor`
  unfoldable pub rules_for : ℕ → Compiled (List (Rule F))
  unfolding field_rules
  rules_for i = do
    rules ← rules_of i none (schema.message_at i).decorators
    rest ← field_rules i (schema.message_at i).fields
    ok (rules ++ rest)

-- Go's panics, which `Violations` does not catch.
abbrev pub is_panic : EvalError → Bool
is_panic EvalError.nil_dereference = true
is_panic EvalError.index_panic = true
is_panic EvalError.uncomparable = true
is_panic _ = false

-- A message is added to those of the rules behind.
abbrev pub reported : Text → Compiled (Result (List Text)) → Compiled (Result (List Text))
reported message (ok (Result.ok messages)) = ok (Result.ok (message ∷ messages))
reported message rest = rest

-- What one rule adds, given the answer of `EvalBool`. An error counts as a broken rule.
abbrev pub verdict :
    Text → Compiled (Result (List Text)) → Result Bool → Compiled (Result (List Text))
verdict message rest (Result.ok true) = rest
verdict message rest (Result.ok false) = reported message rest
verdict message rest (Result.err e) =
    if is_panic e then ok (Result.err e) else reported message rest

module _ {F : Type 0} where
  abbrev pub scope_of : Entries F → Option (Value F) → Scope F
  scope_of value v name =
      if text_eq name (bytes "self")
      then some (Value.object value)
      else if text_eq name (bytes "value")
      then v
      else none

module _ {F : Type 0} (ops : FloatOps F) (schema : Schema)
    (full_match : Text → Text → Option Bool) where
  abbrev pub some_result : Result (Value F) → Result (Option (Value F))
  some_result (Result.ok v) = Result.ok (some v)
  some_result (Result.err e) = Result.err e

  abbrev pub zero_field : Field → Option Ty → Compiled (Result (Option (Value F)))
  zero_field f none = failed (type_error f)
  zero_field f (some t) = ok (some_result (zero_value ops schema t))

  abbrev pub present_field : Field → Option (Value F) → Compiled (Result (Option (Value F)))
  present_field f (some v) = ok (Result.ok (some v))
  present_field f none = zero_field f (field_type f)

  -- What `value` stands for: the field, or the zero value of its type.
  abbrev pub bound_value : Entries F → Option Field → Compiled (Result (Option (Value F)))
  bound_value value none = ok (Result.ok none)
  bound_value value (some f) = present_field f (find f.name value)

  abbrev pub judge :
      Entries F
      → Rule F
      → Compiled (Result (List Text))
      → Compiled (Result (Option (Value F)))
      → Compiled (Result (List Text))
  judge value r rest (failed e) = failed e
  judge value r rest (ok (Result.err e)) = ok (Result.err e)
  judge value r rest (ok (Result.ok v)) =
      verdict r.message rest (eval_bool ops schema full_match r.expr (scope_of value v))

  -- The loop of `Violations`. An error of the result is a panic.
  unfoldable pub violations_loop : Entries F → List (Rule F) → Compiled (Result (List Text))
  unfolding eval_bool zero_value find field_type
  violations_loop value [] = ok (Result.ok [])
  violations_loop value (r ∷ rs) =
      judge value r (violations_loop value rs) (bound_value value r.field)

  -- `Violations`
  unfoldable pub violations : (Text → Option F) → ℕ → Entries F → Compiled (Result (List Text))
  unfolding rules_for violations_loop
  violations parse_float i value = do
    rules ← rules_for schema parse_float i
    violations_loop value rules
