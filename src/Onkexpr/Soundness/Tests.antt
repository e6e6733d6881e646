-- ===== src/Onkexpr/Soundness/Tests.antt =====
-- internal/onkexpr: a rule that is checked and run, and the theorems on checked rules at it.
use onekit.Base.{
  ◌≡◌, refl, subst, true, Option, none, some, [], ◌∷◌, Text, bytes, text_eq, inl, inr, Bool-cases,
}
use onekit.Base.Int.{ℤ, pos}
use onekit.Onkir.Schema.{Field}
use onekit.Onkexpr.Outcome.{ok, err, index_out_of_range}
use onekit.Onkexpr.Source.{Outcome}
use onekit.Onkexpr.Syntax
use onekit.Onkexpr.Syntax.{Ty, Node, at, int_lit}
use onekit.Onkexpr.Value.{Value}
use onekit.Onkexpr.Samples.{
  equal_texts, equal_texts-MatchesValid, whole_numbers, name_field, tags_field, pet, schema, names,
  strings, tom, scope, pet_rule,
}
use onekit.Onkexpr.Eval.{eval, eval_bool}
use onekit.Onkexpr.Check.{check, check_rule}
use onekit.Onkexpr.Check.Types.{
  Checked, Complaint, require, lookup, find_in, find_field, field_type,
}
use onekit.Onkexpr.Soundness.{eval-check, eval_bool-check_rule}
use onekit.Onkexpr.Soundness.Typed
use onekit.Onkexpr.Soundness.Typed.{HasType, Good}
use onekit.Onkexpr.Soundness.Fields.{Named}
use onekit.Onkexpr.Soundness.Actions.{Conforms}

schema-Named : Named schema
schema-Named e = cc

abbrev no_float : Text → Option ℤ
no_float t = none

abbrev check_source : Text → Outcome (Checked (Node ℤ))
check_source src = check_rule schema no_float names src

-- Only run on sources that are accepted.
abbrev node_of : Outcome (Checked (Node ℤ)) → Node ℤ
node_of (Outcome.ok (Checked.ok n)) = n
node_of _ = int_lit (at 0) (pos 0)

pet_rule_checks : check_source pet_rule ≡ Outcome.ok (Checked.ok (node_of (check_source pet_rule)))
unfolding check_rule require
pet_rule_checks = refl

pet_rule_holds :
    eval_bool whole_numbers schema equal_texts (node_of (check_source pet_rule)) scope ≡ ok true
unfolding eval_bool check_rule require
pet_rule_holds = refl

missing_field :
    check_source (bytes "self.age > 3")
    ≡ Outcome.ok (Checked.failed 5 (Complaint.no_field (bytes "age")))
unfolding check_rule require
missing_field = refl

not_a_value :
    check_source (bytes "self.kind == \"dog\"")
    ≡ Outcome.ok (Checked.failed 13 Complaint.not_an_enum_value)
unfolding check_rule require
not_a_value = refl

not_bool :
    check_source (bytes "size(self.name)")
    ≡ Outcome.ok (Checked.failed 0 (Complaint.not_a_rule Ty.int))
unfolding check_rule require
not_bool = refl

out_of_range :
    eval_bool whole_numbers schema equal_texts
      (node_of (check_source (bytes "self.tags[2] == \"a\"")))
      scope
    ≡ err (index_out_of_range (pos 2) 2)
unfolding eval_bool check_rule require
out_of_range = refl

-- An entry has the type of its field.
field-HasType :
    (f g : Field) (t u : Ty) (v : Value ℤ)
    → HasType schema v t
    → some f ≡ some g
    → field_type f ≡ some t
    → field_type g ≡ some u
    → HasType schema v u
field-HasType f g t u v h e typed other = subst (HasType schema v) (cc) h

name-HasType :
    (f : Field) (t : Ty)
    → find_field (bytes "name") pet.fields ≡ some f
    → field_type f ≡ some t
    → HasType {F = ℤ} schema (Value.string (bytes "Tom")) t
unfolding find_field field_type text_eq
name-HasType f t found typed =
    field-HasType name_field f Ty.string t _ Typed.is_string found refl typed

tags-HasType :
    (f : Field) (t : Ty)
    → find_field (bytes "tags") pet.fields ≡ some f
    → field_type f ≡ some t
    → HasType schema (Value.list (strings (bytes "a" ∷ bytes "b" ∷ []))) t
unfolding find_field field_type text_eq
tags-HasType f t found typed =
    field-HasType tags_field f (Ty.list Ty.string) t _
      (Typed.is_list (Typed.item Typed.is_string (Typed.item Typed.is_string Typed.none_left)))
      found refl typed

tom-HasType : HasType schema (Value.object tom) (Ty.message 0)
tom-HasType = Typed.is_message (Typed.field name-HasType (Typed.field tags-HasType Typed.no_field))

scope-Conforms : Conforms schema names scope
unfolding lookup find_in
scope-Conforms = record {
  at = λ name t known. elim (Bool-cases (text_eq name (bytes "self"))) [
    | inl e ↦ rw e (subst (HasType schema (Value.object tom)) (cc (rw e at known)) tom-HasType)
    | inr e ↦ cc (rw e at known)
  ];
}

eval_bool-check_rule_example :
    Good
      (λ b.
        (eval whole_numbers schema equal_texts (node_of (check_source pet_rule)) scope).0
        ≡ ok (Value.bool b))
      (eval_bool whole_numbers schema equal_texts (node_of (check_source pet_rule)) scope)
eval_bool-check_rule_example =
    eval_bool-check_rule whole_numbers schema equal_texts schema-Named equal_texts-MatchesValid
      no_float names pet_rule (node_of (check_source pet_rule)) scope pet_rule_checks scope-Conforms

-- `size(self.name)`, parsed.
abbrev size_of_name : Node ℤ
size_of_name =
    Syntax.call (at 0) (bytes "size")
      (Syntax.cons (Syntax.select (at 10) (Syntax.ident (at 5) (bytes "self")) (bytes "name") none)
        Syntax.nil)
      []

abbrev checked_of : Checked (Ty × Node ℤ) → Node ℤ
checked_of (Checked.ok (t, n)) = n
checked_of _ = size_of_name

size_of_name_checks :
    check schema names size_of_name
    ≡ Checked.ok (Ty.int, checked_of (check schema names size_of_name))
unfolding check require
size_of_name_checks = refl

eval-check_example :
    Good
      (λ v. HasType schema v Ty.int)
      (eval whole_numbers schema equal_texts (checked_of (check schema names size_of_name)) scope).0
eval-check_example =
    eval-check whole_numbers schema equal_texts schema-Named equal_texts-MatchesValid names
      size_of_name (checked_of (check schema names size_of_name)) Ty.int scope size_of_name_checks
      scope-Conforms
