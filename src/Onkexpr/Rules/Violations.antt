-- ===== src/Onkexpr/Rules/Violations.antt =====
-- internal/onkexpr/rules.go: `RulesFor` and `Violations` together, and on decoded messages.
use onekit.Base.{ℕ, ◌≡◌, Bool, Option, none, some, List, Text, All}
use onekit.Onkir.Schema.{Schema, Field}
use onekit.Onkexpr.Pattern.{MatchesValid}
use onekit.Onkexpr.Source
use onekit.Onkexpr.Source.{Outcome}
use onekit.Onkexpr.Syntax.{Ty, Node}
use onekit.Onkexpr.Value.{Value, FloatOps}
use onekit.Onkexpr.Parser.{parse}
use onekit.Onkexpr.Check.{check, check_rule, rule_of}
use onekit.Onkexpr.Check.Types
use onekit.Onkexpr.Check.Types.{Names, Checked, find_field}
use onekit.Onkexpr.Soundness.{check-Post, rule_of-Post}
use onekit.Onkexpr.Soundness.Typed
use onekit.Onkexpr.Soundness.Typed.{Fields, Post, Post-bind, accepted, rejected}
use onekit.Onkexpr.Soundness.Fields.{Named}
use onekit.Onkexpr.Soundness.Expressions.{Evals}
use onekit.Onkexpr.Json
use onekit.Onkexpr.Json.{Json}
use onekit.Onkexpr.Rules.{Rule, ok, ◌>>=◌, compiled}
use onekit.Onkexpr.Rules.Verdicts.{Compiles, compiles, refuses, RuleOk}

module _ {F : Type 0} (ops : FloatOps F) (schema : Schema) (full_match : Text → Text → Option Bool)
    (named : Named schema) (valid : MatchesValid full_match) (parse_float : Text → Option F) where
  compiled-Compiles :
      {P : Node F → Type 0} {r : Checked (Node F)} → Post P r → Compiles P (compiled (Outcome.ok r))
  compiled-Compiles (accepted h) = compiles h
  compiled-Compiles rejected = refuses

  parsed-Compiles :
      (c : Names) (o : Outcome (Node F))
      → Compiles
          (λ n. Evals ops schema full_match c n Ty.bool)
          (compiled (Source.bind o (λ m. Outcome.ok (Types.◌>>=◌ (check schema c m) rule_of))))
  parsed-Compiles c (Outcome.ok m) = compiled-Compiles (
      Post-bind (check-Post ops schema full_match named valid c m)
        λ tn h. rule_of-Post ops schema full_match named valid c tn h)
  parsed-Compiles c (Outcome.failed e) = refuses
  parsed-Compiles c Outcome.out_of_fuel = refuses

  pub checked-Compiles :
      (c : Names) (src : Text)
      → Compiles
          (λ n. Evals ops schema full_match c n Ty.bool)
          (compiled (check_rule schema parse_float c src))
  unfolding check_rule
  checked-Compiles c src = parsed-Compiles c (parse parse_float src)

  module _ (i : ℕ) where
    -- The field, if there is one, is the first of its name.
    abbrev First : Option Field → Type 0
    First none = Unit
    First (some f) = find_field f.name (schema.message_at i).fields ≡ some f

    abbrev AllOk : List (Rule F) → Type 0
    AllOk rules = All (RuleOk ops schema full_match i) rules
