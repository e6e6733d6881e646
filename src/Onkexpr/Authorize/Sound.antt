-- ===== src/Onkexpr/Authorize/Sound.antt =====
-- internal/onkexpr/authorize.go: the rules of a method against its decorators, and their evaluation.
use onekit.Base.{
  ℕ, ◌≡◌, refl, sym, ap, ◌∙◌, subst, Bool, true, false, Option, none, some, List, [], ◌∷◌, Text,
  bytes, text_eq, All, if◌then◌else◌, inl, inr, Bool-cases,
}
use onekit.Onkir.Schema
use onekit.Onkir.Schema.{Schema, Arg, Decorator}
use onekit.Onkexpr.Pattern.{MatchesValid}
use onekit.Onkexpr.Outcome.{Result}
use onekit.Onkexpr.Syntax.{Ty}
use onekit.Onkexpr.Value.{Value, Entries, FloatOps}
use onekit.Onkexpr.Exec.{Scope}
use onekit.Onkexpr.Eval.{eval, eval_bool}
use onekit.Onkexpr.Check.Types.{lookup, find_in}
use onekit.Onkexpr.Soundness.{bool_result-Good}
use onekit.Onkexpr.Soundness.Typed.{HasType, Good}
use onekit.Onkexpr.Soundness.Fields.{Named}
use onekit.Onkexpr.Soundness.Actions.{Conforms}
use onekit.Onkexpr.Rules.{Compiled, ok, failed, compiled}
use onekit.Onkexpr.Rules.Verdicts.{Compiles, compiles, refuses, Compiles-bind, Compiles-ok}
use onekit.Onkexpr.Rules.Violations.{checked-Compiles}
use onekit.Onkexpr.Authorize.{
  AuthRule, auth_env, authorize_rules, compile_authorize, add_authorize, authorize_loop,
  with_principal, auth_rules_for,
}
use onekit.Onkexpr.Check.{check_rule}
use onekit.Onkexpr.Check.Types.{Checked}
use onekit.Onkexpr.Source.{Outcome}
use onekit.Onkexpr.Syntax.{Node}

-- The scope of a call.
abbrev pub auth_scope : {F : Type 0} → Entries F → Entries F → Scope F
auth_scope principal request name =
    if text_eq name (bytes "auth")
    then some (Value.object principal)
    else if text_eq name (bytes "req")
    then some (Value.object request)
    else none

ok_injective : {A : Type 0} (a b : A) → ok b ≡ ok a → a ≡ b
ok_injective a b e = cc

compiled_from :
    {A : Type 0} {P : A → Type 0} (o : Compiled A) → ((a : A) → o ≡ ok a → P a) → Compiles P o
compiled_from (ok a) k = compiles (k a refl)
compiled_from (failed e) k = refuses

Compiles-weaken :
    {A : Type 0} {P Q : A → Type 0} {o : Compiled A}
    → ((a : A) → P a → Q a)
    → Compiles P o
    → Compiles Q o
Compiles-weaken k (compiles {a} h) = compiles (k a h)
Compiles-weaken k refuses = refuses

module _ {F : Type 0} (schema : Schema) (parse_float : Text → Option F) where
  -- The rules are those of the decorators of a method that has the principal: each `@authorize` has two
  -- arguments, which are the source and the message of its rule, and the rule's expression is what the
  -- checker makes of that source with the principal and the request. Other decorators have no rule.
  pub data RulesOf (principal : Option ℕ) (request : ℕ)
      : List Decorator → List (AuthRule F) → Type 0 where
    no_rules : RulesOf principal request [] []
    other_decorator :
        {d : Decorator} {ds : List Decorator} {rules : List (AuthRule F)}
        → text_eq d.name (bytes "authorize") ≡ false
        → RulesOf principal request ds rules
        → RulesOf principal request (d ∷ ds) rules
    rule_of_decorator :
        {d : Decorator} {ds : List Decorator} {r : AuthRule F} {rules : List (AuthRule F)} {p : ℕ}
        {src message : Arg}
        → text_eq d.name (bytes "authorize") ≡ true
        → principal ≡ some p
        → d.args ≡ src ∷ message ∷ []
        → r.source ≡ src.value
        → r.message ≡ message.value
        → check_rule schema parse_float (auth_env p request) src.value
          ≡ Outcome.ok (Checked.ok r.expr)
        → RulesOf principal request ds rules
        → RulesOf principal request (d ∷ ds) (r ∷ rules)

  compiled-check_rule :
      (o : Outcome (Checked (Node F))) (n : Node F)
      → compiled o ≡ ok n
      → o ≡ Outcome.ok (Checked.ok n)
  compiled-check_rule (Outcome.ok (Checked.ok m)) n h =
      ap (λ k. Outcome.ok (Checked.ok k)) (sym (ok_injective n m h))
  compiled-check_rule (Outcome.ok (Checked.failed i e)) n h = cc
  compiled-check_rule (Outcome.failed e) n h = cc
  compiled-check_rule Outcome.out_of_fuel n h = cc

  compile_authorize-check_rule :
      (principal request : ℕ) (src : Text)
      → Compiles
          (λ n.
            check_rule schema parse_float (auth_env principal request) src
            ≡ Outcome.ok (Checked.ok n))
          (compile_authorize schema parse_float principal request src)
  unfolding compile_authorize
  compile_authorize-check_rule principal request src =
      compiled_from _ (λ n h. compiled-check_rule _ n h)

  add_authorize-RulesOf :
      (p request : ℕ) (d : Decorator) (args : List Arg) (ds : List Decorator)
      (rest : Compiled (List (AuthRule F)))
      → text_eq d.name (bytes "authorize") ≡ true
      → d.args ≡ args
      → Compiles (RulesOf (some p) request ds) rest
      → Compiles
          (RulesOf (some p) request (d ∷ ds))
          (add_authorize schema parse_float p request args rest)
  add_authorize-RulesOf p request d (src ∷ message ∷ []) ds rest named_so e hs =
      Compiles-bind (compile_authorize-check_rule p request src.value) λ n h.
        Compiles-bind hs λ rules k. compiles (rule_of_decorator named_so refl e refl refl h k)
  add_authorize-RulesOf p request d _ ds rest named_so e hs = refuses

  -- The rules of a loop over the `@authorize` among the decorators.
  authorize_loop-RulesOf :
      (p request : ℕ) (ds : List Decorator)
      → Compiles
          (RulesOf (some p) request ds)
          (authorize_loop schema parse_float p request (authorize_rules ds))
  unfolding authorize_loop authorize_rules
  authorize_loop-RulesOf p request [] = compiles no_rules
  authorize_loop-RulesOf p request (d ∷ ds) =
      elim (Bool-cases (text_eq d.name (bytes "authorize"))) [
        | inl e ↦ rw e (
            add_authorize-RulesOf p request d d.args ds _ e refl
              (authorize_loop-RulesOf p request ds))
        | inr e ↦
            rw e
              (Compiles-weaken (λ rules. other_decorator e) (authorize_loop-RulesOf p request ds))
      ]

  some_principal :
      (p request : ℕ) (ds : List Decorator)
      → authorize_loop schema parse_float p request ds
        ≡ with_principal schema parse_float (some p) request ds
  unfolding authorize_loop
  some_principal p request [] = refl
  some_principal p request (d ∷ ds) = refl

  without_principal :
      (request : ℕ) (ds : List Decorator) (rules : List (AuthRule F))
      → with_principal schema parse_float none request (authorize_rules ds) ≡ ok rules
      → RulesOf none request ds rules
  unfolding authorize_rules
  without_principal request [] rules h =
      subst (RulesOf none request []) (ok_injective [] rules (sym h)) no_rules
  without_principal request (d ∷ ds) rules h =
      elim (Bool-cases (text_eq d.name (bytes "authorize"))) [
        | inl e ↦ cc (rw e at h)
        | inr e ↦ other_decorator e (without_principal request ds rules (rw e at h))
      ]

  with_principal-RulesOf :
      (principal : Option ℕ) (request : ℕ) (ds : List Decorator) (rules : List (AuthRule F))
      → with_principal schema parse_float principal request (authorize_rules ds) ≡ ok rules
      → RulesOf principal request ds rules
  with_principal-RulesOf (some p) request ds rules h =
      Compiles-ok (authorize_loop-RulesOf p request ds)
        (some_principal p request (authorize_rules ds) ∙ h)
  with_principal-RulesOf none request ds rules h = without_principal request ds rules h

  -- Each `@authorize` of a method whose rules compile gives one rule, in order: with the decorator's two
  -- arguments as its source and its message, and the expression that the checker makes of that source. No
  -- other decorator gives one, and a method without a principal has none.
  pub auth_rules_for-RulesOf :
      (m : Schema.Method) (rules : List (AuthRule F))
      → auth_rules_for schema parse_float m ≡ ok rules
      → RulesOf m.principal m.request m.decorators rules
  unfolding auth_rules_for
  auth_rules_for-RulesOf m rules h =
      with_principal-RulesOf m.principal m.request m.decorators rules h

module _ {F : Type 0} (ops : FloatOps F) (schema : Schema) (full_match : Text → Text → Option Bool)
    (named : Named schema) (valid : MatchesValid full_match) (parse_float : Text → Option F) where
  auth_scope-Conforms :
      (principal request : ℕ) (p r : Entries F)
      → HasType schema (Value.object p) (Ty.message principal)
      → HasType schema (Value.object r) (Ty.message request)
      → Conforms schema (auth_env principal request) (auth_scope p r)
  unfolding lookup find_in
  auth_scope-Conforms principal request p r hp hr = record {
    at = λ name u known. elim (Bool-cases (text_eq name (bytes "auth"))) [
      | inl e ↦ rw e (subst (HasType schema (Value.object p)) (cc (rw e at known)) hp)
      | inr e ↦ rw e (elim (Bool-cases (text_eq name (bytes "req"))) [
        | inl e' ↦ rw e' (subst (HasType schema (Value.object r)) (cc (rw (e, e') at known)) hr)
        | inr e' ↦ cc (rw (e, e') at known)
      ])
    ];
  }

  -- The expression is what the checker makes of the rule's source, and run on a principal and a request it
  -- gives its Boolean, or an arithmetic, index or key error.
  abbrev pub Answers : ℕ → ℕ → Entries F → Entries F → AuthRule F → Type 0
  Answers principal request p r rule =
      (check_rule schema parse_float (auth_env principal request) rule.source
        ≡ Outcome.ok (Checked.ok rule.expr))
      × Good
          (λ b.
            (eval ops schema full_match rule.expr (auth_scope p r)).0 ≡ Result.ok (Value.bool b))
          (eval_bool ops schema full_match rule.expr (auth_scope p r))

  module _ (principal request : ℕ) (p r : Entries F)
      (of_principal : HasType schema (Value.object p) (Ty.message principal))
      (of_request : HasType schema (Value.object r) (Ty.message request)) where
    rule-Answers :
        (rule : AuthRule F)
        → check_rule schema parse_float (auth_env principal request) rule.source
          ≡ Outcome.ok (Checked.ok rule.expr)
        → Answers principal request p r rule
    unfolding eval_bool
    rule-Answers rule h =
        let typed =
          Compiles-ok
            (checked-Compiles ops schema full_match named valid parse_float
              (auth_env principal request) rule.source)
            (ap compiled h) in
        (
          h,
          bool_result-Good schema (
              typed.at.at (auth_scope p r)
                (auth_scope-Conforms principal request p r of_principal of_request)),
        )

    rules-Answers :
        (ds : List Decorator) (rules : List (AuthRule F))
        → RulesOf schema parse_float (some principal) request ds rules
        → All (Answers principal request p r) rules
    rules-Answers ds rules no_rules = tt
    rules-Answers ds rules (other_decorator {ds = rest} e hs) = rules-Answers rest rules hs
    rules-Answers ds _
          (rule_of_decorator {ds = rest} {r = rule} {rules = rules} {p = q} {src = src} e same args
            source message checked hs) =
        let here : principal ≡ q = cc in
        (
          rule-Answers rule (
              subst
                (λ t.
                  check_rule schema parse_float (auth_env t request) rule.source
                  ≡ Outcome.ok (Checked.ok rule.expr))
                (sym here)
                (subst
                  (λ t.
                    check_rule schema parse_float (auth_env q request) t
                    ≡ Outcome.ok (Checked.ok rule.expr))
                  (sym source) checked)),
          rules-Answers rest rules hs,
        )

  -- Where every enum has a value and package regexp compiles what `ValidateRegex` accepts: the rules of a
  -- method with a principal, where they compile, have the expressions that the checker makes of their
  -- sources, and run on a principal and a request of their types each gives the Boolean that its expression
  -- evaluates to, or an arithmetic, index or key error; it does not panic.
  pub eval_bool-auth_rules_for :
      (m : Schema.Method) (principal : ℕ) (rules : List (AuthRule F)) (p r : Entries F)
      → m.principal ≡ some principal
      → auth_rules_for schema parse_float m ≡ ok rules
      → HasType schema (Value.object p) (Ty.message principal)
      → HasType schema (Value.object r) (Ty.message m.request)
      → All (Answers principal m.request p r) rules
  eval_bool-auth_rules_for m principal rules p r e h hp hr =
      rules-Answers principal m.request p r hp hr m.decorators rules (
        subst (λ o. RulesOf schema parse_float o m.request m.decorators rules) e
          (auth_rules_for-RulesOf schema parse_float m rules h))
