-- ===== src/Onkcompile/Decorators/Counted.antt =====
-- internal/onkcompile/validate.go: what `validateDecorators` says of decorators that pass, and that its
-- `decorator.Args[0]` is there.
use onekit.Base.{
  zero, ℕ, suc, ◌≡◌, ◌≤◌, ◌<◌, refl, sym, ap, subst, ◌∙◌, false, Option, none, some, List, [], ◌∷◌,
  Text, text_eq, text_eq→eq, bytes, inl, inr, Bool-cases, length, ltb, ◌||◌, All, arith,
}
use onekit.Base.Dict.{lookup}
use onekit.Onkir.Schema.{Arg}
use onekit.Onkschema.{Decorator}
use onekit.Onkcompile.Checked.{
  Checked, passed, with_value, Returns, when-Returns, and_next-Returns, pass_all-Returns,
  pass_each-Returns, and_next-passed, pass_all-passed, when_passed,
}
use onekit.Onkcompile.Decorators.{
  Rule, Rules, exceeds, prefix_checked, argument_checked, argument_checks, value_checked,
  rule_checks, decorator_checked, decorators_checked, validate_decorators,
}

-- The decorators of the name take at least `n` arguments.
abbrev LeastOf : Option Rule → ℕ → Type 0
LeastOf none n = Unit
LeastOf (some r) n = n ≤ r.min_args

abbrev pub TakesAtLeast : Rules → Text → ℕ → Type 0
TakesAtLeast rules name n = LeastOf (lookup name rules) n

-- What the checks of values index.
abbrev pub CoversValues : Rules → Type 0
CoversValues rules = TakesAtLeast rules (bytes "status") 1 × TakesAtLeast rules (bytes "auth") 1

-- A decorator with as many arguments as its name takes, which is in the table.
abbrev pub IsCounted : Rules → Decorator → Type 0
IsCounted rules d =
    (rule : Rule) × ((lookup d.name rules ≡ some rule) × (rule.min_args ≤ length d.args))

pub args_found :
    (rules : Rules) (d : Decorator) (name : Text) (n : ℕ)
    → d.name ≡ name
    → TakesAtLeast rules name n
    → IsCounted rules d
    → n ≤ length d.args
args_found rules d name n e h (rule, (found, enough)) =
    let h' : LeastOf (some rule) n =
      subst (λ o. LeastOf o n) (ap (λ k. lookup k rules) (sym e) ∙ found) h in
    omega (arith, h', enough)

pub with_value-Returns :
    (index : ℕ) (args : List Arg) (f : Text → Checked)
    → index < length args
    → ((v : Text) → Returns (f v))
    → Returns (with_value index args f)
with_value-Returns index [] f h k = ground (arith, h)
with_value-Returns zero (a ∷ args) f h k = k a.value
with_value-Returns (suc n) (a ∷ args) f h k = with_value-Returns n args f (omega (arith, h)) k

module _ (path : Text) (line : ℕ) where
  argument_checked-Returns : (d : Decorator) (a : Arg) → Returns (argument_checked path line d a)
  unfolding argument_checked argument_checks
  argument_checked-Returns d a =
      pass_all-Returns (argument_checks path line d a)
        (when-Returns _ _, λ _. (when-Returns _ _, λ _. tt))

  prefix_checked-Returns : (d : Decorator) (a : Arg) → Returns (prefix_checked path line d a)
  unfolding prefix_checked
  prefix_checked-Returns d a = when-Returns _ _

  value_checked-Returns :
      (rules : Rules) (d : Decorator)
      → CoversValues rules
      → IsCounted rules d
      → Returns (value_checked path line d)
  unfolding value_checked
  value_checked-Returns rules d h c = elim (Bool-cases (text_eq d.name (bytes "status"))) [
    | inl e ↦ rw e (
        with_value-Returns 0 d.args _
          (args_found rules d (bytes "status") 1 (text_eq→eq _ _ e) h.0 c) (λ v. when-Returns _ _))
    | inr e ↦ elim (Bool-cases (text_eq d.name (bytes "auth"))) [
      | inl a ↦
          rw (e, a)
            (with_value-Returns 0 d.args _
              (args_found rules d (bytes "auth") 1 (text_eq→eq _ _ a) h.1 c)
              (λ v. when-Returns _ _))
      | inr a ↦ elim (Bool-cases (text_eq d.name (bytes "flatten"))) [
        | inl f ↦
            rw (e, a, f)
              (and_next-Returns _ _ (when-Returns _ _) (λ _.
                pass_each-Returns (prefix_checked path line d) (prefix_checked-Returns d) d.args))
        | inr f ↦ rw (e, a, f) tt
      ]
    ]
  ]

  counted_enough :
      (rule : Rule) (n : ℕ)
      → (ltb n rule.min_args || exceeds rule.max_args n) ≡ false
      → rule.min_args ≤ n
  counted_enough rule n h = ground (arith, h)

  decorator_checked-Returns :
      (rules : Rules) (seen : List Text) (o : Option Rule) (d : Decorator)
      → CoversValues rules
      → lookup d.name rules ≡ o
      → Returns (decorator_checked path line seen o d)
  unfolding decorator_checked rule_checks
  decorator_checked-Returns rules seen none d h e = tt
  decorator_checked-Returns rules seen (some rule) d h e =
      pass_all-Returns (rule_checks path line seen rule d) (
        when-Returns _ _,
        λ _. (
          when-Returns _ _,
          λ c. (
            pass_each-Returns (argument_checked path line d) (argument_checked-Returns d) d.args,
            λ _. (
              value_checked-Returns rules d h
                  (rule, (e, counted_enough rule _ (when_passed _ _ c))),
              λ _. tt,
            ),
          ),
        ),
      )

  decorator_checked-IsCounted :
      (rules : Rules) (seen : List Text) (o : Option Rule) (d : Decorator)
      → lookup d.name rules ≡ o
      → decorator_checked path line seen o d ≡ passed
      → IsCounted rules d
  unfolding decorator_checked rule_checks
  decorator_checked-IsCounted rules seen none d e h = ground (arith, h)
  decorator_checked-IsCounted rules seen (some rule) d e h = (
    rule,
    (
      e,
      counted_enough rule _
          (when_passed _ _ (pass_all-passed (rule_checks path line seen rule d) h).1.0),
    ),
  )

  decorators_checked-Returns :
      (rules : Rules) (seen : List Text) (ds : List Decorator)
      → CoversValues rules
      → Returns (decorators_checked path line rules seen ds)
  unfolding decorators_checked
  decorators_checked-Returns rules seen [] h = tt
  decorators_checked-Returns rules seen (d ∷ ds) h =
      and_next-Returns _ _ (decorator_checked-Returns rules seen _ d h refl)
        (λ _. decorators_checked-Returns rules (d.name ∷ seen) ds h)

  decorators_checked-IsCounted :
      (rules : Rules) (seen : List Text) (ds : List Decorator)
      → decorators_checked path line rules seen ds ≡ passed
      → All (IsCounted rules) ds
  unfolding decorators_checked
  decorators_checked-IsCounted rules seen [] h = tt
  decorators_checked-IsCounted rules seen (d ∷ ds) h =
      let both = and_next-passed _ _ h in
      (
        decorator_checked-IsCounted rules seen _ d refl both.0,
        decorators_checked-IsCounted rules (d.name ∷ seen) ds both.1,
      )

  -- `validateDecorators` does not panic where the table has an argument for the values that it reads.
  pub validate_decorators-Returns :
      (ds : List Decorator) (rules : Rules)
      → CoversValues rules
      → Returns (validate_decorators path line ds rules)
  unfolding validate_decorators
  validate_decorators-Returns ds rules h = decorators_checked-Returns rules [] ds h

  -- Decorators that pass have as many arguments as they take.
  pub validate_decorators-IsCounted :
      (ds : List Decorator) (rules : Rules)
      → validate_decorators path line ds rules ≡ passed
      → All (IsCounted rules) ds
  unfolding validate_decorators
  validate_decorators-IsCounted ds rules h = decorators_checked-IsCounted rules [] ds h
