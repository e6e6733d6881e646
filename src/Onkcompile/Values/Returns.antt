-- ===== src/Onkcompile/Values/Returns.antt =====
-- internal/onkcompile/validate.go: the values that `validateDecoratorValue` indexes are there.
use onekit.Base.{
  All, sym, ℕ, ◌≡◌, ◌≤◌, ◌<◌, true, List, [], ◌∷◌, Text, text_eq, text_eq→eq, bytes, inl, inr,
  Bool-cases, length, arith,
}
use onekit.Base.Dict.{lookup}
use onekit.Onkschema.{Decorator}
use onekit.Onkcompile.Errors.{contains}
use onekit.Onkcompile.Checked.{pass_all, Returns, when-Returns, and_next-Returns, pass_all-Returns}
use onekit.Onkcompile.Decorators.{field_decorators}
use onekit.Onkcompile.Decorators.Counted.{IsCounted, TakesAtLeast, args_found, with_value-Returns}
use onekit.Onkcompile.Values.{
  Readers, span_names, bound_names, numeric, ordered, pattern_checks, other_value,
  validate_decorator_value,
}

-- A field's decorator whose name is one of those has the arguments.
field_args :
    (names : List Text) (n : ℕ) (d : Decorator)
    → All (λ name. TakesAtLeast field_decorators name n) names
    → contains names d.name ≡ true
    → IsCounted field_decorators d
    → n ≤ length d.args
field_args [] n d h e c = ground (arith, e)
field_args (name ∷ names) n d h e c = elim (Bool-cases (text_eq name d.name)) [
  | inl s ↦ args_found field_decorators d name n (sym (text_eq→eq _ _ s)) h.0 c
  | inr s ↦ field_args names n d h.1 (ground (arith, e, s)) c
]

abbrev AllTake : ℕ → List Text → Type 0
AllTake n names = All (λ name. TakesAtLeast field_decorators name n) names

spans_take : AllTake 2 span_names
unfolding field_decorators lookup text_eq
spans_take = (omega arith, (omega arith, tt))

bounds_take : AllTake 1 bound_names
unfolding field_decorators lookup text_eq
bounds_take =
    (omega arith, (omega arith, (omega arith, (omega arith, (omega arith, (omega arith, tt))))))

others_take :
    TakesAtLeast field_decorators (bytes "pattern") 1
    × (TakesAtLeast field_decorators (bytes "empty") 1
        × TakesAtLeast field_decorators (bytes "encode") 1)
unfolding field_decorators lookup text_eq
others_take = (omega arith, (omega arith, omega arith))

module _ {F : Type 0} (readers : Readers F) (path : Text) (line : ℕ) where
  numeric-Returns :
      (index : ℕ) (d : Decorator)
      → index < length d.args
      → Returns (numeric readers path line index d)
  unfolding numeric
  numeric-Returns index d h = with_value-Returns index d.args _ h (λ v. when-Returns _ _)

  ordered-Returns : (d : Decorator) → 2 ≤ length d.args → Returns (ordered readers path line d)
  unfolding ordered
  ordered-Returns d h =
      with_value-Returns 0 d.args _ (omega (arith, h))
        (λ a. with_value-Returns 1 d.args _ h (λ b. when-Returns _ _))

  pattern-Returns : (v : Text) → Returns (pass_all (pattern_checks readers path line v))
  unfolding pattern_checks
  pattern-Returns v = pass_all-Returns (pattern_checks readers path line v) (
    when-Returns _ _,
    λ _. (when-Returns _ _, λ _. (when-Returns _ _, λ _. (when-Returns _ _, λ _. tt))),
  )

  other-Returns :
      (d : Decorator) → IsCounted field_decorators d → Returns (other_value readers path line d)
  unfolding other_value
  other-Returns d c = elim (Bool-cases (text_eq d.name (bytes "pattern"))) [
    | inl p ↦ rw p (
        and_next-Returns _ _ (when-Returns _ _) (λ _.
          with_value-Returns 0 d.args _ (args_found _ d _ 1 (text_eq→eq _ _ p) others_take.0 c)
            pattern-Returns))
    | inr p ↦ elim (Bool-cases (text_eq d.name (bytes "empty"))) [
      | inl m ↦
          rw (p, m)
            (with_value-Returns 0 d.args _ (args_found _ d _ 1 (text_eq→eq _ _ m) others_take.1.0 c)
              (λ v. when-Returns _ _))
      | inr m ↦ elim (Bool-cases (text_eq d.name (bytes "encode"))) [
        | inl n ↦
            rw (p, m, n)
              (with_value-Returns 0 d.args _
                (args_found _ d _ 1 (text_eq→eq _ _ n) others_take.1.1 c) (λ v. when-Returns _ _))
        | inr n ↦ rw (p, m, n) tt
      ]
    ]
  ]

  -- A decorator of a field that has as many arguments as its name takes is read without a panic.
  pub validate_decorator_value-Returns :
      (d : Decorator)
      → IsCounted field_decorators d
      → Returns (validate_decorator_value readers path line d)
  unfolding validate_decorator_value
  validate_decorator_value-Returns d c = elim (Bool-cases (contains span_names d.name)) [
    | inl e ↦
        let two = field_args span_names 2 d spans_take e c in
        rw e (
          pass_all-Returns
            (numeric readers path line 0 d
              ∷ numeric readers path line 1 d
              ∷ ordered readers path line d
              ∷ [])
            (
              numeric-Returns 0 d (omega (arith, two)),
              λ _. (numeric-Returns 1 d two, λ _. (ordered-Returns d two, λ _. tt)),
            ))
    | inr e ↦ elim (Bool-cases (contains bound_names d.name)) [
      | inl b ↦ rw (e, b) (numeric-Returns 0 d (field_args bound_names 1 d bounds_take b c))
      | inr b ↦ rw (e, b) (other-Returns d c)
    ]
  ]
