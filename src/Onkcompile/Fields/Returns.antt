-- ===== src/Onkcompile/Fields/Returns.antt =====
-- internal/onkcompile/validate.go: `validateFieldDecl` never indexes out of range.
use mathlib.Core.Option.{some-injective}
use onekit.Base.{
  subst, ℕ, ◌≡◌, refl, Bool, Option, none, some, List, [], ◌∷◌, Text, text_eq, text_eq→eq, bytes,
  inl, inr, Bool-cases, All, arith,
}
use onekit.Base.Dict.{lookup}
use onekit.Onkir.Schema.{Arg}
use onekit.Onkschema.{Decorator, TypeRef, VariantDecl, OneofDecl, FieldDecl}
use onekit.Onkcompile.Errors.{CompileError, Options}
use onekit.Onkcompile.Names.{generated_identifier}
use onekit.Onkcompile.Decls.{find_declared}
use onekit.Onkcompile.Checked.{
  Checked, passed, when, pass_all, pass_each, Returns, when-Returns, switch-Returns,
  and_next-Returns, pass_all-Returns, pass_all-passed, pass_each-Returns,
}
use onekit.Onkcompile.Decorators.{Rules, field_decorators, variant_decorators}
use onekit.Onkcompile.Decorators.Counted.{
  IsCounted, TakesAtLeast, CoversValues, args_found, with_value-Returns,
  validate_decorators-Returns, validate_decorators-IsCounted,
}
use onekit.Onkcompile.Bounds.{
  argument_kind, count_checked, in_checked, comparison_checks, comparison_checked, bounds_cases,
  kind_cases, validate_numeric_bounds,
}
use onekit.Onkcompile.Values.{Readers}
use onekit.Onkcompile.Values.Returns.{validate_decorator_value-Returns}
use onekit.Onkcompile.Fields.{
  ws_field_checks, mapping_checks, type_cases, field_decorator_type, oneof_argument_checks,
  oneof_args_checked, oneof_discriminator, Seen, collides, member_name_checks, named_member_checks,
  tag_checks, tag_checked, tag_value, field_semantics, variants_checked, semantics_checks,
  decorator_semantics, type_checks, only_required, oneof_checks, oneof_or_type, validate_field_decl,
}

-- The decorator that is found has the name, and what holds of all.
pub find_declared-All {ℓ} :
    (P : Decorator → Type ℓ) (ds : List Decorator) (name : Text) (d : Decorator)
    → All P ds
    → find_declared ds name ≡ some d
    → (d.name ≡ name) × P d
unfolding find_declared
find_declared-All P [] name d h e = ground (arith, e)
find_declared-All P (x ∷ xs) name d h e = elim (Bool-cases (text_eq x.name name)) [
  | inl s ↦
      let found : ◌≡◌ {A = Option Decorator} (some x) (some d) = ground (arith, e, s) in
      subst (λ y. (y.name ≡ name) × P y) (some-injective _ _ found) (text_eq→eq _ _ s, h.0)
  | inr s ↦ find_declared-All P xs name d h.1 (ground (arith, e, s))
]

collides-Returns : (o : Option Text) (e : Text → CompileError) → Returns (collides o e)
unfolding collides
collides-Returns none e = tt
collides-Returns (some p) e = tt

module _ (path : Text) (line : ℕ) where
  argument_kind-Returns :
      (d : Decorator) (t : Option TypeRef) (a : Arg) → Returns (argument_kind path line d t a)
  unfolding argument_kind kind_cases
  argument_kind-Returns d t a = switch-Returns (kind_cases path line d t a) (tt, (tt, tt))

  count_checked-Returns : (d : Decorator) (a : Arg) → Returns (count_checked path line d a)
  unfolding count_checked
  count_checked-Returns d a = when-Returns _ _

  in_checked-Returns :
      (t : Option TypeRef) (d : Decorator) (a : Arg) → Returns (in_checked path line t d a)
  unfolding in_checked
  in_checked-Returns t d a = when-Returns _ _

  comparison_checked-Returns :
      (t : Option TypeRef) (d : Decorator) (a : Arg) → Returns (comparison_checked path line t d a)
  unfolding comparison_checked comparison_checks
  comparison_checked-Returns t d a =
      pass_all-Returns (comparison_checks path line t d a)
        (when-Returns _ _, λ _. (when-Returns _ _, λ _. tt))

  numeric_bounds-Returns :
      (d : Decorator) (t : Option TypeRef) → Returns (validate_numeric_bounds path line d t)
  unfolding validate_numeric_bounds bounds_cases
  numeric_bounds-Returns d t =
      and_next-Returns _ _
        (pass_each-Returns (argument_kind path line d t) (argument_kind-Returns d t) d.args)
        (λ _. switch-Returns (bounds_cases path line d t) (
          pass_each-Returns (count_checked path line d) (count_checked-Returns d) d.args,
          (
            pass_each-Returns (in_checked path line t d) (in_checked-Returns t d) d.args,
            (
              pass_each-Returns (comparison_checked path line t d) (comparison_checked-Returns t d)
                  d.args,
              tt,
            ),
          ),
        ))

  oneof_args-Returns :
      (seen : List Text) (args : List Arg) → Returns (oneof_args_checked path line seen args)
  unfolding oneof_args_checked oneof_argument_checks
  oneof_args-Returns seen [] = tt
  oneof_args-Returns seen (a ∷ args) =
      and_next-Returns _ _
        (pass_all-Returns (oneof_argument_checks path line seen a) (
          when-Returns _ _,
          λ _. (
            when-Returns _ _,
            λ _. (when-Returns _ _, λ _. (when-Returns _ _, λ _. (when-Returns _ _, λ _. tt))),
          ),
        ))
        (λ _. oneof_args-Returns (a.name ∷ seen) args)

module _ (path : Text) (f : FieldDecl) (t : TypeRef) (name : Text) where
  ws_field-Returns : Returns (pass_all (ws_field_checks path f t name))
  unfolding ws_field_checks
  ws_field-Returns =
      pass_all-Returns (ws_field_checks path f t name)
        (when-Returns _ _, λ _. (when-Returns _ _, λ _. tt))

  mapping-Returns : Returns (pass_all (mapping_checks path f t name))
  unfolding mapping_checks
  mapping-Returns =
      pass_all-Returns (mapping_checks path f t name)
        (when-Returns _ _, λ _. (when-Returns _ _, λ _. tt))

  decorator_type-Returns : Returns (field_decorator_type path f t name)
  unfolding field_decorator_type type_cases
  decorator_type-Returns =
      let w : ((b : Bool) (e : CompileError) → Returns (when b e)) = when-Returns in
      switch-Returns (type_cases path f t name) (
        w _ _,
        (
          w _ _,
          (
            w _ _,
            (w _ _, (w _ _, (ws_field-Returns, (w _ _, (mapping-Returns, (w _ _, (w _ _, tt))))))),
          ),
        ),
      )

tags_take :
    TakesAtLeast variant_decorators (bytes "tag") 1
    × (CoversValues variant_decorators × CoversValues field_decorators)
unfolding variant_decorators field_decorators lookup text_eq
tags_take = (omega arith, ((tt, tt), (tt, tt)))

pass_each-All {ℓ κ} :
    {A : Type ℓ} (P : A → Type κ) (f : A → Checked)
    → ((x : A) → P x → Returns (f x))
    → (xs : List A) → All P xs
    → Returns (pass_each f xs)
unfolding pass_each
pass_each-All P f k [] h = tt
pass_each-All P f k (x ∷ xs) h = and_next-Returns _ _ (k x h.0) (λ _. pass_each-All P f k xs h.1)

module _ {F : Type 0} (readers : Readers F) (path : Text) (options : Options) where
  member_name-Returns :
      (line : ℕ) (name : Text)
      → Returns (pass_all (member_name_checks readers path options line name))
  unfolding member_name_checks
  member_name-Returns line name =
      pass_all-Returns (member_name_checks readers path options line name)
        (when-Returns _ _, λ _. (when-Returns _ _, λ _. tt))

  named_member-Returns :
      (line : ℕ) (name : Text) (ds : List Decorator) (rules : Rules) (seen : Seen)
      → CoversValues rules
      → Returns (pass_all (named_member_checks readers path options line name ds rules seen))
  unfolding named_member_checks
  named_member-Returns line name ds rules seen h =
      pass_all-Returns (named_member_checks readers path options line name ds rules seen) (
        member_name-Returns line name,
        λ _. (
          validate_decorators-Returns path line ds rules h,
          λ _. (collides-Returns _ _, λ _. tt),
        ),
      )

  named_member-IsCounted :
      (line : ℕ) (name : Text) (ds : List Decorator) (rules : Rules) (seen : Seen)
      → pass_all (named_member_checks readers path options line name ds rules seen) ≡ passed
      → All (IsCounted rules) ds
  unfolding named_member_checks
  named_member-IsCounted line name ds rules seen h =
      validate_decorators-IsCounted path line ds rules
        (pass_all-passed (named_member_checks readers path options line name ds rules seen) h).1.0

  tag_checked-Returns :
      (v : VariantDecl) (discriminator : Text) (tags : Seen) (rest : Seen → Checked)
      → ((tags' : Seen) → Returns (rest tags'))
      → (tag : Text) → Returns (tag_checked readers path options v discriminator tags rest tag)
  unfolding tag_checked tag_checks
  tag_checked-Returns v discriminator tags rest h tag =
      pass_all-Returns (tag_checks readers path options v discriminator tags rest tag)
        (collides-Returns _ _, λ _. (when-Returns _ _, λ _. (h _, λ _. tt)))

  tag_value-Returns :
      (name : Text) (ds : List Decorator) (o : Option Decorator) (f : Text → Checked)
      → find_declared ds (bytes "tag") ≡ o
      → All (IsCounted variant_decorators) ds
      → ((tag : Text) → Returns (f tag))
      → Returns (tag_value readers path options name o f)
  tag_value-Returns name ds none f e h k = k name
  tag_value-Returns name ds (some d) f e h k =
      let found = find_declared-All (IsCounted variant_decorators) ds (bytes "tag") d h e in
      with_value-Returns 0 d.args f
        (args_found variant_decorators d (bytes "tag") 1 found.0 tags_take.0 found.1) k

  variants-Returns :
      (discriminator : Text) (names tags : Seen) (vs : List VariantDecl)
      → Returns (variants_checked readers path options discriminator names tags vs)
  unfolding variants_checked
  variants-Returns discriminator names tags [] = tt
  variants-Returns discriminator names tags (v ∷ vs) =
      and_next-Returns _ _
        (named_member-Returns v.line v.name v.decorators variant_decorators names tags_take.1.0)
        (λ p.
          tag_value-Returns v.name v.decorators _ _ refl
            (named_member-IsCounted v.line v.name v.decorators variant_decorators names p)
            (tag_checked-Returns v discriminator tags _ (λ tags'.
              variants-Returns discriminator ((generated_identifier v.name, v.name) ∷ names) tags'
                vs)))

  semantics-Returns :
      (f : FieldDecl) (t : TypeRef) (d : Decorator)
      → IsCounted field_decorators d
      → Returns (decorator_semantics readers path options f t d)
  unfolding decorator_semantics semantics_checks
  semantics-Returns f t d h = pass_all-Returns (semantics_checks readers path options f t d) (
    decorator_type-Returns path f t d.name,
    λ _. (
      validate_decorator_value-Returns readers path f.line d h,
      λ _. (numeric_bounds-Returns path f.line d (some t), λ _. tt),
    ),
  )

  only_required-Returns :
      (f : FieldDecl) (d : Decorator) → Returns (only_required readers path options f d)
  unfolding only_required
  only_required-Returns f d = when-Returns _ _

  field_semantics-Returns :
      (f : FieldDecl) (o : Option TypeRef)
      → All (IsCounted field_decorators) f.decorators
      → Returns (field_semantics readers path options f o)
  unfolding field_semantics type_checks
  field_semantics-Returns f none h = tt
  field_semantics-Returns f (some t) h = pass_all-Returns (type_checks readers path options f t) (
    when-Returns _ _,
    λ _. (
      when-Returns _ _,
      λ _. (
        pass_each-All (IsCounted field_decorators) (decorator_semantics readers path options f t)
            (semantics-Returns f t) f.decorators h,
        λ _. (when-Returns _ _, λ _. tt),
      ),
    ),
  )

  oneof_or_type-Returns :
      (f : FieldDecl) (o : Option OneofDecl)
      → All (IsCounted field_decorators) f.decorators
      → Returns (oneof_or_type readers path options f o)
  unfolding oneof_or_type oneof_checks
  oneof_or_type-Returns f none h = field_semantics-Returns f f.type h
  oneof_or_type-Returns f (some o) h = pass_all-Returns (oneof_checks readers path options f o) (
    oneof_args-Returns path f.line [] o.args,
    λ _. (
      pass_each-Returns (only_required readers path options f) (only_required-Returns f)
          f.decorators,
      λ _. (
        when-Returns _ _,
        λ _. (variants-Returns (oneof_discriminator o.args) [] [] o.variants, λ _. tt),
      ),
    ),
  )

  -- `validateFieldDecl` returns for every field: it accepts it or has an error, and none of the arguments that
  -- it indexes is missing.
  pub validate_field_decl-Returns :
      (f : FieldDecl) → Returns (validate_field_decl readers path options f)
  unfolding validate_field_decl
  validate_field_decl-Returns f =
      and_next-Returns _ _
        (validate_decorators-Returns path f.line f.decorators field_decorators tags_take.1.1)
        (λ p.
          oneof_or_type-Returns f f.oneof
            (validate_decorators-IsCounted path f.line f.decorators field_decorators p))
