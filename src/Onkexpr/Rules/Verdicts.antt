-- ===== src/Onkexpr/Rules/Verdicts.antt =====
-- internal/onkexpr/rules.go: the loop of `Violations` on a message with typed fields.
use onekit.Base.{
  ℕ, ◌≡◌, refl, subst, Bool, true, false, Option, none, some, List, [], ◌∷◌, Text, bytes, text_eq,
  text_eq→eq, All, if◌then◌else◌, inl, inr, Bool-cases,
}
use onekit.Onkir.Schema.{Schema, Field}
use onekit.Onkexpr.Outcome.{Result}
use onekit.Onkexpr.Syntax.{Ty, Node}
use onekit.Onkexpr.Value.{Value, Entries, FloatOps, find}
use onekit.Onkexpr.Check.Types.{lookup, find_in, find_field, field_type}
use onekit.Onkexpr.Eval.{eval, eval_bool}
use onekit.Onkexpr.Soundness.{bool_result-Good}
use onekit.Onkexpr.Soundness.Typed
use onekit.Onkexpr.Soundness.Typed.{HasType, Fields, Good, Post, Post-bind, Returns}
use onekit.Onkexpr.Soundness.Fields.{Named, zero_value-Returns}
use onekit.Onkexpr.Soundness.Actions.{Present, Conforms}
use onekit.Onkexpr.Soundness.Expressions.{Evals}
use onekit.Onkexpr.Rules.{
  Rule, RuleError, Compiled, ok, failed, ◌>>=◌, names_of, some_result, scope_of, verdict,
  zero_field, present_field, bound_value, judge, violations_loop,
}

some_injective : {A : Type 0} (a b : A) → some a ≡ some b → a ≡ b
some_injective a b e = cc

-- What is compiled has the property.
pub data Compiles {A : Type 0} (P : A → Type 0) : Compiled A → Type 0 where
  compiles : {a : A} → P a → Compiles P (ok a)
  refuses : {e : RuleError} → Compiles P (failed e)

pub Compiles-bind :
    {A B : Type 0} {P : A → Type 0} {Q : B → Type 0} {r : Compiled A} {f : A → Compiled B}
    → Compiles P r
    → ((a : A) → P a → Compiles Q (f a))
    → Compiles Q (r >>= f)
Compiles-bind (compiles {a} h) k = k a h
Compiles-bind refuses k = refuses

pub Compiles-ok :
    {A : Type 0} {P : A → Type 0} {r : Compiled A} {a : A} → Compiles P r → r ≡ ok a → P a
Compiles-ok {P = P} (compiles h) e = subst P (cc) h
Compiles-ok refuses e = cc

abbrev answers_true : Result Bool → Bool
answers_true (Result.ok b) = b
answers_true (Result.err e) = false

-- An answer that is no panic adds the rule's message unless it is true.
verdict-Good :
    {P : Bool → Type 0} (message : Text) (messages : List Text) (r : Result Bool)
    → Good P r
    → verdict message (ok (Result.ok messages)) r
      ≡ ok (Result.ok (if answers_true r then messages else message ∷ messages))
verdict-Good message messages (Result.ok true) h = refl
verdict-Good message messages (Result.ok false) h = refl
verdict-Good message messages r (Typed.raises Typed.overflow) = refl
verdict-Good message messages r (Typed.raises Typed.zero_divisor) = refl
verdict-Good message messages r (Typed.raises Typed.not_finite) = refl
verdict-Good message messages r (Typed.raises Typed.outside) = refl
verdict-Good message messages r (Typed.raises Typed.missing_key) = refl
verdict-Good message messages r (Typed.raises Typed.too_large) = refl

module _ {F : Type 0} (ops : FloatOps F) (schema : Schema)
    (full_match : Text → Text → Option Bool) where
  -- A rule holds where its expression, with `self` and `value` bound, gives true.
  abbrev holds : Entries F → Rule F → Compiled (Result (Option (Value F))) → Bool
  holds value r (ok (Result.ok v)) =
      answers_true (eval_bool ops schema full_match r.expr (scope_of value v))
  holds value r _ = false

  -- The messages of the rules that do not hold, in the order of the rules.
  unfoldable pub broken : Entries F → List (Rule F) → List Text
  unfolding eval_bool
  broken value [] = []
  broken value (r ∷ rs) =
      let rest = broken value rs in
      if holds value r (bound_value ops schema full_match value r.field)
      then rest
      else r.message ∷ rest

  module _ (i : ℕ) where
    -- A rule of a field has the field's type for `value`.
    abbrev FieldTyped : Node F → Field → Ty → Type 0
    FieldTyped n f t =
        (find_field f.name (schema.message_at i).fields ≡ some f)
        × (field_type f ≡ some t)
        × Evals ops schema full_match (names_of i (some t)) n Ty.bool

    abbrev pub RuleTyped : Option Field → Node F → Type 0
    RuleTyped none n = Evals ops schema full_match (names_of i none) n Ty.bool
    RuleTyped (some f) n = (t : Ty) × FieldTyped n f t

    abbrev pub RuleOk : Rule F → Type 0
    RuleOk r = RuleTyped r.field r.expr

    scope_of-Conforms :
        (value : Entries F) (t : Option Ty) (v : Option (Value F))
        → HasType schema (Value.object value) (Ty.message i)
        → ((u : Ty) → t ≡ some u → Present schema v u)
        → Conforms schema (names_of i t) (scope_of value v)
    unfolding lookup find_in
    scope_of-Conforms value t v self bound = record {
      at = λ name u known. elim (Bool-cases (text_eq name (bytes "self"))) [
        | inl e ↦ rw e (subst (HasType schema (Value.object value)) (cc (rw e at known)) self)
        | inr e ↦ rw e (elim (Bool-cases (text_eq name (bytes "value"))) [
          | inl e' ↦ rw e' (bound u (rw (e, e') at known))
          | inr e' ↦ cc (rw (e, e') at known)
        ])
      ];
    }

    answer-Good :
        (value : Entries F) (t : Option Ty) (v : Option (Value F)) (n : Node F)
        → HasType schema (Value.object value) (Ty.message i)
        → ((u : Ty) → t ≡ some u → Present schema v u)
        → Evals ops schema full_match (names_of i t) n Ty.bool
        → Good
            (λ b. (eval ops schema full_match n (scope_of value v)).0 ≡ Result.ok (Value.bool b))
            (eval_bool ops schema full_match n (scope_of value v))
    unfolding eval_bool
    answer-Good value t v n self bound h =
        bool_result-Good schema
          (h.at.at (scope_of value v) (scope_of-Conforms value t v self bound))

    -- The field that `value` stands for: there, or a zero value, and of the field's type.
    data Binds (t : Ty) : Compiled (Result (Option (Value F))) → Type 0 where
      binds : {v : Value F} → HasType schema v t → Binds t (ok (Result.ok (some v)))

    returned :
        {t : Ty} {r : Result (Value F)}
        → Returns (λ v. HasType schema v t) r
        → Binds t (ok (some_result ops schema full_match r))
    returned (Typed.returning h) = binds h

    zero_field-Binds :
        (named : Named schema) (f : Field) (t : Ty) (o : Option Ty)
        → o ≡ some t
        → Binds t (zero_field ops schema full_match f o)
    zero_field-Binds named f t none e = cc
    zero_field-Binds named f t (some u) e =
        rw (some_injective u t e) (returned (zero_value-Returns ops schema named t))

    present_field-Binds :
        (named : Named schema) (f : Field) (t : Ty) (m : Entries F)
        → find_field f.name (schema.message_at i).fields ≡ some f
        → field_type f ≡ some t
        → Fields schema m i
        → Binds t (present_field ops schema full_match f (find f.name m))
    unfolding find
    present_field-Binds named f t m first is_t Typed.no_field =
        zero_field-Binds named f t (field_type f) is_t
    present_field-Binds named f t m first is_t (Typed.field {k} hv hs) =
        elim (Bool-cases (text_eq f.name k)) [
          | inl e ↦ rw e (binds (hv f t (rw (← text_eq→eq f.name k e) first) is_t))
          | inr e ↦ rw e (present_field-Binds named f t _ first is_t hs)
        ]

    judge_bound :
        (value : Entries F) (r : Rule F) (f : Field) (t : Ty) (messages : List Text)
        (o : Compiled (Result (Option (Value F))))
        → HasType schema (Value.object value) (Ty.message i)
        → Evals ops schema full_match (names_of i (some t)) r.expr Ty.bool
        → Binds t o
        → judge ops schema full_match value r (ok (Result.ok messages)) o
          ≡ ok (Result.ok (if holds value r o then messages else r.message ∷ messages))
    judge_bound value r f t messages o self h (binds {v} hv) = verdict-Good r.message messages _ (
        answer-Good value (some t) (some v) r.expr self
          (λ u e. subst (HasType schema v) (some_injective t u e) hv) h)

    -- One rule that was compiled for the message.
    judge_typed :
        (named : Named schema) (value : Entries F) (r : Rule F) (o : Option Field)
        (messages : List Text)
        → Fields schema value i
        → RuleTyped o r.expr
        → judge ops schema full_match value r
            (ok (Result.ok messages))
            (bound_value ops schema full_match value o)
          ≡ ok (
              Result.ok (
                if holds value r (bound_value ops schema full_match value o)
                then messages
                else r.message ∷ messages))
    judge_typed named value r none messages self h =
        verdict-Good r.message messages _
          (answer-Good value none none r.expr (Typed.is_message self) (λ u e. cc) h)
    judge_typed named value r (some f) messages self (t, (first, is_t, h)) =
        judge_bound value r f t messages _ (Typed.is_message self) h
          (present_field-Binds named f t value first is_t self)

    pub violations_loop-broken :
        (named : Named schema) (value : Entries F) (rules : List (Rule F))
        → Fields schema value i
        → All RuleOk rules
        → violations_loop ops schema full_match value rules ≡ ok (Result.ok (broken value rules))
    unfolding violations_loop broken
    violations_loop-broken named value [] self hs = refl
    violations_loop-broken named value (r ∷ rs) self hs =
        rw (violations_loop-broken named value rs self hs.1)
          (judge_typed named value r r.field (broken value rs) self hs.0)
