-- ===== src/Onkexpr/Soundness/Fields.antt =====
-- internal/onkexpr/eval.go: `ZeroValue`, `evalSelect` and `evalHas` on typed messages.
use onekit.Base.{
  ℕ, ◌≡◌, ◌≢◌, refl, not, some, Text, text_eq, text_eq→eq, inl, inr, Bool-cases, [], ◌∷◌, List,
}
use onekit.Onkir.Schema
use onekit.Onkir.Schema.{Schema, Field}
use onekit.Onkexpr.Outcome.{ok, ◌>>=◌}
use onekit.Onkexpr.Syntax.{Ty}
use onekit.Onkexpr.Value.{Value, Entries, FloatOps, find}
use onekit.Onkexpr.Operators.{
  equal_values, zero_value, zero_of, present_or, select_value, has_value, has_found, has_present,
  non_zero, first_name,
}
use onekit.Onkexpr.Check.Types.{find_field, field_type}
use onekit.Onkexpr.Soundness.Typed
use onekit.Onkexpr.Soundness.Typed.{
  HasType, Fields, Good, returns, raises, Returns, returning, Returns-Good, Good-bind, Good-if,
}
use onekit.Onkexpr.Soundness.Values.{Any, equal_values-Good, good_rules}

-- Every enum has a value.
abbrev pub Named : Schema → Type 0
Named schema = (e : ℕ) → (schema.enum_at e).values ≢ []

module _ {F : Type 0} (ops : FloatOps F) (schema : Schema) (named : Named schema) where
  first_name-Returns :
      (e : ℕ) (vs : List Schema.EnumValue)
      → vs ≢ []
      → Returns (λ v. HasType schema v (Ty.enum e)) (first_name ops schema vs)
  first_name-Returns e [] h = absurd (h refl)
  first_name-Returns e (v ∷ vs) h = returning Typed.is_enum

  pub zero_value-Returns : (t : Ty) → Returns (λ v. HasType schema v t) (zero_value ops schema t)
  unfolding zero_value
  zero_value-Returns Ty.bool = returning Typed.is_bool
  zero_value-Returns Ty.int = returning Typed.is_int
  zero_value-Returns Ty.double = returning Typed.is_double
  zero_value-Returns Ty.string = returning Typed.is_string
  zero_value-Returns Ty.bytes = returning Typed.is_bytes
  zero_value-Returns (Ty.list t) = returning (Typed.is_list Typed.none_left)
  zero_value-Returns (Ty.map_of t) = returning (Typed.is_map Typed.no_key)
  zero_value-Returns (Ty.message m) = returning (Typed.is_message Typed.no_field)
  zero_value-Returns (Ty.enum e) = first_name-Returns e (schema.enum_at e).values (named e)

  zero_value-Good : (t : Ty) → Good (λ v. HasType schema v t) (zero_value ops schema t)
  zero_value-Good t = Returns-Good (zero_value-Returns t)

  abbrev Truth : Value F → Type 0
  Truth r = HasType schema r Ty.bool

  compare_zero-Good :
      (t : Ty) (v : Value F)
      → ((w : Value F) → Good Any (equal_values ops v w))
      → Good Truth (
          zero_of ops schema (some t) >>= λ z.
          equal_values ops v z >>= λ b. ok (Value.bool (not b)))
  compare_zero-Good t v h =
      Good-bind (zero_value-Good t) λ z _. Good-bind (h z) λ b _. returns Typed.is_bool

  non_zero-Good :
      (t : Ty) (v : Value F) → HasType schema v t → Good Truth (non_zero ops schema (some t) v)
  non_zero-Good t v (Typed.is_list hs) = returns Typed.is_bool
  non_zero-Good t v (Typed.is_map hs) = returns Typed.is_bool
  non_zero-Good t v (Typed.is_message hs) = returns Typed.is_bool
  non_zero-Good t v Typed.is_bytes = returns Typed.is_bool
  non_zero-Good t v (Typed.is_bool {b}) =
      compare_zero-Good _ v λ w. equal_values-Good ops schema Ty.bool v w refl Typed.is_bool
  non_zero-Good t v (Typed.is_int {n}) =
      compare_zero-Good _ v λ w. equal_values-Good ops schema Ty.int v w refl Typed.is_int
  non_zero-Good t v (Typed.is_double {x}) =
      compare_zero-Good _ v λ w. equal_values-Good ops schema Ty.double v w refl Typed.is_double
  non_zero-Good t v (Typed.is_string {s}) =
      compare_zero-Good _ v λ w. equal_values-Good ops schema Ty.string v w refl Typed.is_string
  non_zero-Good t v (Typed.is_enum {s} {e}) =
      compare_zero-Good _ v λ w. equal_values-Good ops schema (Ty.enum e) v w refl Typed.is_enum

  module _ (i : ℕ) (name : Text) (f : Field) (t : Ty)
      (declared : find_field name (schema.message_at i).fields ≡ some f)
      (typed : field_type f ≡ some t) where
    -- A field that the message has is one of its type.
    present_or-Good :
        (m : Entries F)
        → Fields schema m i
        → Good (λ v. HasType schema v t) (present_or ops schema (some t) (find name m))
    unfolding find
    present_or-Good m Typed.no_field = zero_value-Good t
    present_or-Good m (Typed.field {k} h hs) = elim (Bool-cases (text_eq name k)) [
      | inl e ↦ rw e (returns (h f t (rw (← text_eq→eq name k e) declared) typed))
      | inr e ↦ rw e (present_or-Good _ hs)
    ]

    pub select_value-Good :
        (v : Value F)
        → HasType schema v (Ty.message i)
        → Good (λ r. HasType schema r t) (select_value ops schema (some t) name v)
    unfolding select_value
    select_value-Good v (Typed.is_message hs) = present_or-Good _ hs

    has_present-Good :
        (v : Value F) → HasType schema v t → Good Truth (has_present ops schema (some t) (some f) v)
    has_present-Good v h = search (good_rules, non_zero-Good)

    has_found-Good :
        (m : Entries F)
        → Fields schema m i
        → Good Truth (has_found ops schema (some t) (some f) (find name m))
    unfolding find
    has_found-Good m Typed.no_field = returns Typed.is_bool
    has_found-Good m (Typed.field {k} {v} h hs) = elim (Bool-cases (text_eq name k)) [
      | inl e ↦ rw e (has_present-Good v (h f t (rw (← text_eq→eq name k e) declared) typed))
      | inr e ↦ rw e (has_found-Good _ hs)
    ]

    pub has_value-Good :
        (v : Value F)
        → HasType schema v (Ty.message i)
        → Good Truth (has_value ops schema (some t) (some f) name v)
    unfolding has_value
    has_value-Good v (Typed.is_message hs) = has_found-Good _ hs
