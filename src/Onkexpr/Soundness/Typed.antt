-- ===== src/Onkexpr/Soundness/Typed.antt =====
-- The values that a type of the checker stands for, and the outcomes that a checked expression may have.
use onekit.Base.{ℕ, ◌≡◌, refl, subst, Bool, true, false, some, Text, if◌then◌else◌}
use onekit.Base.Int.{ℤ}
use onekit.Onkir.Schema.{Schema, Field}
use onekit.Onkexpr.Outcome
use onekit.Onkexpr.Outcome.{EvalError, Result, ok, err}
use onekit.Onkexpr.Syntax.{Ty}
use onekit.Onkexpr.Value.{Value, Values, Entries}
use onekit.Onkexpr.Check.Types.{Checked, Complaint, ◌>>=◌, ◌>>◌, field_type, find_field, require}

module _ {F : Type 0} (schema : Schema) where
  mutual
    -- A value of an enum is a text; that it names one of the enum's values is not asked here. An entry of a
    -- message that is a field of it has that field's type, and any field may be missing.
    pub data HasType : Value F → Ty → Type 0 where
      is_bool : {b : Bool} → HasType (Value.bool b) Ty.bool
      is_int : {n : ℤ} → HasType (Value.int n) Ty.int
      is_double : {x : F} → HasType (Value.double x) Ty.double
      is_string : {s : Text} → HasType (Value.string s) Ty.string
      is_enum : {s : Text} {e : ℕ} → HasType (Value.string s) (Ty.enum e)
      is_bytes : {s : Text} → HasType (Value.bytes s) Ty.bytes
      is_list : {vs : Values F} {t : Ty} → Items vs t → HasType (Value.list vs) (Ty.list t)
      is_map : {m : Entries F} {t : Ty} → Keyed m t → HasType (Value.object m) (Ty.map_of t)
      is_message : {m : Entries F} {i : ℕ} → Fields m i → HasType (Value.object m) (Ty.message i)

    pub data Items : Values F → Ty → Type 0 where
      none_left : {t : Ty} → Items Values.nil t
      item :
          {v : Value F} {vs : Values F} {t : Ty}
          → HasType v t
          → Items vs t
          → Items (Values.cons v vs) t

    pub data Keyed : Entries F → Ty → Type 0 where
      no_key : {t : Ty} → Keyed Entries.end t
      key :
          {k : Text} {v : Value F} {m : Entries F} {t : Ty}
          → HasType v t
          → Keyed m t
          → Keyed (Entries.entry k v m) t

    pub data Fields : Entries F → ℕ → Type 0 where
      no_field : {i : ℕ} → Fields Entries.end i
      field :
          {k : Text} {v : Value F} {m : Entries F} {i : ℕ}
          → ((f : Field) (t : Ty)
              → find_field k (schema.message_at i).fields ≡ some f
              → field_type f ≡ some t
              → HasType v t)
          → Fields m i
          → Fields (Entries.entry k v m) i

-- The errors that depend on the values: arithmetic, indices and keys. Neither a panic nor an
-- error about the shape of an expression is among them.
pub data Allowed : EvalError → Type 0 where
  overflow : Allowed Outcome.integer_overflow
  zero_divisor : Allowed Outcome.division_by_zero
  not_finite : Allowed Outcome.not_finite
  outside : {i : ℤ} {n : ℕ} → Allowed (Outcome.index_out_of_range i n)
  missing_key : {k : Text} → Allowed (Outcome.no_such_key k)
  too_large : Allowed Outcome.does_not_fit

pub data Good {A : Type 0} (P : A → Type 0) : Result A → Type 0 where
  returns : {a : A} → P a → Good P (ok a)
  raises : {e : EvalError} → Allowed e → Good P (err e)

-- The result is a value, with the property.
pub data Returns {A : Type 0} (P : A → Type 0) : Result A → Type 0 where
  returning : {a : A} → P a → Returns P (ok a)

pub Returns-Good : {A : Type 0} {P : A → Type 0} {r : Result A} → Returns P r → Good P r
Returns-Good (returning h) = returns h

-- An accepted check has the property.
pub data Post {A : Type 0} (P : A → Type 0) : Checked A → Type 0 where
  accepted : {a : A} → P a → Post P (Checked.ok a)
  rejected : {i : ℕ} {e : Complaint} → Post P (Checked.failed i e)

module _ {A B : Type 0} {P : A → Type 0} {Q : B → Type 0} where
  pub Good-bind :
      {r : Result A} {f : A → Result B}
      → Good P r
      → ((a : A) → P a → Good Q (f a))
      → Good Q (Outcome.◌>>=◌ r f)
  Good-bind (returns {a} h) k = k a h
  Good-bind (raises h) k = raises h

  pub Post-bind :
      {r : Checked A} {f : A → Checked B}
      → Post P r
      → ((a : A) → P a → Post Q (f a))
      → Post Q (r >>= f)
  Post-bind (accepted {a} h) k = k a h
  Post-bind rejected k = rejected

module _ {A : Type 0} {P : A → Type 0} where
  pub Good-if :
      (b : Bool) {x y : Result A}
      → (b ≡ true → Good P x)
      → (b ≡ false → Good P y)
      → Good P (if b then x else y)
  Good-if true hx hy = hx refl
  Good-if false hx hy = hy refl

  pub Post-require :
      (b : Bool) (i : ℕ) (e : Complaint) {k : Checked A}
      → (b ≡ true → Post P k)
      → Post P (require b i e >> k)
  unfolding require
  Post-require true i e h = h refl
  Post-require false i e h = rejected

  pub Post-if :
      (b : Bool) {x y : Checked A}
      → (b ≡ true → Post P x)
      → (b ≡ false → Post P y)
      → Post P (if b then x else y)
  Post-if true hx hy = hx refl
  Post-if false hx hy = hy refl

module _ {A : Type 0} {P Q : A → Type 0} where
  pub weaken : {r : Checked A} → ((a : A) → P a → Q a) → Post P r → Post Q r
  weaken k (accepted {a} h) = accepted (k a h)
  weaken k rejected = rejected

pub Post-ok :
    {A : Type 0} {P : A → Type 0} {r : Checked A} {a : A} → Post P r → r ≡ Checked.ok a → P a
Post-ok {P = P} (accepted h) e = subst P (cc) h
Post-ok rejected e = cc
