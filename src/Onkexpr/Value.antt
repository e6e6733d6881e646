-- ===== src/Onkexpr/Value.antt =====
-- internal/onkexpr/eval.go: run-time values, their conversions, and the float64 operations. A value
-- of Go's type `any` is one of the dynamic types that the evaluator makes.
use onekit.Base.{ℕ, zero, suc, [], Bool, false, Option, none, some, Text, text_eq, if◌then◌else◌}
use onekit.Base.Int.{ℤ, pos}

mutual
  pub data Value (F : Type 0) : Type 0 where
    null : Value F
    bool : Bool → Value F
    int : ℤ → Value F
    double : F → Value F
    string : Text → Value F
    bytes : Text → Value F
    list : Values F → Value F
    object : Entries F → Value F

  pub data Values (F : Type 0) : Type 0 where
    nil : Values F
    cons : Value F → Values F → Values F

  pub data Entries (F : Type 0) : Type 0 where
    end : Entries F
    entry : Text → Value F → Entries F → Entries F

-- What the evaluator takes from float64: no law is assumed of any of it.
pub record FloatOps (F : Type 0) : Type 0 where
  pub add : F → F → F
  pub sub : F → F → F
  pub mul : F → F → F
  pub div : F → F → F
  pub neg : F → F
  pub lt : F → F → Bool
  pub eq : F → F → Bool
  pub is_inf : F → Bool
  pub is_nan : F → Bool
  -- `float64(i)`, and `int64(x)` for an x that fits.
  pub of_int : ℤ → F
  pub to_int : F → ℤ

module _ {F : Type 0} where
  -- `asBool`, `asInt` and `asString`: the zero value of the type where the value has another.
  abbrev pub as_bool : Value F → Bool
  as_bool (bool b) = b
  as_bool _ = false

  abbrev pub as_int : Value F → ℤ
  as_int (int n) = n
  as_int _ = pos 0

  abbrev pub as_string : Value F → Text
  as_string (string s) = s
  as_string _ = []

  -- `x.([]any)` and `x.(map[string]any)`, which are empty where the value is neither.
  abbrev pub as_list : Value F → Values F
  as_list (list vs) = vs
  as_list _ = nil

  abbrev pub as_object : Value F → Entries F
  as_object (object m) = m
  as_object _ = end

  unfoldable pub find : Text → Entries F → Option (Value F)
  find k end = none
  find k (entry j v m) = if text_eq k j then some v else find k m

  abbrev pub length : Values F → ℕ
  length nil = 0
  length (cons v vs) = suc (length vs)

  abbrev pub count : Entries F → ℕ
  count end = 0
  count (entry k v m) = suc (count m)

  unfoldable pub nth : Values F → ℕ → Option (Value F)
  nth nil i = none
  nth (cons v vs) zero = some v
  nth (cons v vs) (suc i) = nth vs i

-- `asFloat`
abbrev pub as_float : {F : Type 0} → FloatOps F → Value F → F
as_float ops (double x) = x
as_float ops _ = ops.of_int (pos 0)
