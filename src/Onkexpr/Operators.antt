-- ===== src/Onkexpr/Operators.antt =====
-- internal/onkexpr/eval.go: the operators and functions on values, below `eval`.
use onekit.Base.{
  ℕ, ◌-◌, ◌^◌, Bool, true, false, not, ◌&&◌, ◌||◌, Option, none, some, [], ◌∷◌, List, Text, bytes,
  text_eq, ltb, ◌==◌, if◌then◌else◌,
}
use onekit.Base.Int.{ℤ, pos, negsuc, neg_ℤ, ltb_ℤ, eqb_ℤ}
use onekit.Base.Utf8.{rune_count, has_prefix, has_suffix, contains_text}
use onekit.Onkir.Schema
use onekit.Onkir.Schema.{Schema, Field, FieldType}
use onekit.Onkexpr.Arith.{Op, plus, minus, times, over, modulo, int_arithmetic, min_int64}
use onekit.Onkexpr.Outcome.{
  Result, ok, err, index_out_of_range, no_such_key, cannot_index, cannot_negate, integer_overflow,
  division_by_zero, not_finite, unknown_function, does_not_fit, cannot_convert, nil_dereference,
  index_panic, uncomparable, bad_pattern, ◌>>=◌,
}
use onekit.Onkexpr.Syntax.{
  Ty, BinaryOp, equal, not_equal, less, less_eq, greater, member, compute, UnaryOp, negation,
}
use onekit.Onkexpr.Value
use onekit.Onkexpr.Value.{
  Value, Values, Entries, FloatOps, null, bool, int, double, string, list, object, nil, cons, end,
  entry, as_bool, as_int, as_string, as_object, as_float, find, nth,
}

-- The sign of `cmp` in `compare`.
pub data Sign : Type 0 where
  below same above : Sign

abbrev sign_of : Bool → Bool → Sign
sign_of lower higher = if lower then below else if higher then above else same

abbrev pub holds_for : BinaryOp → Sign → Bool
holds_for less below = true
holds_for less _ = false
holds_for less_eq above = false
holds_for less_eq _ = true
holds_for greater above = true
holds_for greater _ = false
holds_for _ below = false
holds_for _ _ = true

module _ {F : Type 0} (ops : FloatOps F) where
  -- Go's `==` on two values of type `any`: false for two dynamic types, a panic for one that cannot
  -- be compared.
  unfoldable pub equal_values : Value F → Value F → Result Bool
  equal_values null null = ok true
  equal_values (bool a) (bool b) = ok (if a then b else not b)
  equal_values (int a) (int b) = ok (eqb_ℤ a b)
  equal_values (double a) (double b) = ok (ops.eq a b)
  equal_values (string a) (string b) = ok (text_eq a b)
  equal_values (Value.bytes a) (Value.bytes b) = err uncomparable
  equal_values (list a) (list b) = err uncomparable
  equal_values (object a) (object b) = err uncomparable
  equal_values _ _ = ok false

  -- The loop of `contains` over a list.
  unfoldable pub contains_item : Values F → Value F → Result Bool
  unfolding equal_values
  contains_item nil v = ok false
  contains_item (cons x xs) v =
      equal_values x v >>= λ found. if found then ok true else contains_item xs v

  abbrev has_key : Option (Value F) → Bool
  has_key none = false
  has_key (some _) = true

  unfoldable pub contains : Value F → Value F → Result Bool
  unfolding contains_item find
  contains (list xs) v = contains_item xs v
  contains (object m) v = ok (has_key (find (as_string v) m))
  contains _ v = ok false

  unfoldable pub sign_between : Value F → Value F → Sign
  sign_between (int a) r = sign_of (ltb_ℤ a (as_int r)) (ltb_ℤ (as_int r) a)
  sign_between (double a) r = sign_of (ops.lt a (as_float ops r)) (ops.lt (as_float ops r) a)
  sign_between _ r = same

  -- The result must be finite.
  abbrev pub finite : F → Result (Value F)
  finite x = if ops.is_inf x || ops.is_nan x then err not_finite else ok (double x)

  unfoldable pub float_arithmetic : Op → F → F → Result (Value F)
  float_arithmetic plus a b = finite (ops.add a b)
  float_arithmetic minus a b = finite (ops.sub a b)
  float_arithmetic times a b = finite (ops.mul a b)
  float_arithmetic over a b =
      if ops.eq b (ops.of_int (pos 0)) then err division_by_zero else finite (ops.div a b)
  float_arithmetic modulo a b = finite (ops.of_int (pos 0))

  unfoldable pub arithmetic : Op → Value F → Value F → Result (Value F)
  unfolding int_arithmetic float_arithmetic
  arithmetic op (int a) r = int_arithmetic op a (as_int r) >>= λ n. ok (int n)
  arithmetic op l r = float_arithmetic op (as_float ops l) (as_float ops r)

  -- `evalBinary` behind its operands; `&&` and `||` do not come here.
  unfoldable pub binary_value : BinaryOp → Value F → Value F → Result (Value F)
  unfolding equal_values contains sign_between arithmetic
  binary_value equal l r = equal_values l r >>= λ b. ok (bool b)
  binary_value not_equal l r = equal_values l r >>= λ b. ok (bool (not b))
  binary_value member l r = contains r l >>= λ b. ok (bool b)
  binary_value (compute op) l r = arithmetic op l r
  binary_value op l r = ok (bool (holds_for op (sign_between l r)))

  unfoldable pub unary_value : UnaryOp → Value F → Result (Value F)
  unary_value negation v = ok (bool (not (as_bool v)))
  unary_value UnaryOp.minus (int n) =
      if eqb_ℤ n min_int64 then err integer_overflow else ok (int (neg_ℤ n))
  unary_value UnaryOp.minus (double x) = ok (double (ops.neg x))
  unary_value UnaryOp.minus _ = err cannot_negate

  unfoldable pub size_of : Value F → ℕ
  unfolding rune_count
  size_of (string s) = rune_count s
  size_of (Value.bytes s) = onekit.Base.length s
  size_of (list vs) = Value.length vs
  size_of (object m) = Value.count m
  size_of _ = 0

  unfoldable pub to_int : Value F → Result (Value F)
  to_int (int n) = ok (int n)
  to_int (double x) =
      let limit = ops.of_int (pos (2 ^ 63)) in
      if ops.is_nan x
        || ops.is_inf x
        || ops.lt limit x
        || ops.eq x limit
        || ops.lt x (ops.of_int (negsuc (2 ^ 63 - 1)))
      then err does_not_fit
      else ok (int (ops.to_int x))
  to_int _ = err cannot_convert

  unfoldable pub to_double : Value F → Value F
  to_double (int n) = double (ops.of_int n)
  to_double v = v

  -- `evalIndex` behind its operands.
  abbrev pub item_at : ℤ → ℕ → Option (Value F) → Result (Value F)
  item_at i len none = err (index_out_of_range i len)
  item_at i len (some v) = ok v

  unfoldable pub list_index : Values F → ℤ → Result (Value F)
  unfolding nth
  list_index vs (pos i) = item_at (pos i) (Value.length vs) (nth vs i)
  list_index vs (negsuc i) = err (index_out_of_range (negsuc i) (Value.length vs))

  abbrev pub key_at : Text → Option (Value F) → Result (Value F)
  key_at k none = err (no_such_key k)
  key_at k (some v) = ok v

  unfoldable pub index_value : Value F → Value F → Result (Value F)
  unfolding list_index find
  index_value (list vs) i = list_index vs (as_int i)
  index_value (object m) i = key_at (as_string i) (find (as_string i) m)
  index_value _ i = err cannot_index

module _ {F : Type 0} (ops : FloatOps F) (schema : Schema) where
  abbrev pub first_name : List Schema.EnumValue → Result (Value F)
  first_name [] = err index_panic
  first_name (v ∷ _) = ok (string v.name)

  -- `ZeroValue`
  unfoldable pub zero_value : Ty → Result (Value F)
  zero_value Ty.bool = ok (bool false)
  zero_value Ty.int = ok (int (pos 0))
  zero_value Ty.double = ok (double (ops.of_int (pos 0)))
  zero_value Ty.string = ok (string [])
  zero_value Ty.bytes = ok (Value.bytes [])
  zero_value (Ty.list t) = ok (list nil)
  zero_value (Ty.map_of t) = ok (object end)
  zero_value (Ty.message m) = ok (object end)
  zero_value (Ty.enum e) = first_name (schema.enum_at e).values

  abbrev pub zero_of : Option Ty → Result (Value F)
  zero_of none = err nil_dereference
  zero_of (some t) = zero_value t

  abbrev pub present_or : Option Ty → Option (Value F) → Result (Value F)
  present_or t none = zero_of t
  present_or t (some v) = ok v

  -- `evalSelect` behind its operand.
  unfoldable pub select_value : Option Ty → Text → Value F → Result (Value F)
  unfolding zero_value find
  select_value t name v = present_or t (find name (as_object v))

  abbrev is_message : Option FieldType → Bool
  is_message (some (FieldType.message _)) = true
  is_message _ = false

  -- A present value that is a container counts when it is not empty, any other when it is not zero.
  abbrev pub non_zero : Option Ty → Value F → Result (Value F)
  non_zero t (list vs) = ok (bool (ltb 0 (Value.length vs)))
  non_zero t (object m) = ok (bool (ltb 0 (Value.count m)))
  non_zero t (Value.bytes s) = ok (bool (ltb 0 (onekit.Base.length s)))
  non_zero t v = zero_of t >>= λ z. equal_values ops v z >>= λ b. ok (bool (not b))

  abbrev pub has_present : Option Ty → Option Field → Value F → Result (Value F)
  has_present t none v = err nil_dereference
  has_present t (some f) v =
      if f.optional || is_message f.type && not f.repeated then ok (bool true) else non_zero t v

  abbrev pub has_found : Option Ty → Option Field → Option (Value F) → Result (Value F)
  has_found t f none = ok (bool false)
  has_found t f (some v) = has_present t f v

  -- `evalHas` behind its operand.
  unfoldable pub has_value : Option Ty → Option Field → Text → Value F → Result (Value F)
  unfolding zero_value find equal_values
  has_value t f name v = has_found t f (find name (as_object v))

-- The functions but `has`, which sees its argument unevaluated.
pub data Fn : Type 0 where
  size int_of double_of starts_with ends_with contains_sub matches : Fn
  other : Text → Fn

unfoldable pub fn_of : Text → Fn
unfolding text_eq
fn_of name =
    if text_eq name (bytes "size")
    then size
    else if text_eq name (bytes "int")
    then int_of
    else if text_eq name (bytes "double")
    then double_of
    else if text_eq name (bytes "startsWith")
    then starts_with
    else if text_eq name (bytes "endsWith")
    then ends_with
    else if text_eq name (bytes "contains")
    then contains_sub
    else if text_eq name (bytes "matches")
    then matches
    else other name

abbrev pub matched : {F : Type 0} → Option Bool → Result (Value F)
matched none = err bad_pattern
matched (some b) = ok (bool b)

module _ {F : Type 0} (ops : FloatOps F) (full_match : Text → Text → Option Bool) where
  -- The `switch` of `evalCall`: a missing argument is an index out of range, which panics.
  -- `full_match` is `fullMatch` by the `regexp` package: none where `MustCompile` panics.
  unfoldable pub apply_fn : Fn → Text → Values F → Result (Value F)
  unfolding size_of to_int to_double has_prefix has_suffix contains_text
  apply_fn (other name) regex args = err (unknown_function name)
  apply_fn f regex nil = err index_panic
  apply_fn size regex (cons v _) = ok (int (pos (size_of ops v)))
  apply_fn int_of regex (cons v _) = to_int ops v
  apply_fn double_of regex (cons v _) = ok (to_double ops v)
  apply_fn matches regex (cons v _) = matched (full_match regex (as_string v))
  apply_fn f regex (cons v nil) = err index_panic
  apply_fn starts_with regex (cons v (cons w _)) =
      ok (bool (has_prefix (as_string v) (as_string w)))
  apply_fn ends_with regex (cons v (cons w _)) = ok (bool (has_suffix (as_string v) (as_string w)))
  apply_fn contains_sub regex (cons v (cons w _)) =
      ok (bool (contains_text (as_string v) (as_string w)))
