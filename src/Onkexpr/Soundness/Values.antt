-- ===== src/Onkexpr/Soundness/Values.antt =====
-- internal/onkexpr/eval.go: what the operators make of typed values.
use onekit.Base.{ℕ, suc, ◌≡◌, refl, ap, true, Text, text_eq, zero, ==_iff, inl, inr, Bool-cases}
use onekit.Base.Int.{ℤ, pos, negsuc}
use onekit.Onkir.Schema.{Schema}
use onekit.Onkexpr.Arith.{
  Op, plus, minus, times, over, modulo, int_arithmetic, int_add, int_sub, int_mul, int_div,
}
use onekit.Onkexpr.Syntax.{Ty, ty_eq, UnaryOp}
use onekit.Onkexpr.Value.{Value, Values, Entries, FloatOps, find, nth, as_int, as_string}
use onekit.Onkexpr.Operators.{
  equal_values, contains_item, contains, arithmetic, float_arithmetic, finite, unary_value, to_int,
  to_double, index_value, list_index, item_at, key_at,
}
use onekit.Onkexpr.Check.Types.{is_simple, is_number}
use onekit.Onkexpr.Soundness.Typed
use onekit.Onkexpr.Soundness.Typed.{
  HasType, Items, Keyed, Fields, Good, returns, raises, Good-bind, Good-if,
}

pub ty_eq→eq : (t u : Ty) → ty_eq t u ≡ true → t ≡ u
unfolding ty_eq
ty_eq→eq Ty.bool Ty.bool h = refl
ty_eq→eq Ty.int Ty.int h = refl
ty_eq→eq Ty.double Ty.double h = refl
ty_eq→eq Ty.string Ty.string h = refl
ty_eq→eq Ty.bytes Ty.bytes h = refl
ty_eq→eq (Ty.list t) (Ty.list u) h = ap Ty.list (ty_eq→eq t u h)
ty_eq→eq (Ty.map_of t) (Ty.map_of u) h = ap Ty.map_of (ty_eq→eq t u h)
ty_eq→eq (Ty.message m) (Ty.message n) h = ap Ty.message ((==_iff m n).0 h)
ty_eq→eq (Ty.enum m) (Ty.enum n) h = ap Ty.enum ((==_iff m n).0 h)
ty_eq→eq _ _ h = cc

-- No more is said of a value.
abbrev pub Any : {A : Type 0} → A → Type 0
Any _ = Unit

pub ruleset good_rules = (
  Good-if, returns, raises, tt, Typed.overflow, Typed.zero_divisor, Typed.not_finite,
  Typed.too_large, Typed.is_bool, Typed.is_int, Typed.is_double,
)

int_add-Good : (a b : ℤ) → Good Any (int_add a b)
unfolding int_add
int_add-Good a b = search good_rules

int_sub-Good : (a b : ℤ) → Good Any (int_sub a b)
unfolding int_sub
int_sub-Good a b = search good_rules

int_mul-Good : (a b : ℤ) → Good Any (int_mul a b)
unfolding int_mul
int_mul-Good a b = search good_rules

int_div-Good : (f : ℤ → ℤ → ℤ) (a b : ℤ) → Good Any (int_div f a b)
unfolding int_div
int_div-Good f a b = search good_rules

pub int_arithmetic-Good : (op : Op) (a b : ℤ) → Good Any (int_arithmetic op a b)
unfolding int_arithmetic
int_arithmetic-Good plus a b = int_add-Good a b
int_arithmetic-Good minus a b = int_sub-Good a b
int_arithmetic-Good times a b = int_mul-Good a b
int_arithmetic-Good over a b = int_div-Good _ a b
int_arithmetic-Good modulo a b = int_div-Good _ a b

module _ {F : Type 0} (ops : FloatOps F) (schema : Schema) where
  finite-Good : (x : F) → Good (λ v. HasType schema v Ty.double) (finite ops x)
  finite-Good x = search good_rules

  float_arithmetic-Good :
      (op : Op) (a b : F) → Good (λ v. HasType schema v Ty.double) (float_arithmetic ops op a b)
  unfolding float_arithmetic
  float_arithmetic-Good plus a b = finite-Good _
  float_arithmetic-Good minus a b = finite-Good _
  float_arithmetic-Good times a b = finite-Good _
  float_arithmetic-Good over a b = search (good_rules, finite-Good)
  float_arithmetic-Good modulo a b = finite-Good _

  pub arithmetic-Good :
      (op : Op) (t : Ty) (v w : Value F)
      → is_number t ≡ true
      → HasType schema v t
      → HasType schema w t
      → Good (λ r. HasType schema r t) (arithmetic ops op v w)
  unfolding arithmetic
  arithmetic-Good op t v w h (Typed.is_int {n}) hw =
      Good-bind (int_arithmetic-Good op n (as_int w)) (λ r _. returns Typed.is_int)
  arithmetic-Good op t v w h Typed.is_double hw = float_arithmetic-Good op _ _
  arithmetic-Good op t v w h _ hw = cc

  -- Two values of one type that `==` accepts are compared without a panic.
  pub equal_values-Good :
      (t : Ty) (v w : Value F)
      → is_simple t ≡ true
      → HasType schema v t
      → Good Any (equal_values ops v w)
  unfolding equal_values
  equal_values-Good t v Value.null h Typed.is_bool = returns tt
  equal_values-Good t v (Value.bool _) h Typed.is_bool = returns tt
  equal_values-Good t v _ h Typed.is_bool = returns tt
  equal_values-Good t v (Value.int _) h Typed.is_int = returns tt
  equal_values-Good t v _ h Typed.is_int = returns tt
  equal_values-Good t v (Value.double _) h Typed.is_double = returns tt
  equal_values-Good t v _ h Typed.is_double = returns tt
  equal_values-Good t v (Value.string _) h Typed.is_string = returns tt
  equal_values-Good t v _ h Typed.is_string = returns tt
  equal_values-Good t v (Value.string _) h Typed.is_enum = returns tt
  equal_values-Good t v _ h Typed.is_enum = returns tt
  equal_values-Good t v w h _ = cc

  contains_item-Good :
      (t : Ty) (vs : Values F) (v : Value F)
      → is_simple t ≡ true
      → Items schema vs t
      → Good Any (contains_item ops vs v)
  unfolding contains_item
  contains_item-Good t vs v h Typed.none_left = returns tt
  contains_item-Good t vs v h (Typed.item {v = x} hx hs) =
      Good-bind (equal_values-Good t x v h hx)
        λ found _. Good-if found (λ _. returns tt) (λ _. contains_item-Good t _ v h hs)

  pub contains_list-Good :
      (t : Ty) (w v : Value F)
      → is_simple t ≡ true
      → HasType schema w (Ty.list t)
      → Good Any (contains ops w v)
  unfolding contains
  contains_list-Good t w v h (Typed.is_list hs) = contains_item-Good t _ v h hs

  pub contains_map-Good :
      (t : Ty) (w v : Value F) → HasType schema w (Ty.map_of t) → Good Any (contains ops w v)
  unfolding contains
  contains_map-Good t w v (Typed.is_map hs) = returns tt

  pub negate-Good :
      (t : Ty) (v : Value F)
      → is_number t ≡ true
      → HasType schema v t
      → Good (λ r. HasType schema r t) (unary_value ops UnaryOp.minus v)
  unfolding unary_value
  negate-Good t v h Typed.is_int = search good_rules
  negate-Good t v h Typed.is_double = returns Typed.is_double
  negate-Good t v h _ = cc

  pub to_int-Good :
      (t : Ty) (v : Value F)
      → is_number t ≡ true
      → HasType schema v t
      → Good (λ r. HasType schema r Ty.int) (to_int ops v)
  unfolding to_int
  to_int-Good t v h Typed.is_int = returns Typed.is_int
  to_int-Good t v h Typed.is_double = search good_rules
  to_int-Good t v h _ = cc

  pub to_double-HasType :
      (t : Ty) (v : Value F)
      → is_number t ≡ true
      → HasType schema v t
      → HasType schema (to_double ops v) Ty.double
  unfolding to_double
  to_double-HasType t v h Typed.is_int = Typed.is_double
  to_double-HasType t v h Typed.is_double = Typed.is_double
  to_double-HasType t v h _ = cc

  -- An item that is there, and a typed one where it is.
  nth-Good :
      (t : Ty) (i : ℤ) (n : ℕ) (vs : Values F) (k : ℕ)
      → Items schema vs t
      → Good (λ r. HasType schema r t) (item_at ops i n (nth vs k))
  unfolding nth
  nth-Good t i n vs k Typed.none_left = raises Typed.outside
  nth-Good t i n vs zero (Typed.item hx hs) = returns hx
  nth-Good t i n vs (suc k) (Typed.item hx hs) = nth-Good t i n _ k hs

  pub index_list-Good :
      (t : Ty) (v w : Value F)
      → HasType schema v (Ty.list t)
      → Good (λ r. HasType schema r t) (index_value ops v w)
  unfolding index_value list_index
  index_list-Good t v (Value.int (negsuc i)) (Typed.is_list hs) = raises Typed.outside
  index_list-Good t v (Value.int (pos i)) (Typed.is_list hs) = nth-Good t _ _ _ i hs
  index_list-Good t v _ (Typed.is_list hs) = nth-Good t _ _ _ 0 hs

  find-Good :
      (t : Ty) (k : Text) (m : Entries F)
      → Keyed schema m t
      → Good (λ r. HasType schema r t) (key_at ops k (find k m))
  unfolding find
  find-Good t k m Typed.no_key = raises Typed.missing_key
  find-Good t k m (Typed.key {k = j} hx hs) = elim (Bool-cases (text_eq k j)) [
    | inl e ↦ rw e (returns hx)
    | inr e ↦ rw e (find-Good t k _ hs)
  ]

  pub index_map-Good :
      (t : Ty) (v w : Value F)
      → HasType schema v (Ty.map_of t)
      → Good (λ r. HasType schema r t) (index_value ops v w)
  unfolding index_value
  index_map-Good t v w (Typed.is_map hs) = find-Good t (as_string w) _ hs
