-- ===== src/Onkexpr/Arith.antt =====
-- internal/onkexpr/eval.go: `intArithmetic`, with the wrap-around of Go's int64 written out.
pub mod Exact
use onekit.Base.{ℕ, ◌-◌, ◌%◌, ◌^◌, Bool, true, false, not, ◌&&◌, ◌||◌, ltb, if◌then◌else◌}
use onekit.Base.Int.{ℤ, pos, negsuc, ◌+ℤ◌, ◌-ℤ◌, ◌*ℤ◌, ◌≤ℤ◌, quot, rem, ltb_ℤ, eqb_ℤ}
use onekit.Onkexpr.Outcome.{Result, ok, err, integer_overflow, division_by_zero}

-- `math.MinInt64` and `math.MaxInt64`.
abbrev pub min_int64 : ℤ
min_int64 = negsuc (2 ^ 63 - 1)

abbrev pub max_int64 : ℤ
max_int64 = pos (2 ^ 63 - 1)

abbrev pub IsInt64 : ℤ → Type 0
IsInt64 a = (min_int64 ≤ℤ a) × (a ≤ℤ max_int64)

-- Two's complement wrap-around of a mathematical result.
unfoldable pub wrap64 : ℤ → ℤ
wrap64 (pos n) = let w = n % 2 ^ 64 in if ltb w (2 ^ 63) then pos w else negsuc (2 ^ 64 - w - 1)
wrap64 (negsuc n) = let w = n % 2 ^ 64 in if ltb w (2 ^ 63) then negsuc w else pos (2 ^ 64 - 1 - w)

-- The arithmetic operators of the language.
pub data Op : Type 0 where
  plus minus times over modulo : Op

-- Go's `p != q` on Booleans.
abbrev pub differ : Bool → Bool → Bool
differ true q = not q
differ false q = q

unfoldable pub int_add : ℤ → ℤ → Result ℤ
unfolding ◌+ℤ◌ wrap64
int_add a b =
    let sum = wrap64 (a +ℤ b) in
    if differ (ltb_ℤ a sum) (ltb_ℤ (pos 0) b) then err integer_overflow else ok sum

unfoldable pub int_sub : ℤ → ℤ → Result ℤ
unfolding ◌-ℤ◌ wrap64
int_sub a b =
    let diff = wrap64 (a -ℤ b) in
    if differ (ltb_ℤ diff a) (ltb_ℤ (pos 0) b) then err integer_overflow else ok diff

-- The test of `case "*"` that reports an overflow, for factors that are not zero.
unfoldable pub mul_overflows : ℤ → ℤ → ℤ → Bool
mul_overflows product a b =
    not (eqb_ℤ (wrap64 (quot product b)) a)
    || (eqb_ℤ a min_int64 && eqb_ℤ b (negsuc 0))
    || (eqb_ℤ b min_int64 && eqb_ℤ a (negsuc 0))

unfoldable pub int_mul : ℤ → ℤ → Result ℤ
int_mul a b =
    if eqb_ℤ a (pos 0) || eqb_ℤ b (pos 0)
    then ok (pos 0)
    else let product = wrap64 (a *ℤ b) in
      if mul_overflows product a b then err integer_overflow else ok product

-- `case "/", "%"`: the tests that both share, then the operation.
unfoldable pub int_div : (ℤ → ℤ → ℤ) → ℤ → ℤ → Result ℤ
int_div operation a b =
    if eqb_ℤ b (pos 0)
    then err division_by_zero
    else if eqb_ℤ a min_int64 && eqb_ℤ b (negsuc 0)
    then err integer_overflow
    else ok (wrap64 (operation a b))

unfoldable pub int_arithmetic : Op → ℤ → ℤ → Result ℤ
int_arithmetic plus a b = int_add a b
int_arithmetic minus a b = int_sub a b
int_arithmetic times a b = int_mul a b
int_arithmetic over a b = int_div quot a b
int_arithmetic modulo a b = int_div rem a b
