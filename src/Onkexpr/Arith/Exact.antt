-- ===== src/Onkexpr/Arith/Exact.antt =====
-- internal/onkexpr/eval.go: `intArithmetic` against the arithmetic of integers.
use onekit.Base.{
  ℕ, zero, suc, ◌+◌, ◌-◌, ◌*◌, ◌/◌, ◌%◌, ◌^◌, ◌≤◌, ◌<◌, ◌≡◌, ◌≢◌, refl, Bool, ◌&&◌, arith, leb,
  if◌then◌else◌,
}
use native.Mathlib.Decide.{dec_lt}
use onekit.Base.Int.{ℤ, pos, negsuc, ◌+ℤ◌, ◌-ℤ◌, ◌*ℤ◌, quot, rem, pos_part, neg_part, eqb_ℤ}
use onekit.Onkexpr.Outcome.{Result, ok, err, integer_overflow, division_by_zero}
use onekit.Onkexpr.Arith.{
  IsInt64, min_int64, max_int64, wrap64, int_add, int_sub, int_mul, int_div, mul_overflows, Op,
  plus, minus, times, over, modulo, int_arithmetic,
}

-- `a ≤ b` as a test.
abbrev pub leb_ℤ : ℤ → ℤ → Bool
leb_ℤ a b = leb (pos_part a + neg_part b) (pos_part b + neg_part a)

abbrev pub fits : ℤ → Bool
fits a = leb_ℤ min_int64 a && leb_ℤ a max_int64

-- What an exact operation returns: the result where it fits.
abbrev pub checked : ℤ → Result ℤ
checked r = if fits r then ok r else err integer_overflow

pub add_exact : (a b : ℤ) → IsInt64 a → IsInt64 b → int_add a b ≡ checked (a +ℤ b)
unfolding int_add
add_exact (pos a) (pos b) ha hb = ground arith
add_exact (pos a) (negsuc b) ha hb = ground arith
add_exact (negsuc a) (pos b) ha hb = ground arith
add_exact (negsuc a) (negsuc b) ha hb = ground arith

pub sub_exact : (a b : ℤ) → IsInt64 a → IsInt64 b → int_sub a b ≡ checked (a -ℤ b)
unfolding int_sub
sub_exact (pos a) (pos b) ha hb = ground arith
sub_exact (pos a) (negsuc b) ha hb = ground arith
sub_exact (negsuc a) (pos b) ha hb = ground arith
sub_exact (negsuc a) (negsuc b) ha hb = ground arith

pub wrap64_fits : (r : ℤ) → IsInt64 r → wrap64 r ≡ r
unfolding wrap64
wrap64_fits (pos r) h = ground arith
wrap64_fits (negsuc r) h = ground arith

mul-div_cancel : (a b : ℕ) → 0 < b → (a * b) / b ≡ a
mul-div_cancel a b h = grind arith

le_of_div-eq : (w a b : ℕ) → w / b ≡ a → a * b ≤ w
le_of_div-eq w a b h = grind arith

div-le : (w b : ℕ) → w / b ≤ w
div-le w b = grind arith

pub div_exact :
    (a b : ℤ)
    → IsInt64 a
    → IsInt64 b
    → int_div quot a b ≡ (if eqb_ℤ b (pos 0) then err division_by_zero else checked (quot a b))
unfolding int_div quot wrap64
div_exact (pos a) (pos b) ha hb = ground (arith, div-le a b)
div_exact (pos a) (negsuc b) ha hb = ground (arith, div-le a (suc b))
div_exact (negsuc a) (pos b) ha hb = ground (arith, div-le (suc a) b)
div_exact (negsuc a) (negsuc b) ha hb = ground (arith, div-le (suc a) (suc b))

-- The product of two negative factors, with its size named.
mul_exact_neg :
    (a b n : ℕ)
    → n ≡ suc a * suc b
    → IsInt64 (negsuc a)
    → IsInt64 (negsuc b)
    → int_mul (negsuc a) (negsuc b) ≡ checked (negsuc a *ℤ negsuc b)
unfolding int_mul mul_overflows quot wrap64 ◌*ℤ◌
mul_exact_neg a b n e ha hb = rw (← e) (elim (dec_lt n (2 ^ 63)) [
  | yes low ↦
      let q : n / suc b ≡ suc a = rw e (mul-div_cancel (suc a) (suc b) (omega arith)) in
      let m : n % 2 ^ 64 ≡ n = omega arith in rw m (ground (arith, q))
  | no high ↦ elim (dec_lt (n % 2 ^ 64) (2 ^ 63)) [
    | yes small ↦
        let q : n % 2 ^ 64 / suc b ≢ suc a =
          λ h. absurd (omega (arith, le_of_div-eq (n % 2 ^ 64) (suc a) (suc b) h)) in
        ground (arith, q)
    | no large ↦ ground (arith, div-le (2 ^ 64 - n % 2 ^ 64) (suc b))
  ]
])

-- A negative factor times a positive one.
mul_exact_left :
    (a b n : ℕ)
    → n ≡ suc a * suc b
    → IsInt64 (negsuc a)
    → IsInt64 (pos (suc b))
    → int_mul (negsuc a) (pos (suc b)) ≡ checked (negsuc a *ℤ pos (suc b))
unfolding int_mul mul_overflows quot wrap64 ◌*ℤ◌
mul_exact_left a b n e ha hb = rw (← e) (elim (dec_lt (2 ^ 63) n) [
  | no fits ↦
      let p : 0 < n = rw e (grind arith) in
      let q : n / suc b ≡ suc a = rw e (mul-div_cancel (suc a) (suc b) (omega arith)) in
      let m : (n - 1) % 2 ^ 64 ≡ n - 1 = omega arith in ground (arith, p, q, m)
  | yes big ↦ elim (dec_lt ((n - 1) % 2 ^ 64) (2 ^ 63)) [
    | yes small ↦
        let q : ((n - 1) % 2 ^ 64 + 1) / suc b ≢ suc a =
          λ h. absurd (omega (arith, le_of_div-eq ((n - 1) % 2 ^ 64 + 1) (suc a) (suc b) h)) in
        ground (arith, q)
    | no large ↦ ground (arith, div-le (2 ^ 64 - 1 - (n - 1) % 2 ^ 64) (suc b))
  ]
])

pub mul_exact : (a b : ℤ) → IsInt64 a → IsInt64 b → int_mul a b ≡ checked (a *ℤ b)
unfolding int_mul mul_overflows quot wrap64 ◌*ℤ◌
mul_exact (pos a) (pos b) ha hb = ground (
  arith,
  mul-div_cancel a b,
  le_of_div-eq (a * b % 2 ^ 64) a b,
  div-le (2 ^ 64 - a * b % 2 ^ 64) b,
)
mul_exact (pos a) (negsuc b) ha hb =
    let n = a * suc b in
    let w = (n - 1) % 2 ^ 64 in
    ground (
      arith,
      mul-div_cancel a (suc b),
      le_of_div-eq (w + 1) a (suc b),
      div-le (2 ^ 64 - 1 - w) (suc b),
    )
mul_exact (negsuc a) (pos zero) ha hb = ground arith
mul_exact (negsuc a) (pos (suc b)) ha hb = mul_exact_left a b (suc a * suc b) refl ha hb
mul_exact (negsuc a) (negsuc b) ha hb = mul_exact_neg a b (suc a * suc b) refl ha hb

-- The remainder fits, and only the pair that Go's division traps on is refused.
mod_exact :
    (a b : ℤ)
    → IsInt64 a
    → IsInt64 b
    → int_div rem a b ≡ (
        if eqb_ℤ b (pos 0)
        then err division_by_zero
        else if eqb_ℤ a min_int64 && eqb_ℤ b (negsuc 0)
        then err integer_overflow
        else ok (rem a b))
unfolding int_div rem wrap64
mod_exact (pos a) (pos b) ha hb = ground arith
mod_exact (pos a) (negsuc b) ha hb = ground arith
mod_exact (negsuc a) (pos b) ha hb = ground arith
mod_exact (negsuc a) (negsuc b) ha hb = ground arith

-- What each operator means over the integers.
abbrev pub exact : Op → ℤ → ℤ → Result ℤ
exact plus a b = checked (a +ℤ b)
exact minus a b = checked (a -ℤ b)
exact times a b = checked (a *ℤ b)
exact over a b = if eqb_ℤ b (pos 0) then err division_by_zero else checked (quot a b)
exact modulo a b =
    if eqb_ℤ b (pos 0)
    then err division_by_zero
    else if eqb_ℤ a min_int64 && eqb_ℤ b (negsuc 0)
    then err integer_overflow
    else ok (rem a b)

-- On 64-bit operands every operator returns the exact result of integer arithmetic when that fits
-- in 64 bits and reports an overflow when it does not; a zero divisor is reported; the remainder of
-- the least integer by -1 is reported as an overflow.
pub int_arithmetic-exact :
    (op : Op) (a b : ℤ) → IsInt64 a → IsInt64 b → int_arithmetic op a b ≡ exact op a b
unfolding int_arithmetic
int_arithmetic-exact plus a b ha hb = add_exact a b ha hb
int_arithmetic-exact minus a b ha hb = sub_exact a b ha hb
int_arithmetic-exact times a b ha hb = mul_exact a b ha hb
int_arithmetic-exact over a b ha hb = div_exact a b ha hb
int_arithmetic-exact modulo a b ha hb = mod_exact a b ha hb
