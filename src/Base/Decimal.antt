-- ===== src/Base/Decimal.antt =====
-- `strconv.ParseInt(s, 10, 64)` and `strconv.Itoa` of Go's standard library.
use Prim.Native.Nat.{ℕ, zero, suc, ◌+◌, ◌-◌, ◌*◌, ◌/◌, ◌%◌, ◌^◌}
use mathlib.Core.List.{[], ◌∷◌}
use mathlib.Core.Option.{Option, none, some}
use onekit.Base.Tests.{ltb, leb, between, ◌==◌, if◌then◌else◌}
use onekit.Base.Bytes.{Text}
use onekit.Base.Int.{ℤ, pos, negsuc, sub_ℕ}

-- The value of decimal digits behind a value read so far.
unfoldable pub digits_value : ℕ → Text → Option ℕ
digits_value n [] = some n
digits_value n (c ∷ rest) =
    let more = digits_value (n * 10 + (c - b'0')) rest in if between b'0' b'9' c then more else none

-- One digit at least.
unfoldable pub parse_nat : Text → Option ℕ
unfolding digits_value
parse_nat [] = none
parse_nat (c ∷ rest) = digits_value 0 (c ∷ rest)

abbrev negative : Option ℕ → Option ℤ
negative none = none
negative (some n) = if leb n (2 ^ 63) then some (sub_ℕ 0 n) else none

abbrev positive : Option ℕ → Option ℤ
positive none = none
positive (some n) = if ltb n (2 ^ 63) then some (pos n) else none

-- A sign may stand in front; the result must fit in 64 bits.
unfoldable pub parse_int64 : Text → Option ℤ
unfolding parse_nat
parse_int64 [] = none
parse_int64 (c ∷ rest) =
    if c == b'-'
    then negative (parse_nat rest)
    else if c == b'+'
    then positive (parse_nat rest)
    else positive (parse_nat (c ∷ rest))

-- The digits of a number before those written so far; a number has fewer digits than its successor.
digits_before : ℕ → ℕ → Text → Text
digits_before zero n out = out
digits_before (suc fuel) n out =
    let rest = digits_before fuel (n / 10) ((b'0' + n % 10) ∷ out) in
    if ltb n 10 then (b'0' + n) ∷ out else rest

unfoldable pub format_nat : ℕ → Text
unfolding digits_before
format_nat n = digits_before (suc n) n []

-- `strconv.Itoa`
unfoldable pub format_int : ℤ → Text
unfolding format_nat
format_int (pos n) = format_nat n
format_int (negsuc n) = b'-' ∷ format_nat (suc n)
