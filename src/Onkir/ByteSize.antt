-- ===== src/Onkir/ByteSize.antt =====
-- internal/onkir/helpers.go: `ParseByteSize` and `Method.MaxBodyBytes`.
use onekit.Base.{
  ℕ, ◌*◌, ◌/◌, ◌^◌, ◌≤◌, ◌<◌, ◌≡◌, Option, none, some, List, [], ◌∷◌, Text, bytes, All, refl,
  text_eq, ltb, leb, arith, if◌then◌else◌,
}
use native.Mathlib.Nat.{le-div_iff_mul-le}
use onekit.Base.Int.{ℤ, pos, negsuc, int64_of}
use onekit.Base.Decimal.{parse_int64}
use onekit.Base.Utf8.{has_suffix}
use onekit.Base.Strings.{trim_suffix, trim_space}
use onekit.Onkir.Schema.{Arg, Decorator, Method}

abbrev pub units : List (Text × ℕ)
units = (bytes "GiB", 2 ^ 30) ∷ (bytes "MiB", 2 ^ 20) ∷ (bytes "KiB", 2 ^ 10) ∷ (bytes "B", 1) ∷ []

-- The text in front of the first unit that ends it, and the factor of that unit.
pub strip_unit : List (Text × ℕ) → Text → Text × ℕ
unfolding has_suffix trim_suffix trim_space
strip_unit [] text = (text, 1)
strip_unit ((suffix, factor) ∷ us) text =
    if has_suffix text suffix
    then (trim_space (trim_suffix text suffix), factor)
    else strip_unit us text

scaled : ℕ → Option ℤ → Option ℤ
scaled multiplier none = none
scaled multiplier (some (negsuc n)) = none
scaled multiplier (some (pos n)) =
    if leb n 0
    then none
    else if ltb (2 ^ 62 / multiplier) n
    then none
    else some (int64_of (n * multiplier))

-- `ParseByteSize`
unfoldable pub parse_byte_size : Text → Option ℤ
unfolding strip_unit scaled trim_space parse_int64
parse_byte_size text =
    let (number, multiplier) = strip_unit units (trim_space text) in
    scaled multiplier (parse_int64 number)

single_arg : List Arg → Option Text
single_arg (a ∷ []) = some a.value
single_arg _ = none

-- `Method.MaxBodyBytes`
unfoldable pub max_body_in : List Decorator → Option ℤ
unfolding single_arg
max_body_in [] = none
max_body_in (d ∷ ds) =
    let rest = max_body_in ds in
    if text_eq d.name (bytes "max_body")
    then elim (single_arg d.args) [ none ↦ rest | some text ↦ parse_byte_size text ]
    else rest

abbrev pub max_body_bytes : Method → Option ℤ
max_body_bytes m = max_body_in m.decorators

-- The size with the product as a number of any size.
abbrev pub exact_size : ℕ → Option ℤ → Option ℤ
exact_size multiplier none = none
exact_size multiplier (some (negsuc n)) = none
exact_size multiplier (some (pos n)) =
    if leb n 0
    then none
    else if ltb (2 ^ 62) (n * multiplier)
    then none
    else some (pos (n * multiplier))

int64_of-pos : (n : ℕ) → n ≤ 2 ^ 62 → int64_of n ≡ pos n
int64_of-pos n h = ground arith

scaled-exact_size : (m : ℕ) (o : Option ℤ) → 0 < m → scaled m o ≡ exact_size m o
unfolding scaled
scaled-exact_size m none h = refl
scaled-exact_size m (some (negsuc n)) h = refl
scaled-exact_size m (some (pos n)) h =
    ground (arith, le-div_iff_mul-le {k = m} {x = n} {y = 2 ^ 62} h, int64_of-pos (n * m))

strip_unit-pos :
    (us : List (Text × ℕ)) (text : Text) → All (λ u. 0 < u.1) us → 0 < (strip_unit us text).1
unfolding strip_unit
strip_unit-pos [] text h = omega arith
strip_unit-pos ((suffix, factor) ∷ us) text h = ground (arith, h.0, strip_unit-pos us text h.1)

-- `ParseByteSize` returns the exact product of the number and its unit where the number is positive and
-- the product is at most 2^62, and refuses every other text: the product that it computes in 64 bits
-- never wraps.
pub parse_byte_size-exact_size :
    (text : Text)
    → let (number, multiplier) = strip_unit units (trim_space text) in
      parse_byte_size text ≡ exact_size multiplier (parse_int64 number)
unfolding parse_byte_size
parse_byte_size-exact_size text =
    scaled-exact_size (strip_unit units (trim_space text)).1
      (parse_int64 (strip_unit units (trim_space text)).0)
      (strip_unit-pos units (trim_space text)
        (omega arith, (omega arith, (omega arith, (omega arith, tt)))))
