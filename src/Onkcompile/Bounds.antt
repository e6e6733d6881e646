-- ===== src/Onkcompile/Bounds.antt =====
-- internal/onkcompile/bounds.go: numbers as the arguments of constraints.
use onekit.Base.{
  ℕ, ◌-◌, ◌^◌, Bool, true, false, not, Option, none, some, List, [], ◌∷◌, map, Text, bytes, text_eq,
  ◌&&◌, ◌||◌, ◌==◌, between, if◌then◌else◌,
}
use onekit.Base.Int.{ℤ, pos, signed, neg_ℤ, ltb_ℤ}
use onekit.Base.Decimal.{parse_nat}
use onekit.Base.Dict.{lookup}
use onekit.Onkir.Schema.{Arg}
use onekit.Onkschema.{Decorator, TypeRef}
use onekit.Onkcompile.Errors.{
  not_a_count, must_be_number, must_be_quoted, not_finite, in_out_of_range, out_of_range, at_line,
  contains,
}
use onekit.Onkcompile.Checked.{Checked, refused, when, switch, and_next, pass_all, pass_each}
use onekit.Onkcompile.Types.{type_name}

-- The text without its sign, if it has one.
abbrev pub unsigned : Text → Text
unsigned [] = []
unsigned (c ∷ s) = if c == b'+' || c == b'-' then s else c ∷ s

abbrev is_negative : Text → Bool
is_negative [] = false
is_negative (c ∷ s) = c == b'-'

-- What is behind the digits at the front, if there is a digit.
unfoldable pub behind_digits : Bool → Text → Option Text
behind_digits seen [] = if seen then some [] else none
behind_digits seen (c ∷ s) =
    let rest = behind_digits true s in
    if between b'0' b'9' c then rest else if seen then some (c ∷ s) else none

abbrev is_exponent : Text → Bool
unfolding behind_digits
is_exponent [] = true
is_exponent (c ∷ s) =
    (c == b'e' || c == b'E')
    && (elim (behind_digits false (unsigned s)) [ some [] ↦ true | _ ↦ false ])

abbrev is_ended : Option Text → Bool
is_ended none = false
is_ended (some s) = is_exponent s

abbrev is_fraction : Text → Bool
unfolding behind_digits
is_fraction [] = true
is_fraction (c ∷ s) = if c == b'.' then is_ended (behind_digits false s) else is_exponent (c ∷ s)

abbrev is_whole_part : Option Text → Bool
is_whole_part none = false
is_whole_part (some s) = is_fraction s

-- `decimalLiteral`: a sign, digits, a fraction and an exponent.
unfoldable pub decimal_literal : Text → Bool
unfolding behind_digits
decimal_literal s = is_whole_part (behind_digits false (unsigned s))

-- `SetString` of math/big to the base 10: a sign and digits.
abbrev big_of : Bool → Option ℕ → Option ℤ
big_of negative none = none
big_of negative (some n) = some (signed negative n)

unfoldable pub big_int : Text → Option ℤ
unfolding parse_nat
big_int s = big_of (is_negative s) (parse_nat (unsigned s))

abbrev in_bounds : Option ℤ → ℤ → ℤ → Bool
in_bounds none least most = false
in_bounds (some n) least most = not (ltb_ℤ n least) && not (ltb_ℤ most n)

-- `fitsInteger`
unfoldable pub fits_integer : Text → ℤ → ℤ → Bool
unfolding big_int
fits_integer value least most = in_bounds (big_int value) least most

-- `integerBounds`
unfoldable pub integer_bounds : List (Text × (ℤ × ℤ))
integer_bounds =
    (bytes "int32", (neg_ℤ (pos (2 ^ 31)), pos (2 ^ 31 - 1)))
    ∷ (bytes "int64", (neg_ℤ (pos (2 ^ 63)), pos (2 ^ 63 - 1)))
    ∷ (bytes "uint32", (pos 0, pos (2 ^ 32 - 1)))
    ∷ (bytes "uint64", (pos 0, pos (2 ^ 64 - 1)))
    ∷ []

abbrev pub is_count : Text → Bool
is_count name = contains (map bytes ("len" ∷ "min_items" ∷ "max_items" ∷ [])) name

abbrev pub is_comparison : Text → Bool
is_comparison name = contains (map bytes ("gt" ∷ "gte" ∷ "lt" ∷ "lte" ∷ "range" ∷ [])) name

abbrev has_bounds : Option TypeRef → Option (ℤ × ℤ)
unfolding integer_bounds lookup
has_bounds none = none
has_bounds (some t) = lookup (type_name t) integer_bounds

abbrev is_text : Option TypeRef → Bool
is_text none = false
is_text (some t) = text_eq (type_name t) (bytes "string")

abbrev is_there : {A : Type 0} → Option A → Bool
is_there none = false
is_there (some a) = true

abbrev wants_number : Text → Option TypeRef → Bool
unfolding has_bounds
wants_number name t =
    is_count name
    || is_comparison name
    || (text_eq name (bytes "in") && not (is_text t) && is_there (has_bounds t))

abbrev wants_quoted : Text → Option TypeRef → Bool
wants_quoted name t =
    not (is_count name || is_comparison name) && text_eq name (bytes "in") && is_text t

-- The loop of `validateArgumentKinds`
unfoldable pub kind_cases : Text → ℕ → Decorator → Option TypeRef → Arg → List (Bool × Checked)
unfolding decimal_literal wants_number
kind_cases path line d t a =
    (
      wants_number d.name t && a.quoted && decimal_literal a.value,
      refused (at_line path line (must_be_number d.name a.value)),
    )
    ∷ (
      wants_quoted d.name t && not a.quoted,
      refused (at_line path line (must_be_quoted d.name a.value)),
    )
    ∷ []

unfoldable pub argument_kind : Text → ℕ → Decorator → Option TypeRef → Arg → Checked
unfolding switch kind_cases
argument_kind path line d t a = switch (kind_cases path line d t a)

abbrev in_range : Text → Option (ℤ × ℤ) → Bool
unfolding fits_integer
in_range value none = true
in_range value (some (least, most)) = fits_integer value least most

abbrev or_map : Option TypeRef → Text
or_map none = []
or_map (some t) = type_name t

unfoldable pub count_checked : Text → ℕ → Decorator → Arg → Checked
unfolding fits_integer
count_checked path line d a =
    when (not (fits_integer a.value (pos 0) (pos (2 ^ 31 - 1))))
      (at_line path line (not_a_count d.name a.value))

unfoldable pub in_checked : Text → ℕ → Option TypeRef → Decorator → Arg → Checked
unfolding in_range has_bounds
in_checked path line t d a =
    when (not (in_range a.value (has_bounds t)))
      (at_line path line (in_out_of_range d.name a.value (or_map t)))

unfoldable pub comparison_checks : Text → ℕ → Option TypeRef → Decorator → Arg → List Checked
unfolding decimal_literal in_range has_bounds
comparison_checks path line t d a =
    when (not (decimal_literal a.value)) (at_line path line (not_finite d.name a.value))
    ∷ when (not (in_range a.value (has_bounds t)))
        (at_line path line (out_of_range d.name a.value (or_map t)))
    ∷ []

unfoldable pub comparison_checked : Text → ℕ → Option TypeRef → Decorator → Arg → Checked
unfolding comparison_checks pass_all
comparison_checked path line t d a = pass_all (comparison_checks path line t d a)

unfoldable pub bounds_cases : Text → ℕ → Decorator → Option TypeRef → List (Bool × Checked)
unfolding pass_each count_checked in_checked comparison_checked
bounds_cases path line d t =
    (is_count d.name, pass_each (count_checked path line d) d.args)
    ∷ (text_eq d.name (bytes "in"), pass_each (in_checked path line t d) d.args)
    ∷ (is_comparison d.name, pass_each (comparison_checked path line t d) d.args)
    ∷ []

-- `validateNumericBounds`
unfoldable pub validate_numeric_bounds : Text → ℕ → Decorator → Option TypeRef → Checked
unfolding pass_each argument_kind switch bounds_cases
validate_numeric_bounds path line d t =
    and_next (pass_each (argument_kind path line d t) d.args) (switch (bounds_cases path line d t))
