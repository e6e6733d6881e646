-- ===== src/Onkexpr/Pattern/Tests.antt =====
-- internal/onkexpr/regex.go: runs on short patterns, whose bytes are runes.
use onekit.Base.{◌≡◌, ◌≢◌, refl, bytes}
use onekit.Onkexpr.Pattern
use onekit.Onkexpr.Pattern.{Parsed, validate_runes}
use onekit.Onkexpr.Pattern.Bounded.{validate_runes-ne-out_of_fuel}

class_accepted : validate_runes (bytes "(ab|c)x[a-z0]{2,4}") ≡ Pattern.ok tt
unfolding validate_runes
class_accepted = refl

nested : validate_runes (bytes "(a+)*") ≡ Pattern.failed Pattern.nested_repetition
unfolding validate_runes
nested = refl

repeated_choice : validate_runes (bytes "(a|b)+") ≡ Pattern.failed Pattern.repeated_alternation
unfolding validate_runes
repeated_choice = refl

backwards : validate_runes (bytes "[z-a]") ≡ Pattern.failed Pattern.backwards_range
unfolding validate_runes
backwards = refl

unmatched : validate_runes (bytes "a)b") ≡ Pattern.failed Pattern.unmatched_paren
unfolding validate_runes
unmatched = refl

deep_groups : validate_runes (bytes "(((((((((a)))))))))") ≡ Pattern.failed Pattern.too_deep
unfolding validate_runes
deep_groups = refl

validate_runes-ne-out_of_fuel_example :
    validate_runes (bytes "(ab|c)x[a-z0]{2,4}") ≢ Pattern.out_of_fuel
validate_runes-ne-out_of_fuel_example = validate_runes-ne-out_of_fuel (bytes "(ab|c)x[a-z0]{2,4}")
