-- ===== src/Onkcompile/Names.antt =====
-- internal/onkcompile/validate.go: identifiers that the generators make of a schema's names.
use onekit.Base.{
  ℕ, ◌+◌, Bool, false, not, [], ◌∷◌, map, Text, text_eq, ◌&&◌, ◌||◌, between, ◌==◌, all, keep,
  if◌then◌else◌,
}

abbrev pub is_letter_or_digit : ℕ → Bool
is_letter_or_digit c = between b'a' b'z' c || between b'A' b'Z' c || between b'0' b'9' c

-- `strings.ToLower` on a byte that is ASCII.
abbrev pub lower_ascii : ℕ → ℕ
lower_ascii c = if between b'A' b'Z' c then c + 32 else c

-- `generatedIdentifier`: ASCII is left, so lowering is by bytes.
unfoldable pub generated_identifier : Text → Text
generated_identifier value = map lower_ascii (keep is_letter_or_digit value)

abbrev starts_digit : Text → Bool
starts_digit [] = false
starts_digit (c ∷ s) = between b'0' b'9' c

-- `isGeneratedKey`
unfoldable pub is_generated_key : Text → Bool
is_generated_key value =
    not (text_eq value [] || starts_digit value)
    && all (λ c. is_letter_or_digit c || c == b'_') value
