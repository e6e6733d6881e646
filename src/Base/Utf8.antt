-- ===== src/Base/Utf8.antt =====
-- `utf8.RuneCountInString` and the substring tests of Go's standard library.
use Prim.Native.Nat.{ℕ, zero, suc, ◌+◌, ◌*◌, ◌-◌}
use mathlib.Core.Bool.{Bool, true, false, ◌&&◌, ◌||◌}
use mathlib.Core.Option.{Option, none, some}
use mathlib.Core.List.{List, [], ◌∷◌, reverse}
use onekit.Base.Tests.{ltb, between, ◌==◌, if◌then◌else◌}
use onekit.Base.Lists.{length, drop}
use onekit.Base.Bytes.{Text, cut_prefix}

abbrev is_tail : ℕ → Bool
is_tail c = between 0x80 0xBF c

abbrev two_bytes : ℕ → ℕ → Bool
two_bytes a b = between 0xC2 0xDF a && is_tail b

abbrev three_bytes : ℕ → ℕ → ℕ → Bool
three_bytes a b c =
    (a == 0xE0 && between 0xA0 0xBF b
      || between 0xE1 0xEC a && is_tail b
      || a == 0xED && between 0x80 0x9F b
      || between 0xEE 0xEF a && is_tail b)
    && is_tail c

abbrev four_bytes : ℕ → ℕ → ℕ → ℕ → Bool
four_bytes a b c d =
    (a == 0xF0 && between 0x90 0xBF b
      || between 0xF1 0xF3 a && is_tail b
      || a == 0xF4 && between 0x80 0x8F b)
    && is_tail c
    && is_tail d

-- The length of the code point at the front, by the table of valid sequences; a byte that starts
-- none counts by itself.
unfoldable pub rune_width : Text → ℕ
rune_width (a ∷ b ∷ c ∷ d ∷ _) =
    if two_bytes a b
    then 2
    else if three_bytes a b c
    then 3
    else if four_bytes a b c d
    then 4
    else 1
rune_width (a ∷ b ∷ c ∷ []) = if two_bytes a b then 2 else if three_bytes a b c then 3 else 1
rune_width (a ∷ b ∷ []) = if two_bytes a b then 2 else 1
rune_width _ = 1

-- One round for each code point; as many rounds as bytes are enough.
count_loop : ℕ → Text → ℕ
unfolding rune_width
count_loop zero s = 0
count_loop (suc f) [] = 0
count_loop (suc f) (c ∷ s) = suc (count_loop f (drop (rune_width (c ∷ s)) (c ∷ s)))

unfoldable pub rune_count : Text → ℕ
unfolding count_loop
rune_count s = count_loop (length s) s

-- `strings.HasPrefix`, `strings.HasSuffix` and `strings.Contains`.
unfoldable pub has_prefix : Text → Text → Bool
unfolding cut_prefix
has_prefix s p = elim (cut_prefix p s) [ none ↦ false | some _ ↦ true ]

unfoldable pub has_suffix : Text → Text → Bool
unfolding has_prefix
has_suffix s p = has_prefix (reverse s) (reverse p)

unfoldable pub contains_text : Text → Text → Bool
unfolding has_prefix
contains_text [] p = has_prefix [] p
contains_text (c ∷ s) p = has_prefix (c ∷ s) p || contains_text s p

-- Where a decoder of UTF-8 stands: between runes, or inside one, with the number of bytes behind the next
-- one, the bounds of the next one and the bits so far.
pub data Decoder : Type 0 where
  between_runes broken : Decoder
  inside : ℕ → ℕ → ℕ → ℕ → Decoder

lead : ℕ → Decoder
lead c =
    if between 0xC2 0xDF c
    then inside 0 0x80 0xBF (c - 0xC0)
    else if c == 0xE0
    then inside 1 0xA0 0xBF 0
    else if c == 0xED
    then inside 1 0x80 0x9F 0xD
    else if between 0xE1 0xEF c
    then inside 1 0x80 0xBF (c - 0xE0)
    else if c == 0xF0
    then inside 2 0x90 0xBF 0
    else if between 0xF1 0xF3 c
    then inside 2 0x80 0xBF (c - 0xF0)
    else if c == 0xF4
    then inside 2 0x80 0x8F 4
    else broken

-- The rune that a byte ends, if it ends one, and where the decoder stands then.
next_byte : Decoder → ℕ → Option ℕ × Decoder
unfolding lead
next_byte between_runes c = if ltb c 0x80 then (some c, between_runes) else (none, lead c)
next_byte broken c = (none, broken)
next_byte (inside zero least most bits) c =
    if between least most c then (some (bits * 64 + (c - 0x80)), between_runes) else (none, broken)
next_byte (inside (suc n) least most bits) c =
    if between least most c
    then (none, inside n 0x80 0xBF (bits * 64 + (c - 0x80)))
    else (none, broken)

abbrev put_rune : Option ℕ → Option (List ℕ) → Option (List ℕ)
put_rune none rest = rest
put_rune (some r) none = none
put_rune (some r) (some rest) = some (r ∷ rest)

runes_from : Decoder → Text → Option (List ℕ)
unfolding next_byte
runes_from between_runes [] = some []
runes_from _ [] = none
runes_from d (c ∷ s) = let (r, d') = next_byte d c in put_rune r (runes_from d' s)

-- `utf8.ValidString` and the conversion to runes, which it guards.
unfoldable pub decode_runes : Text → Option (List ℕ)
unfolding runes_from
decode_runes s = runes_from between_runes s
