-- ===== src/Onkexpr/Lexer/Scan.antt =====
-- internal/onkexpr/lexer.go: `isIdentStart`, `isIdentPart`, `scanNumber` and `scanPunct`.
use onekit.Base.{
  ℕ, Bool, false, ◌&&◌, ◌||◌, Option, none, some, List, [], ◌∷◌, ◌++◌, Text, bytes, between,
  cut_prefix, ◌==◌, if◌then◌else◌,
}
use onekit.Onkexpr.Source.{TokKind, int, double}

abbrev pub is_digit : ℕ → Bool
is_digit c = between b'0' b'9' c

unfoldable pub is_ident_start : ℕ → Bool
is_ident_start c = c == b'_' || between b'a' b'z' c || between b'A' b'Z' c

unfoldable pub is_ident_part : ℕ → Bool
unfolding is_ident_start
is_ident_part c = is_ident_start c || is_digit c

-- A loop that advances while a test passes: the bytes it went over, and the rest.
unfoldable pub span : (ℕ → Bool) → Text → Text × Text
span p [] = ([], [])
span p (c ∷ rest) =
    let (run, after) = span p rest in if p c then (c ∷ run, after) else ([], c ∷ rest)

-- The part from the decimal point, which wants a digit behind it.
unfoldable pub fraction : Text → Text × Text × TokKind
fraction (c ∷ d ∷ rest) =
    let (run, after) = span is_digit (d ∷ rest) in
    if c == b'.' && is_digit d then (c ∷ run, after, double) else ([], c ∷ d ∷ rest, int)
fraction rest = ([], rest, int)

-- An optional sign before the digits of an exponent.
unfoldable pub sign : Text → Text × Text
sign [] = ([], [])
sign (c ∷ rest) = if c == b'+' || c == b'-' then (c ∷ [], rest) else ([], c ∷ rest)

abbrev pub starts_digit : Text → Bool
starts_digit [] = false
starts_digit (c ∷ rest) = is_digit c

-- The exponent, which is left out where no digit follows.
unfoldable pub exponent : TokKind → Text → Text × TokKind
unfolding sign
exponent kind [] = ([], kind)
exponent kind (c ∷ rest) =
    let (plus_minus, digits) = sign rest in
    if (c == b'e' || c == b'E') && starts_digit digits
    then (c ∷ plus_minus ++ (span is_digit digits).0, double)
    else ([], kind)

unfoldable pub scan_number : Text → Text × TokKind
unfolding span fraction exponent
scan_number src =
    let (whole, after_whole) = span is_digit src in
    let (part, after_part, kind) = fraction after_whole in
    let (power, kind') = exponent kind after_part in (whole ++ part ++ power, kind')

-- `puncts`: a longer spelling stands before its prefixes.
abbrev pub puncts : List Text
puncts =
    bytes "||"
    ∷ bytes "&&"
    ∷ bytes "=="
    ∷ bytes "!="
    ∷ bytes "<="
    ∷ bytes ">="
    ∷ bytes "<"
    ∷ bytes ">"
    ∷ bytes "+"
    ∷ bytes "-"
    ∷ bytes "*"
    ∷ bytes "/"
    ∷ bytes "%"
    ∷ bytes "!"
    ∷ bytes "?"
    ∷ bytes ":"
    ∷ bytes "."
    ∷ bytes ","
    ∷ bytes "("
    ∷ bytes ")"
    ∷ bytes "["
    ∷ bytes "]"
    ∷ []

unfoldable pub first_prefix : List Text → Text → Option Text
first_prefix [] src = none
first_prefix (p ∷ ps) src = elim (cut_prefix p src) [ none ↦ first_prefix ps src | some _ ↦ some p ]

unfoldable pub scan_punct : Text → Option Text
unfolding first_prefix cut_prefix
scan_punct src = first_prefix puncts src
