-- ===== src/Onkexpr/Lexer/Strings.antt =====
-- internal/onkexpr/lexer.go: `scanString` and `hexRune`.
use onekit.Base.{
  ℕ, zero, suc, ◌+◌, ◌-◌, ◌*◌, ◌/◌, ◌%◌, ◌||◌, Option, none, some, [], ◌∷◌, ◌++◌, Text, length,
  drop, between, ltb, ◌==◌, if◌then◌else◌,
}
use onekit.Onkexpr.Source.{
  Message, unterminated_string, needs_hex, invalid_escape, unknown_escape, Outcome, ok, fail,
  out_of_fuel, bind,
}

-- The value of a hexadecimal digit.
unfoldable pub hex_digit : ℕ → Option ℕ
hex_digit c =
    if between b'0' b'9' c
    then some (c - b'0')
    else if between b'a' b'f' c
    then some (c - b'a' + 10)
    else if between b'A' b'F' c
    then some (c - b'A' + 10)
    else none

-- The loop of `hexRune`, from the code read so far.
unfoldable hex_loop : ℕ → Text → Option ℕ
unfolding hex_digit
hex_loop code [] = some code
hex_loop code (c ∷ rest) = elim (hex_digit c) [
  | none ↦ none
  | some v ↦ hex_loop (code * 16 + v) rest
]

unfoldable pub hex_rune : Text → Option ℕ
unfolding hex_loop
hex_rune digits = hex_loop 0 digits

-- `WriteRune` for a code point below 0x10000, in UTF-8.
unfoldable pub encode_rune : ℕ → Text
encode_rune r =
    if ltb r 0x80
    then r ∷ []
    else if ltb r 0x800
    then (0xC0 + r / 64) ∷ (0x80 + r % 64) ∷ []
    else (0xE0 + r / 4096) ∷ (0x80 + r / 64 % 64) ∷ (0x80 + r % 64) ∷ []

-- What one round of the loop of `scanString` does: it ends the string, or it writes some bytes and
-- moves on by a number of bytes, or it stops: at the string's start, or at an offset from here.
pub data Piece : Type 0 where
  close : Piece
  write : Text → ℕ → Piece
  unterminated : Piece
  bad : ℕ → Message → Piece

abbrev pub unicode_piece : Option ℕ → Piece
unicode_piece none = bad 1 invalid_escape
unicode_piece (some code) =
    if between 0xD800 0xDFFF code then bad 1 invalid_escape else write (encode_rune code) 6

-- After `\\u`, which wants four more bytes.
unfoldable pub hex_piece : Text → Piece
unfolding hex_rune encode_rune
hex_piece (p ∷ q ∷ r ∷ s ∷ _) = unicode_piece (hex_rune (p ∷ q ∷ r ∷ s ∷ []))
hex_piece _ = bad 1 needs_hex

-- After a backslash.
unfoldable pub escape_piece : Text → Piece
unfolding hex_piece
escape_piece [] = unterminated
escape_piece (c ∷ rest) =
    if c == b'n'
    then write (10 ∷ []) 2
    else if c == b't'
    then write (9 ∷ []) 2
    else if c == b'r'
    then write (13 ∷ []) 2
    else if c == 92 || c == 39 || c == 34
    then write (c ∷ []) 2
    else if c == b'u'
    then hex_piece rest
    else bad 1 (unknown_escape c)

unfoldable pub piece : ℕ → ℕ → Text → Piece
unfolding escape_piece
piece quote c rest =
    if c == quote
    then close
    else if c == 10
    then unterminated
    else if c == 92
    then escape_piece rest
    else write (c ∷ []) 1

-- The rest of a round, given how the loop goes on.
abbrev pub after_piece : (ℕ → Text → Outcome (Text × ℕ)) → ℕ → ℕ → Text → Piece → Outcome (Text × ℕ)
after_piece loop start i src close = ok ([], i + 1)
after_piece loop start i src unterminated = fail start unterminated_string
after_piece loop start i src (bad k m) = fail (i + k) m
after_piece loop start i src (write out n) =
    bind (loop (i + n) (drop n src)) λ (value, next). ok (out ++ value, next)

-- The loop of `scanString` from offset `i`: the bytes written, and the offset behind the string.
-- A string that ends the source or a line is an error at its opening quote.
unfoldable pub scan_loop : ℕ → ℕ → ℕ → ℕ → Text → Outcome (Text × ℕ)
unfolding piece
scan_loop zero quote start i src = out_of_fuel
scan_loop (suc f) quote start i [] = fail start unterminated_string
scan_loop (suc f) quote start i (c ∷ rest) =
    after_piece (scan_loop f quote start) start i (c ∷ rest) (piece quote c rest)

-- `scanString(src, start)`, given what follows the opening quote: the value, and how many bytes the
-- literal takes.
unfoldable pub scan_string : ℕ → ℕ → Text → Outcome (Text × ℕ)
unfolding scan_loop piece
scan_string quote start rest =
    bind (scan_loop (suc (length rest)) quote start (start + 1) rest)
      λ (value, next). ok (value, next - start)
