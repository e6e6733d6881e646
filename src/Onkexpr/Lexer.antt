-- ===== src/Onkexpr/Lexer.antt =====
-- internal/onkexpr/lexer.go: `lex` and the scanners it calls.
pub mod Scan
pub mod Strings
mod Spans
mod Literals
pub mod Located
mod Tests
use onekit.Base.{
  ℕ, zero, suc, ◌+◌, ◌*◌, Bool, true, false, ◌&&◌, ◌||◌, Option, none, some, List, [], ◌∷◌, Text,
  length, drop, ltb, ◌==◌, if◌then◌else◌,
}
use onekit.Onkexpr.Source.{
  Token, TokKind, eof, ident, int, double, string, punct, Message, too_long, unexpected_character,
  Outcome, ok, fail, bind, failed, out_of_fuel, SyntaxError,
}
use Scan.{is_ident_start, is_ident_part, is_digit, span, scan_number, scan_punct}
use Strings.{scan_string}

-- `MaxSourceBytes`
abbrev pub max_source_bytes : ℕ
max_source_bytes = 1024

-- What one round of the loop of `lex` does at a byte: it skips white space, or it adds a token and
-- moves on by the given number of bytes, or it stops. `stuck` is fuel that ran out.
pub data Step : Type 0 where
  skip : Step
  emit : Token → ℕ → Step
  stop : SyntaxError → Step
  stuck : Step

abbrev pub is_space : ℕ → Bool
is_space c = c == b' ' || c == 9 || c == 10 || c == 13

-- A token that is spelled as the source has it.
abbrev pub word_step : ℕ → TokKind → Text → Step
word_step i kind word = emit (record { kind = kind; text = word; pos = i }) (length word)

abbrev pub number_step : ℕ → Text × TokKind → Step
number_step i (number, kind) = word_step i kind number

abbrev pub punct_step : ℕ → ℕ → Option Text → Step
punct_step i c none = stop (record { offset = i; message = unexpected_character c })
punct_step i c (some p) = word_step i punct p

abbrev pub string_step : ℕ → Outcome (Text × ℕ) → Step
string_step i (ok (value, used)) = emit (record { kind = string; text = value; pos = i }) used
string_step i (failed e) = stop e
string_step i out_of_fuel = stuck

-- The `switch` of `lex` at offset `i`, where the source goes on with `c ∷ rest`.
unfoldable pub lex_step : ℕ → ℕ → Text → Step
unfolding is_ident_start is_ident_part span scan_number scan_punct scan_string
lex_step i c rest =
    if is_space c
    then skip
    else if is_ident_start c
    then word_step i ident (span is_ident_part (c ∷ rest)).0
    else if is_digit c
    then number_step i (scan_number (c ∷ rest))
    else if c == 39 || c == 34
    then string_step i (scan_string c i rest)
    else punct_step i c (scan_punct (c ∷ rest))

-- The rest of a round, given how the loop goes on.
abbrev pub after_step : (ℕ → Text → Outcome (List Token)) → ℕ → Text → Step → Outcome (List Token)
after_step loop i src skip = loop (i + 1) (drop 1 src)
after_step loop i src (emit t n) = bind (loop (i + n) (drop n src)) λ ts. ok (t ∷ ts)
after_step loop i src (stop e) = failed e
after_step loop i src stuck = out_of_fuel

-- The loop of `lex`: `i` is the offset, the text what is left of the source from there.
unfoldable pub lex_loop : ℕ → ℕ → Text → Outcome (List Token)
unfolding lex_step
lex_loop zero i src = out_of_fuel
lex_loop (suc f) i [] = ok (record { kind = eof; text = []; pos = i } ∷ [])
lex_loop (suc f) i (c ∷ rest) = after_step (lex_loop f) i (c ∷ rest) (lex_step i c rest)

unfoldable pub lex : Text → Outcome (List Token)
unfolding lex_loop
lex src =
    if ltb max_source_bytes (length src) then fail 0 too_long else lex_loop (suc (length src)) 0 src
