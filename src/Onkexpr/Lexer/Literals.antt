-- ===== src/Onkexpr/Lexer/Literals.antt =====
-- internal/onkexpr/lexer.go: the extent of the literals that `scanString` reads.
use onekit.Base.{
  ℕ, zero, suc, ◌+◌, ◌-◌, ◌≤◌, ◌<◌, ◌≡◌, Bool, true, false, Option, none, some, [], ◌∷◌, Text,
  length, drop, between, arith, ◌==◌, ◌||◌, if◌then◌else◌,
}
use onekit.Onkexpr.Source.{Outcome, Ensures, holds, refused, Ensures-bind}
use onekit.Onkexpr.Lexer.Strings.{
  Piece, close, write, unterminated, bad, hex_rune, unicode_piece, hex_piece, escape_piece, piece,
  after_piece, scan_loop, scan_string,
}

-- What is written moves on, and stays within `len` bytes.
abbrev Fits : ℕ → Piece → Type 0
Fits len (write out n) = (0 < n) × (n ≤ len)
Fits len _ = Unit

Fits-if :
    (len : ℕ) (b : Bool) (p q : Piece) → Fits len p → Fits len q → Fits len (if b then p else q)
Fits-if len true p q hp hq = hp
Fits-if len false p q hp hq = hq

unicode_piece-Fits : (len : ℕ) (o : Option ℕ) → 6 ≤ len → Fits len (unicode_piece o)
unicode_piece-Fits len none h = tt
unicode_piece-Fits len (some code) h = Fits-if len (between 0xD800 0xDFFF code) _ _ tt (omega arith)

hex_piece-Fits : (c : ℕ) (rest : Text) → Fits (length (b'u' ∷ c ∷ rest)) (hex_piece rest)
unfolding hex_piece
hex_piece-Fits c [] = tt
hex_piece-Fits c (p ∷ []) = tt
hex_piece-Fits c (p ∷ q ∷ []) = tt
hex_piece-Fits c (p ∷ q ∷ r ∷ []) = tt
hex_piece-Fits c (p ∷ q ∷ r ∷ s ∷ rest) =
    unicode_piece-Fits _ (hex_rune (p ∷ q ∷ r ∷ s ∷ [])) (omega arith)

escape_piece-Fits : (c : ℕ) (rest : Text) → Fits (length (c ∷ rest)) (escape_piece rest)
unfolding escape_piece
escape_piece-Fits c [] = tt
escape_piece-Fits c (d ∷ rest) =
    let len = length (c ∷ d ∷ rest) in
    Fits-if len (d == b'n') _ _ (omega arith) (
      Fits-if len (d == b't') _ _ (omega arith) (
        Fits-if len (d == b'r') _ _ (omega arith) (
          Fits-if len (d == 92 || d == 39 || d == 34) _ _ (omega arith)
            (Fits-if len (d == b'u') _ _ (hex_piece-Fits d rest) tt))))

piece-Fits : (quote c : ℕ) (rest : Text) → Fits (length (c ∷ rest)) (piece quote c rest)
unfolding piece
piece-Fits quote c rest =
    let len = length (c ∷ rest) in
    Fits-if len (c == quote) _ _ tt (
      Fits-if len (c == 10) _ _ tt
        (Fits-if len (c == 92) _ _ (escape_piece-Fits c rest) (omega arith)))

-- Behind a literal, within what is left of the source.
abbrev Within : ℕ → Text → Text × ℕ → Type 0
Within i src (value, next) = (i < next) × (next ≤ i + length src)

pub length-drop : (n : ℕ) (s : Text) → length (drop n s) ≡ length s - n
length-drop zero s = omega arith
length-drop (suc n) [] = omega arith
length-drop (suc n) (c ∷ s) = omega (arith, length-drop n s)

after_piece-Within :
    (loop : ℕ → Text → Outcome (Text × ℕ)) (start i c : ℕ) (rest : Text) (p : Piece)
    → Fits (length (c ∷ rest)) p
    → ((n : ℕ)
        → 0 < n
        → n ≤ length (c ∷ rest)
        → Ensures (Within (i + n) (drop n (c ∷ rest))) (loop (i + n) (drop n (c ∷ rest))))
    → Ensures (Within i (c ∷ rest)) (after_piece loop start i (c ∷ rest) p)
after_piece-Within loop start i c rest close f h = holds (omega arith)
after_piece-Within loop start i c rest unterminated f h = refused
after_piece-Within loop start i c rest (bad k m) f h = refused
after_piece-Within loop start i c rest (write out n) f h =
    Ensures-bind (h n f.0 f.1)
      λ (value, next) w. holds (omega (arith, length-drop n (c ∷ rest), w.0, w.1, f.0, f.1))

scan_loop-Within :
    (f quote start i : ℕ) (src : Text)
    → length src < f
    → Ensures (Within i src) (scan_loop f quote start i src)
unfolding scan_loop
scan_loop-Within zero quote start i src h = absurd (omega arith)
scan_loop-Within (suc f) quote start i [] h = refused
scan_loop-Within (suc f) quote start i (c ∷ rest) h =
    after_piece-Within (scan_loop f quote start) start i c rest (piece quote c rest)
      (piece-Fits quote c rest)
      λ n pos fits.
        scan_loop-Within f quote start (i + n) (drop n (c ∷ rest))
          (omega (arith, length-drop n (c ∷ rest)))

-- The fuel always suffices, and a literal takes its opening quote and more, within the source.
pub scan_string-Within :
    (quote start : ℕ) (rest : Text)
    → Ensures
        (λ (value, used). (0 < used) × (used ≤ suc (length rest)))
        (scan_string quote start rest)
unfolding scan_string
scan_string-Within quote start rest =
    Ensures-bind (scan_loop-Within (suc (length rest)) quote start (start + 1) rest (omega arith))
      λ (value, next) w. holds (omega (arith, w.0, w.1))
