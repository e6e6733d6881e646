-- ===== src/Onkexpr/Lexer/Located.antt =====
-- internal/onkexpr/lexer.go: the tokens of `lex` against the source.
use onekit.Base.{
  ℕ, zero, suc, ◌+◌, ◌≤◌, ◌<◌, ◌≡◌, ◌≢◌, refl, sym, ap, Bool, true, false, ◌⊎◌, inl, inr, Option,
  none, some, List, [], ◌∷◌, Text, length, length-append, drop, arith, ltb, ◌==◌, ◌||◌,
  if◌then◌else◌,
}
use onekit.Onkexpr.Source.{
  Token, TokKind, eof, ident, string, punct, Outcome, ok, failed, out_of_fuel, Ensures, holds,
  refused, Ensures-bind, Ensures-if, Ensures-ne, Ensures-ok, weaken,
}
use onekit.Onkexpr.Lexer.{
  Step, skip, emit, stop, stuck, is_space, word_step, number_step, string_step, punct_step,
  lex_step, after_step, lex_loop, lex, max_source_bytes,
}
use onekit.Onkexpr.Lexer.Scan.{
  is_ident_start, is_ident_part, is_digit, span, scan_number, scan_punct,
}
use onekit.Onkexpr.Lexer.Strings.{scan_string}
use onekit.Onkexpr.Lexer.Spans.{
  Prefix, span-append, span_pos, scan_number-Prefix, scan_number_pos, scan_number_kind,
  scan_punct-Prefix,
}
use onekit.Onkexpr.Lexer.Literals.{scan_string-Within, length-drop}

-- A token that `n` bytes at the front of `src` spell. The text of a string is its value, so of a
-- string only the extent is said; every other token has the bytes themselves.
pub record Spells (src : Text) (t : Token) (n : ℕ) : Type 0 where
  pub moves : 0 < n
  pub within : n ≤ length src
  pub not_eof : t.kind ≢ eof
  pub spelled : (t.kind ≡ string) ⊎ ((length t.text ≡ n) × Prefix t.text src)

-- `Lexed i src ts`: from offset `i`, where `src` is left, the tokens are `ts`. White space stands
-- between tokens, each token has the offset of its bytes, and the end of the source is the last one.
pub data Lexed : ℕ → Text → List Token → Type 0 where
  done : {i : ℕ} → Lexed i [] (record { kind = eof; text = []; pos = i } ∷ [])
  space :
      {i c : ℕ} {rest : Text} {ts : List Token}
      → is_space c ≡ true
      → Lexed (i + 1) rest ts
      → Lexed i (c ∷ rest) ts
  token :
      {i : ℕ} {src : Text} {ts : List Token} (t : Token) (n : ℕ)
      → t.pos ≡ i
      → Spells src t n
      → Lexed (i + n) (drop n src) ts
      → Lexed i src (t ∷ ts)

-- What is to be shown of a round at `c ∷ rest`.
abbrev Sound : ℕ → ℕ → Text → Step → Type 0
Sound i c rest skip = is_space c ≡ true
Sound i c rest (emit t n) = (t.pos ≡ i) × Spells (c ∷ rest) t n
Sound i c rest (stop e) = Unit
Sound i c rest stuck = ⊥

word_step-Sound :
    (i c : ℕ) (rest : Text) (kind : TokKind) (word : Text)
    → kind ≢ eof
    → 0 < length word
    → Prefix word (c ∷ rest)
    → Sound i c rest (word_step i kind word)
word_step-Sound i c rest kind word k pos p = (
  refl,
  record {
    moves = pos;
    within = omega (arith, length-append word p.0, ap length p.1);
    not_eof = k;
    spelled = inr (refl, p);
  },
)

punct_step-Sound :
    (i c : ℕ) (rest : Text) (o : Option Text)
    → scan_punct (c ∷ rest) ≡ o
    → Sound i c rest (punct_step i c o)
punct_step-Sound i c rest none e = tt
punct_step-Sound i c rest (some p) e =
    let (prefix, pos) = scan_punct-Prefix (c ∷ rest) p e in
    word_step-Sound i c rest punct p (cc) pos prefix

string_step-Sound :
    (i c : ℕ) (rest : Text) (r : Outcome (Text × ℕ))
    → Ensures (λ (value, used). (0 < used) × (used ≤ suc (length rest))) r
    → Sound i c rest (string_step i r)
string_step-Sound i c rest (ok (value, used)) (holds w) =
    (refl, record { moves = w.0; within = w.1; not_eof = cc; spelled = inl refl })
string_step-Sound i c rest (failed e) h = tt
string_step-Sound i c rest out_of_fuel h = elim h [ ]

number_step-Sound :
    (i c : ℕ) (rest : Text)
    → is_digit c ≡ true
    → Sound i c rest (number_step i (scan_number (c ∷ rest)))
number_step-Sound i c rest d =
    word_step-Sound i c rest (scan_number (c ∷ rest)).1 (scan_number (c ∷ rest)).0
      (elim (scan_number_kind (c ∷ rest)) [ inl e ↦ rw e (cc) | inr e ↦ rw e (cc) ])
      (scan_number_pos c rest d) (scan_number-Prefix (c ∷ rest))

ident_start→part : (c : ℕ) → is_ident_start c ≡ true → is_ident_part c ≡ true
unfolding is_ident_part
ident_start→part c h = rw h

Sound-if :
    (i c : ℕ) (rest : Text) (b : Bool) (p q : Step)
    → (b ≡ true → Sound i c rest p)
    → Sound i c rest q
    → Sound i c rest (if b then p else q)
Sound-if i c rest true p q hp hq = hp refl
Sound-if i c rest false p q hp hq = hq

lex_step-Sound : (i c : ℕ) (rest : Text) → Sound i c rest (lex_step i c rest)
unfolding lex_step
lex_step-Sound i c rest =
    Sound-if i c rest (is_space c) _ _ (λ e. e)
      (Sound-if i c rest (is_ident_start c) _ _
        (λ e.
          word_step-Sound i c rest ident (span is_ident_part (c ∷ rest)).0 (cc)
            (span_pos is_ident_part c rest (ident_start→part c e))
            ((span is_ident_part (c ∷ rest)).1, sym (span-append is_ident_part (c ∷ rest))))
        (Sound-if i c rest (is_digit c) _ _ (number_step-Sound i c rest) (
          Sound-if i c rest (c == 39 || c == 34) _ _
            (λ _. string_step-Sound i c rest (scan_string c i rest) (scan_string-Within c i rest))
            (punct_step-Sound i c rest (scan_punct (c ∷ rest)) refl))))

after_step-Lexed :
    (loop : ℕ → Text → Outcome (List Token)) (i c : ℕ) (rest : Text) (s : Step)
    → Sound i c rest s
    → ((n : ℕ)
        → 0 < n
        → n ≤ length (c ∷ rest)
        → Ensures (Lexed (i + n) (drop n (c ∷ rest))) (loop (i + n) (drop n (c ∷ rest))))
    → Ensures (Lexed i (c ∷ rest)) (after_step loop i (c ∷ rest) s)
after_step-Lexed loop i c rest skip s h =
    weaken (λ ts l. space s l) (h 1 (omega arith) (omega arith))
after_step-Lexed loop i c rest (emit t n) s h =
    Ensures-bind (h n s.1.moves s.1.within) λ ts l. holds (token t n s.0 s.1 l)
after_step-Lexed loop i c rest (stop e) s h = refused
after_step-Lexed loop i c rest stuck s h = absurd s

lex_loop-Lexed : (f i : ℕ) (src : Text) → length src < f → Ensures (Lexed i src) (lex_loop f i src)
unfolding lex_loop
lex_loop-Lexed zero i src h = absurd (omega arith)
lex_loop-Lexed (suc f) i [] h = holds done
lex_loop-Lexed (suc f) i (c ∷ rest) h =
    after_step-Lexed (lex_loop f) i c rest (lex_step i c rest) (lex_step-Sound i c rest)
      λ n pos fits.
        lex_loop-Lexed f (i + n) (drop n (c ∷ rest)) (omega (arith, length-drop n (c ∷ rest)))

pub lex-Ensures : (src : Text) → Ensures (Lexed 0 src) (lex src)
unfolding lex
lex-Ensures src =
    Ensures-if (ltb max_source_bytes (length src)) (λ _. refused)
      (λ _. lex_loop-Lexed (suc (length src)) 0 src (omega arith))

-- For every source the lexer returns within its fuel, with tokens or with an error.
pub lex-ne-out_of_fuel : (src : Text) → lex src ≢ out_of_fuel
lex-ne-out_of_fuel src = Ensures-ne (lex-Ensures src)

-- The tokens of an accepted source are the source cut up: in order, with nothing but white space
-- between them, each at the offset of its bytes, one or more bytes each and within the source, the
-- text of each that is no string literal being those bytes, and with the end-of-source token, at
-- the length of the source, last and only there.
pub lex-Lexed : (src : Text) (ts : List Token) → lex src ≡ ok ts → Lexed 0 src ts
lex-Lexed src ts h = Ensures-ok (lex-Ensures src) h
