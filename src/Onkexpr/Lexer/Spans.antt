-- ===== src/Onkexpr/Lexer/Spans.antt =====
-- internal/onkexpr/lexer.go: what the scanners of words, numbers and punctuation take of the source.
use onekit.Base.{
  ℕ, ◌<◌, ◌≡◌, refl, sym, ◌∙◌, ap, subst, Bool, true, ◌⊎◌, inl, inr, ◌&&◌, ◌||◌, some, List, [],
  ◌∷◌, ◌++◌, Text, All, Bool-cases, Option-cases, length, cut_prefix, cut_prefix→append, arith,
  ◌==◌,
}
use mathlib.Core.List.{append_assoc}
use mathlib.Core.Path.{◌≡⟨◌⟩◌, ◌∎}
use onekit.Onkexpr.Source.{TokKind, int, double}
use onekit.Onkexpr.Lexer.Scan.{
  span, fraction, sign, exponent, scan_number, starts_digit, is_digit, first_prefix, scan_punct,
  puncts,
}

-- `a` is a prefix of `s`, with what follows it.
abbrev pub Prefix : Text → Text → Type 0
Prefix a s = (r : Text) × (s ≡ a ++ r)

pub span-append : (p : ℕ → Bool) (s : Text) → (span p s).0 ++ (span p s).1 ≡ s
unfolding span
span-append p [] = refl
span-append p (c ∷ s) = elim (Bool-cases (p c)) [
  | inl e ↦ rw e (ap (λ t. c ∷ t) (span-append p s))
  | inr e ↦ rw e
]

-- Where the first byte passes, the run is not empty.
pub span_pos : (p : ℕ → Bool) (c : ℕ) (s : Text) → p c ≡ true → 0 < length (span p (c ∷ s)).0
unfolding span
span_pos p c s h = rw h (omega arith)

fraction-append : (s : Text) → (fraction s).0 ++ (fraction s).1 ≡ s
unfolding fraction
fraction-append [] = refl
fraction-append (c ∷ []) = refl
fraction-append (c ∷ d ∷ s) = elim (Bool-cases (c == b'.' && is_digit d)) [
  | inl e ↦ rw e (ap (λ t. c ∷ t) (span-append is_digit (d ∷ s)))
  | inr e ↦ rw e
]

sign-append : (s : Text) → (sign s).0 ++ (sign s).1 ≡ s
unfolding sign
sign-append [] = refl
sign-append (c ∷ s) = elim (Bool-cases (c == b'+' || c == b'-')) [ inl e ↦ rw e | inr e ↦ rw e ]

exponent-Prefix : (kind : TokKind) (s : Text) → Prefix (exponent kind s).0 s
unfolding exponent
exponent-Prefix kind [] = ([], refl)
exponent-Prefix kind (c ∷ s) =
    elim (Bool-cases ((c == b'e' || c == b'E') && starts_digit (sign s).1)) [
      | inl e ↦
          let digits = (sign s).1 in
          rw e (
            (span is_digit digits).1,
            ap (λ t. c ∷ t)
                (sym (sign-append s)
                  ∙ ap (λ t. (sign s).0 ++ t) (sym (span-append is_digit digits))
                  ∙ sym
                      (append_assoc (sign s).0 (span is_digit digits).0 (span is_digit digits).1)),
          )
      | inr e ↦ rw e (c ∷ s, refl)
    ]

-- A number is a prefix of the source, and not empty where the source starts with a digit.
pub scan_number-Prefix : (s : Text) → Prefix (scan_number s).0 s
unfolding scan_number
scan_number-Prefix s =
    let whole = (span is_digit s).0 in
    let after_whole = (span is_digit s).1 in
    let part = (fraction after_whole).0 in
    let kind = (fraction after_whole).2 in
    let after_part = (fraction after_whole).1 in
    let power = (exponent kind after_part).0 in
    let (r, e) = exponent-Prefix kind after_part in
    (
      r,
      s
          ≡⟨ sym (span-append is_digit s) ⟩ whole ++ after_whole
          ≡⟨ ap (λ t. whole ++ t) (sym (fraction-append after_whole)) ⟩
            whole ++ (part ++ after_part)
          ≡⟨ ap (λ t. whole ++ (part ++ t)) e ⟩ whole ++ (part ++ (power ++ r))
          ≡⟨ (simp append_assoc) ⟩ (whole ++ part ++ power) ++ r ∎,
    )

pub scan_number_pos : (c : ℕ) (s : Text) → is_digit c ≡ true → 0 < length (scan_number (c ∷ s)).0
unfolding scan_number
scan_number_pos c s h = rw h (omega arith)

fraction_kind : (s : Text) → ((fraction s).2 ≡ int) ⊎ ((fraction s).2 ≡ double)
unfolding fraction
fraction_kind [] = inl refl
fraction_kind (c ∷ []) = inl refl
fraction_kind (c ∷ d ∷ s) = ground arith

exponent_kind :
    (kind : TokKind) (s : Text)
    → (kind ≡ int) ⊎ (kind ≡ double)
    → ((exponent kind s).1 ≡ int) ⊎ ((exponent kind s).1 ≡ double)
unfolding exponent
exponent_kind kind [] h = h
exponent_kind kind (c ∷ s) h = ground arith

pub scan_number_kind : (s : Text) → ((scan_number s).1 ≡ int) ⊎ ((scan_number s).1 ≡ double)
unfolding scan_number
scan_number_kind s =
    exponent_kind (fraction (span is_digit s).1).2 (fraction (span is_digit s).1).1
      (fraction_kind (span is_digit s).1)

first_prefix-Prefix :
    (ps : List Text) (s p : Text)
    → All (λ q. 0 < length q) ps
    → first_prefix ps s ≡ some p
    → Prefix p s × (0 < length p)
unfolding first_prefix
first_prefix-Prefix [] s p long h = cc
first_prefix-Prefix (q ∷ ps) s p long h = elim (Option-cases (cut_prefix q s)) [
  | inl e ↦ first_prefix-Prefix ps s p long.1 (rw (e, first_prefix) at h)
  | inr (r, e) ↦
      let same : q ≡ p = cc (rw (e, first_prefix) at h) in
      subst (λ t. Prefix t s × (0 < length t)) same ((r, cut_prefix→append q s r e), long.0)
]

-- An operator or a bracket is a prefix of the source, and not empty.
pub scan_punct-Prefix : (s p : Text) → scan_punct s ≡ some p → Prefix p s × (0 < length p)
unfolding scan_punct
scan_punct-Prefix s p h = first_prefix-Prefix puncts s p (omega arith) h
