-- ===== src/Onkexpr/Parser/Progress.antt =====
-- internal/onkexpr/parser.go: how many tokens each step leaves, and the token that ends the list.
use onekit.Base.{
  ℕ, ◌+◌, ◌≤◌, ◌<◌, ◌≡◌, ◌≢◌, refl, true, false, List, [], ◌∷◌, String, length, drop, arith, ltb,
}
use onekit.Onkexpr.Source.{
  Token, TokKind, eof, ident, punct, same_kind, Outcome, Ensures, holds, refused, Ensures-bind,
  Ensures-if, weaken,
}
use onekit.Onkexpr.Parser.Cursor.{
  State, Parser, first, peek, advance, is_text, is_punct, expect_punct, nested, max_depth,
}

-- The end-of-source token is last, and only there.
pub data Ends : List Token → Type 0 where
  last : {t : Token} → t.kind ≡ eof → Ends (t ∷ [])
  more : {t : Token} {ts : List Token} → t.kind ≢ eof → Ends ts → Ends (t ∷ ts)

-- The input is no longer than before, still ends, and the depth is what it was.
pub record Kept (s s' : State) : Type 0 where
  pub size : length s'.tokens ≤ length s.tokens
  pub ends : Ends s'.tokens
  pub depth : s'.depth ≡ s.depth

-- As before, with a token less at least.
pub record Shorter (s s' : State) : Type 0 where
  pub size : length s'.tokens < length s.tokens
  pub ends : Ends s'.tokens
  pub depth : s'.depth ≡ s.depth

abbrev pub AfterKept {ℓ} : {A : Type ℓ} → State → A × State → Type 0
AfterKept s (a, s') = Kept s s'

abbrev pub After {ℓ} : {A : Type ℓ} → State → A × State → Type 0
After s (a, s') = Shorter s s'

-- On fewer than `n` tokens the parser returns, and a success has read one token at least.
abbrev pub Eats {ℓ} : {A : Type ℓ} → ℕ → Parser A → Type ℓ
Eats n p = (s : State) → Ends s.tokens → length s.tokens < n → Ensures (After s) (p s)

pub Ends-pos : (ts : List Token) → Ends ts → 0 < length ts
Ends-pos [] h = elim h [ ]
Ends-pos (t ∷ ts) h = omega arith

pub Shorter-trans : (s t u : State) → Shorter s t → Shorter t u → Shorter s u
Shorter-trans s t u h k = record {
  size = omega (arith, h.size, k.size);
  ends = k.ends;
  depth = cc (h.depth, k.depth);
}

pub Shorter-Kept_trans : (s t u : State) → Shorter s t → Kept t u → Shorter s u
Shorter-Kept_trans s t u h k = record {
  size = omega (arith, h.size, k.size);
  ends = k.ends;
  depth = cc (h.depth, k.depth);
}

pub Kept-Shorter-trans : (s t u : State) → Kept s t → Shorter t u → Shorter s u
Kept-Shorter-trans s t u h k = record {
  size = omega (arith, h.size, k.size);
  ends = k.ends;
  depth = cc (h.depth, k.depth);
}

pub Kept-refl : (s : State) → Ends s.tokens → Kept s s
Kept-refl s e = record { size = omega arith; ends = e; depth = refl }

pub Shorter→Kept : (s t : State) → Shorter s t → Kept s t
Shorter→Kept s t h = record { size = omega (arith, h.size); ends = h.ends; depth = h.depth }

same_kind_eof : (k : TokKind) → k ≢ eof → same_kind k eof ≡ false
same_kind_eof eof h = absurd (h refl)
same_kind_eof ident h = refl
same_kind_eof _ h = refl

Ends-tail : (t : Token) (ts : List Token) → t.kind ≢ eof → Ends (t ∷ ts) → Ends ts
Ends-tail t ts h (last e) = absurd (h e)
Ends-tail t ts h (more k e) = e

-- Reading a token that is not the last one.
pub advance-Shorter : (s : State) → Ends s.tokens → (peek s).kind ≢ eof → Shorter s (advance s)
unfolding advance
advance-Shorter s e h = rw (same_kind_eof (peek s).kind h) (go s.tokens e h)
  where
    go :
        (ts : List Token)
        → Ends ts
        → (first ts).kind ≢ eof
        → Shorter
            (record { tokens = ts; depth = s.depth })
            (record { tokens = drop 1 ts; depth = s.depth })
    go [] e h = elim e [ ]
    go (t ∷ ts) e h = record { size = omega arith; ends = Ends-tail t ts h e; depth = refl }

pub is_text-ne-eof :
    (kind : TokKind) (text : String) (t : Token)
    → kind ≢ eof
    → is_text kind text t ≡ true
    → t.kind ≢ eof
unfolding is_text
is_text-ne-eof eof text t k h = absurd (k refl)
is_text-ne-eof ident text t k h = λ e. cc (rw e at h)
is_text-ne-eof _ text t k h = λ e. cc (rw e at h)

-- Reading a bracket or an operator that was seen.
pub punct-Shorter :
    (text : String) (s : State) → Ends s.tokens → is_punct text s ≡ true → Shorter s (advance s)
punct-Shorter text s e h = advance-Shorter s e (is_text-ne-eof punct text (peek s) (cc) h)

pub expect_punct-Shorter :
    (text : String) (s : State) → Ends s.tokens → Ensures (After s) (expect_punct text s)
unfolding expect_punct
expect_punct-Shorter text s e =
    Ensures-if (is_punct text s) (λ h. holds (punct-Shorter text s e h))
      (λ _. Ensures-if (same_kind (peek s).kind eof) (λ _. refused) (λ _. refused))

-- What a run does behind a state that another one led to.
pub since {ℓ} :
    {A : Type ℓ} (s t : State) {r : Outcome (A × State)}
    → Shorter s t
    → Ensures (AfterKept t) r
    → Ensures (After s) r
since s t w h = weaken (λ (a, u) k. Shorter-Kept_trans s t u w k) h

pub kept {ℓ} :
    {A : Type ℓ} (s : State) {r : Outcome (A × State)}
    → Ensures (After s) r
    → Ensures (AfterKept s) r
kept s h = weaken (λ (a, u) k. Shorter→Kept s u k) h

pub later {ℓ} :
    {A : Type ℓ} (s t : State) {r : Outcome (A × State)}
    → Shorter s t
    → Ensures (AfterKept t) r
    → Ensures (AfterKept s) r
later s t w h = kept s (since s t w h)

pub nested-Eats {ℓ} : {A : Type ℓ} (n : ℕ) (p : Parser A) → Eats n p → Eats n (nested p)
unfolding nested
nested-Eats n p h s e fits =
    Ensures-if (ltb max_depth (s.depth + 1)) (λ _. refused)
      (λ _. Ensures-bind (h (record s { depth = s.depth + 1 }) e fits) λ (a, s') w.
        holds (record { size = w.size; ends = w.ends; depth = omega (arith, w.depth) }))
