-- ===== src/Base/Strings.antt =====
-- The functions of Go's `strings` that the modelled code calls, on the bytes of a text.
use Prim.Native.Nat.{ℕ, zero, suc}
use mathlib.Core.Path.{◌≡◌, refl, sym, subst, ap, ◌∙◌}
use mathlib.Core.Logic.{◌≢◌, ◌⊎◌, inl, inr}
use mathlib.Core.Bool.{true, false, true≢false}
use mathlib.Core.List.{List, [], ◌∷◌, ◌++◌, map, reverse}
use mathlib.Core.List
use mathlib.Core.Option.{Option, none, some}
use native.Mathlib.Omega.{arith}
use onekit.Base.Tests.{◌==◌, if◌then◌else◌, ==_refl, Option-cases, Bool-cases}
use onekit.Base.Lists.{length, All}
use onekit.Base.Bytes.{
  Text, text_eq, text_eq_refl, text_eq→eq, cut_prefix, cut_prefix-append, cut_prefix→append,
}
use onekit.Base.Utf8.{has_prefix, has_suffix}

-- `strings.Split` by a separator of one byte.
abbrev onto_first : ℕ → List Text → List Text
onto_first c [] = (c ∷ []) ∷ []
onto_first c (p ∷ ps) = (c ∷ p) ∷ ps

unfoldable pub split : ℕ → Text → List Text
split sep [] = [] ∷ []
split sep (c ∷ s) = let rest = split sep s in if c == sep then [] ∷ rest else onto_first c rest

-- `strings.Join`
unfoldable pub join : Text → List Text → Text
join sep [] = []
join sep (p ∷ []) = p
join sep (p ∷ q ∷ ps) = p ++ (sep ++ join sep (q ∷ ps))

-- `strings.Cut` by one byte: what is before it and what is behind it.
unfoldable pub cut : ℕ → Text → Text × Text
cut sep [] = ([], [])
cut sep (c ∷ s) = let rest = cut sep s in if c == sep then ([], s) else (c ∷ rest.0, rest.1)

or_else : Text → Option Text → Text
or_else s none = s
or_else s (some r) = r

-- `strings.TrimPrefix` and `strings.TrimSuffix`
unfoldable pub trim_prefix : Text → Text → Text
unfolding or_else cut_prefix
trim_prefix s prefix = or_else s (cut_prefix prefix s)

unfoldable pub trim_suffix : Text → Text → Text
unfolding trim_prefix
trim_suffix s suffix = reverse (trim_prefix (reverse s) (reverse suffix))

-- The encodings of the characters that `unicode.IsSpace` holds of.
abbrev spaces : List Text
spaces =
    map (λ c. c ∷ []) (0x20 ∷ 0x09 ∷ 0x0A ∷ 0x0B ∷ 0x0C ∷ 0x0D ∷ [])
    ++ (0xC2 ∷ 0x85 ∷ [])
      ∷ (0xC2 ∷ 0xA0 ∷ [])
      ∷ (0xE1 ∷ 0x9A ∷ 0x80 ∷ [])
      ∷ (0xE2 ∷ 0x80 ∷ 0xA8 ∷ [])
      ∷ (0xE2 ∷ 0x80 ∷ 0xA9 ∷ [])
      ∷ (0xE2 ∷ 0x80 ∷ 0xAF ∷ [])
      ∷ (0xE2 ∷ 0x81 ∷ 0x9F ∷ [])
      ∷ (0xE3 ∷ 0x80 ∷ 0x80 ∷ [])
      ∷ map (λ c. 0xE2 ∷ 0x80 ∷ c ∷ [])
          (0x80 ∷ 0x81 ∷ 0x82 ∷ 0x83 ∷ 0x84 ∷ 0x85 ∷ 0x86 ∷ 0x87 ∷ 0x88 ∷ 0x89 ∷ 0x8A ∷ [])

-- How many bytes the first of the given texts takes that stands at the front.
width_in : List Text → Text → ℕ
unfolding cut_prefix
width_in [] s = 0
width_in (w ∷ ws) s = elim (cut_prefix w s) [ none ↦ width_in ws s | some _ ↦ length w ]

-- The text behind the given ones at its front, of which `k` bytes are still to be taken.
trim_front : List Text → ℕ → Text → Text
unfolding width_in
trim_front ws k [] = []
trim_front ws (suc k) (c ∷ s) = trim_front ws k s
trim_front ws zero (c ∷ s) = elim (width_in ws (c ∷ s)) [ zero ↦ c ∷ s | suc k ↦ trim_front ws k s ]

-- `strings.TrimSpace`
unfoldable pub trim_space : Text → Text
unfolding trim_front
trim_space s = reverse (trim_front (map reverse spaces) 0 (reverse (trim_front spaces 0 s)))

-- The byte does not occur.
abbrev pub Lacks : ℕ → Text → Type 0
Lacks c s = All (λ d. d ≢ c) s

onto_first-join :
    (sep c : ℕ) (ps : List Text)
    → ps ≢ []
    → join (sep ∷ []) (onto_first c ps) ≡ c ∷ join (sep ∷ []) ps
unfolding join
onto_first-join sep c [] h = absurd (h refl)
onto_first-join sep c (p ∷ []) h = refl
onto_first-join sep c (p ∷ q ∷ ps) h = refl

onto_first-ne-nil : (c : ℕ) (ps : List Text) → onto_first c ps ≢ []
onto_first-ne-nil c [] = List.cons-ne-nil _ _
onto_first-ne-nil c (p ∷ ps) = List.cons-ne-nil _ _

pub split-ne-nil : (sep : ℕ) (s : Text) → split sep s ≢ []
unfolding split
split-ne-nil sep [] = List.cons-ne-nil _ _
split-ne-nil sep (c ∷ s) = ground (arith, onto_first-ne-nil c (split sep s))

join-nil :
    (sep : ℕ) (ps : List Text) → ps ≢ [] → join (sep ∷ []) ([] ∷ ps) ≡ sep ∷ join (sep ∷ []) ps
unfolding join
join-nil sep [] h = absurd (h refl)
join-nil sep (p ∷ ps) h = refl

pub join-split : (sep : ℕ) (s : Text) → join (sep ∷ []) (split sep s) ≡ s
unfolding split
join-split sep [] = unfold join in refl
join-split sep (c ∷ s) = grind (
  arith,
  join-nil sep (split sep s) (split-ne-nil sep s),
  onto_first-join sep c (split sep s) (split-ne-nil sep s),
  join-split sep s,
)

-- Texts without the separator are the parts that their join is split into.
pub split_part : (sep : ℕ) (p : Text) → Lacks sep p → split sep p ≡ p ∷ []
unfolding split
split_part sep [] h = refl
split_part sep (c ∷ p) h = ground (arith, split_part sep p h.1, h.0)

pub split-append : (sep : ℕ) (p s : Text) → Lacks sep p → split sep (p ++ sep ∷ s) ≡ p ∷ split sep s
unfolding split
split-append sep [] s h = rw (==_refl sep) refl
split-append sep (c ∷ p) s h = ground (arith, split-append sep p s h.1, h.0)

pub split-join :
    (sep : ℕ) (ps : List Text) → ps ≢ [] → All (Lacks sep) ps → split sep (join (sep ∷ []) ps) ≡ ps
unfolding join
split-join sep [] h _ = absurd (h refl)
split-join sep (p ∷ []) h k = split_part sep p k.0
split-join sep (p ∷ q ∷ ps) h k =
    split-append sep p (join (sep ∷ []) (q ∷ ps)) k.0
    ∙ ap (λ r. p ∷ r) (split-join sep (q ∷ ps) (List.cons-ne-nil _ _) k.1)

-- No part of a split holds the separator.
onto_first-Lacks :
    (sep c : ℕ) (ps : List Text) → c ≢ sep → All (Lacks sep) ps → All (Lacks sep) (onto_first c ps)
onto_first-Lacks sep c [] h k = ((h, tt), tt)
onto_first-Lacks sep c (p ∷ ps) h k = ((h, k.0), k.1)

pub split-Lacks : (sep : ℕ) (s : Text) → All (Lacks sep) (split sep s)
unfolding split
split-Lacks sep [] = (tt, tt)
split-Lacks sep (c ∷ s) = ground (
  arith,
  split-Lacks sep s,
  λ (h : c ≢ sep). onto_first-Lacks sep c (split sep s) h (split-Lacks sep s),
)

pub trim_prefix-append : (p s : Text) → trim_prefix (p ++ s) p ≡ s
unfolding trim_prefix
trim_prefix-append p s = rw (cut_prefix-append p s) refl

pub trim_suffix-append : (s p : Text) → trim_suffix (s ++ p) p ≡ s
unfolding trim_suffix
trim_suffix-append s p =
    rw (List.reverse-append s p, trim_prefix-append (reverse p) (reverse s))
      (List.reverse-reverse s)

pub has_prefix-append : (p s : Text) → has_prefix (p ++ s) p ≡ true
unfolding has_prefix
has_prefix-append p s = rw (has_prefix, cut_prefix-append p s) refl

pub has_suffix-append : (s p : Text) → has_suffix (s ++ p) p ≡ true
unfolding has_suffix
has_suffix-append s p = rw (List.reverse-append s p) (has_prefix-append (reverse p) (reverse s))

-- What is cut off is the suffix, or nothing is.
pub trim_suffix-cases : (s p : Text) → (trim_suffix s p ≡ s) ⊎ (s ≡ trim_suffix s p ++ p)
unfolding trim_suffix trim_prefix or_else
trim_suffix-cases s p = elim (Option-cases (cut_prefix (reverse p) (reverse s))) [
  | inl e ↦ inl (rw e (List.reverse-reverse s))
  | inr (r, e) ↦ inr (
      rw e (
        sym (List.reverse-reverse s)
        ∙ ap reverse (cut_prefix→append (reverse p) (reverse s) r e)
        ∙ List.reverse-append (reverse p) r
        ∙ ap (λ q. reverse r ++ q) (List.reverse-reverse p)))
]

no_prefix : (p s : Text) → has_prefix s p ≡ false → trim_prefix s p ≡ s
unfolding has_prefix trim_prefix or_else
no_prefix p s h = ground arith

pub no_suffix : (s p : Text) → has_suffix s p ≡ false → trim_suffix s p ≡ s
unfolding has_suffix trim_suffix
no_suffix s p h = rw (no_prefix (reverse p) (reverse s) h) (List.reverse-reverse s)

pub differs : (s t : Text) → text_eq s t ≡ false → s ≢ t
differs s t h e = absurd (true≢false (sym (text_eq_refl t) ∙ subst (λ r. text_eq r t ≡ false) e h))

pub unequal : (s t : Text) → s ≢ t → text_eq s t ≡ false
unequal s t h = elim (Bool-cases (text_eq s t)) [
  | inl e ↦ absurd (h (text_eq→eq s t e))
  | inr e ↦ e
]

-- Parts that end at the first separator are the same where the texts are.
pub head_part :
    (sep : ℕ) (a b x y : Text)
    → Lacks sep a
    → Lacks sep b
    → a ++ sep ∷ x ≡ b ++ sep ∷ y
    → (a ≡ b) × (x ≡ y)
head_part sep a b x y h k e =
    let parts = sym (split-append sep a x h) ∙ ap (split sep) e ∙ split-append sep b y k in
    (
      ap (λ ps. elim ps [ [] ↦ [] | p ∷ _ ↦ p ]) parts,
      sym (join-split sep x)
          ∙ ap (λ ps. join (sep ∷ []) (elim ps [ [] ↦ [] | _ ∷ qs ↦ qs ])) parts
          ∙ join-split sep y,
    )

-- A text that holds the separator is none that lacks it.
pub no_part : (sep : ℕ) (a x b : Text) → Lacks sep a → Lacks sep b → a ++ sep ∷ x ≢ b
no_part sep a x b h k e = split-ne-nil sep x (
    ap (λ ps. elim ps [ [] ↦ [] | _ ∷ qs ↦ qs ])
      (sym (split-append sep a x h) ∙ ap (split sep) e ∙ split_part sep b k))
