-- ===== src/Onkcompile/Paths/Canonical.antt =====
-- internal/onkcompile/validate_service.go and httpkit/handlers.go: what `path.Clean` makes of a rooted path.
use mathlib.Core.List
use onekit.Base.{
  ◌≡◌, ◌≢◌, refl, ap, ◌∙◌, inl, inr, List, [], ◌∷◌, ◌++◌, Text, bytes, All, All-map, Bool-cases,
  text_eq,
}
use onekit.Base.Strings.{
  Lacks, split, split-append, join, split-join, split-Lacks, differs, unequal,
}
use onekit.Onkcompile.Paths.{clean_step, parent, clean_segments, reversed}

-- Neither empty nor a dot or two, and without a slash.
abbrev pub Plain : Text → Type 0
Plain s = (s ≢ []) × ((s ≢ bytes ".") × ((s ≢ bytes "..") × Lacks b'/' s))

parent-Plain : (done : List Text) → All Plain done → All Plain (parent done)
parent-Plain [] h = tt
parent-Plain (s ∷ done) h = h.1

clean_step-Plain :
    (done : List Text) (s : Text) → All Plain done → Lacks b'/' s → All Plain (clean_step done s)
clean_step-Plain done [] h k = h
clean_step-Plain done (c ∷ s) h k = elim (Bool-cases (text_eq (c ∷ s) (bytes "."))) [
  | inl e ↦ rw e h
  | inr e ↦ elim (Bool-cases (text_eq (c ∷ s) (bytes ".."))) [
    | inl d ↦ rw (e, d) (parent-Plain done h)
    | inr d ↦ rw (e, d) ((List.cons-ne-nil _ _, (differs _ _ e, (differs _ _ d, k))), h)
  ]
]

clean_segments-Plain :
    (done ss : List Text)
    → All Plain done
    → All (Lacks b'/') ss
    → All Plain (clean_segments done ss)
unfolding clean_segments
clean_segments-Plain done [] h k = h
clean_segments-Plain done (s ∷ ss) h k =
    clean_segments-Plain (clean_step done s) ss (clean_step-Plain done s h k.0) k.1

reversed-All : (acc ss : List Text) → All Plain acc → All Plain ss → All Plain (reversed acc ss)
unfolding reversed
reversed-All acc [] h k = h
reversed-All acc (s ∷ ss) h k = reversed-All (s ∷ acc) ss (k.0, h) k.1

-- The segments of a clean path.
abbrev pub segments_of : Text → List Text
segments_of path = reversed [] (clean_segments [] (split b'/' path))

pub segments_of-Plain : (path : Text) → All Plain (segments_of path)
segments_of-Plain path =
    reversed-All [] (clean_segments [] (split b'/' path)) tt
      (clean_segments-Plain [] (split b'/' path) tt (split-Lacks b'/' path))

clean_step-keeps : (done : List Text) (s : Text) → Plain s → clean_step done s ≡ s ∷ done
clean_step-keeps done [] h = absurd (h.0 refl)
clean_step-keeps done (c ∷ s) (_, (d, (e, _))) = rw (unequal _ _ d, unequal _ _ e) refl

clean_segments-reversed :
    (done ss : List Text) → All Plain ss → clean_segments done ss ≡ reversed done ss
unfolding clean_segments reversed
clean_segments-reversed done [] h = refl
clean_segments-reversed done (s ∷ ss) h =
    rw (clean_step-keeps done s h.0) (clean_segments-reversed (s ∷ done) ss h.1)

reversed_twice :
    (acc done ss : List Text) → reversed acc (reversed done ss) ≡ reversed (ss ++ acc) done
unfolding reversed
reversed_twice acc done [] = refl
reversed_twice acc done (s ∷ ss) = reversed_twice acc (s ∷ done) ss

cleaned : (ss : List Text) → All Plain ss → reversed [] (clean_segments [] ss) ≡ ss
unfolding reversed
cleaned ss h =
    ap (reversed []) (clean_segments-reversed [] ss h)
    ∙ reversed_twice [] [] ss
    ∙ List.append-nil ss

split_path : (ss : List Text) → All Plain ss → segments_of (join (bytes "/") ss) ≡ ss
unfolding join split clean_segments reversed
split_path [] h = refl
split_path (s ∷ ss) h =
    ap (λ ps. reversed [] (clean_segments [] ps))
      (split-join b'/' (s ∷ ss) (List.cons-ne-nil _ _)
        (All-map Plain (Lacks b'/') (s ∷ ss) (λ s p. p.1.1.1) h))
    ∙ cleaned (s ∷ ss) h

rooted : (path : Text) → segments_of (b'/' ∷ path) ≡ segments_of path
unfolding clean_segments
rooted path = ap (λ ps. reversed [] (clean_segments [] ps)) (split-append b'/' [] path tt)

-- A path of plain segments is clean, with one slash in front or with two.
pub segments_of-join :
    (ss : List Text) → All Plain ss → segments_of (b'/' ∷ b'/' ∷ join (bytes "/") ss) ≡ ss
segments_of-join ss h =
    rooted (b'/' ∷ join (bytes "/") ss) ∙ rooted (join (bytes "/") ss) ∙ split_path ss h
