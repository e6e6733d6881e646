-- ===== src/Onkir/Paths/Routes.antt =====
-- internal/onkir/helpers.go: routes made of segments, and the names that `PathParamNames` and
-- `WildcardParam` read from them.
use mathlib.Core.List
use onekit.Base.{
  ℕ, ◌≡◌, refl, ap, ap₂, ◌∙◌, ◌≢◌, false, none, some, List, [], ◌∷◌, ◌++◌, map, Text, bytes, All,
  All-append, arith,
}
use onekit.Base.Utf8.{has_suffix}
use onekit.Base.Strings.{
  Lacks, split, split_part, split-append, trim_suffix, trim_suffix-append, no_suffix,
  trim_prefix-append, has_prefix-append, has_suffix-append,
}
use onekit.Onkir.Paths.{
  wildcard_suffix, scan_names, path_param_names, last_of, wildcard_of, wildcard_param,
}

-- What stands between two slashes of a route.
pub data Segment : Type 0 where
  literal param wildcard : Text → Segment

abbrev pub text_of : Segment → Text
text_of (literal s) = s
text_of (param n) = b'{' ∷ n ++ b'}' ∷ []
text_of (wildcard n) = b'{' ∷ (n ++ wildcard_suffix) ++ b'}' ∷ []

abbrev pub render : List Segment → Text
render [] = []
render (seg ∷ segs) = b'/' ∷ text_of seg ++ render segs

abbrev pub names : List Segment → List Text
names [] = []
names (literal s ∷ segs) = names segs
names (param n ∷ segs) = n ∷ names segs
names (wildcard n ∷ segs) = n ∷ names segs

-- No braces of its own, and no parameter that reads as a wildcard.
abbrev pub Clean : Segment → Type 0
Clean (literal s) = Lacks b'{' s
Clean (param n) = Lacks b'{' n × (Lacks b'}' n × (has_suffix n wildcard_suffix ≡ false))
Clean (wildcard n) = Lacks b'{' n × Lacks b'}' n

scan_names-literal : (s t : Text) → Lacks b'{' s → scan_names none (s ++ t) ≡ scan_names none t
unfolding scan_names
scan_names-literal [] t h = refl
scan_names-literal (c ∷ s) t h = ground (arith, h.0, scan_names-literal s t h.1)

scan_names-name :
    (acc n t : Text)
    → Lacks b'{' n
    → Lacks b'}' n
    → scan_names (some acc) (n ++ b'}' ∷ t)
      ≡ trim_suffix (acc ++ n) wildcard_suffix ∷ scan_names none t
unfolding scan_names
scan_names-name acc [] t h k = rw (List.append-nil acc) refl
scan_names-name acc (c ∷ n) t h k =
    ground (
      arith,
      h.0,
      k.0,
      scan_names-name (acc ++ c ∷ []) n t h.1 k.1,
      List.append_assoc acc (c ∷ []) n,
    )

slash : (t : Text) → scan_names none (b'/' ∷ t) ≡ scan_names none t
unfolding scan_names
slash t = refl

placeholder :
    (n t : Text)
    → Lacks b'{' n
    → Lacks b'}' n
    → scan_names none ((b'{' ∷ n ++ b'}' ∷ []) ++ t)
      ≡ trim_suffix n wildcard_suffix ∷ scan_names none t
placeholder n t h k =
    unfold scan_names in
    (ap (scan_names (some [])) (List.append_assoc n (b'}' ∷ []) t) ∙ scan_names-name [] n t h k)

suffix_Lacks : (c : ℕ) (n : Text) → c ≢ b'.' → Lacks c n → Lacks c (n ++ wildcard_suffix)
suffix_Lacks c n h k =
    All-append (λ d. d ≢ c) n wildcard_suffix k (omega arith, (omega arith, (omega arith, tt)))

-- From a route of clean segments `PathParamNames` reads the names of its parameters, the wildcard
-- included, in their order.
pub path_param_names-render :
    (segs : List Segment) → All Clean segs → path_param_names (render segs) ≡ names segs
path_param_names-render [] h = unfold scan_names in refl
path_param_names-render (literal s ∷ segs) h =
    slash (s ++ render segs)
    ∙ scan_names-literal s (render segs) h.0
    ∙ path_param_names-render segs h.1
path_param_names-render (param n ∷ segs) ((h, (k, e)), hs) =
    slash (text_of (param n) ++ render segs)
    ∙ placeholder n (render segs) h k
    ∙ ap₂ ◌∷◌ (no_suffix n wildcard_suffix e) (path_param_names-render segs hs)
path_param_names-render (wildcard n ∷ segs) ((h, k), hs) =
    slash (text_of (wildcard n) ++ render segs)
    ∙ placeholder (n ++ wildcard_suffix) (render segs) (suffix_Lacks b'{' n (omega arith) h)
        (suffix_Lacks b'}' n (omega arith) k)
    ∙ ap₂ ◌∷◌ (trim_suffix-append n wildcard_suffix) (path_param_names-render segs hs)

-- The text of a segment has no slash.
abbrev pub NoSlash : Segment → Type 0
NoSlash seg = Lacks b'/' (text_of seg)

last_of-cons : (p : Text) (ps : List Text) → ps ≢ [] → last_of (p ∷ ps) ≡ last_of ps
last_of-cons p [] h = absurd (h refl)
last_of-cons p (q ∷ ps) h = refl

split-segments :
    (seg : Segment) (segs : List Segment)
    → All NoSlash (seg ∷ segs)
    → split b'/' (text_of seg ++ render segs) ≡ map text_of (seg ∷ segs)
split-segments seg [] h =
    ap (split b'/') (List.append-nil (text_of seg)) ∙ split_part b'/' (text_of seg) h.0
split-segments seg (next ∷ segs) h =
    split-append b'/' (text_of seg) (text_of next ++ render segs) h.0
    ∙ ap (λ ps. text_of seg ∷ ps) (split-segments next segs h.1)

-- The parts of a route are the texts of its segments, behind the empty text before the first slash.
pub split-render :
    (segs : List Segment)
    → segs ≢ []
    → All NoSlash segs
    → split b'/' (render segs) ≡ [] ∷ map text_of segs
split-render [] h k = absurd (h refl)
split-render (seg ∷ segs) h k = unfold split in ap (λ ps. [] ∷ ps) (split-segments seg segs k)

map-ne-nil : (seg : Segment) (segs : List Segment) → map text_of (segs ++ seg ∷ []) ≢ []
map-ne-nil seg [] = List.cons-ne-nil _ _
map-ne-nil seg (s ∷ segs) = List.cons-ne-nil _ _

last_of-map :
    (seg : Segment) (segs : List Segment) → last_of (map text_of (segs ++ seg ∷ [])) ≡ text_of seg
last_of-map seg [] = refl
last_of-map seg (s ∷ segs) =
    last_of-cons (text_of s) (map text_of (segs ++ seg ∷ [])) (map-ne-nil seg segs)
    ∙ last_of-map seg segs

wildcard_of-wildcard : (n : Text) → wildcard_of (text_of (wildcard n)) ≡ some n
unfolding wildcard_of
wildcard_of-wildcard n = grind (
  arith,
  has_prefix-append (bytes "{") ((n ++ wildcard_suffix) ++ b'}' ∷ []),
  trim_prefix-append (bytes "{") ((n ++ wildcard_suffix) ++ b'}' ∷ []),
  trim_suffix-append (n ++ wildcard_suffix) (bytes "}"),
  has_suffix-append (b'{' ∷ (n ++ wildcard_suffix)) (bytes "}"),
  has_suffix-append n wildcard_suffix,
  trim_suffix-append n wildcard_suffix,
)

-- `WildcardParam` reads the name of a wildcard that is the last segment of a route whose segments have
-- no slash.
pub wildcard_param-render :
    (segs : List Segment) (n : Text)
    → All NoSlash (segs ++ wildcard n ∷ [])
    → wildcard_param (render (segs ++ wildcard n ∷ [])) ≡ some n
unfolding wildcard_param
wildcard_param-render segs n h =
    ap (λ ps. wildcard_of (last_of ps))
      (split-render (segs ++ wildcard n ∷ []) (List.concat-ne-nil (wildcard n) segs) h)
    ∙ ap wildcard_of (
        last_of-cons [] (map text_of (segs ++ wildcard n ∷ [])) (map-ne-nil (wildcard n) segs)
        ∙ last_of-map (wildcard n) segs)
    ∙ wildcard_of-wildcard n
