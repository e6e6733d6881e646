-- ===== src/Onkcompile/Paths/Agree.antt =====
-- internal/onkcompile/validate_service.go and internal/onkir/helpers.go: the two ways in which the names of
-- a route's parameters are read.
use onekit.Base.{
  ℕ, ◌≡◌, ◌≢◌, refl, ap, sym, subst, ◌∙◌, Bool, true, false, Option, none, some, [], ◌∷◌, ◌++◌,
  Text, bytes, text_eq, ◌==◌, All, All-append, All-map, inl, inr, Bool-cases, ==_iff, if◌then◌else◌,
  arith,
}
use onekit.Base.Strings.{Lacks, trim_suffix, trim_suffix-cases}
use onekit.Onkir.Paths.{wildcard_suffix, scan_names, path_param_names}
use onekit.Onkcompile.Errors.{nested_braces, refuse-none, first_of-none, first_error-none}
use onekit.Onkcompile.Paths.{
  contains_any, parameters_from, path_parameter_names, parameter_checks, check_parameter,
  route_checks, validate_http_path,
}

-- A name that was read with a brace in it keeps it without its suffix.
trimmed-Lacks : (t : Text) → Lacks b'{' (trim_suffix t wildcard_suffix) → Lacks b'{' t
trimmed-Lacks t h = elim (trim_suffix-cases t wildcard_suffix) [
  | inl e ↦ subst (Lacks b'{') e h
  | inr e ↦ rw e (
      All-append (λ d. d ≢ b'{') (trim_suffix t wildcard_suffix) wildcard_suffix h
        (omega arith, (omega arith, (omega arith, tt))))
]

Lacks-start : (t u : Text) → Lacks b'{' (t ++ u) → Lacks b'{' t
Lacks-start [] u h = tt
Lacks-start (c ∷ t) u h = (h.0, Lacks-start t u h.1)

not-Lacks-brace : (t : Text) → ¬ Lacks b'{' (t ++ b'{' ∷ [])
not-Lacks-brace [] h = h.0 refl
not-Lacks-brace (c ∷ t) h = not-Lacks-brace t h.1

-- The names that are read behind an opening brace, by the byte that comes next.
closes :
    (t s : Text)
    → parameters_from (some t) (b'}' ∷ s) ≡ trim_suffix t wildcard_suffix ∷ parameters_from none s
unfolding parameters_from
closes t s = refl

goes_on :
    (t s : Text) (c : ℕ)
    → (c == b'}') ≡ false
    → parameters_from (some t) (c ∷ s) ≡ parameters_from (some (t ++ c ∷ [])) s
unfolding parameters_from
goes_on t s c h = ground (arith, h)

scan_goes_on :
    (t s : Text) (c : ℕ)
    → (c == b'}') ≡ false
    → (c == b'{') ≡ false
    → scan_names (some t) (c ∷ s) ≡ scan_names (some (t ++ c ∷ [])) s
unfolding scan_names
scan_goes_on t s c h k = ground (arith, h, k)

scan_restarts : (t s : Text) → scan_names (some t) (b'{' ∷ s) ≡ scan_names (some []) s
unfolding scan_names
scan_restarts t s = refl

-- Behind a second opening brace no name can be read that has no brace in it.
opened_twice :
    (t u s : Text)
    → ¬ Lacks b'{' t
    → All (Lacks b'{') (parameters_from (some t) s)
    → (scan_names (some u) s ≡ []) × (parameters_from (some t) s ≡ [])
opened_twice t u [] k h = unfold scan_names parameters_from in (refl, refl)
opened_twice t u (c ∷ s) k h = elim (Bool-cases (c == b'}')) [
  | inl e ↦
      let same : c ≡ b'}' = (==_iff c b'}').0 e in
      absurd (
        k (
          trimmed-Lacks t
            (subst (All (Lacks b'{')) (ap (λ d. parameters_from (some t) (d ∷ s)) same ∙ closes t s)
              h).0))
  | inr e ↦
      let tail = subst (All (Lacks b'{')) (goes_on t s c e) h in
      let holed : ¬ Lacks b'{' (t ++ c ∷ []) = λ q. k (Lacks-start t (c ∷ []) q) in
      rw (goes_on t s c e) (elim (Bool-cases (c == b'{')) [
        | inl e' ↦
            let same : c ≡ b'{' = (==_iff c b'{').0 e' in
            let (p, q) = opened_twice (t ++ c ∷ []) [] s holed tail in
            (ap (λ d. scan_names (some u) (d ∷ s)) same ∙ scan_restarts u s ∙ p, q)
        | inr e' ↦
            let (p, q) = opened_twice (t ++ c ∷ []) (u ++ c ∷ []) s holed tail in
            (scan_goes_on u s c e e' ∙ p, q)
      ])
]

outside :
    (c : ℕ) (s : Text)
    → parameters_from none (c ∷ s) ≡ parameters_from (if c == b'{' then some [] else none) s
unfolding parameters_from
outside c s = refl

scan_outside :
    (c : ℕ) (s : Text)
    → scan_names none (c ∷ s) ≡ scan_names (if c == b'{' then some [] else none) s
unfolding scan_names
scan_outside c s = refl

scan_closes :
    (t s : Text)
    → scan_names (some t) (b'}' ∷ s) ≡ trim_suffix t wildcard_suffix ∷ scan_names none s
unfolding scan_names
scan_closes t s = refl

scan_names-parameters_from :
    (start : Option Text) (s : Text)
    → All (Lacks b'{') (parameters_from start s)
    → scan_names start s ≡ parameters_from start s
scan_names-parameters_from start [] h = unfold scan_names parameters_from in refl
scan_names-parameters_from none (c ∷ s) h =
    scan_outside c s
    ∙ scan_names-parameters_from (if c == b'{' then some [] else none) s
        (subst (All (Lacks b'{')) (outside c s) h)
    ∙ sym (outside c s)
scan_names-parameters_from (some t) (c ∷ s) h = elim (Bool-cases (c == b'}')) [
  | inl e ↦
      let same : c ≡ b'}' = (==_iff c b'}').0 e in
      let closed = ap (λ d. parameters_from (some t) (d ∷ s)) same ∙ closes t s in
      ap (λ d. scan_names (some t) (d ∷ s)) same
      ∙ scan_closes t s
      ∙ ap (λ ns. trim_suffix t wildcard_suffix ∷ ns)
          (scan_names-parameters_from none s (subst (All (Lacks b'{')) closed h).1)
      ∙ sym closed
  | inr e ↦
      let tail = subst (All (Lacks b'{')) (goes_on t s c e) h in
      elim (Bool-cases (c == b'{')) [
        | inl e' ↦
            let same : c ≡ b'{' = (==_iff c b'{').0 e' in
            let holed : ¬ Lacks b'{' (t ++ c ∷ []) = rw same (not-Lacks-brace t) in
            let (p, q) = opened_twice (t ++ c ∷ []) [] s holed tail in
            ap (λ d. scan_names (some t) (d ∷ s)) same
            ∙ scan_restarts t s
            ∙ p
            ∙ sym q
            ∙ sym (goes_on t s c e)
        | inr e' ↦
            scan_goes_on t s c e e'
            ∙ scan_names-parameters_from (some (t ++ c ∷ [])) s tail
            ∙ sym (goes_on t s c e)
      ]
]

contains_any-Lacks : (s : Text) → contains_any s (bytes "{}") ≡ false → Lacks b'{' s
contains_any-Lacks [] h = tt
contains_any-Lacks (c ∷ s) h = (ground (arith, h), contains_any-Lacks s (ground (arith, h)))

check_parameter-Lacks : (name : Text) → check_parameter name ≡ none → Lacks b'{' name
unfolding check_parameter
check_parameter-Lacks name h = contains_any-Lacks name (
    refuse-none (contains_any name (bytes "{}")) (nested_braces name)
      (unfold parameter_checks in (first_of-none (parameter_checks name) h).0))

-- On a route that the compiler accepts, the names that it reads are those that the generators read by
-- `PathParamNames`.
pub path_param_names-path_parameter_names :
    (route : Text) (allow_empty : Bool)
    → validate_http_path route allow_empty ≡ none
    → path_param_names route ≡ path_parameter_names route
unfolding validate_http_path
path_param_names-path_parameter_names [] true h = unfold scan_names parameters_from in refl
path_param_names-path_parameter_names [] false h = unfold scan_names parameters_from in refl
path_param_names-path_parameter_names (c ∷ s) allow_empty h =
    scan_names-parameters_from none (c ∷ s) (
      All-map (λ n. check_parameter n ≡ none) (Lacks b'{') (path_parameter_names (c ∷ s))
        check_parameter-Lacks
        (first_error-none check_parameter (path_parameter_names (c ∷ s)) (
          unfold route_checks in
          (first_of-none (route_checks (c ∷ s)) (unfold text_eq in h)).1.1.1.1.1.1.1.0)))
