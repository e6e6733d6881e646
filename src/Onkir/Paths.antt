-- ===== src/Onkir/Paths.antt =====
-- internal/onkir/helpers.go: the parameters in the route of a method.
pub mod Routes
use onekit.Base.{
  ℕ, Bool, true, false, Option, none, some, List, [], ◌∷◌, ◌++◌, Text, bytes, text_eq, ◌&&◌, ◌==◌,
  if◌then◌else◌,
}
use onekit.Base.Utf8.{has_prefix, has_suffix}
use onekit.Base.Strings.{split, trim_prefix, trim_suffix}

-- `WildcardSuffix`
abbrev pub wildcard_suffix : Text
wildcard_suffix = bytes "..."

-- `start` of the source, with the text read since then.
abbrev pub next_start : Option Text → ℕ → Option Text
next_start none c = if c == b'{' then some [] else none
next_start (some t) c =
    if c == b'{' then some [] else if c == b'}' then none else some (t ++ c ∷ [])

abbrev pub name_ended : Option Text → ℕ → List Text
name_ended none c = []
name_ended (some t) c = if c == b'}' then trim_suffix t wildcard_suffix ∷ [] else []

unfoldable pub scan_names : Option Text → Text → List Text
scan_names start [] = []
scan_names start (c ∷ s) = name_ended start c ++ scan_names (next_start start c) s

-- `PathParamNames`
abbrev pub path_param_names : Text → List Text
path_param_names path = scan_names none path

-- The last part, of which there is one at least in a split.
abbrev pub last_of : List Text → Text
last_of [] = []
last_of (p ∷ []) = p
last_of (p ∷ q ∷ ps) = last_of (q ∷ ps)

unfoldable pub wildcard_of : Text → Option Text
unfolding has_prefix has_suffix trim_prefix trim_suffix
wildcard_of last =
    let inner = trim_suffix (trim_prefix last (bytes "{")) (bytes "}") in
    if has_prefix last (bytes "{")
      && has_suffix last (bytes "}")
      && has_suffix inner wildcard_suffix
    then some (trim_suffix inner wildcard_suffix)
    else none

-- `WildcardParam`
unfoldable pub wildcard_param : Text → Option Text
unfolding wildcard_of split
wildcard_param path = wildcard_of (last_of (split b'/' path))

-- `IsWildcardParam`
unfoldable pub is_wildcard_param : Text → Text → Bool
unfolding wildcard_param
is_wildcard_param path name = elim (wildcard_param path) [ none ↦ false | some w ↦ text_eq w name ]

-- `PathPlaceholder`
unfoldable pub path_placeholder : Text → Text → Text
unfolding is_wildcard_param
path_placeholder path name =
    if is_wildcard_param path name
    then bytes "{" ++ name ++ wildcard_suffix ++ bytes "}"
    else bytes "{" ++ name ++ bytes "}"
