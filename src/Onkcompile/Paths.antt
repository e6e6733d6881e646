-- ===== src/Onkcompile/Paths.antt =====
-- internal/onkcompile/validate_service.go: the route of an RPC and the names of its parameters.
pub mod Agree
pub mod Canonical
use onekit.Base.{
  ℕ, zero, suc, ◌≡◌, Bool, true, false, not, Option, none, some, List, [], ◌∷◌, ◌++◌, map, Text,
  bytes, text_eq, cut_prefix, ◌&&◌, ◌||◌, ltb, ◌==◌, any, all, keep, length, if◌then◌else◌,
}
use onekit.Base.Utf8.{has_prefix, has_suffix, contains_text}
use onekit.Base.Strings.{split, join, trim_suffix}
use onekit.Onkir.Paths.{wildcard_suffix}
use onekit.Onkcompile.Errors.{
  Complaint, must_start_with_slash, no_query_or_empty_segment, no_control_characters,
  unbalanced_braces, not_canonical, whole_segment, wildcard_not_last, nested_braces,
  invalid_parameter, refuse, first_of, first_error,
}
use onekit.Onkcompile.Names.{generated_identifier, lower_ascii}

-- The text behind an opening brace, read so far; `IndexByte` looks for the brace that ends it.
abbrev pub next_route : Option Text → ℕ → Option Text
next_route none c = if c == b'{' then some [] else none
next_route (some t) c = if c == b'}' then none else some (t ++ c ∷ [])

abbrev pub parameter_ended : Option Text → ℕ → List Text
parameter_ended none c = []
parameter_ended (some t) c = if c == b'}' then trim_suffix t wildcard_suffix ∷ [] else []

unfoldable pub parameters_from : Option Text → Text → List Text
parameters_from start [] = []
parameters_from start (c ∷ s) = parameter_ended start c ++ parameters_from (next_route start c) s

-- `pathParameterNames`
abbrev pub path_parameter_names : Text → List Text
path_parameter_names route = parameters_from none route

-- `strings.ContainsAny` with bytes that are ASCII, and `strings.Count` of one byte.
abbrev pub contains_any : Text → Text → Bool
contains_any s chars = any (λ c. any (λ d. c == d) chars) s

abbrev pub count : ℕ → Text → ℕ
count c s = length (keep (λ d. d == c) s)

-- `pathParameterPattern.ReplaceAllString`: a brace, one byte or more that is none, and a closing brace.
-- What is read behind an opening brace is put back where the pattern does not match.
abbrev pub replace_state : Option Text → ℕ → Option Text
replace_state none c = if c == b'{' then some [] else none
replace_state (some t) c =
    if c == b'{' then some [] else if c == b'}' then none else some (t ++ c ∷ [])

abbrev pub replace_out : Text → Option Text → ℕ → Text
replace_out new none c = if c == b'{' then [] else c ∷ []
replace_out new (some t) c =
    if c == b'{'
    then b'{' ∷ t
    else if c == b'}'
    then if text_eq t [] then bytes "{}" else new
    else []

abbrev put_back : Option Text → Text
put_back none = []
put_back (some t) = b'{' ∷ t

replace_from : Text → Option Text → Text → Text
replace_from new start [] = put_back start
replace_from new start (c ∷ s) =
    replace_out new start c ++ replace_from new (replace_state start c) s

unfoldable pub replace_parameters : Text → Text → Text
unfolding replace_from
replace_parameters new route = replace_from new none route

-- `path.Clean` of a path that starts with a slash, by its segments. `done` has the last one first.
abbrev pub parent : List Text → List Text
parent [] = []
parent (_ ∷ done) = done

abbrev pub clean_step : List Text → Text → List Text
clean_step done [] = done
clean_step done (c ∷ s) =
    if text_eq (c ∷ s) (bytes ".")
    then done
    else if text_eq (c ∷ s) (bytes "..")
    then parent done
    else (c ∷ s) ∷ done

unfoldable pub clean_segments : List Text → List Text → List Text
clean_segments done [] = done
clean_segments done (s ∷ ss) = clean_segments (clean_step done s) ss

unfoldable pub reversed : List Text → List Text → List Text
reversed done [] = done
reversed done (s ∷ ss) = reversed (s ∷ done) ss

unfoldable pub clean_rooted : Text → Text
unfolding clean_segments reversed split join
clean_rooted path = b'/' ∷ join (bytes "/") (reversed [] (clean_segments [] (split b'/' path)))

-- A segment with a brace is one parameter.
unfoldable pub is_whole : Text → Bool
unfolding has_prefix has_suffix
is_whole segment =
    not (contains_any segment (bytes "{}"))
    || has_prefix segment (bytes "{") && has_suffix segment (bytes "}") && (count b'{' segment == 1)

-- The segments before the last are no wildcards.
unfoldable pub wildcards_last : List Text → Option Complaint
unfolding has_suffix
wildcards_last [] = none
wildcards_last (s ∷ []) = none
wildcards_last (s ∷ t ∷ ss) =
    let rest = wildcards_last (t ∷ ss) in
    if has_suffix s (wildcard_suffix ++ bytes "}") then some (wildcard_not_last s) else rest

-- A byte of a route that is refused. Every other one of a rune is above those.
abbrev is_control : ℕ → Bool
is_control c = ltb c 0x20 || c == 0x7F || c == 0x22 || c == 0x5C

-- `strings.ToLower(strings.ReplaceAll(name, "_", ""))`. The two sides differ wherever a byte is not ASCII,
-- however it is lowered.
abbrev lowered_without_underscores : Text → Text
lowered_without_underscores name = map lower_ascii (keep (λ c. not (c == b'_')) name)

unfoldable pub parameter_checks : Text → List (Option Complaint)
unfolding generated_identifier
parameter_checks name =
    refuse (contains_any name (bytes "{}")) (nested_braces name)
    ∷ refuse
        (text_eq name []
          || not (text_eq (generated_identifier name) (lowered_without_underscores name)))
        (invalid_parameter name)
    ∷ []

unfoldable pub check_parameter : Text → Option Complaint
unfolding parameter_checks first_of
check_parameter name = first_of (parameter_checks name)

-- `validateHTTPPath`
unfoldable pub route_checks : Text → List (Option Complaint)
unfolding has_prefix contains_text replace_parameters clean_rooted is_whole wildcards_last
    check_parameter split first_error
route_checks value =
    refuse (not (has_prefix value (bytes "/"))) must_start_with_slash
    ∷ refuse (contains_any value (bytes "?#%") || contains_text value (bytes "//"))
        no_query_or_empty_segment
    ∷ refuse (any is_control value) no_control_characters
    ∷ refuse (not (count b'{' value == count b'}' value)) unbalanced_braces
    ∷ refuse
        (not (
          text_eq (clean_rooted (replace_parameters (bytes "x") value))
            (replace_parameters (bytes "x") value)))
        (not_canonical (replace_parameters (bytes "x") value))
    ∷ first_error (λ s. refuse (not (is_whole s)) (whole_segment s)) (split b'/' value)
    ∷ wildcards_last (split b'/' value)
    ∷ first_error check_parameter (path_parameter_names value)
    ∷ []

unfoldable pub validate_http_path : Text → Bool → Option Complaint
unfolding route_checks first_of
validate_http_path value allow_empty =
    if text_eq value [] && allow_empty then none else first_of (route_checks value)
