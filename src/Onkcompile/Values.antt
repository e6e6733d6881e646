-- ===== src/Onkcompile/Values.antt =====
-- internal/onkcompile/validate.go: what the arguments of a field's decorators may be.
pub mod Returns
use onekit.Base.{
  ℕ, Bool, true, false, not, Option, none, some, List, [], ◌∷◌, map, Text, bytes, text_eq, ◌&&◌,
  ◌||◌, ltb, any, length, if◌then◌else◌,
}
use onekit.Onkir.Schema.{Arg}
use onekit.Onkschema.{Decorator}
use onekit.Onkcompile.Errors.{
  Complaint, CompileError, not_numeric, min_above_max, pattern_not_quoted, pattern_size,
  pattern_invalid, pattern_nested, empty_kind, encode_value, at_line, contains,
}
use onekit.Onkcompile.Checked.{Checked, passed, refused, when, and_next, pass_all, with_value}

-- A regular expression of Go's regexp/syntax: whether its operator repeats, and its parts.
mutual
  pub data Regexp : Type 0 where
    node : Bool → Regexps → Regexp

  pub data Regexps : Type 0 where
    no_part : Regexps
    part : Regexp → Regexps → Regexps

-- `hasNestedRegexpRepeat`
mutual
  pub has_nested_repeat : Regexp → Bool → Bool
  has_nested_repeat (node repeats parts) inside =
      (repeats && inside) || any_nested_repeat parts (inside || repeats)

  pub any_nested_repeat : Regexps → Bool → Bool
  any_nested_repeat no_part inside = false
  any_nested_repeat (part r rs) inside = has_nested_repeat r inside || any_nested_repeat rs inside

-- What is used of strconv, of regexp and its syntax, of strings and of unicode.
pub record Readers (F : Type 0) : Type 0 where
  pub parse_float : Text → Option F
  pub is_above : F → F → Bool
  pub compiles : Text → Bool
  pub parse_regexp : Text → Option Regexp
  pub to_lower : Text → Text
  -- whether the first rune is an uppercase letter
  pub starts_upper : Text → Bool

abbrev is_none : {A : Type 0} → Option A → Bool
is_none none = true
is_none (some a) = false

-- `allowedEncodeValues`
unfoldable pub encode_values : List Text
encode_values = map bytes (
    "number" ∷ "hex" ∷ "base64" ∷ "base64_raw" ∷ "base64url" ∷ "base64url_raw" ∷ "unix_seconds"
    ∷ "unix_millis" ∷ "date" ∷ "string" ∷ [])

abbrev pub bound_names : List Text
bound_names = map bytes ("gt" ∷ "gte" ∷ "lt" ∷ "lte" ∷ "min_items" ∷ "max_items" ∷ [])

abbrev pub span_names : List Text
span_names = map bytes ("len" ∷ "range" ∷ [])

abbrev is_unquoted : List Arg → Bool
is_unquoted [] = false
is_unquoted (a ∷ args) = not a.quoted

abbrev nests : Option Regexp → Bool
unfolding has_nested_repeat any_nested_repeat
nests none = false
nests (some r) = has_nested_repeat r false

module _ {F : Type 0} (readers : Readers F) (path : Text) (line : ℕ) where
  -- `numeric(index)`
  unfoldable pub numeric : ℕ → Decorator → Checked
  numeric index d =
      with_value index d.args
        (λ v. when (is_none (readers.parse_float v)) (at_line path line (not_numeric d.name v)))

  abbrev above : Option F → Option F → Bool
  above (some a) (some b) = readers.is_above a b
  above _ _ = false

  unfoldable pub ordered : Decorator → Checked
  ordered d = with_value 0 d.args (λ least. with_value 1 d.args (λ most.
      when (above (readers.parse_float least) (readers.parse_float most))
        (at_line path line (min_above_max d.name))))

  unfoldable pub pattern_checks : Text → List Checked
  unfolding has_nested_repeat
  pattern_checks pattern =
      when (ltb 4096 (length pattern)) (at_line path line pattern_size)
      ∷ when (not (readers.compiles pattern)) (at_line path line pattern_invalid)
      ∷ when (is_none (readers.parse_regexp pattern)) (at_line path line pattern_invalid)
      ∷ when (nests (readers.parse_regexp pattern)) (at_line path line pattern_nested)
      ∷ []

  abbrev first_of_args : List Arg → Text
  first_of_args [] = []
  first_of_args (a ∷ args) = a.value

  abbrev is_empty_kind : Text → Bool
  is_empty_kind v = contains (map bytes ("null" ∷ "omit" ∷ "preserve" ∷ [])) v

  -- The cases of `validateDecoratorValue` that read no number.
  unfoldable pub other_value : Decorator → Checked
  unfolding pass_all pattern_checks encode_values
  other_value d =
      if text_eq d.name (bytes "pattern")
      then and_next
          (when (is_unquoted d.args)
            (at_line path line (pattern_not_quoted (first_of_args d.args))))
          (with_value 0 d.args (λ v. pass_all (pattern_checks v)))
      else if text_eq d.name (bytes "empty")
      then with_value 0 d.args (λ v. when (not (is_empty_kind v)) (at_line path line empty_kind))
      else if text_eq d.name (bytes "encode")
      then with_value 0 d.args
          (λ v. when (not (contains encode_values v)) (at_line path line (encode_value v)))
      else passed

  -- `validateDecoratorValue`
  unfoldable pub validate_decorator_value : Decorator → Checked
  unfolding pass_all numeric ordered other_value
  validate_decorator_value d =
      if contains span_names d.name
      then pass_all (numeric 0 d ∷ numeric 1 d ∷ ordered d ∷ [])
      else if contains bound_names d.name
      then numeric 0 d
      else other_value d
