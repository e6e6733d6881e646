-- ===== src/Onkcompile/Headers.antt =====
-- internal/onkcompile/validate_service.go: `validateHeaders`.
pub mod Returns
pub mod Accepted
use onekit.Base.{
  ℕ, Bool, true, false, not, Option, none, some, List, [], ◌∷◌, map, Text, bytes, text_eq, ◌&&◌,
  ◌||◌, ◌==◌, any, all, if◌then◌else◌,
}
use onekit.Onkir.Schema.{Arg}
use onekit.Onkir.Names.{parse_scalar_kind}
use onekit.Onkschema.{Decorator, HeaderDecl}
use onekit.Onkcompile.Errors.{
  Complaint, CompileError, at_line, contains, empty_header, invalid_header, repeated_header,
  header_type, scheme_without_auth, auth_not_required, not_authorization, header_format,
}
use onekit.Onkcompile.Names.{is_letter_or_digit}
use onekit.Onkcompile.Decls.{find_declared, has_declared}
use onekit.Onkcompile.Checked.{Checked, passed, when, and_next, pass_all, with_value}
use onekit.Onkcompile.Decorators.{validate_decorators, header_decorators}

-- `validHTTPHeaderName`
unfoldable pub valid_header_name : Text → Bool
valid_header_name value =
    all (λ c. is_letter_or_digit c || any (λ d. c == d) (bytes "!#$%&'*+-.^_`|~")) value
    && not (text_eq value [])

-- The type is a scalar that is not a string.
abbrev is_other_scalar : Text → Bool
is_other_scalar t = elim (parse_scalar_kind t) [
  | none ↦ false
  | some k ↦ not (text_eq t (bytes "string"))
]

abbrev is_there : Option Decorator → Bool
is_there none = false
is_there (some d) = true

-- `to_lower` and `equal_fold` are those of strings.
module _ (to_lower : Text → Text) (equal_fold : Text → Text → Bool) (path : Text) where
  unfoldable pub name_checks : List Text → HeaderDecl → List Checked
  unfolding valid_header_name
  name_checks seen h =
      when (text_eq (to_lower h.name) []) (at_line path h.line empty_header)
      ∷ when (not (valid_header_name h.name)) (at_line path h.line (invalid_header h.name))
      ∷ when (contains seen (to_lower h.name)) (at_line path h.line (repeated_header h.name))
      ∷ []

  unfoldable pub auth_checks : HeaderDecl → Text → List Checked
  unfolding has_declared
  auth_checks h value =
      when (not (has_declared h.decorators (bytes "required")))
        (at_line path h.line (auth_not_required value))
      ∷ when
          ((text_eq value (bytes "bearer") || text_eq value (bytes "basic"))
            && not (equal_fold h.name (bytes "Authorization")))
          (at_line path h.line (not_authorization value h.name))
      ∷ []

  -- What is checked of a header's `@auth`, whose argument is used where it is not there or the header is not
  -- required.
  unfoldable pub auth_checked : HeaderDecl → Option Decorator → Checked
  unfolding pass_all auth_checks has_declared find_declared
  auth_checked h none =
      when (is_there (find_declared h.decorators (bytes "auth_scheme_name")))
        (at_line path h.line scheme_without_auth)
  auth_checked h (some d) = with_value 0 d.args (λ v. pass_all (auth_checks h v))

  abbrev is_format : Text → Bool
  is_format v = contains (map bytes ("uuid" ∷ "email" ∷ "uri" ∷ [])) v

  unfoldable pub format_checked : HeaderDecl → Option Decorator → Checked
  format_checked h none = passed
  format_checked h (some d) =
      with_value 0 d.args (λ v. when (not (is_format v)) (at_line path h.line header_format))

  unfoldable pub header_checks : List Text → HeaderDecl → List Checked
  unfolding pass_all name_checks validate_decorators header_decorators auth_checked format_checked
      find_declared
  header_checks seen h =
      pass_all (name_checks seen h)
      ∷ validate_decorators path h.line h.decorators header_decorators
      ∷ when (is_other_scalar h.type) (at_line path h.line (header_type h.name))
      ∷ auth_checked h (find_declared h.decorators (bytes "auth"))
      ∷ format_checked h (find_declared h.decorators (bytes "format"))
      ∷ []

  -- The loop of `validateHeaders`, with the names seen in lower case.
  unfoldable pub headers_checked : List Text → List HeaderDecl → Checked
  unfolding pass_all header_checks
  headers_checked seen [] = passed
  headers_checked seen (h ∷ hs) =
      and_next (pass_all (header_checks seen h)) (headers_checked (to_lower h.name ∷ seen) hs)

  -- `validateHeaders`
  unfoldable pub validate_headers : List HeaderDecl → Checked
  unfolding headers_checked
  validate_headers hs = headers_checked [] hs
