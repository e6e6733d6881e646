-- ===== src/Onkcompile/Errors.antt =====
-- internal/onkcompile/compile.go: `Error` and the compiler's options; an `error` that may be nil is an
-- `Option`. The text of an error is data, with what it names.
use onekit.Base.{
  ℕ, ◌≡◌, refl, Bool, true, false, Option, none, some, List, [], ◌∷◌, Text, text_eq, any, All,
  arith,
}

pub data Complaint : Type 0 where
  -- paths
  must_start_with_slash no_query_or_empty_segment no_control_characters unbalanced_braces :
      Complaint
  not_canonical whole_segment wildcard_not_last nested_braces invalid_parameter : Text → Complaint
  -- authorization and success
  requires_needs_scope single_requires authorize_arguments meta_arguments guard_pattern_size :
      Complaint
  guard_needs_pattern success_takes_one success_on_stream : Complaint
  invalid_scope duplicate_scope not_on_ws invalid_meta_key meta_value_size : Text → Complaint
  duplicate_meta_key success_status : Text → Complaint
  guard_placeholder : Text → Text → Complaint
  -- decorators
  unknown_decorator duplicate_decorator argument_count empty_argument : Text → Complaint
  named_argument : Text → Text → Complaint
  error_status auth_kind flatten_argument flatten_prefix : Complaint
  -- declarations
  no_identifier reserved_name not_exported reserved_in_python empty_enum empty_oneof :
      Text → Complaint
  name_collides json_value_repeated tag_repeated on_oneof : Text → Text → Complaint
  unknown_oneof_argument repeated_oneof_argument variant_is_discriminator : Text → Complaint
  empty_discriminator invalid_discriminator flatten_not_boolean : Complaint
  -- headers
  empty_header scheme_without_auth header_format : Complaint
  invalid_header repeated_header header_type auth_not_required : Text → Complaint
  not_authorization : Text → Text → Complaint
  -- constraints of fields
  in_type object_type id_type timeout_type raw_type flatten_with_empty optional_unwrap : Complaint
  encode_type empty_kind pattern_size pattern_invalid pattern_nested : Complaint
  required_without_presence query_type : Complaint
  string_type number_type repeated_type message_type optional_map min_above_max : Text → Complaint
  not_numeric : Text → Text → Complaint
  pattern_not_quoted encode_value : Text → Complaint
  not_a_count must_be_number must_be_quoted not_finite : Text → Text → Complaint
  in_out_of_range out_of_range : Text → Text → Text → Complaint

pub record CompileError : Type 0 where
  pub path : Text
  pub line : ℕ
  pub column : ℕ
  pub code : Text
  pub msg : Complaint

abbrev pub at_line : Text → ℕ → Complaint → CompileError
at_line path line msg = record { path = path; line = line; column = 0; code = []; msg = msg }

-- `CompileOptions`, as far as the modelled code reads it; no targets is nil.
pub record Options : Type 0 where
  pub allow_legacy_contracts : Bool
  pub targets : Option (List Text)

-- `slices.Contains` on texts.
abbrev pub contains : List Text → Text → Bool
contains names name = any (λ n. text_eq n name) names

abbrev generates_in : Option (List Text) → List Text → Bool
generates_in none targets = true
generates_in (some all) targets = any (contains all) targets

-- `generates`
abbrev pub generates : Options → List Text → Bool
generates o targets = generates_in o.targets targets

-- `if b { return e }`
abbrev pub refuse {ℓ} : {E : Type ℓ} → Bool → E → Option E
refuse true e = some e
refuse false e = none

module _ {ℓ} {E : Type ℓ} where
  abbrev pub or_next : Option E → Option E → Option E
  or_next none o = o
  or_next (some e) o = some e

  -- The checks of a body in their order: the first that fails is returned.
  unfoldable pub first_of : List (Option E) → Option E
  first_of [] = none
  first_of (o ∷ os) = or_next o (first_of os)

  pub refuse-none : (b : Bool) (e : E) → refuse b e ≡ none → b ≡ false
  refuse-none true e h = ground arith
  refuse-none false e h = refl

  pub or_next-none : (o p : Option E) → or_next o p ≡ none → (o ≡ none) × (p ≡ none)
  or_next-none none p h = (refl, h)
  or_next-none (some e) p h = ground (arith, h)

  pub first_of-none : (os : List (Option E)) → first_of os ≡ none → All (λ o. o ≡ none) os
  unfolding first_of
  first_of-none [] h = tt
  first_of-none (o ∷ os) h =
      let both = or_next-none o (first_of os) h in (both.0, first_of-none os both.1)

-- A loop that returns the error of the first item that has one.
unfoldable pub first_error {ℓ κ} : {A : Type ℓ} {E : Type κ} → (A → Option E) → List A → Option E
first_error f [] = none
first_error f (x ∷ xs) = or_next (f x) (first_error f xs)

pub first_error-none {ℓ κ} :
    {A : Type ℓ} {E : Type κ} (f : A → Option E) (xs : List A)
    → first_error f xs ≡ none
    → All (λ x. f x ≡ none) xs
unfolding first_error
first_error-none f [] h = tt
first_error-none f (x ∷ xs) h =
    let both = or_next-none (f x) (first_error f xs) h in (both.0, first_error-none f xs both.1)
