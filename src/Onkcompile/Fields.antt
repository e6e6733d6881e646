-- ===== src/Onkcompile/Fields.antt =====
-- internal/onkcompile/validate.go: `validateFieldDecl`, with `validateWSFieldDecorator` of validate_ws.go.
pub mod Returns
use onekit.Base.{
  ℕ, ◌≡◌, Bool, true, false, not, Option, none, some, List, [], ◌∷◌, map, Text, bytes, text_eq,
  ◌&&◌, ◌||◌, ◌==◌, any, length, if◌then◌else◌,
}
use onekit.Base.Dict.{lookup}
use onekit.Onkir.Schema.{Arg}
use onekit.Onkschema.{Decorator, TypeRef, VariantDecl, OneofDecl, FieldDecl}
use onekit.Onkcompile.Errors.{
  Complaint, CompileError, Options, generates, at_line, contains, in_type, object_type, id_type,
  timeout_type, raw_type, flatten_with_empty, optional_unwrap, encode_type,
  required_without_presence, query_type, string_type, number_type, repeated_type, message_type,
  optional_map, no_identifier, reserved_in_python, name_collides, tag_repeated, on_oneof,
  unknown_oneof_argument, repeated_oneof_argument, variant_is_discriminator, empty_discriminator,
  invalid_discriminator, flatten_not_boolean, empty_oneof,
}
use onekit.Onkcompile.Names.{generated_identifier, is_generated_key}
use onekit.Onkcompile.Decls.{find_declared, has_declared}
use onekit.Onkcompile.Checked.{
  Checked, passed, refused, when, switch, and_next, pass_all, pass_each, with_value,
}
use onekit.Onkcompile.Decorators.{Rules, validate_decorators, field_decorators, variant_decorators}
use onekit.Onkcompile.Types.{
  is_map, is_scalar_named, is_scalar_type, is_http_parameter_type, is_numeric_type, is_ws_id_type,
  is_integer_type, int64_encoded_as_string, repeated_int64_number, dated_items, accepts_in,
}
use onekit.Onkcompile.Bounds.{validate_numeric_bounds}
use onekit.Onkcompile.Values.{Readers, validate_decorator_value}

-- `validateWSFieldDecorator`
unfoldable pub ws_field_checks : Text → FieldDecl → TypeRef → Text → List Checked
unfolding is_integer_type is_scalar_named
ws_field_checks path f t name =
    when
      (text_eq name (bytes "ws_timeout") && (f.repeated || f.optional || not (is_integer_type t)))
      (at_line path f.line timeout_type)
    ∷ when
        (text_eq name (bytes "raw")
          && (f.repeated
              || f.optional
              || not (is_scalar_named t (bytes "string") || is_scalar_named t (bytes "bytes"))))
        (at_line path f.line raw_type)
    ∷ []

abbrev is_string_constraint : Text → Bool
is_string_constraint name =
    contains (map bytes ("email" ∷ "uuid" ∷ "uri" ∷ "pattern" ∷ "len" ∷ [])) name

abbrev is_number_constraint : Text → Bool
is_number_constraint name = contains (map bytes ("gt" ∷ "gte" ∷ "lt" ∷ "lte" ∷ "range" ∷ [])) name

abbrev is_items_constraint : Text → Bool
is_items_constraint name = contains (map bytes ("min_items" ∷ "max_items" ∷ [])) name

abbrev is_ws_decorator : Text → Bool
is_ws_decorator name = contains (map bytes ("ws_timeout" ∷ "raw" ∷ [])) name

abbrev is_mapping : Text → Bool
is_mapping name = contains (map bytes ("flatten" ∷ "empty" ∷ [])) name

unfoldable pub mapping_checks : Text → FieldDecl → TypeRef → Text → List Checked
unfolding has_declared is_scalar_type
mapping_checks path f t name =
    when (f.repeated || is_map t || is_scalar_type t) (at_line path f.line (message_type name))
    ∷ when
        (has_declared f.decorators (bytes "flatten") && has_declared f.decorators (bytes "empty"))
        (at_line path f.line flatten_with_empty)
    ∷ []

unfoldable pub type_cases : Text → FieldDecl → TypeRef → Text → List (Bool × Checked)
unfolding pass_all ws_field_checks mapping_checks is_scalar_named is_numeric_type is_ws_id_type
    accepts_in int64_encoded_as_string repeated_int64_number dated_items
type_cases path f t name =
    (text_eq name (bytes "in"), when (not (accepts_in f t)) (at_line path f.line in_type))
    ∷ (
      is_string_constraint name,
      when (not (is_scalar_named t (bytes "string")) || f.repeated)
          (at_line path f.line (string_type name)),
    )
    ∷ (
      is_number_constraint name,
      when (not (is_numeric_type t) || f.repeated) (at_line path f.line (number_type name)),
    )
    ∷ (
      text_eq name (bytes "object"),
      when (not (is_scalar_named t (bytes "json")) || f.repeated) (at_line path f.line object_type),
    )
    ∷ (is_items_constraint name, when (not f.repeated) (at_line path f.line (repeated_type name)))
    ∷ (is_ws_decorator name, pass_all (ws_field_checks path f t name))
    ∷ (
      text_eq name (bytes "ws_id"),
      when (not (is_ws_id_type t) || f.repeated) (at_line path f.line id_type),
    )
    ∷ (is_mapping name, pass_all (mapping_checks path f t name))
    ∷ (text_eq name (bytes "unwrap"), when f.optional (at_line path f.line optional_unwrap))
    ∷ (
      text_eq name (bytes "encode"),
      when
          (not (repeated_int64_number f t || int64_encoded_as_string f t || dated_items f t)
            && (f.repeated || is_map t))
          (at_line path f.line encode_type),
    )
    ∷ []

-- `validateFieldDecoratorType`
unfoldable pub field_decorator_type : Text → FieldDecl → TypeRef → Text → Checked
unfolding switch type_cases
field_decorator_type path f t name = switch (type_cases path f t name)

-- `pythonMemberKeywords`
unfoldable pub python_keywords : List Text
python_keywords = map bytes (
    "and" ∷ "as" ∷ "assert" ∷ "async" ∷ "await" ∷ "break" ∷ "class" ∷ "continue" ∷ "def" ∷ "del"
    ∷ "elif" ∷ "else" ∷ "except" ∷ "false" ∷ "finally" ∷ "for" ∷ "from" ∷ "global" ∷ "if" ∷ "import"
    ∷ "in" ∷ "is" ∷ "lambda" ∷ "none" ∷ "nonlocal" ∷ "not" ∷ "or" ∷ "pass" ∷ "raise" ∷ "return"
    ∷ "true" ∷ "try" ∷ "while" ∷ "with" ∷ "yield" ∷ [])

-- The loop of `validateOneofArgs`, with the names seen.
unfoldable pub oneof_argument_checks : Text → ℕ → List Text → Arg → List Checked
unfolding is_generated_key
oneof_argument_checks path line seen a =
    when (not (text_eq a.name (bytes "discriminator")) && not (text_eq a.name (bytes "flatten")))
      (at_line path line (unknown_oneof_argument a.name))
    ∷ when (contains seen a.name) (at_line path line (repeated_oneof_argument a.name))
    ∷ when (text_eq a.name (bytes "discriminator") && text_eq a.value [])
        (at_line path line empty_discriminator)
    ∷ when (text_eq a.name (bytes "discriminator") && not (is_generated_key a.value))
        (at_line path line invalid_discriminator)
    ∷ when
        (text_eq a.name (bytes "flatten")
          && not (text_eq a.value (bytes "true"))
          && not (text_eq a.value (bytes "false")))
        (at_line path line flatten_not_boolean)
    ∷ []

unfoldable pub oneof_args_checked : Text → ℕ → List Text → List Arg → Checked
unfolding pass_all oneof_argument_checks
oneof_args_checked path line seen [] = passed
oneof_args_checked path line seen (a ∷ args) =
    and_next (pass_all (oneof_argument_checks path line seen a))
      (oneof_args_checked path line (a.name ∷ seen) args)

-- `oneofDiscriminator`
unfoldable pub oneof_discriminator : List Arg → Text
oneof_discriminator [] = bytes "type"
oneof_discriminator (a ∷ args) =
    if text_eq a.name (bytes "discriminator") then a.value else oneof_discriminator args

-- The maps from the names that have been seen, by their identifiers or tags, to the members.
abbrev pub Seen : Type 0
Seen = List (Text × Text)

unfoldable pub collides : Option Text → (Text → CompileError) → Checked
collides none e = passed
collides (some previous) e = refused (e previous)

module _ {F : Type 0} (readers : Readers F) (path : Text) (options : Options) where
  -- `validateMemberName`
  unfoldable pub member_name_checks : ℕ → Text → List Checked
  unfolding generated_identifier python_keywords
  member_name_checks line name =
      when (text_eq (generated_identifier name) []) (at_line path line (no_identifier name))
      ∷ when
          (generates options (bytes "python-client" ∷ [])
            && contains python_keywords (readers.to_lower name))
          (at_line path line (reserved_in_python name))
      ∷ []

  -- `validateNamedMember`, without the name that it adds to those seen.
  unfoldable pub named_member_checks : ℕ → Text → List Decorator → Rules → Seen → List Checked
  unfolding pass_all member_name_checks validate_decorators generated_identifier lookup
  named_member_checks line name ds rules seen =
      pass_all (member_name_checks line name)
      ∷ validate_decorators path line ds rules
      ∷ collides (lookup (generated_identifier name) seen)
          (λ previous. at_line path line (name_collides name previous))
      ∷ []

  abbrev pub tag_value : Text → Option Decorator → (Text → Checked) → Checked
  tag_value name none f = f name
  tag_value name (some d) f = with_value 0 d.args f

  -- What is checked of the tag, and what comes behind the variant.
  unfoldable pub tag_checks : VariantDecl → Text → Seen → (Seen → Checked) → Text → List Checked
  unfolding lookup collides
  tag_checks v discriminator tags rest tag =
      collides (lookup tag tags) (λ previous. at_line path v.line (tag_repeated tag previous))
      ∷ when (text_eq v.name discriminator) (at_line path v.line (variant_is_discriminator v.name))
      ∷ rest ((tag, v.name) ∷ tags)
      ∷ []

  unfoldable pub tag_checked : VariantDecl → Text → Seen → (Seen → Checked) → Text → Checked
  unfolding pass_all tag_checks
  tag_checked v discriminator tags rest tag = pass_all (tag_checks v discriminator tags rest tag)

  -- The loop over the variants, with the names and the tags seen.
  unfoldable pub variants_checked : Text → Seen → Seen → List VariantDecl → Checked
  unfolding pass_all named_member_checks generated_identifier find_declared tag_checked
      variant_decorators
  variants_checked discriminator names tags [] = passed
  variants_checked discriminator names tags (v ∷ vs) =
      and_next (pass_all (named_member_checks v.line v.name v.decorators variant_decorators names))
        (tag_value v.name (find_declared v.decorators (bytes "tag")) (
          tag_checked v discriminator tags (λ tags'.
            variants_checked discriminator ((generated_identifier v.name, v.name) ∷ names) tags'
              vs)))

  -- One round of the loop over the decorators of a field.
  unfoldable pub semantics_checks : FieldDecl → TypeRef → Decorator → List Checked
  unfolding field_decorator_type validate_decorator_value validate_numeric_bounds
  semantics_checks f t d =
      field_decorator_type path f t d.name
      ∷ validate_decorator_value readers path f.line d
      ∷ validate_numeric_bounds path f.line d (some t)
      ∷ []

  unfoldable pub decorator_semantics : FieldDecl → TypeRef → Decorator → Checked
  unfolding pass_all semantics_checks
  decorator_semantics f t d = pass_all (semantics_checks f t d)

  unfoldable pub type_checks : FieldDecl → TypeRef → List Checked
  unfolding has_declared is_http_parameter_type is_scalar_type is_scalar_named decorator_semantics
      pass_each
  type_checks f t =
      when (f.optional && is_map t) (at_line path f.line (optional_map f.name))
      ∷ when (has_declared f.decorators (bytes "query") && not (is_http_parameter_type t))
          (at_line path f.line query_type)
      ∷ pass_each (decorator_semantics f t) f.decorators
      ∷ when
          (not options.allow_legacy_contracts
            && has_declared f.decorators (bytes "required")
            && not f.optional
            && is_scalar_type t
            && not (is_scalar_named t (bytes "string")))
          (at_line path f.line required_without_presence)
      ∷ []

  -- `validateFieldDecoratorSemantics`
  unfoldable pub field_semantics : FieldDecl → Option TypeRef → Checked
  unfolding pass_all type_checks
  field_semantics f none = passed
  field_semantics f (some t) = pass_all (type_checks f t)

  abbrev is_other : Decorator → Bool
  is_other d = not (text_eq d.name (bytes "required"))

  unfoldable pub only_required : FieldDecl → Decorator → Checked
  only_required f d = when (is_other d) (at_line path f.line (on_oneof d.name f.name))

  unfoldable pub oneof_checks : FieldDecl → OneofDecl → List Checked
  unfolding oneof_args_checked only_required pass_each variants_checked oneof_discriminator
  oneof_checks f o =
      oneof_args_checked path f.line [] o.args
      ∷ pass_each (only_required f) f.decorators
      ∷ when (length o.variants == 0) (at_line path f.line (empty_oneof f.name))
      ∷ variants_checked (oneof_discriminator o.args) [] [] o.variants
      ∷ []

  unfoldable pub oneof_or_type : FieldDecl → Option OneofDecl → Checked
  unfolding pass_all oneof_checks field_semantics
  oneof_or_type f none = field_semantics f f.type
  oneof_or_type f (some o) = pass_all (oneof_checks f o)

  -- `validateFieldDecl`
  unfoldable pub validate_field_decl : FieldDecl → Checked
  unfolding validate_decorators field_decorators oneof_or_type
  validate_field_decl f =
      and_next (validate_decorators path f.line f.decorators field_decorators)
        (oneof_or_type f f.oneof)
