-- ===== src/Onkcompile/Enums.antt =====
-- internal/onkcompile/validate.go: `validateEnumDecl` and `validateDeclarationName`.
pub mod Accepted
use onekit.Base.{
  ℕ, Bool, true, false, not, Option, none, some, List, [], ◌∷◌, map, Text, bytes, text_eq, ◌&&◌,
  ◌||◌, ◌==◌, any, length, if◌then◌else◌,
}
use onekit.Base.Dict.{lookup}
use onekit.Onkschema.{Decorator, EnumValueDecl, EnumDecl}
use onekit.Onkcompile.Errors.{
  Complaint, CompileError, Options, generates, at_line, contains, no_identifier, reserved_name,
  not_exported, empty_enum, name_collides, json_value_repeated,
}
use onekit.Onkcompile.Names.{generated_identifier}
use onekit.Onkcompile.Decls.{find_declared}
use onekit.Onkcompile.Checked.{Checked, passed, refused, when, and_next, pass_all, with_value}
use onekit.Onkcompile.Decorators.{validate_decorators, enum_value_decorators}
use onekit.Onkcompile.Values.{Readers}
use onekit.Onkcompile.Fields.{Seen, collides, member_name_checks}

-- `reservedDeclarationNames`
unfoldable pub reserved_names : List Text
reserved_names = map bytes (
    "break" ∷ "case" ∷ "chan" ∷ "class" ∷ "const" ∷ "continue" ∷ "default" ∷ "defer" ∷ "delete"
    ∷ "else" ∷ "enum" ∷ "export" ∷ "extends" ∷ "fallthrough" ∷ "false" ∷ "finally" ∷ "fn" ∷ "for"
    ∷ "from" ∷ "func" ∷ "go" ∷ "goto" ∷ "if" ∷ "implements" ∷ "import" ∷ "in" ∷ "interface" ∷ "let"
    ∷ "map" ∷ "match" ∷ "new" ∷ "nil" ∷ "none" ∷ "package" ∷ "pass" ∷ "range" ∷ "return" ∷ "select"
    ∷ "struct" ∷ "super" ∷ "switch" ∷ "trait" ∷ "true" ∷ "try" ∷ "type" ∷ "var" ∷ "while" ∷ "with"
    ∷ "yield" ∷ [])

-- `reservedDeclarationTargets`
abbrev reserved_targets : List Text
reserved_targets =
    map bytes
      ("python-client" ∷ "rust-client" ∷ "rust-server" ∷ "dart-client" ∷ "swift-client" ∷ [])

module _ {F : Type 0} (readers : Readers F) (path : Text) (options : Options) where
  -- `validateDeclarationName`
  unfoldable pub declaration_name_checks : ℕ → Text → List Checked
  unfolding generated_identifier reserved_names
  declaration_name_checks line name =
      when (text_eq (generated_identifier name) []) (at_line path line (no_identifier name))
      ∷ when (generates options reserved_targets && contains reserved_names (readers.to_lower name))
          (at_line path line (reserved_name name))
      ∷ when (not (readers.starts_upper name)) (at_line path line (not_exported name))
      ∷ []

  abbrev pub json_value : Text → Option Decorator → (Text → Checked) → Checked
  json_value name none f = f name
  json_value name (some d) f = with_value 0 d.args f

  -- What is checked of the name on the wire, and what comes behind the value.
  unfoldable pub json_checks : EnumValueDecl → Seen → (Seen → Checked) → Text → List Checked
  unfolding lookup collides
  json_checks v jsons rest json =
      collides (lookup json jsons)
        (λ previous. at_line path v.line (json_value_repeated json previous))
      ∷ rest ((json, v.name) ∷ jsons)
      ∷ []

  unfoldable pub json_checked : EnumValueDecl → Seen → (Seen → Checked) → Text → Checked
  unfolding pass_all json_checks
  json_checked v jsons rest json = pass_all (json_checks v jsons rest json)

  unfoldable pub value_checks : EnumValueDecl → Seen → List Checked
  unfolding pass_all member_name_checks validate_decorators enum_value_decorators
      generated_identifier lookup collides
  value_checks v names =
      (if options.allow_legacy_contracts
        then passed
        else pass_all (member_name_checks readers path options v.line v.name))
      ∷ validate_decorators path v.line v.decorators enum_value_decorators
      ∷ collides (lookup (generated_identifier v.name) names)
          (λ previous. at_line path v.line (name_collides v.name previous))
      ∷ []

  -- The loop over the values, with the identifiers and the names on the wire that have been seen.
  unfoldable pub values_checked : Seen → Seen → List EnumValueDecl → Checked
  unfolding pass_all value_checks generated_identifier find_declared json_checked
  values_checked names jsons [] = passed
  values_checked names jsons (v ∷ vs) = and_next (pass_all (value_checks v names)) (
      json_value v.name (find_declared v.decorators (bytes "json")) (
        json_checked v jsons
          (λ jsons'. values_checked ((generated_identifier v.name, v.name) ∷ names) jsons' vs)))

  unfoldable pub enum_checks : EnumDecl → List Checked
  unfolding pass_all declaration_name_checks values_checked
  enum_checks e =
      pass_all (declaration_name_checks e.line e.name)
      ∷ when (length e.values == 0) (at_line path e.line (empty_enum e.name))
      ∷ values_checked [] [] e.values
      ∷ []

  -- `validateEnumDecl`
  unfoldable pub validate_enum_decl : EnumDecl → Checked
  unfolding pass_all enum_checks
  validate_enum_decl e = pass_all (enum_checks e)
