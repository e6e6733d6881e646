-- ===== src/Onkschema.antt =====
-- internal/onkschema/schema.go: the declarations of a schema as a front end reads them, with names
-- that are not resolved. Documentation and comments are left out, since no modelled code reads them.
use onekit.Base.{ℕ, Bool, Option, List, Text}
use onekit.Onkir.Schema.{Arg}

pub record Decorator : Type 0 where
  pub name : Text
  pub args : List Arg
  pub line : ℕ
  pub col : ℕ

-- `TypeRef`: a name, or a map with its key and what its values are, which may be missing.
pub data TypeRef : Type 0 where
  named : Text → TypeRef
  map_of : Text → TypeRef → TypeRef
  map_without : Text → TypeRef

pub record VariantDecl : Type 0 where
  pub name : Text
  pub type : TypeRef
  pub decorators : List Decorator
  pub line : ℕ

pub record OneofDecl : Type 0 where
  pub args : List Arg
  pub variants : List VariantDecl

pub record FieldDecl : Type 0 where
  pub name : Text
  pub type : Option TypeRef
  pub repeated : Bool
  pub optional : Bool
  pub decorators : List Decorator
  pub oneof : Option OneofDecl
  pub line : ℕ

pub record EnumValueDecl : Type 0 where
  pub name : Text
  pub decorators : List Decorator
  pub line : ℕ

pub record EnumDecl : Type 0 where
  pub name : Text
  pub values : List EnumValueDecl
  pub line : ℕ

pub record HeaderDecl : Type 0 where
  pub name : Text
  pub type : Text
  pub decorators : List Decorator
  pub line : ℕ

pub record RpcDecl : Type 0 where
  pub name : Text
  pub decorators : List Decorator
  pub headers : List HeaderDecl
  pub line : ℕ
  pub col : ℕ

pub record ServiceDecl : Type 0 where
  pub name : Text
  pub base_path : Text
  pub headers : List HeaderDecl
  pub rpcs : List RpcDecl
  pub line : ℕ
