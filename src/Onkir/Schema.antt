-- ===== src/Onkir/Schema.antt =====
-- internal/onkir/ir.go: the data types of a compiled schema. Messages, enums and services point at
-- one another, in cycles too: a pointer is an address, and `Schema` is the store that it is looked
-- up in. Documentation strings and line numbers are left out, since no modelled code reads them.
use onekit.Base.{ℕ, Bool, Option, List, Text}

pub data ScalarKind : Type 0 where
  string bool int32 int64 uint32 uint64 float32 float64 bytes timestamp json : ScalarKind

-- `Type`, with the payload that its `Kind` selects. A message or an enum is its address.
pub data FieldType : Type 0 where
  scalar : ScalarKind → FieldType
  message enum : ℕ → FieldType
  map_of : ScalarKind → FieldType → FieldType

pub record Arg : Type 0 where
  pub name : Text
  pub value : Text
  pub quoted : Bool

pub record Decorator : Type 0 where
  pub name : Text
  pub args : List Arg

pub record OneofVariant : Type 0 where
  pub name : Text
  pub type : Option FieldType
  pub decorators : List Decorator

pub record Oneof : Type 0 where
  pub args : List Arg
  pub variants : List OneofVariant

pub record Field : Type 0 where
  pub name : Text
  pub type : Option FieldType
  pub repeated : Bool
  pub optional : Bool
  pub decorators : List Decorator
  pub oneof : Option Oneof
  pub int64_number : Bool
  pub emit_zero : Bool
  pub nullable : Bool

pub record Message : Type 0 where
  pub name : Text
  pub schema_name : Text
  pub error_type : Bool
  pub fields : List Field
  pub nested : List ℕ
  pub nested_enums : List ℕ
  pub decorators : List Decorator
  pub package_name : Option Text
  pub parent : Option ℕ

pub record EnumValue : Type 0 where
  pub name : Text
  pub decorators : List Decorator

pub record Enum : Type 0 where
  pub name : Text
  pub schema_name : Text
  pub values : List EnumValue
  pub package_name : Option Text
  pub parent : Option ℕ

pub record Header : Type 0 where
  pub name : Text
  pub type : ScalarKind
  pub decorators : List Decorator

pub record Method : Type 0 where
  pub name : Text
  pub request : ℕ
  pub response : ℕ
  pub error_types : List ℕ
  pub decorators : List Decorator
  pub headers : List Header
  pub principal : Option ℕ

pub record Service : Type 0 where
  pub name : Text
  pub base_path : Text
  pub headers : List Header
  pub methods : List Method

pub record File : Type 0 where
  pub package_name : Text
  pub messages : List ℕ
  pub enums : List ℕ
  pub services : List Service

-- The store behind the pointers.
pub record Schema : Type 0 where
  pub message_at : ℕ → Message
  pub enum_at : ℕ → Enum
