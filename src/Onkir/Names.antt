-- ===== src/Onkir/Names.antt =====
-- internal/onkir/ir.go and helpers.go: the names of scalar types, and qualified names.
use onekit.Base.{
  ℕ, zero, suc, Option, none, some, List, [], ◌∷◌, ◌++◌, Text, bytes, text_eq, if◌then◌else◌,
}
use mathlib.Core.List.{reverse}
use onekit.Base.Strings.{join}
use onekit.Onkir.Schema.{Schema, ScalarKind, Message, Enum}

-- `scalarKindNames`, and `ScalarKind.String`
abbrev pub scalar_name : ScalarKind → Text
scalar_name ScalarKind.string = bytes "string"
scalar_name ScalarKind.bool = bytes "bool"
scalar_name ScalarKind.int32 = bytes "int32"
scalar_name ScalarKind.int64 = bytes "int64"
scalar_name ScalarKind.uint32 = bytes "uint32"
scalar_name ScalarKind.uint64 = bytes "uint64"
scalar_name ScalarKind.float32 = bytes "float32"
scalar_name ScalarKind.float64 = bytes "float64"
scalar_name ScalarKind.bytes = bytes "bytes"
scalar_name ScalarKind.timestamp = bytes "timestamp"
scalar_name ScalarKind.json = bytes "json"

abbrev pub all_kinds : List ScalarKind
all_kinds =
    ScalarKind.string ∷ ScalarKind.bool ∷ ScalarKind.int32 ∷ ScalarKind.int64 ∷ ScalarKind.uint32
    ∷ ScalarKind.uint64 ∷ ScalarKind.float32 ∷ ScalarKind.float64 ∷ ScalarKind.bytes
    ∷ ScalarKind.timestamp ∷ ScalarKind.json ∷ []

unfoldable pub kind_in : List ScalarKind → Text → Option ScalarKind
kind_in [] name = none
kind_in (k ∷ ks) name = if text_eq (scalar_name k) name then some k else kind_in ks name

-- `ParseScalarKind`, whose map is made of the table of names.
abbrev pub parse_scalar_kind : Text → Option ScalarKind
parse_scalar_kind name = kind_in all_kinds name

-- The names of the enclosing messages, the nearest first. A message is made after the one that it
-- stands in, so its parent has a smaller address and `fuel` is not used up.
unfoldable pub names_above : Schema → ℕ → Option ℕ → List Text
names_above schema fuel none = []
names_above schema zero (some i) = []
names_above schema (suc fuel) (some i) =
    (schema.message_at i).name ∷ names_above schema fuel (schema.message_at i).parent

abbrev in_package : Option Text → Text → Text
in_package none joined = joined
in_package (some name) joined = if text_eq name [] then joined else name ++ bytes "." ++ joined

abbrev depth : Option ℕ → ℕ
depth none = 0
depth (some i) = suc i

-- `qualifiedName`
unfoldable pub qualified_name : Schema → Text → Option ℕ → Option Text → Text
unfolding names_above join
qualified_name schema leaf parent file =
    in_package file (join (bytes ".") (reverse (leaf ∷ names_above schema (depth parent) parent)))

-- `Message.FullName` and `Enum.FullName`
unfoldable pub full_name : Schema → Message → Text
unfolding qualified_name
full_name schema m =
    if text_eq m.schema_name []
    then qualified_name schema m.name m.parent m.package_name
    else m.schema_name

unfoldable pub enum_full_name : Schema → Enum → Text
unfolding qualified_name
enum_full_name schema e =
    if text_eq e.schema_name []
    then qualified_name schema e.name e.parent e.package_name
    else e.schema_name
