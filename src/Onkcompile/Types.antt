-- ===== src/Onkcompile/Types.antt =====
-- internal/onkcompile/validate.go: what a type that is written in a schema may be used for.
use onekit.Base.{
  Bool, true, false, not, Option, none, some, List, [], ◌∷◌, map, Text, bytes, text_eq, ◌&&◌, ◌||◌,
}
use onekit.Onkir.Schema.{Arg}
use onekit.Onkschema.{Decorator, TypeRef, named, map_of, map_without, FieldDecl}
use onekit.Onkcompile.Errors.{contains}
use onekit.Onkcompile.Decls.{find_declared}

abbrev pub is_map : TypeRef → Bool
is_map (named n) = false
is_map _ = true

-- The name of a type; a map has none.
abbrev pub type_name : TypeRef → Text
type_name (named n) = n
type_name _ = []

abbrev one_of : List Text → TypeRef → Bool
one_of names (named n) = contains names n
one_of names _ = false

-- `isScalarNamed` on a type that is there.
unfoldable pub is_scalar_named : TypeRef → Text → Bool
is_scalar_named (named n) name = text_eq n name
is_scalar_named _ name = false

-- `scalarTypeRefNames`
unfoldable pub scalar_names : List Text
scalar_names = map bytes (
    "string" ∷ "bool" ∷ "int32" ∷ "int64" ∷ "uint32" ∷ "uint64" ∷ "float32" ∷ "float64" ∷ "bytes"
    ∷ "timestamp" ∷ "json" ∷ [])

-- `isScalarTypeRef`
unfoldable pub is_scalar_type : TypeRef → Bool
unfolding scalar_names
is_scalar_type t = one_of scalar_names t

-- `isHTTPParameterTypeRef`
unfoldable pub is_http_parameter_type : TypeRef → Bool
is_http_parameter_type t =
    one_of
      (map bytes
        ("string" ∷ "bool" ∷ "int32" ∷ "int64" ∷ "uint32" ∷ "uint64" ∷ "float32" ∷ "float64" ∷ []))
      t

-- `numericTypeRefNames` and `isNumericTypeRef`
unfoldable pub is_numeric_type : TypeRef → Bool
is_numeric_type t =
    one_of (map bytes ("int32" ∷ "int64" ∷ "uint32" ∷ "uint64" ∷ "float32" ∷ "float64" ∷ [])) t

-- `wsIDTypeRefNames` and `isWSIDTypeRef`
unfoldable pub is_ws_id_type : TypeRef → Bool
is_ws_id_type t = one_of (map bytes ("string" ∷ "int32" ∷ "int64" ∷ "uint32" ∷ "uint64" ∷ [])) t

abbrev pub integer_names : List Text
integer_names = map bytes ("int32" ∷ "int64" ∷ "uint32" ∷ "uint64" ∷ [])

-- `isIntegerTypeRef`
unfoldable pub is_integer_type : TypeRef → Bool
is_integer_type t = one_of integer_names t

abbrev pub is_64_bit_integer : TypeRef → Bool
is_64_bit_integer t = one_of (map bytes ("int64" ∷ "uint64" ∷ [])) t

abbrev is_single : List Arg → Text → Bool
is_single (a ∷ []) value = text_eq a.value value
is_single _ value = false

abbrev encode_is : Option Decorator → Text → Bool
encode_is none value = false
encode_is (some d) value = is_single d.args value

-- `@encode` has the single argument.
unfoldable pub is_encoded : FieldDecl → Text → Bool
unfolding find_declared
is_encoded f value = encode_is (find_declared f.decorators (bytes "encode")) value

-- `int64EncodedAsString`
unfoldable pub int64_encoded_as_string : FieldDecl → TypeRef → Bool
unfolding is_encoded
int64_encoded_as_string f t = is_64_bit_integer t && is_encoded f (bytes "string")

-- `repeatedInt64Number`
unfoldable pub repeated_int64_number : FieldDecl → TypeRef → Bool
unfolding is_encoded
repeated_int64_number f t = f.repeated && is_64_bit_integer t && is_encoded f (bytes "number")

abbrev pub items_are_dates : Bool → TypeRef → Bool
unfolding is_scalar_named
items_are_dates repeated (named n) = repeated && text_eq n (bytes "timestamp")
items_are_dates repeated (map_of k v) = is_scalar_named v (bytes "timestamp")
items_are_dates repeated (map_without k) = false

-- `datedItems`
unfoldable pub dated_items : FieldDecl → TypeRef → Bool
unfolding is_encoded
dated_items f t = items_are_dates f.repeated t && is_encoded f (bytes "date")

-- `acceptsIn`
unfoldable pub accepts_in : FieldDecl → TypeRef → Bool
unfolding is_integer_type is_scalar_named
accepts_in f t =
    not (is_map t || f.repeated) && (is_integer_type t || is_scalar_named t (bytes "string"))
