-- ===== src/Onkexpr/Check/Types.antt =====
-- internal/onkexpr/check.go: types of fields, names in scope, and the errors of the checker.
use onekit.Base.{
  ℕ, Bool, true, false, Option, none, some, List, [], ◌∷◌, Text, text_eq, if◌then◌else◌,
}
use onekit.Onkir.Schema.{Oneof, Field, FieldType, ScalarKind}
use onekit.Onkexpr.Syntax.{
  Ty, Node, NodeBase, int_lit, double_lit, string_lit, bool_lit, list_lit, ident, select, index,
  call, quantified, unary, binary, ternary,
}

-- What `errorf` says, in the order of the file.
pub data Complaint : Type 0 where
  unknown_name : Text → Complaint
  empty_list : Complaint
  mixed_list : Ty → Ty → Complaint
  list_of : Ty → Complaint
  cannot_select : Text → Ty → Complaint
  unusable_field no_field : Text → Complaint
  list_index map_key cannot_index : Ty → Complaint
  arity : Text → Complaint
  size_of not_a_number not_a_string : Ty → Complaint
  has_needs_field unknown_function : Complaint
  pattern_not_literal invalid_pattern nil_dereference : Complaint
  not_a_list body_not_bool : Ty → Complaint
  needs_bool needs_number condition_not_bool : Ty → Complaint
  branches_differ : Ty → Ty → Complaint
  branch_type : Ty → Complaint
  operands : Ty → Ty → Complaint
  not_an_enum_value enum_needs_literal : Complaint
  cannot_compare not_in not_a_rule : Ty → Complaint

pub data Checked (A : Type 0) : Type 0 where
  ok : A → Checked A
  failed : ℕ → Complaint → Checked A

module _ {A B : Type 0} where
  infixl 5 ◌>>=◌
  abbrev pub ◌>>=◌ : Checked A → (A → Checked B) → Checked B
  ok a >>= f = f a
  failed i e >>= f = failed i e

infixl 5 ◌>>◌
abbrev pub ◌>>◌ : {B : Type 0} → Checked (Unit {0}) → Checked B → Checked B
m >> k = m >>= λ _. k

unfoldable pub require : Bool → ℕ → Complaint → Checked (Unit {0})
require true i e = ok tt
require false i e = failed i e

-- `valueType`: uint64, timestamp and json have no type in the language.
unfoldable pub scalar_type : ScalarKind → Option Ty
scalar_type ScalarKind.string = some Ty.string
scalar_type ScalarKind.bool = some Ty.bool
scalar_type ScalarKind.int32 = some Ty.int
scalar_type ScalarKind.uint32 = some Ty.int
scalar_type ScalarKind.int64 = some Ty.int
scalar_type ScalarKind.float32 = some Ty.double
scalar_type ScalarKind.float64 = some Ty.double
scalar_type ScalarKind.bytes = some Ty.bytes
scalar_type _ = none

abbrev map_type : Option Ty → Option Ty
map_type none = none
map_type (some t) = some (Ty.map_of t)

unfoldable pub value_type : FieldType → Option Ty
unfolding scalar_type
value_type (FieldType.scalar k) = scalar_type k
value_type (FieldType.message m) = some (Ty.message m)
value_type (FieldType.enum e) = some (Ty.enum e)
value_type (FieldType.map_of k t) = map_type (value_type t)

abbrev repeated_type : Bool → Option Ty → Option Ty
repeated_type repeated none = none
repeated_type repeated (some t) = some (if repeated then Ty.list t else t)

abbrev declared_type : Option FieldType → Option Ty
declared_type none = none
declared_type (some t) = value_type t

-- `FieldType`: a oneof has none, and every other field of a compiled schema has a type.
unfoldable pub field_type : Field → Option Ty
unfolding value_type
field_type f = elim f.oneof [
  | none ↦ repeated_type f.repeated (declared_type f.type)
  | some _ ↦ none
]

-- Neither a oneof nor a field with a type: `valueType` reads the nil pointer, which panics.
abbrev pub has_no_type : Option Oneof → Option FieldType → Bool
has_no_type none none = true
has_no_type _ _ = false

unfoldable pub find_field : Text → List Field → Option Field
find_field name [] = none
find_field name (f ∷ fs) = if text_eq f.name name then some f else find_field name fs

-- `checker`: the names of the rule, and the variables of the quantifiers around, innermost first.
-- Each frame of the source's `scope` holds one variable.
pub record Names : Type 0 where
  pub scope : List (Text × Ty)
  pub env : Text → Option Ty

unfoldable pub find_in : List (Text × Ty) → Text → Option Ty → Option Ty
find_in [] name outer = outer
find_in ((x, t) ∷ scope) name outer = if text_eq name x then some t else find_in scope name outer

unfoldable pub lookup : Names → Text → Option Ty
unfolding find_in
lookup c name = find_in c.scope name (c.env name)

abbrev pub push : Text → Ty → Names → Names
push x t c = record c { scope = (x, t) ∷ c.scope }

abbrev pub with_type : Ty → NodeBase → NodeBase
with_type t b = record b { typ = some t }

-- `setType`
abbrev pub set_type : {F : Type 0} → Ty → Node F → Node F
set_type t (int_lit b x) = int_lit (with_type t b) x
set_type t (double_lit b x) = double_lit (with_type t b) x
set_type t (string_lit b x) = string_lit (with_type t b) x
set_type t (bool_lit b x) = bool_lit (with_type t b) x
set_type t (list_lit b x) = list_lit (with_type t b) x
set_type t (ident b x) = ident (with_type t b) x
set_type t (select b x y z) = select (with_type t b) x y z
set_type t (index b x y) = index (with_type t b) x y
set_type t (call b x y z) = call (with_type t b) x y z
set_type t (quantified b q x y z) = quantified (with_type t b) q x y z
set_type t (unary b op x) = unary (with_type t b) op x
set_type t (binary b op x y) = binary (with_type t b) op x y
set_type t (ternary b x y z) = ternary (with_type t b) x y z

-- The kinds that the rules ask for.
abbrev pub is_bool : Ty → Bool
is_bool Ty.bool = true
is_bool _ = false

abbrev pub is_string : Ty → Bool
is_string Ty.string = true
is_string _ = false

abbrev pub is_int : Ty → Bool
is_int Ty.int = true
is_int _ = false

abbrev pub is_number : Ty → Bool
is_number Ty.int = true
is_number Ty.double = true
is_number _ = false

abbrev pub has_size : Ty → Bool
has_size Ty.string = true
has_size Ty.bytes = true
has_size (Ty.list _) = true
has_size (Ty.map_of _) = true
has_size _ = false

-- bool, int, double, string and enums: what `==` compares.
abbrev pub is_simple : Ty → Bool
is_simple Ty.bool = true
is_simple Ty.int = true
is_simple Ty.double = true
is_simple Ty.string = true
is_simple (Ty.enum _) = true
is_simple _ = false

-- What a list literal may not hold.
abbrev pub is_nested : Ty → Bool
is_nested (Ty.message _) = true
is_nested (Ty.list _) = true
is_nested (Ty.map_of _) = true
is_nested _ = false
