-- ===== src/Onkexpr/Json.antt =====
-- internal/onkexpr/eval.go: `FromJSON`. A raw value is what encoding/json decodes into the type `any`; an
-- object is the list of its members, whose order is the order in which a Go map is walked.
pub mod Decodes
use onekit.Base.{
  ℕ, Bool, true, false, ◌||◌, Option, none, some, List, [], ◌∷◌, Text, text_eq, if◌then◌else◌,
}
use onekit.Base.Decimal.{parse_int64}
use onekit.Base.Int.{ℤ}
use onekit.Onkir.Schema
use onekit.Onkir.Schema.{Schema, Field}
use onekit.Onkir.Decorators.{json_name}
use onekit.Onkexpr.Syntax.{Ty}
use onekit.Onkexpr.Value
use onekit.Onkexpr.Value.{Value, Values, Entries, FloatOps}
use onekit.Onkexpr.Check.Types.{field_type}

mutual
  pub data Json (F : Type 0) : Type 0 where
    null : Json F
    boolean : Bool → Json F
    number : F → Json F
    text : Text → Json F
    array : Elements F → Json F
    members : Members F → Json F

  pub data Elements (F : Type 0) : Type 0 where
    nil : Elements F
    cons : Json F → Elements F → Elements F

  pub data Members (F : Type 0) : Type 0 where
    end : Members F
    member : Text → Json F → Members F → Members F

pub data JsonError : Type 0 where
  expected_bool expected_integer expected_number expected_string expected_base64 expected_enum :
      JsonError
  expected_list expected_object : JsonError
  -- What `strconv` and `base64` report.
  bad_text : Text → JsonError
  unknown_value : Text → JsonError
  in_field : Text → JsonError → JsonError

pub data Decoded (A : Type 0) : Type 0 where
  ok : A → Decoded A
  failed : JsonError → Decoded A

module _ {A B : Type 0} where
  infixl 5 ◌>>=◌
  abbrev pub ◌>>=◌ : Decoded A → (A → Decoded B) → Decoded B
  ok a >>= f = f a
  failed e >>= f = failed e

module _ {F : Type 0} where
  abbrev pub read : {A : Type 0} → Text → (A → Value F) → Option A → Decoded (Value F)
  read s k none = failed (bad_text s)
  read s k (some a) = ok (k a)

  abbrev pub bool_from : Json F → Decoded (Value F)
  bool_from (boolean b) = ok (Value.bool b)
  bool_from _ = failed expected_bool

  abbrev pub string_from : Json F → Decoded (Value F)
  string_from (text s) = ok (Value.string s)
  string_from _ = failed expected_string

  -- The loop over the values of an enum.
  unfoldable pub find_value : List Schema.EnumValue → Text → Decoded (Value F)
  unfolding json_name
  find_value [] s = failed (unknown_value s)
  find_value (v ∷ vs) s =
      if text_eq (json_name v) s || text_eq v.name s
      then ok (Value.string v.name)
      else find_value vs s

  abbrev pub enum_from : List Schema.EnumValue → Json F → Decoded (Value F)
  enum_from vs (text s) = find_value vs s
  enum_from vs _ = failed expected_enum

  -- `out[k] = v`
  unfoldable pub set : Text → Value F → Entries F → Entries F
  set k v Entries.end = Entries.entry k v Entries.end
  set k v (Entries.entry j w m) =
      let rest = set k v m in if text_eq k j then Entries.entry j v m else Entries.entry j w rest

  -- A field of the message, given what its member decodes to.
  abbrev pub add_field :
      (Entries F → Decoded (Entries F))
      → Text
      → Entries F
      → Option (Decoded (Value F))
      → Decoded (Entries F)
  add_field loop name out none = loop out
  add_field loop name out (some (ok v)) = loop (set name v out)
  add_field loop name out (some (failed e)) = failed (in_field name e)

  -- A field with no type in the language is left out.
  abbrev pub field_value :
      (Text → Ty → Option (Decoded (Value F))) → Text → Option Ty → Option (Decoded (Value F))
  field_value decode name none = none
  field_value decode name (some t) = decode name t

  -- The loop over the fields of a message.
  unfoldable pub fields_from :
      (Text → Ty → Option (Decoded (Value F))) → List Field → Entries F → Decoded (Entries F)
  unfolding set field_type
  fields_from decode [] out = ok out
  fields_from decode (f ∷ fs) out =
      add_field (fields_from decode fs) f.name out (field_value decode f.name (field_type f))

module _ {F : Type 0} (ops : FloatOps F) (parse_float : Text → Option F)
    (decode_base64 : Text → Option Text) where
  abbrev pub int_from : Json F → Decoded (Value F)
  int_from (number x) = ok (Value.int (ops.to_int x))
  int_from (text s) = read s Value.int (parse_int64 s)
  int_from _ = failed expected_integer

  abbrev pub double_from : Json F → Decoded (Value F)
  double_from (number x) = ok (Value.double x)
  double_from (text s) = read s Value.double (parse_float s)
  double_from _ = failed expected_number

  abbrev pub bytes_from : Json F → Decoded (Value F)
  bytes_from (text s) = read s Value.bytes (decode_base64 s)
  bytes_from _ = failed expected_base64

  module _ (schema : Schema) where
    unfoldable mutual
      unfolding find_value fields_from parse_int64

      pub from_json : Ty → Json F → Decoded (Value F)
      from_json Ty.bool raw = bool_from raw
      from_json Ty.int raw = int_from raw
      from_json Ty.double raw = double_from raw
      from_json Ty.string raw = string_from raw
      from_json Ty.bytes raw = bytes_from raw
      from_json (Ty.enum e) raw = enum_from (schema.enum_at e).values raw
      from_json (Ty.list t) (array xs) = do vs ← list_from t xs; ok (Value.list vs)
      from_json (Ty.list t) _ = failed expected_list
      from_json (Ty.map_of t) (members m) = do out ← map_from t m; ok (Value.object out)
      from_json (Ty.map_of t) _ = failed expected_object
      from_json (Ty.message i) (members m) = do
        out ← fields_from (λ name t. member_from name t m) (schema.message_at i).fields Entries.end
        ok (Value.object out)
      from_json (Ty.message i) _ = failed expected_object

      pub list_from : Ty → Elements F → Decoded (Values F)
      list_from t nil = ok Values.nil
      list_from t (cons x xs) = do v ← from_json t x; vs ← list_from t xs; ok (Values.cons v vs)

      pub map_from : Ty → Members F → Decoded (Entries F)
      map_from t end = ok Entries.end
      map_from t (member k x m) = do
        v ← from_json t x
        out ← map_from t m
        ok (Entries.entry k v out)

      -- The member of a name, decoded.
      pub member_from : Text → Ty → Members F → Option (Decoded (Value F))
      member_from name t end = none
      member_from name t (member k x m) =
          let here = from_json t x in
          let rest = member_from name t m in if text_eq name k then some here else rest
