-- ===== src/Onkcompat/Signatures/Types.antt =====
-- internal/onkcompat/compat.go: types that `typeName` and `fieldTypeSignature` give the same text.
use onekit.Base.{
  ℕ, ◌≡◌, ◌≢◌, refl, sym, subst, ap, ◌∙◌, Bool, true, false, not, Option, none, some, [], ◌∷◌, ◌++◌,
  Text, bytes, All-append, all, drop, ◌==◌, text_eq, arith,
}
use mathlib.Core.List
use mathlib.Core.Option.{some-injective, none-ne-some}
use onekit.Base.Strings.{Lacks, join, head_part, no_part}
use onekit.Onkir.Schema.{Schema, ScalarKind, FieldType, Field, Oneof}
use onekit.Onkir.Names.{scalar_name, kind_in, parse_scalar_kind, full_name, enum_full_name}
use onekit.Onkir.Members.{is_some}
use onekit.Onkcompat.Signatures.{bool_text, type_text, type_name, oneof_parts, field_type_signature}

module _ (old new : Schema) where
  -- The same type, where messages and enums are known by their full names.
  pub data SameType : FieldType → FieldType → Type 0 where
    scalar_type : (k : ScalarKind) → SameType (FieldType.scalar k) (FieldType.scalar k)
    message_type :
        {i j : ℕ}
        → full_name old (old.message_at i) ≡ full_name new (new.message_at j)
        → SameType (FieldType.message i) (FieldType.message j)
    enum_type :
        {i j : ℕ}
        → enum_full_name old (old.enum_at i) ≡ enum_full_name new (new.enum_at j)
        → SameType (FieldType.enum i) (FieldType.enum j)
    map_type :
        {k : ScalarKind} {t u : FieldType}
        → SameType t u
        → SameType (FieldType.map_of k t) (FieldType.map_of k u)

  pub data SameTypes : Option FieldType → Option FieldType → Type 0 where
    no_type : SameTypes none none
    one_type : {t u : FieldType} → SameType t u → SameTypes (some t) (some u)

-- A scalar has the kind that its name is parsed as.
parse_scalar_kind-scalar_name : (k : ScalarKind) → parse_scalar_kind (scalar_name k) ≡ some k
unfolding kind_in text_eq
parse_scalar_kind-scalar_name ScalarKind.string = refl
parse_scalar_kind-scalar_name ScalarKind.bool = refl
parse_scalar_kind-scalar_name ScalarKind.int32 = refl
parse_scalar_kind-scalar_name ScalarKind.int64 = refl
parse_scalar_kind-scalar_name ScalarKind.uint32 = refl
parse_scalar_kind-scalar_name ScalarKind.uint64 = refl
parse_scalar_kind-scalar_name ScalarKind.float32 = refl
parse_scalar_kind-scalar_name ScalarKind.float64 = refl
parse_scalar_kind-scalar_name ScalarKind.bytes = refl
parse_scalar_kind-scalar_name ScalarKind.timestamp = refl
parse_scalar_kind-scalar_name ScalarKind.json = refl

same_kind : (k l : ScalarKind) → scalar_name k ≡ scalar_name l → k ≡ l
same_kind k l e = some-injective k l (
    sym (parse_scalar_kind-scalar_name k)
    ∙ ap parse_scalar_kind e
    ∙ parse_scalar_kind-scalar_name l)

not_scalar :
    {B : Type 0} (k : ScalarKind) (s : Text) → parse_scalar_kind s ≡ none → scalar_name k ≡ s → B
not_scalar k s h e =
    absurd (none-ne-some k (sym h ∙ sym (ap parse_scalar_kind e) ∙ parse_scalar_kind-scalar_name k))

pub all-Lacks : (c : ℕ) (s : Text) → all (λ d. not (d == c)) s ≡ true → Lacks c s
all-Lacks c [] h = tt
all-Lacks c (d ∷ s) h = (ground (arith, h), all-Lacks c s (ground (arith, h)))

scalar_name-Lacks : (k : ScalarKind) → Lacks b'|' (scalar_name k) × Lacks b':' (scalar_name k)
scalar_name-Lacks k = (all-Lacks _ _ (no_bar k), all-Lacks _ _ (no_colon k))
  where
    no_bar : (k : ScalarKind) → all (λ d. not (d == b'|')) (scalar_name k) ≡ true
    no_bar ScalarKind.string = refl
    no_bar ScalarKind.bool = refl
    no_bar ScalarKind.int32 = refl
    no_bar ScalarKind.int64 = refl
    no_bar ScalarKind.uint32 = refl
    no_bar ScalarKind.uint64 = refl
    no_bar ScalarKind.float32 = refl
    no_bar ScalarKind.float64 = refl
    no_bar ScalarKind.bytes = refl
    no_bar ScalarKind.timestamp = refl
    no_bar ScalarKind.json = refl

    no_colon : (k : ScalarKind) → all (λ d. not (d == b':')) (scalar_name k) ≡ true
    no_colon ScalarKind.string = refl
    no_colon ScalarKind.bool = refl
    no_colon ScalarKind.int32 = refl
    no_colon ScalarKind.int64 = refl
    no_colon ScalarKind.uint32 = refl
    no_colon ScalarKind.uint64 = refl
    no_colon ScalarKind.float32 = refl
    no_colon ScalarKind.float64 = refl
    no_colon ScalarKind.bytes = refl
    no_colon ScalarKind.timestamp = refl
    no_colon ScalarKind.json = refl

abbrev first_of : Text → ℕ
first_of [] = 0
first_of (c ∷ s) = c

abbrev second_of : Text → ℕ
second_of [] = 0
second_of (c ∷ s) = first_of s

-- Types of different kinds have different texts.
abbrev map_text : Text → ScalarKind → Text
map_text s k = bytes "map:" ++ scalar_name k ++ bytes ":" ++ s

kind_of_map : (k : ScalarKind) (s : Text) → parse_scalar_kind (map_text s k) ≡ none
unfolding kind_in text_eq
kind_of_map k s = refl

kind_of_message : (s : Text) → parse_scalar_kind (bytes "message:" ++ s) ≡ none
unfolding kind_in text_eq
kind_of_message s = refl

kind_of_enum : (s : Text) → parse_scalar_kind (bytes "enum:" ++ s) ≡ none
unfolding kind_in text_eq
kind_of_enum s = refl

module _ (old new : Schema) where
  type_text-SameType : (t u : FieldType) → type_text old t ≡ type_text new u → SameType old new t u
  unfolding type_text
  type_text-SameType (FieldType.scalar k) (FieldType.scalar l) e =
      subst (λ m. SameType old new (FieldType.scalar k) (FieldType.scalar m)) (same_kind k l e)
        (scalar_type k)
  type_text-SameType (FieldType.scalar k) (FieldType.message j) e =
      not_scalar k _ (kind_of_message _) e
  type_text-SameType (FieldType.scalar k) (FieldType.enum j) e = not_scalar k _ (kind_of_enum _) e
  type_text-SameType (FieldType.scalar k) (FieldType.map_of l u) e =
      not_scalar k _ (kind_of_map l (type_text new u)) e
  type_text-SameType (FieldType.message i) (FieldType.scalar l) e =
      not_scalar l _ (kind_of_message _) (sym e)
  type_text-SameType (FieldType.message i) (FieldType.message j) e = message_type (ap (drop 8) e)
  type_text-SameType (FieldType.message i) (FieldType.enum j) e =
      absurd (omega (arith, ap first_of e))
  type_text-SameType (FieldType.message i) (FieldType.map_of l u) e =
      absurd (omega (arith, ap second_of e))
  type_text-SameType (FieldType.enum i) (FieldType.scalar l) e =
      not_scalar l _ (kind_of_enum _) (sym e)
  type_text-SameType (FieldType.enum i) (FieldType.message j) e =
      absurd (omega (arith, ap first_of e))
  type_text-SameType (FieldType.enum i) (FieldType.enum j) e = enum_type (ap (drop 5) e)
  type_text-SameType (FieldType.enum i) (FieldType.map_of l u) e =
      absurd (omega (arith, ap first_of e))
  type_text-SameType (FieldType.map_of k t) (FieldType.scalar l) e =
      not_scalar l _ (kind_of_map k (type_text old t)) (sym e)
  type_text-SameType (FieldType.map_of k t) (FieldType.message j) e =
      absurd (omega (arith, ap second_of e))
  type_text-SameType (FieldType.map_of k t) (FieldType.enum j) e =
      absurd (omega (arith, ap first_of e))
  type_text-SameType (FieldType.map_of k t) (FieldType.map_of l u) e =
      let (m, n) =
        head_part b':' (scalar_name k) (scalar_name l) (type_text old t) (type_text new u)
          (scalar_name-Lacks k).1 (scalar_name-Lacks l).1
          (sym (List.append_assoc (scalar_name k) (bytes ":") (type_text old t))
            ∙ ap (drop 4) e
            ∙ List.append_assoc (scalar_name l) (bytes ":") (type_text new u)) in
      subst (λ m. SameType old new (FieldType.map_of k t) (FieldType.map_of m u)) (same_kind k l m)
        (map_type (type_text-SameType t u n))

  type_name-SameTypes :
      (o p : Option FieldType) → type_name old o ≡ type_name new p → SameTypes old new o p
  unfolding type_name type_text
  type_name-SameTypes none none e = no_type
  type_name-SameTypes (some t) (some u) e = one_type (type_text-SameType t u e)
  type_name-SameTypes none (some (FieldType.scalar l)) e =
      not_scalar l [] (unfold kind_in text_eq in refl) (sym e)
  type_name-SameTypes none (some (FieldType.message j)) e = absurd (omega (arith, ap first_of e))
  type_name-SameTypes none (some (FieldType.enum j)) e = absurd (omega (arith, ap first_of e))
  type_name-SameTypes none (some (FieldType.map_of l u)) e = absurd (omega (arith, ap first_of e))
  type_name-SameTypes (some (FieldType.scalar l)) none e =
      not_scalar l [] (unfold kind_in text_eq in refl) e
  type_name-SameTypes (some (FieldType.message j)) none e = absurd (omega (arith, ap first_of e))
  type_name-SameTypes (some (FieldType.enum j)) none e = absurd (omega (arith, ap first_of e))
  type_name-SameTypes (some (FieldType.map_of l u)) none e = absurd (omega (arith, ap first_of e))

-- The full names of the messages and enums of a schema have no bar.
abbrev pub NoBars : Schema → Type 0
NoBars schema =
    ((i : ℕ) → Lacks b'|' (full_name schema (schema.message_at i)))
    × ((i : ℕ) → Lacks b'|' (enum_full_name schema (schema.enum_at i)))

module _ (schema : Schema) (plain : NoBars schema) where
  type_text-Lacks : (t : FieldType) → Lacks b'|' (type_text schema t)
  unfolding type_text
  type_text-Lacks (FieldType.scalar k) = (scalar_name-Lacks k).0
  type_text-Lacks (FieldType.message i) =
      All-append (λ d. d ≢ b'|') (bytes "message:") _ (all-Lacks b'|' (bytes "message:") refl)
        (plain.0 i)
  type_text-Lacks (FieldType.enum i) =
      All-append (λ d. d ≢ b'|') (bytes "enum:") _ (all-Lacks b'|' (bytes "enum:") refl) (plain.1 i)
  type_text-Lacks (FieldType.map_of k t) =
      All-append (λ d. d ≢ b'|') (bytes "map:" ++ scalar_name k ++ bytes ":") (type_text schema t)
        (All-append (λ d. d ≢ b'|') (bytes "map:" ++ scalar_name k) (bytes ":")
          (All-append (λ d. d ≢ b'|') (bytes "map:") (scalar_name k)
            (all-Lacks b'|' (bytes "map:") refl) (scalar_name-Lacks k).0)
          (all-Lacks b'|' (bytes ":") refl))
        (type_text-Lacks t)

  type_name-Lacks : (o : Option FieldType) → Lacks b'|' (type_name schema o)
  unfolding type_name
  type_name-Lacks none = tt
  type_name-Lacks (some t) = type_text-Lacks t

abbrev repeated_text : Bool → Text
repeated_text b = bytes "repeated=" ++ bool_text b

repeated_text-Lacks : (b : Bool) → Lacks b'|' (repeated_text b)
repeated_text-Lacks true = all-Lacks b'|' (repeated_text true) refl
repeated_text-Lacks false = all-Lacks b'|' (repeated_text false) refl

same_bool : (b c : Bool) → repeated_text b ≡ repeated_text c → b ≡ c
same_bool true true e = refl
same_bool false false e = refl
same_bool true false e = absurd (omega (arith, ap (λ s. first_of (drop 9 s)) e))
same_bool false true e = absurd (omega (arith, ap (λ s. first_of (drop 9 s)) e))

module _ (old new : Schema) where
  same_rest :
      (b c : Bool) (o p : Option Oneof)
      → join (bytes "|") (repeated_text b ∷ oneof_parts old o)
        ≡ join (bytes "|") (repeated_text c ∷ oneof_parts new p)
      → (b ≡ c) × (is_some o ≡ is_some p)
  unfolding join oneof_parts
  same_rest b c none none e = (same_bool b c e, refl)
  same_rest b c none (some p) e = absurd (
      no_part b'|' (repeated_text c) _ (repeated_text b) (repeated_text-Lacks c)
        (repeated_text-Lacks b) (sym e))
  same_rest b c (some o) none e = absurd (
      no_part b'|' (repeated_text b) _ (repeated_text c) (repeated_text-Lacks b)
        (repeated_text-Lacks c) e)
  same_rest b c (some o) (some p) e = (
    same_bool b c
        (head_part b'|' (repeated_text b) (repeated_text c) _ _ (repeated_text-Lacks b)
          (repeated_text-Lacks c) e).0,
    refl,
  )

  -- Fields that `fieldTypeSignature` gives the same text have the same type, are both repeated or not, and
  -- both oneofs or not.
  pub field_type_signature-SameTypes :
      (f g : Field)
      → NoBars old
      → NoBars new
      → field_type_signature old f ≡ field_type_signature new g
      → SameTypes old new f.type g.type
        × ((f.repeated ≡ g.repeated) × (is_some f.oneof ≡ is_some g.oneof))
  unfolding field_type_signature join
  field_type_signature-SameTypes f g h k e =
      let (t, r) =
        head_part b'|' (type_name old f.type) (type_name new g.type)
          (join (bytes "|") (repeated_text f.repeated ∷ oneof_parts old f.oneof))
          (join (bytes "|") (repeated_text g.repeated ∷ oneof_parts new g.oneof))
          (type_name-Lacks old h f.type) (type_name-Lacks new k g.type) e in
      (
        type_name-SameTypes old new f.type g.type t,
        same_rest f.repeated g.repeated f.oneof g.oneof r,
      )
