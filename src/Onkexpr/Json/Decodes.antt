-- ===== src/Onkexpr/Json/Decodes.antt =====
-- internal/onkexpr/eval.go: the types of what `FromJSON` returns.
use onekit.Base.{
  ℕ, ◌≡◌, refl, sym, ap, ◌∙◌, subst, ◌||◌, Option, none, some, List, [], ◌∷◌, Text, text_eq,
  text_eq→eq, text_eq_refl, Bool, true, any, arith, All, inl, inr, Bool-cases,
}
use onekit.Base.Int.{ℤ}
use onekit.Base.Decimal.{parse_int64}
use onekit.Onkir.Schema
use onekit.Onkir.Schema.{Schema, Field}
use onekit.Onkir.Decorators.{json_name}
use onekit.Onkexpr.Syntax.{Ty}
use onekit.Onkexpr.Value.{Value, Values, Entries, FloatOps}
use onekit.Onkexpr.Check.Types.{find_field, field_type}
use onekit.Onkexpr.Soundness.Typed
use onekit.Onkexpr.Soundness.Typed.{HasType, Items, Keyed, Fields}
use onekit.Onkexpr.Json
use onekit.Onkexpr.Json.{
  Json, Elements, Members, Decoded, ok, failed, ◌>>=◌, read, bool_from, int_from, double_from,
  string_from, bytes_from, find_value, enum_from, set, add_field, field_value, fields_from,
  from_json, list_from, map_from, member_from,
}

-- What is decoded has the property.
pub data Decodes {A : Type 0} (P : A → Type 0) : Decoded A → Type 0 where
  decodes : {a : A} → P a → Decodes P (ok a)
  refuses : {e : Json.JsonError} → Decodes P (failed e)

Decodes-bind :
    {A B : Type 0} {P : A → Type 0} {Q : B → Type 0} {r : Decoded A} {f : A → Decoded B}
    → Decodes P r
    → ((a : A) → P a → Decodes Q (f a))
    → Decodes Q (r >>= f)
Decodes-bind (decodes {a} h) k = k a h
Decodes-bind refuses k = refuses

pub Decodes-ok :
    {A : Type 0} {P : A → Type 0} {r : Decoded A} {a : A} → Decodes P r → r ≡ ok a → P a
Decodes-ok {P = P} (decodes h) e = subst P (cc) h
Decodes-ok refuses e = cc

-- A member that is there decodes to the property.
abbrev WherePresent : {A : Type 0} → (A → Type 0) → Option (Decoded A) → Type 0
WherePresent P none = Unit
WherePresent P (some r) = Decodes P r

-- In every message each field is the first of its name.
abbrev pub Unique : Schema → Type 0
Unique schema =
    (i : ℕ)
    → All (λ f. find_field f.name (schema.message_at i).fields ≡ some f)
        (schema.message_at i).fields

module _ {F : Type 0} (schema : Schema) where
  mutual
    -- A value of the type, where a value of an enum is the name of one of the enum's values.
    pub data OfType : Value F → Ty → Type 0 where
      of_bool : {b : Bool} → OfType (Value.bool b) Ty.bool
      of_int : {n : ℤ} → OfType (Value.int n) Ty.int
      of_double : {x : F} → OfType (Value.double x) Ty.double
      of_string : {s : Text} → OfType (Value.string s) Ty.string
      of_enum :
          {s : Text} {e : ℕ}
          → any (λ (v : Schema.EnumValue). text_eq v.name s) (schema.enum_at e).values ≡ true
          → OfType (Value.string s) (Ty.enum e)
      of_bytes : {s : Text} → OfType (Value.bytes s) Ty.bytes
      of_list : {vs : Values F} {t : Ty} → AllOfType vs t → OfType (Value.list vs) (Ty.list t)
      of_map : {m : Entries F} {t : Ty} → EntriesOfType m t → OfType (Value.object m) (Ty.map_of t)
      of_message :
          {m : Entries F} {i : ℕ} → FieldsOfType m i → OfType (Value.object m) (Ty.message i)

    pub data AllOfType : Values F → Ty → Type 0 where
      no_item : {t : Ty} → AllOfType Values.nil t
      one_item :
          {v : Value F} {vs : Values F} {t : Ty}
          → OfType v t
          → AllOfType vs t
          → AllOfType (Values.cons v vs) t

    pub data EntriesOfType : Entries F → Ty → Type 0 where
      no_entry : {t : Ty} → EntriesOfType Entries.end t
      one_entry :
          {k : Text} {v : Value F} {m : Entries F} {t : Ty}
          → OfType v t
          → EntriesOfType m t
          → EntriesOfType (Entries.entry k v m) t

    pub data FieldsOfType : Entries F → ℕ → Type 0 where
      no_member : {i : ℕ} → FieldsOfType Entries.end i
      one_member :
          {k : Text} {v : Value F} {m : Entries F} {i : ℕ}
          → ((f : Field) (t : Ty)
              → find_field k (schema.message_at i).fields ≡ some f
              → field_type f ≡ some t
              → OfType v t)
          → FieldsOfType m i
          → FieldsOfType (Entries.entry k v m) i

  mutual
    pub OfType-HasType : {v : Value F} {t : Ty} → OfType v t → HasType schema v t
    OfType-HasType of_bool = Typed.is_bool
    OfType-HasType of_int = Typed.is_int
    OfType-HasType of_double = Typed.is_double
    OfType-HasType of_string = Typed.is_string
    OfType-HasType (of_enum h) = Typed.is_enum
    OfType-HasType of_bytes = Typed.is_bytes
    OfType-HasType (of_list hs) = Typed.is_list (AllOfType-Items hs)
    OfType-HasType (of_map hs) = Typed.is_map (EntriesOfType-Keyed hs)
    OfType-HasType (of_message hs) = Typed.is_message (FieldsOfType-Fields hs)

    AllOfType-Items : {vs : Values F} {t : Ty} → AllOfType vs t → Items schema vs t
    AllOfType-Items no_item = Typed.none_left
    AllOfType-Items (one_item h hs) = Typed.item (OfType-HasType h) (AllOfType-Items hs)

    EntriesOfType-Keyed : {m : Entries F} {t : Ty} → EntriesOfType m t → Keyed schema m t
    EntriesOfType-Keyed no_entry = Typed.no_key
    EntriesOfType-Keyed (one_entry h hs) = Typed.key (OfType-HasType h) (EntriesOfType-Keyed hs)

    FieldsOfType-Fields : {m : Entries F} {i : ℕ} → FieldsOfType m i → Fields schema m i
    FieldsOfType-Fields no_member = Typed.no_field
    FieldsOfType-Fields (one_member h hs) =
        Typed.field (λ f t found typed. OfType-HasType (h f t found typed)) (FieldsOfType-Fields hs)

some_injective : {A : Type 0} (a b : A) → some a ≡ some b → a ≡ b
some_injective a b e = cc

or_later : (b c : Bool) → c ≡ true → (b || c) ≡ true
or_later b c h = ground (arith, h)

module _ {F : Type 0} (schema : Schema) where
  abbrev TypedAs : Ty → Value F → Type 0
  TypedAs t v = OfType schema v t

  -- What `Fields` asks of the entry of a name.
  abbrev Fits : ℕ → Text → Value F → Type 0
  Fits i k v =
      (f : Field) (t : Ty)
      → find_field k (schema.message_at i).fields ≡ some f
      → field_type f ≡ some t
      → OfType schema v t

  set-FieldsOfType :
      (i : ℕ) (k : Text) (v : Value F) (m : Entries F)
      → Fits i k v
      → FieldsOfType schema m i
      → FieldsOfType schema (set k v m) i
  unfolding set
  set-FieldsOfType i k v m h no_member = one_member h no_member
  set-FieldsOfType i k v m h (one_member {k = j} {v = w} {m = rest} hw hs) =
      elim (Bool-cases (text_eq k j)) [
        | inl e ↦ rw e (one_member (λ f t found. h f t (rw (text_eq→eq k j e) found)) hs)
        | inr e ↦ rw e (one_member hw (set-FieldsOfType i k v rest h hs))
      ]

  read-Decodes :
      {A : Type 0} (s : Text) (k : A → Value F) (o : Option A) (t : Ty)
      → ((a : A) → OfType schema (k a) t)
      → Decodes (TypedAs t) (read s k o)
  read-Decodes s k none t h = refuses
  read-Decodes s k (some a) t h = decodes (h a)

  -- The name that is found is that of one of the values, whichever name the text is.
  find_value-Decodes :
      (e : ℕ) (vs : List Schema.EnumValue) (s : Text)
      → ((n : Text)
          → any (λ (v : Schema.EnumValue). text_eq v.name n) vs ≡ true
          → any (λ (v : Schema.EnumValue). text_eq v.name n) (schema.enum_at e).values ≡ true)
      → Decodes (TypedAs (Ty.enum e)) (find_value {F = F} vs s)
  unfolding find_value
  find_value-Decodes e [] s among = refuses
  find_value-Decodes e (v ∷ vs) s among =
      elim (Bool-cases (text_eq (json_name v) s || text_eq v.name s)) [
        | inl h ↦ rw h (decodes (of_enum (among v.name (rw (text_eq_refl v.name) refl))))
        | inr h ↦
            rw h (find_value-Decodes e vs s (λ n k. among n (or_later (text_eq v.name n) _ k)))
      ]

  -- A field that is the first of its name fits with a value of its type.
  first-Fits :
      (i : ℕ) (f : Field) (t : Ty) (v : Value F)
      → find_field f.name (schema.message_at i).fields ≡ some f
      → field_type f ≡ some t
      → OfType schema v t
      → Fits i f.name v
  first-Fits i f t v first is_t hv g u found is_u =
      let same = some_injective g f (sym found ∙ first) in
      subst (λ w. OfType schema v w)
        (some_injective t u (sym is_t ∙ ap field_type (sym same) ∙ is_u)) hv

  module _ (i : ℕ) (decode : Text → Ty → Option (Decoded (Value F)))
      (typed : (name : Text) (t : Ty) → WherePresent (TypedAs t) (decode name t)) where
    abbrev OfMessage : Entries F → Type 0
    OfMessage m = FieldsOfType schema m i

    add_field-Decodes :
        (loop : Entries F → Decoded (Entries F)) (f : Field) (t : Ty) (out : Entries F)
        (o : Option (Decoded (Value F)))
        → find_field f.name (schema.message_at i).fields ≡ some f
        → field_type f ≡ some t
        → WherePresent (TypedAs t) o
        → OfMessage out
        → ((m : Entries F) → OfMessage m → Decodes OfMessage (loop m))
        → Decodes OfMessage (add_field loop f.name out o)
    add_field-Decodes loop f t out none first is_t h hs k = k out hs
    add_field-Decodes loop f t out (some _) first is_t (decodes {a = v} h) hs k =
        k (set f.name v out) (set-FieldsOfType i f.name v out (first-Fits i f t v first is_t h) hs)
    add_field-Decodes loop f t out (some _) first is_t refuses hs k = refuses

    field-Decodes :
        (loop : Entries F → Decoded (Entries F)) (f : Field) (out : Entries F) (o : Option Ty)
        → find_field f.name (schema.message_at i).fields ≡ some f
        → field_type f ≡ o
        → OfMessage out
        → ((m : Entries F) → OfMessage m → Decodes OfMessage (loop m))
        → Decodes OfMessage (add_field loop f.name out (field_value decode f.name o))
    field-Decodes loop f out none first is_o hs k = k out hs
    field-Decodes loop f out (some t) first is_o hs k =
        add_field-Decodes loop f t out (decode f.name t) first is_o (typed f.name t) hs k

    fields_from-Decodes :
        (fs : List Field) (out : Entries F)
        → All (λ f. find_field f.name (schema.message_at i).fields ≡ some f) fs
        → OfMessage out
        → Decodes OfMessage (fields_from decode fs out)
    unfolding fields_from
    fields_from-Decodes [] out firsts hs = decodes hs
    fields_from-Decodes (f ∷ fs) out firsts hs =
        field-Decodes (fields_from decode fs) f out (field_type f) firsts.0 refl hs
          λ m hm. fields_from-Decodes fs m firsts.1 hm

module _ {F : Type 0} (ops : FloatOps F) (parse_float : Text → Option F)
    (decode_base64 : Text → Option Text) (schema : Schema) (unique : Unique schema) where
  bool_from-Decodes : (raw : Json F) → Decodes (TypedAs schema Ty.bool) (bool_from raw)
  bool_from-Decodes (Json.boolean b) = decodes of_bool
  bool_from-Decodes _ = refuses

  string_from-Decodes : (raw : Json F) → Decodes (TypedAs schema Ty.string) (string_from raw)
  string_from-Decodes (Json.text s) = decodes of_string
  string_from-Decodes _ = refuses

  int_from-Decodes :
      (raw : Json F) → Decodes (TypedAs schema Ty.int) (int_from ops parse_float decode_base64 raw)
  int_from-Decodes (Json.number x) = decodes of_int
  int_from-Decodes (Json.text s) = read-Decodes schema s _ (parse_int64 s) Ty.int (λ n. of_int)
  int_from-Decodes _ = refuses

  double_from-Decodes :
      (raw : Json F)
      → Decodes (TypedAs schema Ty.double) (double_from ops parse_float decode_base64 raw)
  double_from-Decodes (Json.number x) = decodes of_double
  double_from-Decodes (Json.text s) =
      read-Decodes schema s _ (parse_float s) Ty.double (λ x. of_double)
  double_from-Decodes _ = refuses

  bytes_from-Decodes :
      (raw : Json F)
      → Decodes (TypedAs schema Ty.bytes) (bytes_from ops parse_float decode_base64 raw)
  bytes_from-Decodes (Json.text s) =
      read-Decodes schema s _ (decode_base64 s) Ty.bytes (λ x. of_bytes)
  bytes_from-Decodes _ = refuses

  enum_from-Decodes :
      (e : ℕ) (raw : Json F)
      → Decodes (TypedAs schema (Ty.enum e)) (enum_from (schema.enum_at e).values raw)
  enum_from-Decodes e (Json.text s) =
      find_value-Decodes schema e (schema.enum_at e).values s (λ n k. k)
  enum_from-Decodes e _ = refuses

  mutual
    unfolding from_json

    from_json-Decodes :
        (t : Ty) (raw : Json F)
        → Decodes (TypedAs schema t) (from_json ops parse_float decode_base64 schema t raw)
    from_json-Decodes Ty.bool raw = bool_from-Decodes raw
    from_json-Decodes Ty.int raw = int_from-Decodes raw
    from_json-Decodes Ty.double raw = double_from-Decodes raw
    from_json-Decodes Ty.string raw = string_from-Decodes raw
    from_json-Decodes Ty.bytes raw = bytes_from-Decodes raw
    from_json-Decodes (Ty.enum e) raw = enum_from-Decodes e raw
    from_json-Decodes (Ty.list t) (Json.array xs) =
        Decodes-bind (list_from-Decodes t xs) λ vs hs. decodes (of_list hs)
    from_json-Decodes (Ty.list t) _ = refuses
    from_json-Decodes (Ty.map_of t) (Json.members m) =
        Decodes-bind (map_from-Decodes t m) λ out hs. decodes (of_map hs)
    from_json-Decodes (Ty.map_of t) _ = refuses
    from_json-Decodes (Ty.message i) (Json.members m) =
        Decodes-bind
          (fields_from-Decodes schema i _ (λ name t. member_from-Decodes name t m)
            (schema.message_at i).fields Entries.end (unique i) no_member)
          λ out hs. decodes (of_message hs)
    from_json-Decodes (Ty.message i) _ = refuses

    list_from-Decodes :
        (t : Ty) (xs : Elements F)
        → Decodes
            (λ vs. AllOfType schema vs t)
            (list_from ops parse_float decode_base64 schema t xs)
    list_from-Decodes t Json.nil = decodes no_item
    list_from-Decodes t (Json.cons x xs) =
        Decodes-bind (from_json-Decodes t x)
          λ v h. Decodes-bind (list_from-Decodes t xs) λ vs hs. decodes (one_item h hs)

    map_from-Decodes :
        (t : Ty) (m : Members F)
        → Decodes
            (λ out. EntriesOfType schema out t)
            (map_from ops parse_float decode_base64 schema t m)
    map_from-Decodes t Json.end = decodes no_entry
    map_from-Decodes t (Json.member k x m) =
        Decodes-bind (from_json-Decodes t x)
          λ v h. Decodes-bind (map_from-Decodes t m) λ out hs. decodes (one_entry h hs)

    member_from-Decodes :
        (name : Text) (t : Ty) (m : Members F)
        → WherePresent
            (TypedAs schema t)
            (member_from ops parse_float decode_base64 schema name t m)
    member_from-Decodes name t Json.end = tt
    member_from-Decodes name t (Json.member k x m) = elim (Bool-cases (text_eq name k)) [
      | inl e ↦ rw e (from_json-Decodes t x)
      | inr e ↦ rw e (member_from-Decodes name t m)
    ]

  -- Where each field of a message is the first of its name, a value that `FromJSON` returns has the type
  -- that was asked for, whatever the raw value is: a value of an enum, also inside lists, maps and messages,
  -- is the name of one of the enum's values.
  pub from_json-OfType :
      (t : Ty) (raw : Json F) (v : Value F)
      → from_json ops parse_float decode_base64 schema t raw ≡ ok v
      → OfType schema v t
  from_json-OfType t raw v h = Decodes-ok (from_json-Decodes t raw) h
