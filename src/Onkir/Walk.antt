-- ===== src/Onkir/Walk.antt =====
-- internal/onkir/helpers.go: the fields of a message and of the messages behind it, which may point back at
-- it.
pub mod Behind
pub mod Reach
use onekit.Base.{
  ℕ, suc, Bool, true, false, not, Option, none, some, List, [], ◌∷◌, ◌++◌, Text, bytes, text_eq,
  ◌&&◌, ◌||◌, any, if◌then◌else◌,
}
use onekit.Base.Utf8.{has_suffix}
use onekit.Base.Search
use onekit.Base.Search.{Step, visit, hit, Outcome, found, absent, out_of_fuel, walk}
use onekit.Onkir.Schema.{Schema, Field, FieldType, Oneof, OneofVariant, Method, File}
use onekit.Onkir.Schema
use onekit.Onkir.Decorators.{has_decorator}
use onekit.Onkir.Members.{field_has, is_raw, no_oneof, is_ws_cancel}
use onekit.Onkir.Methods.{is_stream, is_web_socket}

-- `Message.IsError` and `Message.IsPrincipal`
unfoldable pub is_error : Schema.Message → Bool
unfolding has_suffix
is_error m = m.error_type || has_suffix m.name (bytes "Error")

abbrev pub is_principal : Schema.Message → Bool
is_principal m = has_decorator m.decorators (bytes "principal")

-- The address that a type of kind message has.
abbrev pub message_of : Option FieldType → Option ℕ
message_of (some (FieldType.message i)) = some i
message_of _ = none

abbrev pub into {ℓ} : {A : Type ℓ} → Option ℕ → List (Step A)
into none = []
into (some i) = visit i ∷ []

unfoldable pub variant_steps {ℓ} : {A : Type ℓ} → List OneofVariant → List (Step A)
variant_steps [] = []
variant_steps (v ∷ vs) = into (message_of v.type) ++ variant_steps vs

-- A round of the loop of `wsIDField`.
unfoldable pub id_field : Field → Option Oneof → List (Step Field)
unfolding variant_steps
id_field f (some o) = variant_steps o.variants
id_field f none = if field_has f (bytes "ws_id") then hit f ∷ [] else []

unfoldable pub id_steps : List Field → List (Step Field)
unfolding id_field
id_steps [] = []
id_steps (f ∷ fs) = id_field f f.oneof ++ id_steps fs

-- A round of the loop of `messageHasRaw`.
unfoldable pub raw_field : Field → Option Oneof → List (Step (Unit {0}))
unfolding variant_steps
raw_field f (some o) = variant_steps o.variants
raw_field f none = if is_raw f then hit tt ∷ [] else into (message_of f.type)

unfoldable pub raw_steps : List Field → List (Step (Unit {0}))
unfolding raw_field
raw_steps [] = []
raw_steps (f ∷ fs) = raw_field f f.oneof ++ raw_steps fs

-- The field itself, if it is one of the message's own, see `FindWSIDDirect` and `WSTimeoutField`.
unfoldable pub find_direct : Text → List Field → Option Field
find_direct name [] = none
find_direct name (f ∷ fs) = if no_oneof f && field_has f name then some f else find_direct name fs

abbrev pub find_ws_id_direct : Schema.Message → Option Field
find_ws_id_direct m = find_direct (bytes "ws_id") m.fields

abbrev pub ws_timeout_field : Schema.Message → Option Field
ws_timeout_field m = find_direct (bytes "ws_timeout") m.fields

abbrev first_oneof : List Field → Option Field
first_oneof [] = none
first_oneof (f ∷ fs) = if no_oneof f then first_oneof fs else some f

pub record RawStep : Type 0 where
  pub field : Field
  pub variant : Option OneofVariant
  pub child : Option ℕ

-- `seen` grows with each message, so there are no more calls inside one another than messages, of which
-- the schema has `n`.
module _ (schema : Schema) (n : ℕ) where
  -- `WSIDField`
  unfoldable pub ws_id_field : ℕ → Outcome Field
  unfolding walk id_steps
  ws_id_field i = walk (λ k. id_steps (schema.message_at k).fields) (λ _. false) (suc n) [] i

  abbrev or_response : Outcome Field → ℕ → Outcome Field
  unfolding ws_id_field
  or_response (found f) i = found f
  or_response (absent seen) i = ws_id_field i
  or_response out_of_fuel i = out_of_fuel

  -- `Method.WSIDField`
  unfoldable pub method_ws_id_field : Method → Outcome Field
  unfolding or_response
  method_ws_id_field m = or_response (ws_id_field m.request) m.response

  abbrev pub is_found {ℓ} : {A : Type ℓ} → Outcome A → Bool
  is_found (found a) = true
  is_found _ = false

  -- `FileHasWSCorrelation`
  unfoldable pub file_has_ws_correlation : File → Bool
  unfolding method_ws_id_field
  file_has_ws_correlation file =
      any (λ s. any (λ m. is_web_socket m && is_found (method_ws_id_field m)) s.methods)
        file.services

  -- `Method.StreamEventOneof`
  unfoldable pub stream_event_oneof : Method → Option Field
  stream_event_oneof m =
      if is_stream m then first_oneof (schema.message_at m.response).fields else none

  -- `WSCancelVariant`
  cancel_variant : List OneofVariant → Option (OneofVariant × Field)
  unfolding find_direct
  cancel_variant [] = none
  cancel_variant (v ∷ vs) = elim (message_of v.type) [
    | none ↦ cancel_variant vs
    | some i ↦ elim (find_ws_id_direct (schema.message_at i)) [
      | none ↦ cancel_variant vs
      | some g ↦ if is_ws_cancel v then some (v, g) else cancel_variant vs
    ]
  ]

  cancel_in : Field → Option Oneof → Option (Field × (OneofVariant × Field))
  unfolding cancel_variant
  cancel_in f none = none
  cancel_in f (some o) = elim (cancel_variant o.variants) [ none ↦ none | some p ↦ some (f, p) ]

  unfoldable pub ws_cancel_variant : List Field → Option (Field × (OneofVariant × Field))
  unfolding cancel_in
  ws_cancel_variant [] = none
  ws_cancel_variant (f ∷ fs) = elim (cancel_in f f.oneof) [
    | none ↦ ws_cancel_variant fs
    | some p ↦ some p
  ]

  has_timeout : Option ℕ → Bool
  unfolding find_direct
  has_timeout none = false
  has_timeout (some i) = elim (ws_timeout_field (schema.message_at i)) [
    | none ↦ false
    | some _ ↦ true
  ]

  variants_have_timeout : Option Oneof → Bool
  unfolding has_timeout
  variants_have_timeout none = false
  variants_have_timeout (some o) = any (λ v. has_timeout (message_of v.type)) o.variants

  -- `MessageHasWSTimeout`
  unfoldable pub message_has_ws_timeout : ℕ → Bool
  unfolding variants_have_timeout
  message_has_ws_timeout i =
      has_timeout (some i) || any (λ f. variants_have_timeout f.oneof) (schema.message_at i).fields

  -- `external`, which leaves out the messages of other packages.
  module _ (external : ℕ → Bool) where
    -- `messageHasRaw` and `MessageHasRaw`
    unfoldable pub search_raw : ℕ → Outcome (Unit {0})
    unfolding walk raw_steps
    search_raw i = walk (λ k. raw_steps (schema.message_at k).fields) external (suc n) [] i

    unfoldable pub message_has_raw : ℕ → Bool
    unfolding search_raw
    message_has_raw i = is_found (search_raw i)

    raw_child : Field → Option OneofVariant → Option ℕ → List RawStep
    unfolding message_has_raw
    raw_child f v none = []
    raw_child f v (some i) =
        if message_has_raw i then record { field = f; variant = v; child = some i } ∷ [] else []

    raw_variants : Field → List OneofVariant → List RawStep
    unfolding raw_child
    raw_variants f [] = []
    raw_variants f (v ∷ vs) = raw_child f (some v) (message_of v.type) ++ raw_variants f vs

    raw_of : Field → Option Oneof → List RawStep
    unfolding raw_variants
    raw_of f (some o) = raw_variants f o.variants
    raw_of f none =
        if is_raw f
        then record { field = f; variant = none; child = none } ∷ []
        else raw_child f none (message_of f.type)

    -- `RawSteps`
    unfoldable pub raw_steps_of : List Field → List RawStep
    unfolding raw_of
    raw_steps_of [] = []
    raw_steps_of (f ∷ fs) = raw_of f f.oneof ++ raw_steps_of fs
