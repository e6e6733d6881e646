-- ===== src/Onkir/Walk/Reach.antt =====
-- internal/onkir/helpers.go: what `WSIDField` and `MessageHasRaw` find in a schema whose messages are
-- stored at the first `n` addresses.
use onekit.Base.{
  ℕ, ◌<◌, ◌≡◌, ◌↔◌, refl, Bool, true, false, Option, none, some, List, [], ◌∷◌, bytes, All,
  All-append, inl, inr, Bool-cases, arith,
}
use onekit.Base.Search.{Outcome, found, absent, out_of_fuel}
use onekit.Base.Search.Ends.{Within}
use onekit.Base.Search.Correct.{Verdict, walk-Verdict}
use onekit.Onkir.Walk.Behind.{
  IdBehind, RawBehind, Reaches-IdBehind, IdBehind-Reaches, Reaches-RawBehind, RawBehind-Reaches,
}
use onekit.Onkir.Schema.{Schema, Field, Oneof, OneofVariant}
use onekit.Onkir.Members.{field_has, is_raw}
use onekit.Onkir.Walk.{
  message_of, into, variant_steps, id_field, id_steps, raw_field, raw_steps, ws_id_field, is_found,
  search_raw, message_has_raw,
}

-- The message that a type names, if it does, is one of the first `n`.
abbrev pub Known : ℕ → Option ℕ → Type 0
Known n none = Unit
Known n (some i) = i < n

abbrev pub KnownIn : ℕ → Option Oneof → Type 0
KnownIn n none = Unit
KnownIn n (some o) = All (λ v. Known n (message_of v.type)) o.variants

abbrev pub FieldKnown : ℕ → Field → Type 0
FieldKnown n f = Known n (message_of f.type) × KnownIn n f.oneof

-- The fields of the first `n` messages name messages among them.
abbrev pub Stored : ℕ → Schema → Type 0
Stored n schema = (i : ℕ) → i < n → All (FieldKnown n) (schema.message_at i).fields

module _ (A : Type 0) (n : ℕ) where
  into-Within : (o : Option ℕ) → Known n o → All (Within {A = A} n) (into o)
  into-Within none h = tt
  into-Within (some i) h = (h, tt)

  variant_steps-Within :
      (vs : List OneofVariant)
      → All (λ v. Known n (message_of v.type)) vs
      → All (Within {A = A} n) (variant_steps vs)
  unfolding variant_steps
  variant_steps-Within [] h = tt
  variant_steps-Within (v ∷ vs) h =
      All-append (Within n) (into (message_of v.type)) (variant_steps vs)
        (into-Within (message_of v.type) h.0) (variant_steps-Within vs h.1)

module _ (n : ℕ) where
  id_field-Within : (f : Field) (o : Option Oneof) → KnownIn n o → All (Within n) (id_field f o)
  unfolding id_field
  id_field-Within f (some o) h = variant_steps-Within Field n o.variants h
  id_field-Within f none h = elim (Bool-cases (field_has f (bytes "ws_id"))) [
    | inl e ↦ rw e (tt, tt)
    | inr e ↦ rw e tt
  ]

  id_steps-Within : (fs : List Field) → All (FieldKnown n) fs → All (Within n) (id_steps fs)
  unfolding id_steps
  id_steps-Within [] h = tt
  id_steps-Within (f ∷ fs) h =
      All-append (Within n) (id_field f f.oneof) (id_steps fs) (id_field-Within f f.oneof h.0.1)
        (id_steps-Within fs h.1)

  raw_field-Within :
      (f : Field) (o : Option Oneof)
      → Known n (message_of f.type)
      → KnownIn n o
      → All (Within n) (raw_field f o)
  unfolding raw_field
  raw_field-Within f (some o) k h = variant_steps-Within (Unit {0}) n o.variants h
  raw_field-Within f none k h = elim (Bool-cases (is_raw f)) [
    | inl e ↦ rw e (tt, tt)
    | inr e ↦ rw e (into-Within (Unit {0}) n (message_of f.type) k)
  ]

  raw_steps-Within : (fs : List Field) → All (FieldKnown n) fs → All (Within n) (raw_steps fs)
  unfolding raw_steps
  raw_steps-Within [] h = tt
  raw_steps-Within (f ∷ fs) h =
      All-append (Within n) (raw_field f f.oneof) (raw_steps fs)
        (raw_field-Within f f.oneof h.0.0 h.0.1) (raw_steps-Within fs h.1)

-- What a search for `@ws_id` fields returned is right: the field stands behind the message, or none does.
abbrev pub Finds : Schema → ℕ → Outcome Field → Type 0
Finds schema i (found f) = IdBehind schema i f
Finds schema i (absent seen) = (f : Field) → ¬ (IdBehind schema i f)
Finds schema i out_of_fuel = ⊥

Verdict-Finds :
    (schema : Schema) (i : ℕ) (o : Outcome Field)
    → Verdict (λ k. id_steps (schema.message_at k).fields) (λ _. false) i o
    → Finds schema i o
Verdict-Finds schema i (found f) v = Reaches-IdBehind schema v
Verdict-Finds schema i (absent seen) v = λ f b. v f (IdBehind-Reaches schema b)
Verdict-Finds schema i out_of_fuel v = v

-- The field that `WSIDField` returns is a `@ws_id` field behind the message, among its own fields or, by the
-- variants of its oneofs, those of other messages, and where it returns none there is no such field; it
-- returns for every message, also where messages lead back to themselves. The schema's messages are stored
-- at the first `n` addresses.
pub ws_id_field-Finds :
    (schema : Schema) (n : ℕ)
    → Stored n schema
    → (i : ℕ) → i < n
    → Finds schema i (ws_id_field schema n i)
unfolding ws_id_field
ws_id_field-Finds schema n stored i h = Verdict-Finds schema i _ (
    walk-Verdict _ (λ _. false) n
      (λ k q. id_steps-Within n (schema.message_at k).fields (stored k q)) i h)

raw_verdict :
    (schema : Schema) (external : ℕ → Bool) (n i : ℕ) (o : Outcome (Unit {0}))
    → Verdict (λ k. raw_steps (schema.message_at k).fields) external i o
    → (is_found schema n o ≡ true) ↔ RawBehind schema external i
raw_verdict schema external n i (found tt) v = (λ _. Reaches-RawBehind schema external v, λ _. refl)
raw_verdict schema external n i (absent s) v =
    (λ e. ground (arith, e), λ r. absurd (v tt (RawBehind-Reaches schema external r)))
raw_verdict schema external n i out_of_fuel v = absurd v

-- `MessageHasRaw` holds of a message exactly where a `@raw` field stands behind it, among its own fields or,
-- by its fields and the variants of its oneofs, those of other messages, by no way through an external
-- message. The schema's messages are stored at the first `n` addresses.
pub message_has_raw-RawBehind :
    (schema : Schema) (external : ℕ → Bool) (n : ℕ)
    → Stored n schema
    → (i : ℕ) → i < n
    → (message_has_raw schema n external i ≡ true) ↔ RawBehind schema external i
unfolding message_has_raw search_raw
message_has_raw-RawBehind schema external n stored i h = raw_verdict schema external n i _ (
    walk-Verdict _ external n (λ k q. raw_steps-Within n (schema.message_at k).fields (stored k q))
      i h)
