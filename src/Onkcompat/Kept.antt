-- ===== src/Onkcompat/Kept.antt =====
-- internal/onkcompat/compat.go: what a comparison without findings says of the two packages.
use onekit.Base.{◌≡◌, true, Option, some, List, Text, All}
use mathlib.Core.List
use onekit.Base.Dict.{Dict, lookup}
use onekit.Onkir.Schema
use onekit.Onkir.Schema.{Schema, Field, EnumValue}
use onekit.Onkir.Decorators.{json_name}
use onekit.Onkcompat.Signatures.{is_required, message_rules_signature}
use onekit.Onkir.Members.{is_some}
use onekit.Onkcompat.Signatures.Types.{SameTypes, NoBars}
use onekit.Onkcompat.Signatures.Constraints.{Constraint, HasConstraint, PlainField}
use onekit.Onkcompat.Collect.{Package, Use, use_of, messages, enums, fields, routes}
use onekit.Onkcompat.Compare.{wire_names, group, parts_text}
use onekit.Onkcompat.Report.{all_usage, or_both}

-- What is looked up is there, and it compares without findings.
abbrev pub Kept {ℓ} : {V : Type ℓ} → (V → Type 0) → Option V → Type ℓ
Kept {V = V} P o = (v : V) × ((o ≡ some v) × P v)

-- The fields of a message are plain.
abbrev pub PlainMessage : Schema.Message → Type 0
PlainMessage m = All (λ (e : Text × Field). PlainField e.1) (fields m)

-- No full name of the package has a bar, and the decorators of the fields of its messages are plain.
abbrev pub PlainPackage : Package → Type 0
PlainPackage p =
    NoBars p.schema × All (λ (e : Text × Schema.Message). PlainMessage e.1) (messages p)

module _ (old_schema new_schema : Schema) where
  -- The same constraints, whatever their order.
  abbrev pub SameConstraints : Field → Field → Type 0
  SameConstraints old new =
      (c : Constraint)
      → (HasConstraint old c → HasConstraint new c) × (HasConstraint new c → HasConstraint old c)

  -- A field of the old message reads and writes the same, and is as strict as a client relies on.
  abbrev pub SameField : Use → Field → Field → Type 0
  SameField use_ old new =
      (SameTypes old_schema new_schema old.type new.type
        × ((old.repeated ≡ new.repeated) × (is_some old.oneof ≡ is_some new.oneof)))
      × (SameConstraints old new
          × ((use_.in_request ≡ true → is_required new ≡ true → is_required old ≡ true)
              × (use_.in_response ≡ true → is_required old ≡ true → is_required new ≡ true)))

  abbrev FieldKept : Use → Dict Field → Text × Field → Type 0
  FieldKept use_ new_fields (name, old) = Kept (SameField use_ old) (lookup name new_fields)

  -- The texts of the rules are the same, and each field is kept.
  abbrev pub SameMessage : Use → Schema.Message → Schema.Message → Type 0
  SameMessage use_ old new =
      (message_rules_signature old ≡ message_rules_signature new)
      × All (FieldKept use_ (fields new)) (fields old)

-- Every value of the old enum is there under its name on the wire.
abbrev pub SameEnum : Schema.Enum → Schema.Enum → Type 0
SameEnum old new =
    All (λ (v : EnumValue). lookup v.name (wire_names new.values) ≡ some (json_name v)) old.values

-- Each kind of part of the old route has the same values in the new one.
abbrev pub SameRoute : List Text → List Text → Type 0
SameRoute old new = (kind : Text) → parts_text kind (group old) ≡ parts_text kind (group new)

module _ (previous current : Package) where
  abbrev MessageKept : Text × Schema.Message → Type 0
  MessageKept (name, old) =
      Kept
        (SameMessage previous.schema current.schema
          (or_both previous current (use_of (all_usage previous current) name)) old)
        (lookup name (messages current))

  abbrev EnumKept : Text × Schema.Enum → Type 0
  EnumKept (name, old) = Kept (SameEnum old) (lookup name (enums current))

module _ (to_lower : Text → Text) (previous current : Package) where
  abbrev RouteKept : Text × List Text → Type 0
  RouteKept (key, old) = Kept (SameRoute old) (lookup key (routes to_lower current))

  -- The current package has every message, enum and route of the previous one.
  abbrev pub Compatible : Type 0
  Compatible =
      All (MessageKept previous current) (messages previous)
      × (All (EnumKept previous current) (enums previous)
          × All RouteKept (routes to_lower previous))
