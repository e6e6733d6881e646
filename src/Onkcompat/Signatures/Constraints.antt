-- ===== src/Onkcompat/Signatures/Constraints.antt =====
-- internal/onkcompat/compat.go: the constraints of fields that `fieldContractSignature` gives the same text.
use mathlib.Core.List
use onekit.Base.{
  ℕ, ◌≡◌, ◌≢◌, ◌⊎◌, refl, sym, ap, ap₂, ◌∙◌, true, false, List, [], ◌∷◌, ◌++◌, map, Text, bytes,
  All, All-append, arith,
}
use onekit.Base.Strings.{
  Lacks, split, join, split-join, split-append, split_part, head_part, no_part,
}
use onekit.Base.Search.Ends.{Among}
use onekit.Onkir.Schema.{Field, Arg, Decorator}
use onekit.Onkcompat.Signatures.{int64_as_number}
use onekit.Onkcompat.Signatures.Types.{all-Lacks}

abbrev pub pair : Arg → Text × Text
pair a = (a.name, a.value)

-- A decorator by its name and the names and values of its arguments, numbers in place of strings, or the
-- emission of zero values.
pub data Constraint : Type 0 where
  decorated : Text → List (Text × Text) → Constraint
  number_encoding zero_emitted : Constraint

-- What a field asks of its values and their JSON. `@query` and `@required` are no part of it, and `@encode`
-- is none where the field is a number.
pub data HasConstraint (f : Field) : Constraint → Type 0 where
  by_decorator :
      {d : Decorator}
      → Among d f.decorators
      → d.name ≢ bytes "query"
      → d.name ≢ bytes "required"
      → (int64_as_number f ≡ false) ⊎ (d.name ≢ bytes "encode")
      → HasConstraint f (decorated d.name (map pair d.args))
  as_number : int64_as_number f ≡ true → HasConstraint f number_encoding
  with_zero : f.emit_zero ≡ true → HasConstraint f zero_emitted
  or_null : f.nullable ≡ true → HasConstraint f (decorated (bytes "nullable") [])

-- No bars and colons, and no equality sign in the name of an argument.
abbrev pub PlainPair : Text × Text → Type 0
PlainPair (name, value) =
    (Lacks b'|' name × (Lacks b':' name × Lacks b'=' name)) × (Lacks b'|' value × Lacks b':' value)

abbrev pub PlainParts : Text → List (Text × Text) → Type 0
PlainParts name args = (name ≢ []) × ((Lacks b'|' name × Lacks b':' name) × All PlainPair args)

abbrev pub PlainField : Field → Type 0
PlainField f = All (λ (d : Decorator). PlainParts d.name (map pair d.args)) f.decorators

abbrev pub PlainConstraint : Constraint → Type 0
PlainConstraint (decorated name args) = PlainParts name args
PlainConstraint _ = Unit

abbrev pub pair_text : Text × Text → Text
pair_text (name, value) = name ++ bytes "=" ++ value

abbrev pub text_of : Constraint → Text
text_of (decorated name args) = join (bytes ":") (name ∷ map pair_text args)
text_of number_encoding = bytes "encode:number"
text_of zero_emitted = bytes "emit:zero"

-- The parts of a text are those that it is made of.
pub pair_text-Lacks :
    (c : ℕ) (name value : Text)
    → c ≢ b'='
    → Lacks c name
    → Lacks c value
    → Lacks c (pair_text (name, value))
pair_text-Lacks c name value h k l =
    All-append (λ d. d ≢ c) (name ++ bytes "=") value
      (All-append (λ d. d ≢ c) name (bytes "=") k (λ e. h (sym e), tt)) l

pairs-Lacks :
    (args : List (Text × Text)) → All PlainPair args → All (Lacks b':') (map pair_text args)
pairs-Lacks [] h = tt
pairs-Lacks ((name, value) ∷ args) h =
    (pair_text-Lacks b':' name value (omega arith) h.0.0.1.0 h.0.1.1, pairs-Lacks args h.1)

parts_of :
    (name : Text) (args : List (Text × Text))
    → PlainParts name args
    → split b':' (join (bytes ":") (name ∷ map pair_text args)) ≡ name ∷ map pair_text args
parts_of name args h =
    split-join b':' (name ∷ map pair_text args) (List.cons-ne-nil _ _)
      (h.1.0.1, pairs-Lacks args h.1.1)

same_pairs :
    (xs ys : List (Text × Text))
    → All PlainPair xs
    → All PlainPair ys
    → map pair_text xs ≡ map pair_text ys
    → xs ≡ ys
same_pairs [] [] h k e = refl
same_pairs [] (y ∷ ys) h k e = absurd (List.cons-ne-nil _ _ (sym e))
same_pairs (x ∷ xs) [] h k e = absurd (List.cons-ne-nil _ _ e)
same_pairs ((name, value) ∷ xs) ((name', value') ∷ ys) h k e =
    let (n, v) = head_part b'=' name name' value value' h.0.0.1.1 k.0.0.1.1 (
      sym (List.append_assoc name (bytes "=") value)
      ∙ List.head-eq_of_cons-eq e
      ∙ List.append_assoc name' (bytes "=") value') in
    ap₂ (λ x xs. x ∷ xs) (ap₂ (λ a b. (a, b)) n v)
      (same_pairs xs ys h.1 k.1 (List.tail-eq_of_cons-eq e))

-- A decorator is none of the flags, as each of its arguments has an equality sign.
not_flag :
    {B : Type 0} (name flag value : Text) (args : List (Text × Text))
    → PlainParts name args
    → Lacks b':' flag
    → Lacks b':' value
    → Lacks b'=' value
    → text_of (decorated name args) ≡ flag ++ b':' ∷ value
    → B
not_flag {B = B} name flag value args h f v w e =
    let parts : name ∷ map pair_text args ≡ flag ∷ value ∷ [] =
      sym (parts_of name args h)
      ∙ ap (split b':') e
      ∙ split-append b':' flag value f
      ∙ ap (λ ps. flag ∷ ps) (split_part b':' value v) in
    no_argument args h.1.1 (List.tail-eq_of_cons-eq parts)
  where
    no_argument :
        (args : List (Text × Text)) → All PlainPair args → map pair_text args ≡ value ∷ [] → B
    no_argument [] k q = absurd (List.cons-ne-nil _ _ (sym q))
    no_argument ((n, x) ∷ args) k q = absurd (
        no_part b'=' n x value k.0.0.1.1 w
          (sym (List.append_assoc n (bytes "=") x) ∙ List.head-eq_of_cons-eq q))

is_number :
    {B : Type 0} (name : Text) (args : List (Text × Text))
    → PlainParts name args
    → text_of (decorated name args) ≡ bytes "encode:number"
    → B
is_number name args h e =
    not_flag name (bytes "encode") (bytes "number") args h (all-Lacks b':' (bytes "encode") refl)
      (all-Lacks b':' (bytes "number") refl) (all-Lacks b'=' (bytes "number") refl) e

is_zero :
    {B : Type 0} (name : Text) (args : List (Text × Text))
    → PlainParts name args
    → text_of (decorated name args) ≡ bytes "emit:zero"
    → B
is_zero name args h e =
    not_flag name (bytes "emit") (bytes "zero") args h (all-Lacks b':' (bytes "emit") refl)
      (all-Lacks b':' (bytes "zero") refl) (all-Lacks b'=' (bytes "zero") refl) e

second_byte : Text → ℕ
second_byte (_ ∷ c ∷ _) = c
second_byte _ = 0

pub same_constraint :
    (c d : Constraint) → PlainConstraint c → PlainConstraint d → text_of c ≡ text_of d → c ≡ d
same_constraint (decorated name args) (decorated name' args') h k e =
    let parts = sym (parts_of name args h) ∙ ap (split b':') e ∙ parts_of name' args' k in
    ap₂ decorated (List.head-eq_of_cons-eq parts)
      (same_pairs args args' h.1.1 k.1.1 (List.tail-eq_of_cons-eq parts))
same_constraint (decorated name args) number_encoding h k e = is_number name args h e
same_constraint (decorated name args) zero_emitted h k e = is_zero name args h e
same_constraint number_encoding (decorated name args) h k e = is_number name args k (sym e)
same_constraint zero_emitted (decorated name args) h k e = is_zero name args k (sym e)
same_constraint number_encoding number_encoding h k e = refl
same_constraint zero_emitted zero_emitted h k e = refl
same_constraint number_encoding zero_emitted h k e =
    unfold second_byte in (absurd (omega (arith, ap second_byte e)))
same_constraint zero_emitted number_encoding h k e =
    unfold second_byte in (absurd (omega (arith, ap second_byte e)))
