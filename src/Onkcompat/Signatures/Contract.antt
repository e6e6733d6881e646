-- ===== src/Onkcompat/Signatures/Contract.antt =====
-- internal/onkcompat/compat.go: fields that `fieldContractSignature` gives the same text have the same
-- constraints.
use mathlib.Core.List
use onekit.Base.{
  ◌≡◌, ◌≢◌, ◌⊎◌, inl, inr, refl, sym, subst, ap, ◌∙◌, Bool, true, false, List, [], ◌∷◌, ◌++◌, map,
  Text, bytes, All, All-append, keep, Bool-cases, arith, if◌then◌else◌,
}
use onekit.Base.Strings.{Lacks, split, join, split-join, differs, unequal}
use onekit.Base.Sort.{sort_texts, less, sort-Among, Among-sort}
use onekit.Base.Search.Ends.{Among, first, later, All-Among}
use onekit.Onkir.Schema.{Field, Arg, Decorator}
use onekit.Onkcompat.Signatures.{
  decorator_signature, int64_as_number, in_contract, only_if, contract_parts,
  field_contract_signature,
}
use onekit.Onkcompat.Signatures.Types.{all-Lacks}
use onekit.Onkcompat.Signatures.Constraints.{
  pair, pair_text, pair_text-Lacks, Constraint, decorated, number_encoding, zero_emitted,
  HasConstraint, by_decorator, as_number, with_zero, or_null, PlainField, PlainPair, PlainParts,
  PlainConstraint, text_of, same_constraint,
}

module _ {A : Type 0} where
  All-from : (P : A → Type 0) (xs : List A) → ((x : A) → Among x xs → P x) → All P xs
  All-from P [] h = tt
  All-from P (x ∷ xs) h = (h x first, All-from P xs (λ y m. h y (later m)))

  append-left : {a : A} (xs ys : List A) → Among a xs → Among a (xs ++ ys)
  append-left [] ys m = elim m [ ]
  append-left (x ∷ xs) ys first = first
  append-left (x ∷ xs) ys (later m) = later (append-left xs ys m)

  append-right : {a : A} (xs ys : List A) → Among a ys → Among a (xs ++ ys)
  append-right [] ys m = m
  append-right (x ∷ xs) ys m = later (append-right xs ys m)

  append-cases : {a : A} (xs ys : List A) → Among a (xs ++ ys) → Among a xs ⊎ Among a ys
  append-cases [] ys m = inr m
  append-cases (x ∷ xs) ys first = inl first
  append-cases (x ∷ xs) ys (later m) = elim (append-cases xs ys m) [
    | inl k ↦ inl (later k)
    | inr k ↦ inr k
  ]

  Among-keep :
      (p : A → Bool) {a : A} (xs : List A) → Among a (keep p xs) → Among a xs × (p a ≡ true)
  Among-keep p [] m = elim m [ ]
  Among-keep p {a} (x ∷ xs) m = elim (Bool-cases (p x)) [
    | inl e ↦
        kept xs e (Among-keep p xs)
          (subst (λ b. Among a (if b then x ∷ keep p xs else keep p xs)) e m)
    | inr e ↦
        let (k, h) =
          Among-keep p xs (subst (λ b. Among a (if b then x ∷ keep p xs else keep p xs)) e m) in
        (later k, h)
  ]
    where
      kept :
          {x a : A} (xs : List A)
          → p x ≡ true
          → (Among a (keep p xs) → Among a xs × (p a ≡ true))
          → Among a (x ∷ keep p xs)
          → Among a (x ∷ xs) × (p a ≡ true)
      kept xs e f first = (first, e)
      kept xs e f (later m) = let (k, h) = f m in (later k, h)

  keep-Among : (p : A → Bool) {a : A} (xs : List A) → Among a xs → p a ≡ true → Among a (keep p xs)
  keep-Among p [] m h = elim m [ ]
  keep-Among p {a} (x ∷ xs) first h =
      subst (λ b. Among a (if b then x ∷ keep p xs else keep p xs)) (sym h) first
  keep-Among p {a} (x ∷ xs) (later m) h = elim (Bool-cases (p x)) [
    | inl e ↦
        subst (λ b. Among a (if b then x ∷ keep p xs else keep p xs)) (sym e)
          (later (keep-Among p xs m h))
    | inr e ↦
        subst (λ b. Among a (if b then x ∷ keep p xs else keep p xs)) (sym e) (keep-Among p xs m h)
  ]

  map-Among : {B : Type 0} (f : A → B) {a : A} (xs : List A) → Among a xs → Among (f a) (map f xs)
  map-Among f [] m = elim m [ ]
  map-Among f (x ∷ xs) first = first
  map-Among f (x ∷ xs) (later m) = later (map-Among f xs m)

  Among-map :
      {B : Type 0} (f : A → B) {b : B} (xs : List A)
      → Among b (map f xs)
      → (a : A) × (Among a xs × (b ≡ f a))
  Among-map f [] m = elim m [ ]
  Among-map f (x ∷ xs) m = elim (first_or m) [
    | inl e ↦ (x, (first, e))
    | inr k ↦ let (a, (n, e)) = Among-map f xs k in (a, (later n, e))
  ]
    where
      first_or : {B : Type 0} {b y : B} {ys : List B} → Among b (y ∷ ys) → (b ≡ y) ⊎ Among b ys
      first_or first = inl refl
      first_or (later m) = inr m

Among-only_if : (b : Bool) {s t : Text} → Among s (only_if b t) → (b ≡ true) × (s ≡ t)
Among-only_if true first = (refl, refl)
Among-only_if true (later m) = elim m [ ]
Among-only_if false m = elim m [ ]

only_if-Among : (b : Bool) (t : Text) → b ≡ true → Among t (only_if b t)
only_if-Among b t e = subst (λ c. Among t (only_if c t)) (sym e) first

args_text :
    (args : List Arg)
    → map (λ (a : Arg). a.name ++ bytes "=" ++ a.value) args ≡ map pair_text (map pair args)
args_text [] = refl
args_text (a ∷ args) = ap (λ ts. (a.name ++ bytes "=" ++ a.value) ∷ ts) (args_text args)

decorator_text :
    (d : Decorator) → decorator_signature d ≡ text_of (decorated d.name (map pair d.args))
unfolding decorator_signature
decorator_text d = ap (λ ts. join (bytes ":") (d.name ∷ ts)) (args_text d.args)

in_contract-true :
    (numeric : Bool) (d : Decorator)
    → d.name ≢ bytes "query"
    → d.name ≢ bytes "required"
    → (numeric ≡ false) ⊎ (d.name ≢ bytes "encode")
    → in_contract numeric d ≡ true
in_contract-true numeric d h k (inl e) = ground (arith, e, unequal _ _ h, unequal _ _ k)
in_contract-true numeric d h k (inr n) = ground (arith, unequal _ _ n, unequal _ _ h, unequal _ _ k)

-- The parts of a text that are joined, without bars of their own.
join-split_Among :
    (s : Text) (ss : List Text)
    → All (Lacks b'|') ss
    → Among s ss
    → Among s (split b'|' (join (bytes "|") ss))
join-split_Among s [] h m = elim m [ ]
join-split_Among s (x ∷ xs) h m =
    subst (Among s) (sym (split-join b'|' (x ∷ xs) (List.cons-ne-nil _ _) h)) m

split_join-Among :
    (s : Text) (ss : List Text)
    → All (Lacks b'|') ss
    → s ≢ []
    → Among s (split b'|' (join (bytes "|") ss))
    → Among s ss
unfolding join split
split_join-Among s [] h n first = absurd (n refl)
split_join-Among s [] h n (later m) = elim m [ ]
split_join-Among s (x ∷ xs) h n m =
    subst (Among s) (split-join b'|' (x ∷ xs) (List.cons-ne-nil _ _) h) m

pairs-bar : (args : List (Text × Text)) → All PlainPair args → All (Lacks b'|') (map pair_text args)
pairs-bar [] h = tt
pairs-bar ((name, value) ∷ args) h =
    (pair_text-Lacks b'|' name value (omega arith) h.0.0.0 h.0.1.0, pairs-bar args h.1)

join-Lacks : (ss : List Text) → All (Lacks b'|') ss → Lacks b'|' (join (bytes ":") ss)
unfolding join
join-Lacks [] h = tt
join-Lacks (s ∷ []) h = h.0
join-Lacks (s ∷ t ∷ ss) h =
    All-append (λ d. d ≢ b'|') s (b':' ∷ join (bytes ":") (t ∷ ss)) h.0
      (omega arith, join-Lacks (t ∷ ss) h.1)

text_of-Lacks : (c : Constraint) → PlainConstraint c → Lacks b'|' (text_of c)
text_of-Lacks (decorated name args) h =
    join-Lacks (name ∷ map pair_text args) (h.1.0.0, pairs-bar args h.1.1)
text_of-Lacks number_encoding h = all-Lacks b'|' (bytes "encode:number") refl
text_of-Lacks zero_emitted h = all-Lacks b'|' (bytes "emit:zero") refl

text_of-ne-nil : (c : Constraint) → PlainConstraint c → text_of c ≢ []
unfolding join
text_of-ne-nil (decorated [] args) h = absurd (h.0 refl)
text_of-ne-nil (decorated (x ∷ name) []) h = List.cons-ne-nil _ _
text_of-ne-nil (decorated (x ∷ name) (a ∷ args)) h = List.cons-ne-nil _ _
text_of-ne-nil number_encoding h = List.cons-ne-nil _ _
text_of-ne-nil zero_emitted h = List.cons-ne-nil _ _

module _ (f : Field) where
  abbrev signed : List Text
  signed = map decorator_signature (keep (in_contract (int64_as_number f)) f.decorators)

  abbrev number_part : List Text
  number_part = only_if (int64_as_number f) (bytes "encode:number")

  abbrev zero_part : List Text
  zero_part = only_if f.emit_zero (bytes "emit:zero")

  abbrev null_part : List Text
  null_part = only_if f.nullable (bytes "nullable")

  HasConstraint-parts : {c : Constraint} → HasConstraint f c → Among (text_of c) (contract_parts f)
  unfolding contract_parts
  HasConstraint-parts (by_decorator {d = d} m h k n) =
      append-left (signed ++ number_part ++ zero_part) null_part (
        append-left (signed ++ number_part) zero_part (
          append-left signed number_part (
            subst (λ t. Among t signed) (decorator_text d)
              (map-Among decorator_signature (keep (in_contract (int64_as_number f)) f.decorators) (
                keep-Among (in_contract (int64_as_number f)) f.decorators m
                  (in_contract-true (int64_as_number f) d h k n))))))
  HasConstraint-parts (as_number e) = append-left (signed ++ number_part ++ zero_part) null_part (
      append-left (signed ++ number_part) zero_part
        (append-right signed number_part (only_if-Among (int64_as_number f) _ e)))
  HasConstraint-parts (with_zero e) =
      append-left (signed ++ number_part ++ zero_part) null_part
        (append-right (signed ++ number_part) zero_part (only_if-Among f.emit_zero _ e))
  HasConstraint-parts (or_null e) =
      unfold join in
      (append-right (signed ++ number_part ++ zero_part) null_part (only_if-Among f.nullable _ e))

  decorator-HasConstraint :
      (d : Decorator)
      → Among d f.decorators
      → in_contract (int64_as_number f) d ≡ true
      → HasConstraint f (decorated d.name (map pair d.args))
  decorator-HasConstraint d m h =
      by_decorator m (differs d.name (bytes "query") (ground (arith, h)))
        (differs d.name (bytes "required") (ground (arith, h)))
        (elim (Bool-cases (int64_as_number f)) [
          | inl e ↦ inr (differs d.name (bytes "encode") (ground (arith, h, e)))
          | inr e ↦ inl e
        ])

  signed-HasConstraint :
      (s : Text) → Among s signed → (c : Constraint) × (HasConstraint f c × (s ≡ text_of c))
  signed-HasConstraint s m =
      let (d, (k, e)) =
        Among-map decorator_signature (keep (in_contract (int64_as_number f)) f.decorators) m in
      let (n, h) = Among-keep (in_contract (int64_as_number f)) f.decorators k in
      (decorated d.name (map pair d.args), (decorator-HasConstraint d n h, e ∙ decorator_text d))

  parts-HasConstraint :
      (s : Text)
      → Among s (contract_parts f)
      → (c : Constraint) × (HasConstraint f c × (s ≡ text_of c))
  unfolding contract_parts join
  parts-HasConstraint s m = elim (append-cases (signed ++ number_part ++ zero_part) null_part m) [
    | inr n ↦
        let (h, e) = Among-only_if f.nullable n in (decorated (bytes "nullable") [], (or_null h, e))
    | inl k ↦ elim (append-cases (signed ++ number_part) zero_part k) [
      | inr n ↦ let (h, e) = Among-only_if f.emit_zero n in (zero_emitted, (with_zero h, e))
      | inl l ↦ elim (append-cases signed number_part l) [
        | inr n ↦
            let (h, e) = Among-only_if (int64_as_number f) n in (number_encoding, (as_number h, e))
        | inl n ↦ signed-HasConstraint s n
      ]
    ]
  ]

  module _ (plain : PlainField f) where
    HasConstraint-Plain : {c : Constraint} → HasConstraint f c → PlainConstraint c
    HasConstraint-Plain (by_decorator {d = d} m h k n) =
        All-Among (λ (d : Decorator). PlainParts d.name (map pair d.args)) plain m
    HasConstraint-Plain (as_number e) = tt
    HasConstraint-Plain (with_zero e) = tt
    HasConstraint-Plain (or_null e) = (
      List.cons-ne-nil _ _,
      ((all-Lacks b'|' (bytes "nullable") refl, all-Lacks b':' (bytes "nullable") refl), tt),
    )

    sorted-Lacks : All (Lacks b'|') (sort_texts (contract_parts f))
    sorted-Lacks = All-from (Lacks b'|') _ (λ s m.
        let (c, (h, e)) = parts-HasConstraint s (Among-sort less s (contract_parts f) m) in
        subst (Lacks b'|') (sym e) (text_of-Lacks c (HasConstraint-Plain h)))

-- A constraint of a field is one of another whose contract has the same text.
pub field_contract_signature-HasConstraint :
    (f g : Field)
    → PlainField f
    → PlainField g
    → field_contract_signature f ≡ field_contract_signature g
    → (c : Constraint) → HasConstraint f c
    → HasConstraint g c
unfolding field_contract_signature
field_contract_signature-HasConstraint f g h k e c m =
    let plain = HasConstraint-Plain f h m in
    let there =
      join-split_Among (text_of c) (sort_texts (contract_parts f)) (sorted-Lacks f h)
        (sort-Among less (text_of c) (contract_parts f) (HasConstraint-parts f m)) in
    let here =
      split_join-Among (text_of c) (sort_texts (contract_parts g)) (sorted-Lacks g k)
        (text_of-ne-nil c plain) (subst (λ t. Among (text_of c) (split b'|' t)) e there) in
    let (d, (n, t)) =
      parts-HasConstraint g (text_of c) (Among-sort less (text_of c) (contract_parts g) here) in
    subst (HasConstraint g) (sym (same_constraint c d plain (HasConstraint-Plain g k n) t)) n
