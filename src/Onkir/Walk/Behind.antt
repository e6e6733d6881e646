-- ===== src/Onkir/Walk/Behind.antt =====
-- internal/onkir/helpers.go: what stands behind a message, by its fields and the variants of its oneofs, and
-- the steps of the searches.
use onekit.Base.{
  ℕ, ◌≡◌, refl, sym, subst, ◌⊎◌, inl, inr, ◌++◌, Bool, true, false, Option, none, some, List, [],
  ◌∷◌, bytes, Bool-cases, if◌then◌else◌,
}
use onekit.Base.Search.{Step, visit, hit}
use onekit.Base.Search.Ends.{Among, first, later}
use onekit.Base.Search.Correct.{Reaches, here, there}
use onekit.Onkir.Schema.{Schema, Field, FieldType, Oneof, OneofVariant}
use onekit.Onkir.Members.{field_has, is_raw}
use onekit.Onkir.Walk.{message_of, into, variant_steps, id_field, id_steps, raw_field, raw_steps}

module _ (schema : Schema) where
  -- The message has a field that is no oneof and is tagged `@ws_id`, or a oneof with a variant whose message
  -- has one behind it.
  pub data IdBehind : ℕ → Field → Type 0 where
    own_id :
        {i : ℕ} {f : Field}
        → Among f (schema.message_at i).fields
        → f.oneof ≡ none
        → field_has f (bytes "ws_id") ≡ true
        → IdBehind i f
    id_of_variant :
        {i j : ℕ} {f g : Field} {o : Oneof} {v : OneofVariant}
        → Among f (schema.message_at i).fields
        → f.oneof ≡ some o
        → Among v o.variants
        → v.type ≡ some (FieldType.message j)
        → IdBehind j g
        → IdBehind i g

  -- The message is not external, and has a field that is no oneof and is tagged `@raw`, or one whose message
  -- has one behind it, or a oneof with such a variant.
  pub data RawBehind (external : ℕ → Bool) : ℕ → Type 0 where
    own_raw :
        {i : ℕ} {f : Field}
        → external i ≡ false
        → Among f (schema.message_at i).fields
        → f.oneof ≡ none
        → is_raw f ≡ true
        → RawBehind external i
    raw_of_field :
        {i j : ℕ} {f : Field}
        → external i ≡ false
        → Among f (schema.message_at i).fields
        → f.oneof ≡ none
        → f.type ≡ some (FieldType.message j)
        → RawBehind external j
        → RawBehind external i
    raw_of_variant :
        {i j : ℕ} {f : Field} {o : Oneof} {v : OneofVariant}
        → external i ≡ false
        → Among f (schema.message_at i).fields
        → f.oneof ≡ some o
        → Among v o.variants
        → v.type ≡ some (FieldType.message j)
        → RawBehind external j
        → RawBehind external i

module _ {A : Type 0} where
  none_among : {B : Type 0} {a : A} → Among a [] → B
  none_among m = elim m [ ]

  Among-left : {a : A} (xs ys : List A) → Among a xs → Among a (xs ++ ys)
  Among-left [] ys m = elim m [ ]
  Among-left (x ∷ xs) ys first = first
  Among-left (x ∷ xs) ys (later m) = later (Among-left xs ys m)

  Among-right : {a : A} (xs ys : List A) → Among a ys → Among a (xs ++ ys)
  Among-right [] ys m = m
  Among-right (x ∷ xs) ys m = later (Among-right xs ys m)

  Among-append : {a : A} (xs ys : List A) → Among a (xs ++ ys) → Among a xs ⊎ Among a ys
  Among-append [] ys m = inr m
  Among-append (x ∷ xs) ys first = inl first
  Among-append (x ∷ xs) ys (later m) = elim (Among-append xs ys m) [
    | inl k ↦ inl (later k)
    | inr k ↦ inr k
  ]

-- The steps of a list of items are those of each.
module _ {A B : Type 0} (steps_of : A → List (Step B)) (all_steps : List A → List (Step B))
    (nil : all_steps [] ≡ [])
    (cons : (x : A) (xs : List A) → all_steps (x ∷ xs) ≡ steps_of x ++ all_steps xs) where
  steps-Among :
      {x : A} {s : Step B} (xs : List A)
      → Among x xs
      → Among s (steps_of x)
      → Among s (all_steps xs)
  steps-Among [] k m = elim k [ ]
  steps-Among (x ∷ xs) first m =
      subst (Among _) (sym (cons x xs)) (Among-left (steps_of x) (all_steps xs) m)
  steps-Among (x ∷ xs) (later k) m =
      subst (Among _) (sym (cons x xs))
        (Among-right (steps_of x) (all_steps xs) (steps-Among xs k m))

  Among-steps :
      {s : Step B} (xs : List A)
      → Among s (all_steps xs)
      → (x : A) × (Among x xs × Among s (steps_of x))
  Among-steps [] m = none_among (subst (Among _) nil m)
  Among-steps (x ∷ xs) m =
      elim (Among-append (steps_of x) (all_steps xs) (subst (Among _) (cons x xs) m)) [
        | inl k ↦ (x, (first, k))
        | inr k ↦ let (y, (l, r)) = Among-steps xs k in (y, (later l, r))
      ]

module _ {A : Type 0} where
  into-message_of :
      (t : Option FieldType) (j : ℕ)
      → Among {A = Step A} (visit j) (into (message_of t))
      → t ≡ some (FieldType.message j)
  into-message_of (some (FieldType.message i)) j first = refl
  into-message_of (some (FieldType.message i)) j (later m) = elim m [ ]
  into-message_of _ j m = elim m [ ]

  into_no_hit : {B : Type 0} (o : Option ℕ) (a : A) → Among (hit a) (into o) → B
  into_no_hit none a m = elim m [ ]
  into_no_hit (some i) a (later m) = elim m [ ]

  to_variant : OneofVariant → List (Step A)
  to_variant v = into (message_of v.type)

  Among-variants :
      (vs : List OneofVariant) (s : Step A)
      → Among s (variant_steps vs)
      → (v : OneofVariant) × (Among v vs × Among s (into (message_of v.type)))
  unfolding variant_steps to_variant
  Among-variants vs s m = Among-steps to_variant variant_steps refl (λ v vs'. refl) vs m

  variants-Among :
      (vs : List OneofVariant) (v : OneofVariant) (j : ℕ)
      → Among v vs
      → v.type ≡ some (FieldType.message j)
      → Among {A = Step A} (visit j) (variant_steps vs)
  unfolding variant_steps to_variant
  variants-Among vs v j m e =
      steps-Among to_variant variant_steps refl (λ v vs'. refl) vs m
        (subst (λ t. Among {A = Step A} (visit j) (into (message_of t))) (sym e) first)

  when_true :
      (b : Bool) (s : Step A) (xs ys : List (Step A))
      → b ≡ true
      → Among s xs
      → Among s (if b then xs else ys)
  when_true b s xs ys e m = subst (λ c. Among s (if c then xs else ys)) (sym e) m

  unless_true :
      (b : Bool) (s : Step A) (xs ys : List (Step A))
      → b ≡ false
      → Among s ys
      → Among s (if b then xs else ys)
  unless_true b s xs ys e m = subst (λ c. Among s (if c then xs else ys)) (sym e) m

  when_false :
      (b : Bool) (s : Step A) (xs ys : List (Step A))
      → b ≡ false
      → Among s (if b then xs else ys)
      → Among s ys
  when_false b s xs ys e m = subst (λ c. Among s (if c then xs else ys)) e m

  -- A condition that leads to a hit.
  when_hit :
      (b : Bool) (f a : A) → Among (hit a) (if b then hit f ∷ [] else []) → (b ≡ true) × (f ≡ a)
  when_hit true f a first = (refl, refl)
  when_hit true f a (later m) = elim m [ ]
  when_hit false f a m = elim m [ ]

  when_no_visit :
      {B : Type 0} (b : Bool) (f : A) (j : ℕ) → Among (visit j) (if b then hit f ∷ [] else []) → B
  when_no_visit true f j (later m) = elim m [ ]
  when_no_visit false f j m = elim m [ ]

module _ (schema : Schema) where
  abbrev id_of : ℕ → List (Step Field)
  unfolding id_steps
  id_of k = id_steps (schema.message_at k).fields

  id_here :
      (i : ℕ) (f g : Field) (o : Option Oneof)
      → f.oneof ≡ o
      → Among f (schema.message_at i).fields
      → Among (hit g) (id_field f o)
      → IdBehind schema i g
  unfolding id_field
  id_here i f g (some o) e m k =
      let (v, (_, n)) = Among-variants o.variants (hit g) k in into_no_hit (message_of v.type) g n
  id_here i f g none e m k =
      let (tagged, same) = when_hit (field_has f (bytes "ws_id")) f g k in
      subst (IdBehind schema i) same (own_id m e tagged)

  id_there :
      (i j : ℕ) (f g : Field) (o : Option Oneof)
      → f.oneof ≡ o
      → Among f (schema.message_at i).fields
      → Among (visit j) (id_field f o)
      → IdBehind schema j g
      → IdBehind schema i g
  unfolding id_field
  id_there i j f g (some o) e m k h =
      let (v, (n, l)) = Among-variants o.variants (visit j) k in
      id_of_variant m e n (into-message_of v.type j l) h
  id_there i j f g none e m k h = when_no_visit (field_has f (bytes "ws_id")) f j k

  pub Reaches-IdBehind :
      {i : ℕ} {g : Field}
      → Reaches (λ k. id_steps (schema.message_at k).fields) (λ _. false) i g
      → IdBehind schema i g
  unfolding id_steps
  Reaches-IdBehind {i} {g} (here e m) =
      let (f, (n, k)) =
        Among-steps (λ f. id_field f f.oneof) id_steps refl (λ f fs. refl)
          (schema.message_at i).fields m in
      id_here i f g f.oneof refl n k
  Reaches-IdBehind {i} {g} (there {j = j} e m r) =
      let (f, (n, k)) =
        Among-steps (λ f. id_field f f.oneof) id_steps refl (λ f fs. refl)
          (schema.message_at i).fields m in
      id_there i j f g f.oneof refl n k (Reaches-IdBehind r)

  id_step :
      (f : Field) (o : Option Oneof) (s : Step Field)
      → f.oneof ≡ o
      → Among s (id_field f o)
      → Among s (id_field f f.oneof)
  id_step f o s e m = subst (λ p. Among s (id_field f p)) (sym e) m

  pub IdBehind-Reaches :
      {i : ℕ} {g : Field}
      → IdBehind schema i g
      → Reaches (λ k. id_steps (schema.message_at k).fields) (λ _. false) i g
  unfolding id_steps id_field
  IdBehind-Reaches {i} {g} (own_id {f = f} m e tagged) = here refl (
      steps-Among (λ f. id_field f f.oneof) id_steps refl (λ f fs. refl)
        (schema.message_at i).fields m
        (id_step f none (hit f) e
          (when_true (field_has f (bytes "ws_id")) (hit f) (hit f ∷ []) [] tagged first)))
  IdBehind-Reaches {i} {g} (id_of_variant {j = j} {f = f} {o = o} {v = v} m e n typed r) =
      there refl
        (steps-Among (λ f. id_field f f.oneof) id_steps refl (λ f fs. refl)
          (schema.message_at i).fields m
          (id_step f (some o) (visit j) e (variants-Among o.variants v j n typed)))
        (IdBehind-Reaches r)

  module _ (external : ℕ → Bool) where
    raw_here :
        (i : ℕ) (f : Field) (o : Option Oneof)
        → external i ≡ false
        → f.oneof ≡ o
        → Among f (schema.message_at i).fields
        → Among (hit tt) (raw_field f o)
        → RawBehind schema external i
    unfolding raw_field
    raw_here i f (some o) x e m k =
        let (v, (_, n)) = Among-variants o.variants (hit tt) k in
        into_no_hit (message_of v.type) tt n
    raw_here i f none x e m k = elim (Bool-cases (is_raw f)) [
      | inl r ↦ own_raw x m e r
      | inr r ↦
          into_no_hit (message_of f.type) tt
            (when_false (is_raw f) (hit tt) (hit tt ∷ []) (into (message_of f.type)) r k)
    ]

    raw_there :
        (i j : ℕ) (f : Field) (o : Option Oneof)
        → external i ≡ false
        → f.oneof ≡ o
        → Among f (schema.message_at i).fields
        → Among (visit j) (raw_field f o)
        → RawBehind schema external j
        → RawBehind schema external i
    unfolding raw_field
    raw_there i j f (some o) x e m k h =
        let (v, (n, l)) = Among-variants o.variants (visit j) k in
        raw_of_variant x m e n (into-message_of v.type j l) h
    raw_there i j f none x e m k h = elim (Bool-cases (is_raw f)) [
      | inl r ↦ own_raw x m e r
      | inr r ↦
          raw_of_field x m e
            (into-message_of f.type j
              (when_false (is_raw f) (visit j) (hit tt ∷ []) (into (message_of f.type)) r k))
            h
    ]

    pub Reaches-RawBehind :
        {i : ℕ} {a : Unit {0}}
        → Reaches (λ k. raw_steps (schema.message_at k).fields) external i a
        → RawBehind schema external i
    unfolding raw_steps
    Reaches-RawBehind {i} {a} (here e m) =
        let (f, (n, k)) =
          Among-steps (λ f. raw_field f f.oneof) raw_steps refl (λ f fs. refl)
            (schema.message_at i).fields m in
        raw_here i f f.oneof e refl n k
    Reaches-RawBehind {i} {a} (there {j = j} e m r) =
        let (f, (n, k)) =
          Among-steps (λ f. raw_field f f.oneof) raw_steps refl (λ f fs. refl)
            (schema.message_at i).fields m in
        raw_there i j f f.oneof e refl n k (Reaches-RawBehind r)

    raw_edge :
        (f : Field) (o : Option Oneof) (s : Step Unit)
        → f.oneof ≡ o
        → Among s (raw_field f o)
        → Among s (raw_field f f.oneof)
    raw_edge f o s e m = subst (λ p. Among s (raw_field f p)) (sym e) m

    raw_own : (f : Field) → f.oneof ≡ none → is_raw f ≡ true → Among (hit tt) (raw_field f f.oneof)
    unfolding raw_field
    raw_own f e h =
        raw_edge f none (hit tt) e
          (when_true (is_raw f) (hit tt) (hit tt ∷ []) (into (message_of f.type)) h first)

    raw_step :
        {i j : ℕ} {f : Field}
        → external i ≡ false
        → Among f (schema.message_at i).fields
        → f.oneof ≡ none
        → f.type ≡ some (FieldType.message j)
        → Reaches (λ k. raw_steps (schema.message_at k).fields) external j tt
        → Reaches (λ k. raw_steps (schema.message_at k).fields) external i tt
    unfolding raw_steps raw_field
    raw_step {i} {j} {f} x m e typed r = elim (Bool-cases (is_raw f)) [
      | inl h ↦ here x (
          steps-Among (λ f. raw_field f f.oneof) raw_steps refl (λ f fs. refl)
            (schema.message_at i).fields m (raw_own f e h))
      | inr h ↦
          there x
            (steps-Among (λ f. raw_field f f.oneof) raw_steps refl (λ f fs. refl)
              (schema.message_at i).fields m
              (raw_edge f none (visit j) e (
                unless_true (is_raw f) (visit j) (hit tt ∷ []) (into (message_of f.type)) h (
                  subst (λ t. Among {A = Step (Unit {0})} (visit j) (into (message_of t)))
                    (sym typed) first))))
            r
    ]

    pub RawBehind-Reaches :
        {i : ℕ}
        → RawBehind schema external i
        → Reaches (λ k. raw_steps (schema.message_at k).fields) external i tt
    unfolding raw_steps raw_field
    RawBehind-Reaches {i} (own_raw {f = f} x m e h) = here x (
        steps-Among (λ f. raw_field f f.oneof) raw_steps refl (λ f fs. refl)
          (schema.message_at i).fields m (raw_own f e h))
    RawBehind-Reaches (raw_of_field x m e typed r) = raw_step x m e typed (RawBehind-Reaches r)
    RawBehind-Reaches {i} (raw_of_variant {j = j} {f = f} {o = o} {v = v} x m e n typed r) =
        there x
          (steps-Among (λ f. raw_field f f.oneof) raw_steps refl (λ f fs. refl)
            (schema.message_at i).fields m
            (raw_edge f (some o) (visit j) e (variants-Among o.variants v j n typed)))
          (RawBehind-Reaches r)
