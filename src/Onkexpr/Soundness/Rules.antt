-- ===== src/Onkexpr/Soundness/Rules.antt =====
-- internal/onkexpr/check.go: the rules of `infer` against the evaluation of the node.
use onekit.Base.{ℕ, ◌≡◌, refl, Bool, true, Option, none, some, Text, text_eq, any}
use onekit.Onkir.Schema
use onekit.Onkir.Schema.{Schema, Field}
use onekit.Onkexpr.Syntax.{
  Ty, Node, Nodes, NodeBase, string_lit, UnaryOp, negation, quantified, Quantifier,
}
use onekit.Onkexpr.Value.{FloatOps}
use onekit.Onkexpr.Check.Rules.{
  literal_type, selected, select_found, select_rule, enum_literal, enum_items, index_rule,
  unary_rule, ternary_rule, ident_rule, quantified_rule,
}
use onekit.Onkexpr.Check.Types.{Names, lookup, push, find_field, field_type, has_no_type, is_bool}
use onekit.Onkexpr.Soundness.Typed.{Post, accepted, rejected, Post-bind, Post-require, Post-if}
use onekit.Onkexpr.Soundness.Values.{ty_eq→eq}
use onekit.Onkexpr.Soundness.Fields.{Named}
use onekit.Onkexpr.Soundness.Expressions.{
  Evals, AllEval, string_lit-Evals, enum_lit-Evals, nil-AllEval, cons-AllEval, ident-Evals,
  index_list-Evals, index_map-Evals, negation-Evals, minus-Evals, ternary-Evals, quantified-Evals,
}
use onekit.Onkexpr.Soundness.Operands.{select-Evals}
use onekit.Onkexpr.Soundness.Calls.{Typing}

pub is_bool→eq : (t : Ty) → is_bool t ≡ true → t ≡ Ty.bool
is_bool→eq Ty.bool h = refl
is_bool→eq _ h = cc

module _ {F : Type 0} (ops : FloatOps F) (schema : Schema) (full_match : Text → Text → Option Bool)
    (c : Names) where
  abbrev Ok : Ty × Node F → Type 0
  Ok tn = Typing ops schema full_match c tn

  pub literal-Evals :
      (o : Option Ty) (b : NodeBase) (s : Text)
      → Evals {F = F} ops schema full_match c (string_lit b s) (literal_type o)
  literal-Evals (some (Ty.enum e)) b s = enum_lit-Evals ops schema full_match b s e
  literal-Evals _ b s = string_lit-Evals ops schema full_match b s

  -- A literal with the type of an enum.
  pub record OfEnum (e : ℕ) (tn : Ty × Node F) : Type 0 where
    pub typ : tn.0 ≡ Ty.enum e
    pub at : Evals ops schema full_match c tn.1 (Ty.enum e)

  pub enum_literal-Post :
      (e : ℕ) (b : NodeBase) (s : Text) → Post (OfEnum e) (enum_literal schema e b s)
  unfolding enum_literal
  enum_literal-Post e b s =
      Post-if (any (λ (v : Schema.EnumValue). text_eq v.name s) (schema.enum_at e).values)
        (λ _. accepted (record { typ = refl; at = enum_lit-Evals ops schema full_match _ s e }))
        (λ _. rejected)

  pub record Like (t : Ty) (ns : Nodes F) : Type 0 where
    pub at : AllEval ops schema full_match c ns t

  pub cons-Like :
      (t : Ty) (n : Node F) (ns : Nodes F)
      → Evals ops schema full_match c n t
      → Like t ns
      → Like t (Nodes.cons n ns)
  cons-Like t n ns h hs = record { at = cons-AllEval ops schema full_match n ns t h hs.at }

  pub enum_items-Post : (e : ℕ) (ns : Nodes F) → Post (Like (Ty.enum e)) (enum_items schema e ns)
  unfolding enum_items
  enum_items-Post e Nodes.nil =
      accepted (record { at = nil-AllEval ops schema full_match (Ty.enum e) })
  enum_items-Post e (Nodes.cons (string_lit b s) ns) = Post-bind (enum_literal-Post e b s) λ tn h.
      Post-bind (enum_items-Post e ns) λ ns' hs. accepted (cons-Like (Ty.enum e) tn.1 ns' h.at hs)
  enum_items-Post e (Nodes.cons n ns) = rejected

  pub ident_rule-Post :
      (b : NodeBase) (x : Text) (o : Option Ty) → lookup c x ≡ o → Post Ok (ident_rule b x o)
  unfolding ident_rule
  ident_rule-Post b x none h = rejected
  ident_rule-Post b x (some t) h =
      accepted (record { at = ident-Evals ops schema full_match _ x t h })

  selected-Post :
      (named : Named schema) (b : NodeBase) (x : Node F) (name : Text) (f : Field) (i : ℕ)
      (o : Option Ty)
      → find_field name (schema.message_at i).fields ≡ some f
      → field_type f ≡ o
      → Evals ops schema full_match c x (Ty.message i)
      → Post Ok (selected schema b x name f o)
  selected-Post named b x name f i none declared typed hx =
      Post-if (has_no_type f.oneof f.type) (λ _. rejected) (λ _. rejected)
  selected-Post named b x name f i (some t) declared typed hx =
      accepted (record {
        at = select-Evals ops schema full_match c named b x name f i t declared typed hx;
      })

  select_found-Post :
      (named : Named schema) (b : NodeBase) (x : Node F) (name : Text) (i : ℕ) (o : Option Field)
      → find_field name (schema.message_at i).fields ≡ o
      → Evals ops schema full_match c x (Ty.message i)
      → Post Ok (select_found schema b x name o)
  select_found-Post named b x name i none declared hx = rejected
  select_found-Post named b x name i (some f) declared hx =
      selected-Post named b x name f i (field_type f) declared refl hx

  pub select_rule-Post :
      (named : Named schema) (b : NodeBase) (name : Text) (t : Ty) (x : Node F)
      → Evals ops schema full_match c x t
      → Post Ok (select_rule schema b name (t, x))
  unfolding select_rule
  select_rule-Post named b name (Ty.message i) x hx =
      select_found-Post named b x name i (find_field name (schema.message_at i).fields) refl hx
  select_rule-Post named b name t x hx = rejected

  pub index_rule-Post :
      (b : NodeBase) (t u : Ty) (x y : Node F)
      → Evals ops schema full_match c x t
      → Evals ops schema full_match c y u
      → Post Ok (index_rule b (t, x) (u, y))
  unfolding index_rule
  index_rule-Post b (Ty.list t) u x y hx hy =
      Post-require _ _ _
        λ _. accepted (record { at = index_list-Evals ops schema full_match _ x y t u hx hy })
  index_rule-Post b (Ty.map_of t) u x y hx hy =
      Post-require _ _ _
        λ _. accepted (record { at = index_map-Evals ops schema full_match _ x y t u hx hy })
  index_rule-Post b t u x y hx hy = rejected

  pub unary_rule-Post :
      (b : NodeBase) (op : UnaryOp) (t : Ty) (x : Node F)
      → Evals ops schema full_match c x t
      → Post Ok (unary_rule b op (t, x))
  unfolding unary_rule
  unary_rule-Post b negation t x hx =
      Post-require _ _ _
        λ _. accepted (record { at = negation-Evals ops schema full_match _ x t hx })
  unary_rule-Post b UnaryOp.minus t x hx =
      Post-require _ _ _
        λ h. accepted (record { at = minus-Evals ops schema full_match _ x t h hx })

  pub ternary_rule-Post :
      (b : NodeBase) (n x y : Node F) (v t u : Ty)
      → Evals ops schema full_match c n v
      → Evals ops schema full_match c x t
      → Evals ops schema full_match c y u
      → Post Ok (ternary_rule b n (t, x) (u, y))
  unfolding ternary_rule
  ternary_rule-Post b n x y v t u hn hx hy = Post-require _ _ _ λ e. Post-require _ _ _ λ _.
      accepted (record {
        at = ternary-Evals ops schema full_match _ n x y t v hn hx (rw (ty_eq→eq t u e) hy);
      })

  pub quantified_rule-Post :
      (b : NodeBase) (q : Quantifier) (i : ℕ) (range : Node F) (x : Text) (body : Node F) (t u : Ty)
      → Evals ops schema full_match c range (Ty.list t)
      → Evals ops schema full_match (push x t c) body u
      → Post Ok (quantified_rule i u (quantified b q range x body))
  quantified_rule-Post b q i range x body t u hr hb = Post-require _ _ _ λ e. accepted (record {
    at = quantified-Evals ops schema full_match _ q range x body t hr (rw (is_bool→eq u e) at hb);
  })
