-- ===== src/Onkexpr/Soundness/Operands.antt =====
-- internal/onkexpr/eval.go: the nodes with two operands, and the selection of a field.
use onekit.Base.{Option, ℕ, ◌≡◌, refl, Bool, true, false, some, Text}
use onekit.Onkir.Schema.{Schema, Field}
use onekit.Onkexpr.Arith.{Op}
use onekit.Onkexpr.Syntax.{
  Ty, Node, NodeBase, select, binary, BinaryOp, disjunction, conjunction, equal, not_equal, less,
  less_eq, greater, greater_eq, member, compute,
}
use onekit.Onkexpr.Value.{Value, FloatOps}
use onekit.Onkexpr.Exec.{Exec}
use onekit.Onkexpr.Operators.{binary_value}
use onekit.Onkexpr.Eval.{eval, short_circuit}
use onekit.Onkexpr.Eval.ScopeLaws.{eval-Keeps}
use onekit.Onkexpr.Check.Types.{Names, find_field, field_type, is_number, is_simple, with_type}
use onekit.Onkexpr.Soundness.Typed
use onekit.Onkexpr.Soundness.Typed.{HasType, Good, returns, Good-bind}
use onekit.Onkexpr.Soundness.Values.{
  arithmetic-Good, equal_values-Good, contains_list-Good, contains_map-Good,
}
use onekit.Onkexpr.Soundness.Fields.{Named, select_value-Good, has_value-Good}
use onekit.Onkexpr.Soundness.Actions.{Runs-bind, Runs-pure, Runs-lift, Runs-choose}
use onekit.Onkexpr.Soundness.Expressions.{Evals, plain}

-- The operators that evaluate both operands.
abbrev pub is_strict : BinaryOp → Bool
is_strict conjunction = false
is_strict disjunction = false
is_strict _ = true

-- The comparisons of size.
abbrev pub is_order : BinaryOp → Bool
is_order less = true
is_order less_eq = true
is_order greater = true
is_order greater_eq = true
is_order _ = false

short_circuit-strict :
    {F : Type 0} (op : BinaryOp) (l r other : Exec F (Value F))
    → is_strict op ≡ true
    → short_circuit op l r other ≡ other
unfolding short_circuit
short_circuit-strict conjunction l r other h = cc
short_circuit-strict disjunction l r other h = cc
short_circuit-strict _ l r other h = refl

order-IsStrict : (op : BinaryOp) → is_order op ≡ true → is_strict op ≡ true
order-IsStrict conjunction h = cc
order-IsStrict disjunction h = cc
order-IsStrict _ h = refl

module _ {F : Type 0} (ops : FloatOps F) (schema : Schema) where
  order_value-Good :
      (op : BinaryOp) (x y : Value F)
      → is_order op ≡ true
      → Good (λ z. HasType schema z Ty.bool) (binary_value ops op x y)
  unfolding binary_value
  order_value-Good less x y h = returns Typed.is_bool
  order_value-Good less_eq x y h = returns Typed.is_bool
  order_value-Good greater x y h = returns Typed.is_bool
  order_value-Good greater_eq x y h = returns Typed.is_bool
  order_value-Good _ x y h = cc

module _ {F : Type 0} (ops : FloatOps F) (schema : Schema) (full_match : Text → Text → Option Bool)
    (c : Names) where
  abbrev Sound : Node F → Ty → Type 0
  Sound n t = Evals ops schema full_match c n t

  -- An operator that is good on typed operands makes a node that is.
  strict-Evals :
      (b : NodeBase) (op : BinaryOp) (l r : Node F) (t u v : Ty)
      → is_strict op ≡ true
      → Sound l t
      → Sound r u
      → ((x y : Value F)
          → HasType schema x t
          → HasType schema y u
          → Good (λ z. HasType schema z v) (binary_value ops op x y))
      → Sound (binary b op l r) v
  unfolding eval
  strict-Evals b op l r t u v strict hl hr h = plain ops schema full_match _ _ refl (
      rw (short_circuit-strict op) (
        Runs-bind _ _ (eval-Keeps ops schema full_match l) hl.at λ x hx.
          Runs-bind _ _ (eval-Keeps ops schema full_match r) hr.at
            λ y hy. Runs-lift _ (h x y hx hy)))

  pub conjunction-Evals :
      (b : NodeBase) (l r : Node F)
      → Sound l Ty.bool
      → Sound r Ty.bool
      → Sound (binary b conjunction l r) Ty.bool
  unfolding eval short_circuit
  conjunction-Evals b l r hl hr = plain ops schema full_match _ _ refl (
      Runs-bind _ _ (eval-Keeps ops schema full_match l) hl.at
        λ x hx. Runs-choose _ _ _ hr.at (Runs-pure _ Typed.is_bool))

  pub disjunction-Evals :
      (b : NodeBase) (l r : Node F)
      → Sound l Ty.bool
      → Sound r Ty.bool
      → Sound (binary b disjunction l r) Ty.bool
  unfolding eval short_circuit
  disjunction-Evals b l r hl hr = plain ops schema full_match _ _ refl (
      Runs-bind _ _ (eval-Keeps ops schema full_match l) hl.at
        λ x hx. Runs-choose _ _ _ (Runs-pure _ Typed.is_bool) hr.at)

  pub compute-Evals :
      (b : NodeBase) (op : Op) (l r : Node F) (t : Ty)
      → is_number t ≡ true
      → Sound l t
      → Sound r t
      → Sound (binary b (compute op) l r) t
  unfolding binary_value
  compute-Evals b op l r t h hl hr =
      strict-Evals b _ l r t t t refl hl hr λ x y hx hy. arithmetic-Good ops schema op t x y h hx hy

  pub order-Evals :
      (b : NodeBase) (op : BinaryOp) (l r : Node F) (t u : Ty)
      → is_order op ≡ true
      → Sound l t
      → Sound r u
      → Sound (binary b op l r) Ty.bool
  order-Evals b op l r t u h hl hr =
      strict-Evals b op l r t u Ty.bool (order-IsStrict op h) hl hr
        λ x y _ _. order_value-Good ops schema op x y h

  pub equal-Evals :
      (b : NodeBase) (l r : Node F) (t u : Ty)
      → is_simple t ≡ true
      → Sound l t
      → Sound r u
      → Sound (binary b equal l r) Ty.bool
  unfolding binary_value
  equal-Evals b l r t u h hl hr =
      strict-Evals b equal l r t u Ty.bool refl hl hr λ x y hx hy.
        Good-bind (equal_values-Good ops schema t x y h hx) λ z _. returns Typed.is_bool

  pub not_equal-Evals :
      (b : NodeBase) (l r : Node F) (t u : Ty)
      → is_simple t ≡ true
      → Sound l t
      → Sound r u
      → Sound (binary b not_equal l r) Ty.bool
  unfolding binary_value
  not_equal-Evals b l r t u h hl hr =
      strict-Evals b not_equal l r t u Ty.bool refl hl hr λ x y hx hy.
        Good-bind (equal_values-Good ops schema t x y h hx) λ z _. returns Typed.is_bool

  pub member_list-Evals :
      (b : NodeBase) (l r : Node F) (t u : Ty)
      → is_simple u ≡ true
      → Sound l t
      → Sound r (Ty.list u)
      → Sound (binary b member l r) Ty.bool
  unfolding binary_value
  member_list-Evals b l r t u h hl hr =
      strict-Evals b member l r t (Ty.list u) Ty.bool refl hl hr λ x y hx hy.
        Good-bind (contains_list-Good ops schema u y x h hy) λ z _. returns Typed.is_bool

  pub member_map-Evals :
      (b : NodeBase) (l r : Node F) (t u : Ty)
      → Sound l t
      → Sound r (Ty.map_of u)
      → Sound (binary b member l r) Ty.bool
  unfolding binary_value
  member_map-Evals b l r t u hl hr =
      strict-Evals b member l r t (Ty.map_of u) Ty.bool refl hl hr
        λ x y hx hy. Good-bind (contains_map-Good ops schema u y x hy) λ z _. returns Typed.is_bool

  pub select-Evals :
      (named : Named schema) (b : NodeBase) (x : Node F) (name : Text) (f : Field) (i : ℕ) (t : Ty)
      → find_field name (schema.message_at i).fields ≡ some f
      → field_type f ≡ some t
      → Sound x (Ty.message i)
      → Sound (select (with_type t b) x name (some f)) t
  unfolding eval
  select-Evals named b x name f i t declared typed hx = record {
    at =
        Runs-bind _ _ (eval-Keeps ops schema full_match x) hx.at
          λ v hv. Runs-lift _ (select_value-Good ops schema named i name f t declared typed v hv);
    test = λ es _.
        Runs-bind _ _ (eval-Keeps ops schema full_match x) hx.at
          λ v hv. Runs-lift _ (has_value-Good ops schema named i name f t declared typed v hv);
  }
