-- ===== src/Onkexpr/Soundness/BinaryRules.antt =====
-- internal/onkexpr/check.go: `inferBinary`, `inferEquality` and `inferIn` against the evaluation of the node.
use onekit.Base.{Option, ℕ, ◌≡◌, refl, sym, subst, Bool, true, ◌&&◌, Text}
use onekit.Onkir.Schema.{Schema}
use onekit.Onkexpr.Arith.{Op, modulo}
use onekit.Onkexpr.Syntax.{
  Ty, ty_eq, Node, NodeBase, string_lit, list_lit, binary, BinaryOp, disjunction, conjunction,
  equal, not_equal, less, less_eq, greater, greater_eq, member, compute,
}
use onekit.Onkexpr.Value.{FloatOps}
use onekit.Onkexpr.Check.Rules.{
  enum_literal, operator_rule, equality_rule, member_rule, right_operand, left_operand, equality,
  membership, binary_rule,
}
use onekit.Onkexpr.Check.Types.{Names, Checked, is_bool, is_int, is_number, is_simple}
use onekit.Onkexpr.Soundness.Typed.{Post, accepted, rejected, Post-bind, Post-require, weaken}
use onekit.Onkexpr.Soundness.Values.{ty_eq→eq}
use onekit.Onkexpr.Soundness.Expressions.{Evals, list_lit-Evals}
use onekit.Onkexpr.Soundness.Operands.{
  is_order, conjunction-Evals, disjunction-Evals, compute-Evals, order-Evals, equal-Evals,
  not_equal-Evals, member_list-Evals, member_map-Evals,
}
use onekit.Onkexpr.Soundness.Calls.{Typing}
use onekit.Onkexpr.Soundness.Rules.{is_bool→eq, OfEnum, enum_literal-Post, enum_items-Post}

both : (a b : Bool) → a && b ≡ true → (a ≡ true) × (b ≡ true)
both true true h = (refl, refl)
both _ _ h = cc

is_int→eq : (t : Ty) → is_int t ≡ true → t ≡ Ty.int
is_int→eq Ty.int h = refl
is_int→eq _ h = cc

module _ {F : Type 0} (ops : FloatOps F) (schema : Schema) (full_match : Text → Text → Option Bool)
    (c : Names) where
  abbrev Ok : Ty × Node F → Type 0
  Ok tn = Typing ops schema full_match c tn

  pub typed_as :
      (t u : Ty) (x : Node F)
      → t ≡ u
      → Evals ops schema full_match c x t
      → Evals ops schema full_match c x u
  typed_as t u x e h = subst (Evals ops schema full_match c x) e h

  conjunction-Post :
      (b : NodeBase) (l r : Ty × Node F) → Ok l → Ok r → Post Ok (operator_rule b conjunction l r)
  unfolding operator_rule
  conjunction-Post b l r hl hr = Post-require _ _ _ λ e.
      let (el, er) = both (is_bool l.0) (is_bool r.0) e in
      accepted (record {
        at =
            conjunction-Evals ops schema full_match c _ l.1 r.1
              (typed_as l.0 Ty.bool l.1 (is_bool→eq l.0 el) hl.at)
              (typed_as r.0 Ty.bool r.1 (is_bool→eq r.0 er) hr.at);
      })

  disjunction-Post :
      (b : NodeBase) (l r : Ty × Node F) → Ok l → Ok r → Post Ok (operator_rule b disjunction l r)
  unfolding operator_rule
  disjunction-Post b l r hl hr = Post-require _ _ _ λ e.
      let (el, er) = both (is_bool l.0) (is_bool r.0) e in
      accepted (record {
        at =
            disjunction-Evals ops schema full_match c _ l.1 r.1
              (typed_as l.0 Ty.bool l.1 (is_bool→eq l.0 el) hl.at)
              (typed_as r.0 Ty.bool r.1 (is_bool→eq r.0 er) hr.at);
      })

  -- Numbers of one type.
  numbers-Post :
      (b : NodeBase) (op : Op) (l r : Ty × Node F)
      → Ok l
      → Ok r
      → Post Ok (operator_rule b (compute op) l r)
  unfolding operator_rule
  numbers-Post b modulo l r hl hr = Post-require _ _ _ λ e.
      let (el, er) = both (is_int l.0) (is_int r.0) e in
      accepted (record {
        at =
            compute-Evals ops schema full_match c _ modulo l.1 r.1 Ty.int refl
              (typed_as l.0 Ty.int l.1 (is_int→eq l.0 el) hl.at)
              (typed_as r.0 Ty.int r.1 (is_int→eq r.0 er) hr.at);
      })
  numbers-Post b op l r hl hr = Post-require _ _ _ λ e.
      let (same, number) = both (ty_eq l.0 r.0) (is_number l.0) e in
      accepted (record {
        at =
            compute-Evals ops schema full_match c _ op l.1 r.1 l.0 number hl.at
              (typed_as r.0 l.0 r.1 (sym (ty_eq→eq l.0 r.0 same)) hr.at);
      })

  order-Post :
      (b : NodeBase) (op : BinaryOp) (l r : Ty × Node F)
      → is_order op ≡ true
      → Ok l
      → Ok r
      → Post Ok (operator_rule b op l r)
  unfolding operator_rule
  order-Post b less l r h hl hr = Post-require _ _ _ λ e.
      accepted (record {
        at = order-Evals ops schema full_match c _ less l.1 r.1 l.0 r.0 refl hl.at hr.at;
      })
  order-Post b less_eq l r h hl hr = Post-require _ _ _ λ e. accepted (record {
    at = order-Evals ops schema full_match c _ less_eq l.1 r.1 l.0 r.0 refl hl.at hr.at;
  })
  order-Post b greater l r h hl hr = Post-require _ _ _ λ e. accepted (record {
    at = order-Evals ops schema full_match c _ greater l.1 r.1 l.0 r.0 refl hl.at hr.at;
  })
  order-Post b greater_eq l r h hl hr = Post-require _ _ _ λ e. accepted (record {
    at = order-Evals ops schema full_match c _ greater_eq l.1 r.1 l.0 r.0 refl hl.at hr.at;
  })
  order-Post b _ l r h hl hr = cc

  OfEnum-Ok : (e : ℕ) (tn : Ty × Node F) → OfEnum ops schema full_match c e tn → Ok tn
  OfEnum-Ok e tn h = record { at = rw h.typ h.at }

  enum-Post : (e : ℕ) (b : NodeBase) (s : Text) → Post Ok (enum_literal schema e b s)
  enum-Post e b s = weaken (OfEnum-Ok e) (enum_literal-Post ops schema full_match c e b s)

  right_operand-Post :
      (t : Ty) (r : Node F) (checked : Checked (Ty × Node F))
      → Post Ok checked
      → Post Ok (right_operand schema t r checked)
  right_operand-Post (Ty.enum e) (string_lit b s) checked h = enum-Post e b s
  right_operand-Post _ _ checked h = h

  left_operand-Post : (u t : Ty) (l : Node F) → Ok (t, l) → Post Ok (left_operand schema u l t)
  left_operand-Post (Ty.enum e) t (string_lit b s) h = enum-Post e b s
  left_operand-Post _ t l h = accepted h

  equality_rule-Post :
      (b : NodeBase) (op : BinaryOp) (l r : Ty × Node F)
      → ((b' : NodeBase)
          → is_simple l.0 ≡ true
          → Evals ops schema full_match c (binary b' op l.1 r.1) Ty.bool)
      → Post Ok (equality_rule b op l r)
  unfolding equality_rule
  equality_rule-Post b op l r h =
      Post-require _ _ _ λ _. Post-require _ _ _ λ e. accepted (record { at = h _ e })

  equal-Post :
      (b : NodeBase) (l : Ty × Node F) (r : Node F) (checked : Checked (Ty × Node F))
      → Ok l
      → Post Ok checked
      → Post Ok (equality schema b equal l r checked)
  equal-Post b l r checked hl h = Post-bind (right_operand-Post l.0 r checked h) λ right hr.
      Post-bind (left_operand-Post right.0 l.0 l.1 hl) λ left hl'.
        equality_rule-Post b equal left right λ b' e.
          equal-Evals ops schema full_match c b' left.1 right.1 left.0 right.0 e hl'.at hr.at

  not_equal-Post :
      (b : NodeBase) (l : Ty × Node F) (r : Node F) (checked : Checked (Ty × Node F))
      → Ok l
      → Post Ok checked
      → Post Ok (equality schema b not_equal l r checked)
  not_equal-Post b l r checked hl h = Post-bind (right_operand-Post l.0 r checked h) λ right hr.
      Post-bind (left_operand-Post right.0 l.0 l.1 hl) λ left hl'.
        equality_rule-Post b not_equal left right λ b' e.
          not_equal-Evals ops schema full_match c b' left.1 right.1 left.0 right.0 e hl'.at hr.at

  member_rule-Post :
      (b : NodeBase) (t u : Ty) (x y : Node F)
      → Evals ops schema full_match c x t
      → Evals ops schema full_match c y u
      → Post Ok (member_rule b (t, x) (u, y))
  unfolding member_rule
  member_rule-Post b t (Ty.list u) x y hx hy = Post-require _ _ _ λ same. Post-require _ _ _ λ e.
      accepted (record {
        at =
            member_list-Evals ops schema full_match c _ x y t u (rw (ty_eq→eq t u same) at e) hx hy;
      })
  member_rule-Post b t (Ty.map_of u) x y hx hy =
      Post-require _ _ _
        λ _. accepted (record { at = member_map-Evals ops schema full_match c _ x y t u hx hy })
  member_rule-Post b t u x y hx hy = rejected

  membership-Post :
      (b : NodeBase) (t : Ty) (x r : Node F) (checked : Checked (Ty × Node F))
      → Evals ops schema full_match c x t
      → Post Ok checked
      → Post Ok (membership schema b (t, x) r checked)
  membership-Post b (Ty.enum e) x (list_lit lb ns) checked hx h =
      Post-bind (enum_items-Post ops schema full_match c e ns) λ ns' hs. accepted (record {
        at =
            member_list-Evals ops schema full_match c _ x _ (Ty.enum e) (Ty.enum e) refl hx
              (list_lit-Evals ops schema full_match _ ns' (Ty.enum e) hs.at);
      })
  membership-Post b t x r checked hx h =
      Post-bind h λ right hr. member_rule-Post b t right.0 x right.1 hx hr.at

  pub binary_rule-Post :
      (b : NodeBase) (op : BinaryOp) (l : Ty × Node F) (r : Node F)
      (checked : Checked (Ty × Node F))
      → Ok l
      → Post Ok checked
      → Post Ok (binary_rule schema b op l r checked)
  unfolding binary_rule
  binary_rule-Post b member l r checked hl h = membership-Post b l.0 l.1 r checked hl.at h
  binary_rule-Post b equal l r checked hl h = equal-Post b l r checked hl h
  binary_rule-Post b not_equal l r checked hl h = not_equal-Post b l r checked hl h
  binary_rule-Post b conjunction l r checked hl h =
      Post-bind h λ right hr. conjunction-Post b l right hl hr
  binary_rule-Post b disjunction l r checked hl h =
      Post-bind h λ right hr. disjunction-Post b l right hl hr
  binary_rule-Post b (compute op) l r checked hl h =
      Post-bind h λ right hr. numbers-Post b op l right hl hr
  binary_rule-Post b less l r checked hl h =
      Post-bind h λ right hr. order-Post b less l right refl hl hr
  binary_rule-Post b less_eq l r checked hl h =
      Post-bind h λ right hr. order-Post b less_eq l right refl hl hr
  binary_rule-Post b greater l r checked hl h =
      Post-bind h λ right hr. order-Post b greater l right refl hl hr
  binary_rule-Post b greater_eq l r checked hl h =
      Post-bind h λ right hr. order-Post b greater_eq l right refl hl hr
