-- ===== src/Onkexpr/Check.antt =====
-- internal/onkexpr/check.go: `Check` and `CheckRule`. The source writes types into the nodes; here a
-- check returns the type and the node with the types written.
pub mod Types
pub mod Rules
use onekit.Base.{
  ℕ, Bool, true, false, not, ◌&&◌, ◌||◌, Option, none, some, List, [], ◌∷◌, Text, bytes, text_eq,
  any, if◌then◌else◌,
}
use onekit.Onkir.Schema
use onekit.Onkir.Schema.{Schema, Field}
use onekit.Onkexpr.Arith.{Op, modulo}
use onekit.Onkexpr.Syntax.{
  Ty, ty_eq, Node, Nodes, NodeBase, base_of, int_lit, double_lit, string_lit, bool_lit, list_lit,
  ident, select, index, call, quantified, unary, binary, ternary, UnaryOp, negation, BinaryOp,
  disjunction, conjunction, equal, not_equal, member, compute,
}
use Rules.{
  typed, pos_of, literal_type, selected, select_found, select_rule, enum_literal, enum_items,
  index_rule, unary_rule, ternary_rule, operator_rule, equality_rule, member_rule, string_args,
  has_rule, has_arity, pattern_rule, fn_rule, call_rule, right_operand, left_operand, equality,
  membership, binary_rule, ident_rule, element_type, quantified_rule,
}
use onekit.Onkexpr.Source.{Outcome, bind}
use onekit.Onkexpr.Parser.{parse}
use onekit.Onkexpr.Operators.{Fn, fn_of}
use Types.{
  Complaint, Checked, ok, failed, ◌>>=◌, ◌>>◌, require, Names, lookup, push, find_field, field_type,
  set_type, is_bool, is_string, is_int, is_number, has_size, is_simple, is_nested,
}

-- `CheckRule`: a syntax error, or what the checker says of the rule, which must be bool.
abbrev pub rule_of : {F : Type 0} → Ty × Node F → Checked (Node F)
rule_of (t, n) = do require (is_bool t) (pos_of n) (Complaint.not_a_rule t); ok n

module _ {F : Type 0} (schema : Schema) where
  unfoldable mutual
    unfolding lookup select_rule index_rule call_rule unary_rule binary_rule ternary_rule ident_rule
        element_type ty_eq

    pub check : Names → Node F → Checked (Ty × Node F)
    check c (int_lit b n) = typed Ty.int (int_lit b n)
    check c (double_lit b x) = typed Ty.double (double_lit b x)
    check c (string_lit b s) = typed (literal_type b.typ) (string_lit b s)
    check c (bool_lit b t) = typed Ty.bool (bool_lit b t)
    check c (list_lit b Nodes.nil) = failed b.pos Complaint.empty_list
    check c (list_lit b (Nodes.cons n ns)) = do
      (t, n') ← check c n
      ns' ← check_like c t ns
      require (not (is_nested t)) b.pos (Complaint.list_of t)
      typed (Ty.list t) (list_lit b (Nodes.cons n' ns'))
    check c (ident b x) = ident_rule b x (lookup c x)
    check c (select b x name f) = do tx ← check c x; select_rule schema b name tx
    check c (index b x y) = do tx ← check c x; ty ← check c y; index_rule b tx ty
    check c (call b fn args re) = do targs ← check_all c args; call_rule b fn re targs
    check c (quantified b q range x body) = do
      (r, range') ← check c range
      t ← element_type b r
      (u, body') ← check (push x t c) body
      quantified_rule (pos_of body) u (quantified b q range' x body')
    check c (unary b op x) = do tx ← check c x; unary_rule b op tx
    check c (binary b op l r) = do tl ← check c l; binary_rule schema b op tl r (check c r)
    check c (ternary b n x y) = do
      (t, n') ← check c n
      require (is_bool t) (pos_of n) (Complaint.condition_not_bool t)
      tx ← check c x
      ty ← check c y
      ternary_rule b n' tx ty

    pub check_all : Names → Nodes F → Checked (List Ty × Nodes F)
    check_all c Nodes.nil = ok ([], Nodes.nil)
    check_all c (Nodes.cons n ns) = do
      (t, n') ← check c n
      (ts, ns') ← check_all c ns
      ok (t ∷ ts, Nodes.cons n' ns')

    -- The loop of `inferList` behind the first element.
    pub check_like : Names → Ty → Nodes F → Checked (Nodes F)
    check_like c t Nodes.nil = ok Nodes.nil
    check_like c t (Nodes.cons n ns) = do
      (u, n') ← check c n
      require (ty_eq u t) (pos_of n) (Complaint.mixed_list u t)
      ns' ← check_like c t ns
      ok (Nodes.cons n' ns')

  unfoldable pub check_rule : (Text → Option F) → Names → Text → Outcome (Checked (Node F))
  unfolding parse check
  check_rule parse_float c src =
      bind (parse parse_float src) λ n. Outcome.ok (check c n >>= rule_of)
