-- ===== src/Onkexpr/Check/Rules.antt =====
-- internal/onkexpr/check.go: the rules of `infer`, behind the checks of a node's parts.
use onekit.Base.{
  ℕ, ◌&&◌, Option, none, some, List, [], ◌∷◌, Text, bytes, text_eq, any, if◌then◌else◌,
}
use onekit.Onkir.Schema
use onekit.Onkir.Schema.{Schema, Field}
use onekit.Onkexpr.Arith.{modulo}
use onekit.Onkexpr.Syntax.{
  Ty, ty_eq, Node, Nodes, NodeBase, base_of, string_lit, list_lit, ident, select, index, call,
  unary, binary, ternary, UnaryOp, negation, BinaryOp, disjunction, conjunction, equal, not_equal,
  member, compute,
}
use onekit.Onkexpr.Operators.{Fn, fn_of}
use onekit.Onkexpr.Pattern.{validate_regex, is_valid}
use onekit.Onkexpr.Check.Types.{
  Complaint, Checked, ok, failed, ◌>>=◌, ◌>>◌, require, find_field, field_type, has_no_type,
  set_type, is_bool, is_string, is_int, is_number, has_size, is_simple,
}

-- A rule's end: the type of the node, written into it.
abbrev pub typed : {F : Type 0} → Ty → Node F → Checked (Ty × Node F)
typed t n = ok (t, set_type t n)

abbrev pub pos_of : {F : Type 0} → Node F → ℕ
pos_of n = (base_of n).pos

abbrev pub literal_type : Option Ty → Ty
literal_type (some (Ty.enum e)) = Ty.enum e
literal_type _ = Ty.string

module _ (schema : Schema) where
  abbrev pub selected :
      {F : Type 0} → NodeBase → Node F → Text → Field → Option Ty → Checked (Ty × Node F)
  selected b x name f none =
      if has_no_type f.oneof f.type
      then failed b.pos Complaint.nil_dereference
      else failed b.pos (Complaint.unusable_field name)
  selected b x name f (some t) = typed t (select b x name (some f))

  abbrev pub select_found :
      {F : Type 0} → NodeBase → Node F → Text → Option Field → Checked (Ty × Node F)
  select_found b x name none = failed b.pos (Complaint.no_field name)
  select_found b x name (some f) = selected b x name f (field_type f)

  -- `inferSelect`
  unfoldable pub select_rule : {F : Type 0} → NodeBase → Text → Ty × Node F → Checked (Ty × Node F)
  unfolding find_field field_type
  select_rule b name (Ty.message m, x) =
      select_found b x name (find_field name (schema.message_at m).fields)
  select_rule b name (t, x) = failed b.pos (Complaint.cannot_select name t)

  -- `enumLiteral`: the literal with the enum's type, if it names a value.
  unfoldable pub enum_literal : {F : Type 0} → ℕ → NodeBase → Text → Checked (Ty × Node F)
  enum_literal e b s =
      if any (λ (v : Schema.EnumValue). text_eq v.name s) (schema.enum_at e).values
      then typed (Ty.enum e) (string_lit b s)
      else failed b.pos Complaint.not_an_enum_value

  -- The loop of `inferIn` over a list literal that an enum is looked up in.
  unfoldable pub enum_items : {F : Type 0} → ℕ → Nodes F → Checked (Nodes F)
  unfolding enum_literal
  enum_items e Nodes.nil = ok Nodes.nil
  enum_items e (Nodes.cons (string_lit b s) ns) = do
    (_, n) ← enum_literal e b s
    ns' ← enum_items e ns
    ok (Nodes.cons n ns')
  enum_items e (Nodes.cons n ns) = failed (pos_of n) Complaint.enum_needs_literal

-- `inferIndex`
unfoldable pub index_rule :
    {F : Type 0} → NodeBase → Ty × Node F → Ty × Node F → Checked (Ty × Node F)
index_rule b (Ty.list t, x) (i, y) = do
  require (is_int i) (pos_of y) (Complaint.list_index i)
  typed t (index b x y)
index_rule b (Ty.map_of t, x) (i, y) = do
  require (is_string i) (pos_of y) (Complaint.map_key i)
  typed t (index b x y)
index_rule b (t, x) (i, y) = failed b.pos (Complaint.cannot_index t)

unfoldable pub unary_rule : {F : Type 0} → NodeBase → UnaryOp → Ty × Node F → Checked (Ty × Node F)
unary_rule b negation (t, x) = do
  require (is_bool t) b.pos (Complaint.needs_bool t)
  typed Ty.bool (unary b negation x)
unary_rule b UnaryOp.minus (t, x) = do
  require (is_number t) b.pos (Complaint.needs_number t)
  typed t (unary b UnaryOp.minus x)

unfoldable pub ternary_rule :
    {F : Type 0} → NodeBase → Node F → Ty × Node F → Ty × Node F → Checked (Ty × Node F)
unfolding ty_eq
ternary_rule b c (t, x) (u, y) = do
  require (ty_eq t u) b.pos (Complaint.branches_differ t u)
  require (is_simple t) b.pos (Complaint.branch_type t)
  typed t (ternary b c x y)

-- `inferBinary` for the operators with one rule.
unfoldable pub operator_rule :
    {F : Type 0} → NodeBase → BinaryOp → Ty × Node F → Ty × Node F → Checked (Ty × Node F)
unfolding ty_eq
operator_rule b (compute modulo) (t, x) (u, y) = do
  require (is_int t && is_int u) b.pos (Complaint.operands t u)
  typed Ty.int (binary b (compute modulo) x y)
operator_rule b (compute op) (t, x) (u, y) = do
  require (ty_eq t u && is_number t) b.pos (Complaint.operands t u)
  typed t (binary b (compute op) x y)
operator_rule b conjunction (t, x) (u, y) = do
  require (is_bool t && is_bool u) b.pos (Complaint.operands t u)
  typed Ty.bool (binary b conjunction x y)
operator_rule b disjunction (t, x) (u, y) = do
  require (is_bool t && is_bool u) b.pos (Complaint.operands t u)
  typed Ty.bool (binary b disjunction x y)
operator_rule b op (t, x) (u, y) = do
  require (ty_eq t u && is_number t) b.pos (Complaint.operands t u)
  typed Ty.bool (binary b op x y)

-- `inferEquality`
unfoldable pub equality_rule :
    {F : Type 0} → NodeBase → BinaryOp → Ty × Node F → Ty × Node F → Checked (Ty × Node F)
unfolding ty_eq
equality_rule b op (t, x) (u, y) = do
  require (ty_eq t u) b.pos (Complaint.operands t u)
  require (is_simple t) b.pos (Complaint.cannot_compare t)
  typed Ty.bool (binary b op x y)

-- `inferIn` for a right side that is checked.
unfoldable pub member_rule :
    {F : Type 0} → NodeBase → Ty × Node F → Ty × Node F → Checked (Ty × Node F)
unfolding ty_eq
member_rule b (t, x) (Ty.list u, y) = do
  require (ty_eq t u) b.pos (Complaint.operands t u)
  require (is_simple t) b.pos (Complaint.not_in t)
  typed Ty.bool (binary b member x y)
member_rule b (t, x) (Ty.map_of u, y) = do
  require (is_string t) b.pos (Complaint.not_in t)
  typed Ty.bool (binary b member x y)
member_rule b (t, x) (u, y) = failed b.pos (Complaint.not_in u)

module _ {F : Type 0} where
  -- The arguments that must be strings, each with its own position.
  unfoldable pub string_args : List Ty → Nodes F → Checked (Unit {0})
  string_args (t ∷ ts) (Nodes.cons n ns) = do
    require (is_string t) (pos_of n) (Complaint.not_a_string t)
    string_args ts ns
  string_args _ _ = ok tt

  unfoldable pub has_rule : ℕ → Nodes F → Text → Checked (Ty × Text)
  has_rule i (Nodes.cons (select b x name (some f)) _) re = ok (Ty.bool, re)
  has_rule i _ re = failed i Complaint.has_needs_field

  unfoldable pub has_arity : ℕ → Text → List Ty → Nodes F → Text → Checked (Ty × Text)
  unfolding has_rule
  has_arity i name (t ∷ []) args re = has_rule i args re
  has_arity i name ts args re = failed i (Complaint.arity name)

-- `inferCall` behind its arguments: the type, and the pattern that `matches` keeps in the node.
module _ {F : Type 0} where
  -- `inferMatches`
  unfoldable pub pattern_rule : Ty → Nodes F → Checked (Ty × Text)
  unfolding validate_regex
  pattern_rule t (Nodes.cons n (Nodes.cons (string_lit b re) _)) = do
    require (is_string t) (pos_of n) (Complaint.not_a_string t)
    require (is_valid (validate_regex re)) b.pos Complaint.invalid_pattern
    ok (Ty.bool, re)
  pattern_rule t (Nodes.cons n (Nodes.cons m _)) = do
    require (is_string t) (pos_of n) (Complaint.not_a_string t)
    failed (pos_of m) Complaint.pattern_not_literal
  pattern_rule t (Nodes.cons n Nodes.nil) = failed (pos_of n) Complaint.pattern_not_literal
  pattern_rule t Nodes.nil = failed 0 Complaint.pattern_not_literal

  unfoldable pub fn_rule : ℕ → Text → Fn → List Ty → Nodes F → Text → Checked (Ty × Text)
  unfolding string_args pattern_rule
  fn_rule i name Fn.size (t ∷ []) args re = do
    require (has_size t) i (Complaint.size_of t)
    ok (Ty.int, re)
  fn_rule i name Fn.int_of (t ∷ []) args re = do
    require (is_number t) i (Complaint.not_a_number t)
    ok (Ty.int, re)
  fn_rule i name Fn.double_of (t ∷ []) args re = do
    require (is_number t) i (Complaint.not_a_number t)
    ok (Ty.double, re)
  fn_rule i name Fn.matches (t ∷ u ∷ []) args re = pattern_rule t args
  fn_rule i name Fn.starts_with (t ∷ u ∷ []) args re = do
    string_args (t ∷ u ∷ []) args
    ok (Ty.bool, re)
  fn_rule i name Fn.ends_with (t ∷ u ∷ []) args re = do
    string_args (t ∷ u ∷ []) args
    ok (Ty.bool, re)
  fn_rule i name Fn.contains_sub (t ∷ u ∷ []) args re = do
    string_args (t ∷ u ∷ []) args
    ok (Ty.bool, re)
  fn_rule i name (Fn.other f) ts args re = failed i Complaint.unknown_function
  fn_rule i name f ts args re = failed i (Complaint.arity name)

  unfoldable pub call_rule : NodeBase → Text → Text → List Ty × Nodes F → Checked (Ty × Node F)
  unfolding fn_rule has_arity fn_of
  call_rule b fn re (ts, args) = do
    (t, re') ←
        if text_eq fn (bytes "has")
        then has_arity b.pos fn ts args re
        else fn_rule b.pos fn (fn_of fn) ts args re
    typed t (call b fn args re')

module _ {F : Type 0} (schema : Schema) where
  -- `inferBinary` for `==` and `!=`: a string literal next to an enum takes the enum's type. The
  -- source checks the right operand a second time behind this; a check repeated on what it returned
  -- gives that again, so it is made once here.
  abbrev pub right_operand : Ty → Node F → Checked (Ty × Node F) → Checked (Ty × Node F)
  right_operand (Ty.enum e) (string_lit b s) checked = enum_literal schema e b s
  right_operand t r checked = checked

  abbrev pub left_operand : Ty → Node F → Ty → Checked (Ty × Node F)
  left_operand (Ty.enum e) (string_lit b s) t = enum_literal schema e b s
  left_operand u l t = ok (t, l)

  abbrev pub equality :
      NodeBase → BinaryOp → Ty × Node F → Node F → Checked (Ty × Node F) → Checked (Ty × Node F)
  equality b op (t, x) r checked = do
    (u, y) ← right_operand t r checked
    left ← left_operand u x t
    equality_rule b op left (u, y)

  -- `inferIn`
  abbrev pub membership :
      NodeBase → Ty × Node F → Node F → Checked (Ty × Node F) → Checked (Ty × Node F)
  membership b (Ty.enum e, x) (list_lit lb ns) checked = do
    ns' ← enum_items schema e ns
    typed Ty.bool (binary b member x (set_type (Ty.list (Ty.enum e)) (list_lit lb ns')))
  membership b l r checked = do right ← checked; member_rule b l right

  unfoldable pub binary_rule :
      NodeBase → BinaryOp → Ty × Node F → Node F → Checked (Ty × Node F) → Checked (Ty × Node F)
  unfolding enum_literal enum_items member_rule equality_rule operator_rule
  binary_rule b member l r checked = membership b l r checked
  binary_rule b equal l r checked = equality b equal l r checked
  binary_rule b not_equal l r checked = equality b not_equal l r checked
  binary_rule b op l r checked = do right ← checked; operator_rule b op l right

unfoldable pub ident_rule : {F : Type 0} → NodeBase → Text → Option Ty → Checked (Ty × Node F)
ident_rule b x none = failed b.pos (Complaint.unknown_name x)
ident_rule b x (some t) = typed t (ident b x)

-- `inferMacro`: what a quantifier's variable ranges over.
unfoldable pub element_type : NodeBase → Ty → Checked Ty
element_type b (Ty.list t) = ok t
element_type b t = failed b.pos (Complaint.not_a_list t)

abbrev pub quantified_rule : {F : Type 0} → ℕ → Ty → Node F → Checked (Ty × Node F)
quantified_rule i t n = do require (is_bool t) i (Complaint.body_not_bool t); typed Ty.bool n
