-- ===== src/Onkexpr/Syntax.antt =====
-- internal/onkexpr/ast.go: types and expressions. `F` is the type of a float64.
use onekit.Base.{ℕ, Bool, true, false, Option, none, Text, ◌==◌}
use onekit.Base.Int.{ℤ}
use onekit.Onkir.Schema.{Field}
use onekit.Onkexpr.Arith.{Op}

-- `Type`. A message or an enum is its address in the schema.
pub data Ty : Type 0 where
  bool int double string bytes : Ty
  list map_of : Ty → Ty
  message enum : ℕ → Ty

-- `Type.Equal` of two types that are there: messages and enums are one pointer.
unfoldable pub ty_eq : Ty → Ty → Bool
ty_eq bool bool = true
ty_eq int int = true
ty_eq double double = true
ty_eq string string = true
ty_eq bytes bytes = true
ty_eq (list s) (list t) = ty_eq s t
ty_eq (map_of s) (map_of t) = ty_eq s t
ty_eq (message m) (message n) = m == n
ty_eq (enum m) (enum n) = m == n
ty_eq _ _ = false

pub data UnaryOp : Type 0 where
  negation minus : UnaryOp

pub data BinaryOp : Type 0 where
  disjunction conjunction equal not_equal less less_eq greater greater_eq member : BinaryOp
  compute : Op → BinaryOp

-- `macroAll` and `macroExists`.
pub data Quantifier : Type 0 where
  every some_item : Quantifier

-- The struct `base`: where the node stands, and its type once the checker has set it.
pub record NodeBase : Type 0 where
  pub pos : ℕ
  pub typ : Option Ty

abbrev pub at : ℕ → NodeBase
at i = record { pos = i; typ = none }

mutual
  pub data Node (F : Type 0) : Type 0 where
    int_lit : NodeBase → ℤ → Node F
    double_lit : NodeBase → F → Node F
    string_lit : NodeBase → Text → Node F
    bool_lit : NodeBase → Bool → Node F
    list_lit : NodeBase → Nodes F → Node F
    ident : NodeBase → Text → Node F
    select : NodeBase → Node F → Text → Option Field → Node F
    index : NodeBase → Node F → Node F → Node F
    call : NodeBase → Text → Nodes F → Text → Node F
    quantified : NodeBase → Quantifier → Node F → Text → Node F → Node F
    unary : NodeBase → UnaryOp → Node F → Node F
    binary : NodeBase → BinaryOp → Node F → Node F → Node F
    ternary : NodeBase → Node F → Node F → Node F → Node F

  pub data Nodes (F : Type 0) : Type 0 where
    nil : Nodes F
    cons : Node F → Nodes F → Nodes F

module _ {F : Type 0} where
  -- `Position` and `Type`, through the embedded `base`.
  abbrev pub base_of : Node F → NodeBase
  base_of (int_lit b _) = b
  base_of (double_lit b _) = b
  base_of (string_lit b _) = b
  base_of (bool_lit b _) = b
  base_of (list_lit b _) = b
  base_of (ident b _) = b
  base_of (select b _ _ _) = b
  base_of (index b _ _) = b
  base_of (call b _ _ _) = b
  base_of (quantified b _ _ _ _) = b
  base_of (unary b _ _) = b
  base_of (binary b _ _ _) = b
  base_of (ternary b _ _ _) = b
