-- ===== src/Onkexpr/Eval.antt =====
-- internal/onkexpr/eval.go: `Eval`, `EvalBool` and `evaluator.eval`.
pub mod ScopeLaws
use onekit.Base.{
  Bool, true, false, not, Option, none, some, [], ◌∷◌, Text, bytes, text_eq, if◌then◌else◌,
}
use onekit.Onkir.Schema.{Schema}
use onekit.Onkexpr.Outcome.{Result, ok, err, has_needs_field, index_panic}
use onekit.Onkexpr.Syntax.{
  Node, Nodes, NodeBase, BinaryOp, disjunction, conjunction, Quantifier, every, some_item, int_lit,
  double_lit, string_lit, bool_lit, list_lit, ident, select, index, call, quantified, unary, binary,
  ternary,
}
use onekit.Onkexpr.Value.{Value, Values, FloatOps, null, as_bool, as_list}
use onekit.Onkexpr.Operators.{
  binary_value, unary_value, index_value, select_value, has_value, apply_fn, fn_of,
}
use onekit.Onkexpr.Exec.{Scope, Exec, assign, pure, lift, choose, ◌>>=◌}

-- Whether one item decides a quantifier, and what it is where none does.
abbrev pub decides : Quantifier → Bool → Bool
decides every b = not b
decides some_item b = b

abbrev pub by_default : Quantifier → Bool
by_default every = true
by_default some_item = false

module _ {F : Type 0} where
  -- `&&` and `||` evaluate the right operand only where the left one does not decide.
  unfoldable pub short_circuit :
      BinaryOp → Exec F (Value F) → Exec F (Value F) → Exec F (Value F) → Exec F (Value F)
  unfolding ◌>>=◌
  short_circuit conjunction l r other = do v ← l; choose (as_bool v) r (pure (Value.bool false))
  short_circuit disjunction l r other = do v ← l; choose (as_bool v) (pure (Value.bool true)) r
  short_circuit _ l r other = other

  -- The loop of `evalMacro`: the body runs with the variable set to each item in turn.
  unfoldable pub quantify_loop : Quantifier → Text → Exec F (Value F) → Values F → Exec F (Value F)
  unfolding assign
  quantify_loop q x body Values.nil s = (ok (Value.bool (by_default q)), s)
  quantify_loop q x body (Values.cons item items) s =
      (do
        v ← body
        choose (decides q (as_bool v)) (pure (Value.bool (not (by_default q))))
            (quantify_loop q x body items))
        (assign x (some item) s)

  -- `evalMacro` behind its range, with the deferred call that puts the variable back.
  unfoldable pub quantify : Quantifier → Text → Exec F (Value F) → Values F → Exec F (Value F)
  unfolding quantify_loop
  quantify q x body items s = let (r, s') = quantify_loop q x body items s in (r, assign x (s x) s')

  abbrev pub or_null : Option (Value F) → Value F
  or_null none = null
  or_null (some v) = v

abbrev pub bool_result : {F : Type 0} → Result (Value F) → Result Bool
bool_result (ok v) = ok (as_bool v)
bool_result (err e) = err e

module _ {F : Type 0} (ops : FloatOps F) (schema : Schema)
    (full_match : Text → Text → Option Bool) where
  unfoldable mutual
    unfolding short_circuit quantify binary_value unary_value index_value select_value has_value
        apply_fn fn_of

    pub eval : Node F → Exec F (Value F)
    eval (int_lit b n) = pure (Value.int n)
    eval (double_lit b x) = pure (Value.double x)
    eval (string_lit b s) = pure (Value.string s)
    eval (bool_lit b t) = pure (Value.bool t)
    eval (list_lit b es) = do vs ← eval_all es; pure (Value.list vs)
    eval (ident b x) = λ s. (ok (or_null (s x)), s)
    eval (select b x name f) = do v ← eval x; lift (select_value ops schema b.typ name v)
    eval (index b x i) = do v ← eval x; w ← eval i; lift (index_value ops v w)
    eval (call b fn args regex) =
        choose (text_eq fn (bytes "has")) (eval_has args)
          (do vs ← eval_all args; lift (apply_fn ops full_match (fn_of fn) regex vs))
    eval (quantified b q range x body) = do r ← eval range; quantify q x (eval body) (as_list r)
    eval (unary b op x) = do v ← eval x; lift (unary_value ops op v)
    eval (binary b op l r) =
        short_circuit op (eval l) (eval r)
          (do v ← eval l; w ← eval r; lift (binary_value ops op v w))
    eval (ternary b c x y) = do v ← eval c; choose (as_bool v) (eval x) (eval y)

    pub eval_all : Nodes F → Exec F (Values F)
    eval_all Nodes.nil = pure Values.nil
    eval_all (Nodes.cons e es) = do v ← eval e; vs ← eval_all es; pure (Values.cons v vs)

    -- `has`, whose argument must be a field.
    pub eval_has : Nodes F → Exec F (Value F)
    eval_has Nodes.nil = lift (err index_panic)
    eval_has (Nodes.cons (select b x name f) es) = do
      v ← eval x
      lift (has_value ops schema b.typ f name v)
    eval_has (Nodes.cons _ es) = lift (err has_needs_field)

  -- `EvalBool`: the answer of a rule.
  unfoldable pub eval_bool : Node F → Scope F → Result Bool
  unfolding eval
  eval_bool n s = bool_result (eval n s).0
