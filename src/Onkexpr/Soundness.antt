-- ===== src/Onkexpr/Soundness.antt =====
-- internal/onkexpr: `Check` against `Eval`. The children have a lemma for each rule.
pub mod Typed
pub mod Values
pub mod Fields
pub mod Actions
pub mod Expressions
pub mod Operands
pub mod Calls
pub mod Rules
pub mod BinaryRules
mod Tests
use onekit.Base.{
  ℕ, ◌≡◌, refl, sym, ◌∙◌, subst, Bool, true, false, not, Option, none, some, List, [], ◌∷◌, Text,
}
use onekit.Onkir.Schema.{Schema}
use onekit.Onkexpr.Pattern.{MatchesValid}
use onekit.Onkexpr.Outcome.{Result, ok, err}
use onekit.Onkexpr.Source
use onekit.Onkexpr.Source.{Outcome}
use onekit.Onkexpr.Syntax.{
  Ty, ty_eq, Node, Nodes, NodeBase, int_lit, double_lit, string_lit, bool_lit, list_lit, ident,
  select, index, call, quantified, unary, binary, ternary,
}
use onekit.Onkexpr.Value
use onekit.Onkexpr.Value.{Value, FloatOps, as_bool}
use onekit.Onkexpr.Exec.{Scope}
use onekit.Onkexpr.Eval.{eval, eval_bool, bool_result}
use onekit.Onkexpr.Parser.{parse}
use onekit.Onkexpr.Check.{check, check_all, check_like, check_rule, rule_of}
use onekit.Onkexpr.Check.Rules.{element_type}
use onekit.Onkexpr.Check.Types.{◌>>=◌, Names, Checked, lookup, push, is_bool}
use Typed.{
  HasType, Good, returns, raises, Post, accepted, rejected, Post-bind, Post-require, Post-ok,
}
use Values.{Any, ty_eq→eq}
use Fields.{Named}
use Actions.{Conforms}
use Expressions.{
  Evals, AllEval, int_lit-Evals, double_lit-Evals, bool_lit-Evals, nil-AllEval, cons-AllEval,
  list_lit-Evals,
}
use Calls.{Args, no_args, arg, Typing, call_rule-Post}
use Rules.{
  Like, cons-Like, literal-Evals, ident_rule-Post, select_rule-Post, index_rule-Post,
  unary_rule-Post, ternary_rule-Post, quantified_rule-Post, is_bool→eq,
}
use BinaryRules.{binary_rule-Post, typed_as}

element_type-Post : (b : NodeBase) (t : Ty) → Post (λ u. t ≡ Ty.list u) (element_type b t)
unfolding element_type
element_type-Post b (Ty.list t) = accepted refl
element_type-Post b _ = rejected

module _ {F : Type 0} (schema : Schema) where
  -- `EvalBool` answers with the Boolean that the expression evaluates to.
  pub bool_result-Good :
      {r : Result (Value F)}
      → Good (λ v. HasType schema v Ty.bool) r
      → Good (λ b. r ≡ ok (Value.bool b)) (bool_result r)
  bool_result-Good (returns Typed.is_bool) = returns refl
  bool_result-Good (raises h) = raises h

module _ {F : Type 0} (ops : FloatOps F) (schema : Schema) (full_match : Text → Text → Option Bool)
    (named : Named schema) (valid : MatchesValid full_match) where
  abbrev Sound : Names → Node F → Ty → Type 0
  Sound c n t = Evals ops schema full_match c n t

  record ArgsTyping (c : Names) (typed : List Ty × Nodes F) : Type 0 where
    pub at : Args ops schema full_match c typed.1 typed.0

  mutual
    unfolding check

    pub check-Post :
        (c : Names) (n : Node F) → Post (Typing ops schema full_match c) (check schema c n)
    check-Post c (int_lit b n) = accepted (record { at = int_lit-Evals ops schema full_match _ n })
    check-Post c (double_lit b x) =
        accepted (record { at = double_lit-Evals ops schema full_match _ x })
    check-Post c (string_lit b s) =
        accepted (record { at = literal-Evals ops schema full_match c b.typ _ s })
    check-Post c (bool_lit b t) =
        accepted (record { at = bool_lit-Evals ops schema full_match _ t })
    check-Post c (list_lit b Nodes.nil) = rejected
    check-Post c (list_lit b (Nodes.cons n ns)) = Post-bind (check-Post c n) λ tn h.
        Post-bind (check_like-Post c tn.0 ns) λ ns' hs. Post-require _ _ _ λ _. accepted (record {
          at =
              list_lit-Evals ops schema full_match _ (Nodes.cons tn.1 ns') tn.0
                (cons-AllEval ops schema full_match tn.1 ns' tn.0 h.at hs.at);
        })
    check-Post c (ident b x) = ident_rule-Post ops schema full_match c b x (lookup c x) refl
    check-Post c (select b x name f) =
        Post-bind (check-Post c x)
          λ tx h. select_rule-Post ops schema full_match c named b name tx.0 tx.1 h.at
    check-Post c (index b x y) = Post-bind (check-Post c x) λ tx hx.
        Post-bind (check-Post c y)
          λ ty hy. index_rule-Post ops schema full_match c b tx.0 ty.0 tx.1 ty.1 hx.at hy.at
    check-Post c (call b fn args re) =
        Post-bind (check_all-Post c args)
          λ typed hs. call_rule-Post ops schema full_match c valid b fn re typed.0 typed.1 hs.at
    check-Post c (quantified b q range x body) = Post-bind (check-Post c range) λ tr hr.
        Post-bind (element_type-Post b tr.0) λ t e.
          Post-bind (check-Post (push x t c) body) λ tb hb.
            quantified_rule-Post ops schema full_match c b q _ tr.1 x tb.1 t tb.0
              (typed_as ops schema full_match c tr.0 (Ty.list t) tr.1 e hr.at) hb.at
    check-Post c (unary b op x) =
        Post-bind (check-Post c x)
          λ tx h. unary_rule-Post ops schema full_match c b op tx.0 tx.1 h.at
    check-Post c (binary b op l r) =
        Post-bind (check-Post c l)
          λ tl h. binary_rule-Post ops schema full_match c b op tl r _ h (check-Post c r)
    check-Post c (ternary b n x y) = Post-bind (check-Post c n) λ tn hn. Post-require _ _ _ λ _.
        Post-bind (check-Post c x) λ tx hx. Post-bind (check-Post c y) λ ty hy.
          ternary_rule-Post ops schema full_match c b tn.1 tx.1 ty.1 tn.0 tx.0 ty.0 hn.at hx.at
            hy.at

    check_all-Post : (c : Names) (ns : Nodes F) → Post (ArgsTyping c) (check_all schema c ns)
    check_all-Post c Nodes.nil = accepted (record { at = no_args })
    check_all-Post c (Nodes.cons n ns) = Post-bind (check-Post c n) λ tn h.
        Post-bind (check_all-Post c ns) λ typed hs. accepted (record { at = arg h.at hs.at })

    check_like-Post :
        (c : Names) (t : Ty) (ns : Nodes F)
        → Post (Like ops schema full_match c t) (check_like schema c t ns)
    check_like-Post c t Nodes.nil = accepted (record { at = nil-AllEval ops schema full_match t })
    check_like-Post c t (Nodes.cons n ns) = Post-bind (check-Post c n) λ un h.
        Post-require _ _ _ λ e. Post-bind (check_like-Post c t ns) λ ns' hs. accepted (
          cons-Like ops schema full_match c t un.1 ns'
            (typed_as ops schema full_match c un.0 t un.1 (ty_eq→eq un.0 t e) h.at) hs)

  -- Where every enum of the schema has a value, and package regexp compiles the patterns that
  -- `ValidateRegex` accepts: an expression that the checker accepts, run in a scope that has a value of the
  -- right type for every name that the checker knows, evaluates to a value of the type that the checker
  -- gave, or to one of these errors: an overflow, a zero divisor, a result that is not finite, an index out
  -- of range, a missing key, a double that does not fit in an int. So it neither panics, by a pattern or
  -- otherwise, nor meets an operand, a function or a field of the wrong shape.
  pub eval-check :
      (c : Names) (n n' : Node F) (t : Ty) (s : Scope F)
      → check schema c n ≡ Checked.ok (t, n')
      → Conforms schema c s
      → Good (λ v. HasType schema v t) (eval ops schema full_match n' s).0
  eval-check c n n' t s h conforms = (Post-ok (check-Post c n) h).at.at.at s conforms

  pub rule_of-Post :
      (c : Names) (tn : Ty × Node F)
      → Typing ops schema full_match c tn
      → Post (λ n. Sound c n Ty.bool) (rule_of tn)
  rule_of-Post c tn h =
      Post-require _ _ _
        λ e. accepted (typed_as ops schema full_match c tn.0 Ty.bool tn.1 (is_bool→eq tn.0 e) h.at)

  rule-Post :
      (c : Names) (o : Outcome (Node F)) (n : Node F)
      → Source.bind o (λ m. Outcome.ok (check schema c m >>= rule_of)) ≡ Outcome.ok (Checked.ok n)
      → Sound c n Ty.bool
  rule-Post c (Outcome.ok m) n e =
      Post-ok (Post-bind (check-Post c m) λ tn h. rule_of-Post c tn h) (cc)
  rule-Post c (Outcome.failed _) n e = cc
  rule-Post c Outcome.out_of_fuel n e = cc

  -- Where every enum of the schema has a value, and package regexp compiles the patterns that
  -- `ValidateRegex` accepts: a source that `CheckRule` accepts, run by `EvalBool` in a scope that has a value
  -- of the right type for every name that the checker knows, gives the Boolean that the expression
  -- evaluates to, or one of the errors that depend on the values: never the false that `EvalBool` takes for
  -- a value of another type, and never a panic.
  pub eval_bool-check_rule :
      (parse_float : Text → Option F) (c : Names) (src : Text) (n : Node F) (s : Scope F)
      → check_rule schema parse_float c src ≡ Outcome.ok (Checked.ok n)
      → Conforms schema c s
      → Good
          (λ b. (eval ops schema full_match n s).0 ≡ ok (Value.bool b))
          (eval_bool ops schema full_match n s)
  unfolding check_rule eval_bool
  eval_bool-check_rule parse_float c src n s h conforms =
      bool_result-Good schema ((rule-Post c (parse parse_float src) n h).at.at s conforms)
