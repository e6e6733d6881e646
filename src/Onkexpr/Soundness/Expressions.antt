-- ===== src/Onkexpr/Soundness/Expressions.antt =====
-- internal/onkexpr/eval.go: the evaluation of each node, given that of its parts.
use onekit.Base.{ℕ, ◌≡◌, refl, Bool, true, false, Option, none, some, Text}
use onekit.Base.Int.{ℤ}
use onekit.Onkir.Schema.{Schema}
use onekit.Onkexpr.Syntax.{
  Ty, Node, Nodes, NodeBase, int_lit, double_lit, string_lit, bool_lit, list_lit, ident, select,
  index, quantified, unary, ternary, UnaryOp, negation, Quantifier,
}
use onekit.Onkexpr.Value.{Value, FloatOps, as_list}
use onekit.Onkexpr.Exec.{Exec}
use onekit.Onkexpr.Operators.{unary_value}
use onekit.Onkexpr.Eval.{eval, eval_all, eval_has, or_null}
use onekit.Onkexpr.Eval.ScopeLaws.{eval-Keeps, eval_all-Keeps}
use onekit.Onkexpr.Check.Types.{Names, lookup, push, is_number}
use onekit.Onkexpr.Soundness.Typed
use onekit.Onkexpr.Soundness.Typed.{HasType, Items, Good, returns, raises, Good-bind}
use onekit.Onkexpr.Soundness.Values.{negate-Good, index_list-Good, index_map-Good}
use onekit.Onkexpr.Soundness.Actions.{
  Present, Runs, Runs-bind, Runs-pure, Runs-lift, Runs-choose, quantify-Runs,
}

-- What `has` takes: a field that the checker found.
abbrev pub is_field : {F : Type 0} → Node F → Bool
is_field (select b x name (some f)) = true
is_field _ = false

module _ {F : Type 0} (ops : FloatOps F) (schema : Schema)
    (full_match : Text → Text → Option Bool) where
  abbrev run : Node F → Exec F (Value F)
  run n = eval ops schema full_match n

  -- The node evaluates to a value of the type, and where it is a field, `has` can ask for it.
  pub record Evals (c : Names) (n : Node F) (t : Ty) : Type 0 where
    pub at : Runs schema c (λ v. HasType schema v t) (run n)
    pub test :
        (es : Nodes F)
        → is_field n ≡ true
        → Runs schema c
            (λ v. HasType schema v Ty.bool)
            (eval_has ops schema full_match (Nodes.cons n es))

  pub record AllEval (c : Names) (ns : Nodes F) (t : Ty) : Type 0 where
    pub at : Runs schema c (λ vs. Items schema vs t) (eval_all ops schema full_match ns)

  or_null-HasType :
      (o : Option (Value F)) (t : Ty) → Present schema o t → HasType schema (or_null o) t
  or_null-HasType none t h = absurd h
  or_null-HasType (some v) t h = h

  as_list-Items : (t : Ty) (v : Value F) → HasType schema v (Ty.list t) → Items schema (as_list v) t
  as_list-Items t v (Typed.is_list hs) = hs

  module _ {c : Names} where
    pub plain :
        (n : Node F) (t : Ty)
        → is_field n ≡ false
        → Runs schema c (λ v. HasType schema v t) (run n)
        → Evals c n t
    plain n t h runs = record { at = runs; test = λ es e. cc }

    pub int_lit-Evals : (b : NodeBase) (n : ℤ) → Evals c (int_lit b n) Ty.int
    unfolding eval
    int_lit-Evals b n = plain _ _ refl (Runs-pure _ Typed.is_int)

    pub double_lit-Evals : (b : NodeBase) (x : F) → Evals c (double_lit b x) Ty.double
    unfolding eval
    double_lit-Evals b x = plain _ _ refl (Runs-pure _ Typed.is_double)

    pub string_lit-Evals : (b : NodeBase) (s : Text) → Evals c (string_lit b s) Ty.string
    unfolding eval
    string_lit-Evals b s = plain _ _ refl (Runs-pure _ Typed.is_string)

    pub enum_lit-Evals : (b : NodeBase) (s : Text) (e : ℕ) → Evals c (string_lit b s) (Ty.enum e)
    unfolding eval
    enum_lit-Evals b s e = plain _ _ refl (Runs-pure _ Typed.is_enum)

    pub bool_lit-Evals : (b : NodeBase) (t : Bool) → Evals c (bool_lit b t) Ty.bool
    unfolding eval
    bool_lit-Evals b t = plain _ _ refl (Runs-pure _ Typed.is_bool)

    pub nil-AllEval : (t : Ty) → AllEval c Nodes.nil t
    unfolding eval
    nil-AllEval t = record { at = Runs-pure _ Typed.none_left }

    pub cons-AllEval :
        (n : Node F) (ns : Nodes F) (t : Ty)
        → Evals c n t
        → AllEval c ns t
        → AllEval c (Nodes.cons n ns) t
    unfolding eval
    cons-AllEval n ns t h hs = record {
      at = Runs-bind _ _ (eval-Keeps ops schema full_match n) h.at λ v hv.
          Runs-bind _ _ (eval_all-Keeps ops schema full_match ns) hs.at
            λ vs hvs. Runs-pure _ (Typed.item hv hvs);
    }

    pub list_lit-Evals :
        (b : NodeBase) (ns : Nodes F) (t : Ty)
        → AllEval c ns t
        → Evals c (list_lit b ns) (Ty.list t)
    unfolding eval
    list_lit-Evals b ns t hs = plain _ _ refl (
        Runs-bind _ _ (eval_all-Keeps ops schema full_match ns) hs.at
          λ vs hvs. Runs-pure _ (Typed.is_list hvs))

    pub ident-Evals :
        (b : NodeBase) (x : Text) (t : Ty) → lookup c x ≡ some t → Evals c (ident b x) t
    unfolding eval
    ident-Evals b x t h =
        plain _ _ refl
          (record { at = λ s conforms. returns (or_null-HasType (s x) t (conforms.at x t h)) })

    pub index_list-Evals :
        (b : NodeBase) (x y : Node F) (t u : Ty)
        → Evals c x (Ty.list t)
        → Evals c y u
        → Evals c (index b x y) t
    unfolding eval
    index_list-Evals b x y t u hx hy = plain _ _ refl (
        Runs-bind _ _ (eval-Keeps ops schema full_match x) hx.at λ v hv.
          Runs-bind _ _ (eval-Keeps ops schema full_match y) hy.at
            λ w hw. Runs-lift _ (index_list-Good ops schema t v w hv))

    pub index_map-Evals :
        (b : NodeBase) (x y : Node F) (t u : Ty)
        → Evals c x (Ty.map_of t)
        → Evals c y u
        → Evals c (index b x y) t
    unfolding eval
    index_map-Evals b x y t u hx hy = plain _ _ refl (
        Runs-bind _ _ (eval-Keeps ops schema full_match x) hx.at λ v hv.
          Runs-bind _ _ (eval-Keeps ops schema full_match y) hy.at
            λ w hw. Runs-lift _ (index_map-Good ops schema t v w hv))

    pub negation-Evals :
        (b : NodeBase) (x : Node F) (t : Ty) → Evals c x t → Evals c (unary b negation x) Ty.bool
    unfolding eval unary_value
    negation-Evals b x t hx = plain _ _ refl (
        Runs-bind _ _ (eval-Keeps ops schema full_match x) hx.at
          λ v hv. Runs-lift _ (returns Typed.is_bool))

    pub minus-Evals :
        (b : NodeBase) (x : Node F) (t : Ty)
        → is_number t ≡ true
        → Evals c x t
        → Evals c (unary b UnaryOp.minus x) t
    unfolding eval
    minus-Evals b x t h hx = plain _ _ refl (
        Runs-bind _ _ (eval-Keeps ops schema full_match x) hx.at
          λ v hv. Runs-lift _ (negate-Good ops schema t v h hv))

    pub ternary-Evals :
        (b : NodeBase) (n x y : Node F) (t u : Ty)
        → Evals c n u
        → Evals c x t
        → Evals c y t
        → Evals c (ternary b n x y) t
    unfolding eval
    ternary-Evals b n x y t u hn hx hy = plain _ _ refl (
        Runs-bind _ _ (eval-Keeps ops schema full_match n) hn.at
          λ v hv. Runs-choose _ _ _ hx.at hy.at)

    pub quantified-Evals :
        (b : NodeBase) (q : Quantifier) (range : Node F) (x : Text) (body : Node F) (t : Ty)
        → Evals c range (Ty.list t)
        → Evals (push x t c) body Ty.bool
        → Evals c (quantified b q range x body) Ty.bool
    unfolding eval
    quantified-Evals b q range x body t hr hb = plain _ _ refl (
        Runs-bind _ _ (eval-Keeps ops schema full_match range) hr.at λ v hv.
          quantify-Runs schema q x t c (run body) (as_list v)
            (eval-Keeps ops schema full_match body) hb.at (as_list-Items t v hv))
