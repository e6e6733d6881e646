-- ===== src/Onkexpr/Eval/ScopeLaws.antt =====
-- internal/onkexpr/eval.go: what the evaluator does to the scope that it is given.
use onekit.Base.{
  ◌≡◌, refl, ap, sym, fun_ext, ◌∙◌, Bool, true, false, not, inl, inr, Bool-cases, Option, some,
  Text, bytes, text_eq, text_eq→eq,
}
use onekit.Onkir.Schema.{Schema}
use onekit.Onkexpr.Outcome.{Result, ok, err}
use onekit.Onkexpr.Syntax.{
  Node, Nodes, BinaryOp, disjunction, conjunction, Quantifier, int_lit, double_lit, string_lit,
  bool_lit, list_lit, ident, select, index, call, quantified, unary, binary, ternary,
}
use onekit.Onkexpr.Value.{Value, Values, FloatOps, as_bool, as_list}
use onekit.Onkexpr.Exec.{Scope, Exec, assign, pure, lift, choose, ◌>>=◌, continue}
use onekit.Onkexpr.Eval.{
  short_circuit, decides, by_default, quantify_loop, quantify, eval, eval_all, eval_has,
}

-- The action leaves the scope as it was.
pub record Keeps {F A : Type 0} (m : Exec F A) : Type 0 where
  pub at : (s : Scope F) → (m s).1 ≡ s

module _ {F A : Type 0} where
  Keeps-pure : (a : A) → Keeps {F = F} (pure a)
  unfolding pure
  Keeps-pure a = record { at = λ s. refl }

  pub Keeps-lift : (r : Result A) → Keeps {F = F} (lift r)
  unfolding lift
  Keeps-lift r = record { at = λ s. refl }

  Keeps-choose : (b : Bool) (m n : Exec F A) → Keeps m → Keeps n → Keeps (choose b m n)
  unfolding choose
  Keeps-choose true m n hm hn = hm
  Keeps-choose false m n hm hn = hn

module _ {F A B : Type 0} where
  Keeps-continue :
      (r : Result A) (f : A → Exec F B) (s : Scope F)
      → ((a : A) → Keeps (f a))
      → (continue r f s).1 ≡ s
  Keeps-continue (ok a) f s h = (h a).at s
  Keeps-continue (err e) f s h = refl

  pub Keeps-bind :
      (m : Exec F A) (f : A → Exec F B) → Keeps m → ((a : A) → Keeps (f a)) → Keeps (m >>= f)
  unfolding ◌>>=◌
  Keeps-bind m f hm hf = record { at = λ s. Keeps-continue (m s).0 f (m s).1 hf ∙ hm.at s }

ruleset keeps_rules = (Keeps-pure, Keeps-lift, Keeps-choose, Keeps-bind)

-- Two scopes that agree on every name but `x`.
abbrev Agree : {F : Type 0} → Text → Scope F → Scope F → Type 0
Agree x s t = (y : Text) → text_eq y x ≡ false → s y ≡ t y

module _ {F : Type 0} where
  assign-Agree : (x : Text) (v : Option (Value F)) (s : Scope F) → Agree x (assign x v s) s
  unfolding assign
  assign-Agree x v s y h = rw h

  -- Putting the old value back undoes any change of one name.
  assign_back : (x : Text) (s t : Scope F) → Agree x t s → assign x (s x) t ≡ s
  unfolding assign
  assign_back x s t h = fun_ext λ y. elim (Bool-cases (text_eq y x)) [
    | inl e ↦ rw e (ap s (sym (text_eq→eq y x e)))
    | inr e ↦ rw e (h y e)
  ]

  short_circuit-Keeps :
      (op : BinaryOp) (l r other : Exec F (Value F))
      → Keeps l
      → Keeps r
      → Keeps other
      → Keeps (short_circuit op l r other)
  unfolding short_circuit
  short_circuit-Keeps conjunction l r other hl hr ho =
      Keeps-bind l _ hl
        (λ v. Keeps-choose (as_bool v) r _ hr (Keeps-pure {A = Value F} (Value.bool false)))
  short_circuit-Keeps disjunction l r other hl hr ho =
      Keeps-bind l _ hl
        (λ v. Keeps-choose (as_bool v) _ r (Keeps-pure {A = Value F} (Value.bool true)) hr)
  short_circuit-Keeps _ l r other hl hr ho = ho

  -- What a decided item or the rest of the loop leaves agrees with the first scope.
  choose-Agree :
      (x : Text) (s t : Scope F) (r : Result (Value F)) (test : Value F → Bool) (v : Value F)
      (rest : Exec F (Value F))
      → Agree x t s
      → ((u : Scope F) → Agree x u s → Agree x (rest u).1 s)
      → Agree x (continue r (λ w. choose (test w) (pure v) rest) t).1 s
  unfolding choose pure
  choose-Agree x s t (err e) test v rest h hr = h
  choose-Agree x s t (ok w) test v rest h hr = elim (Bool-cases (test w)) [
    | inl e ↦ rw e h
    | inr e ↦ rw e (hr t h)
  ]

  quantify_loop-Agree :
      (q : Quantifier) (x : Text) (body : Exec F (Value F)) (items : Values F) (s t : Scope F)
      → Keeps body
      → Agree x t s
      → Agree x (quantify_loop q x body items t).1 s
  unfolding quantify_loop ◌>>=◌
  quantify_loop-Agree q x body Values.nil s t h a = a
  quantify_loop-Agree q x body (Values.cons item items) s t h a =
      let u = assign x (some item) t in
      choose-Agree x s (body u).1 (body u).0 (λ w. decides q (as_bool w))
        (Value.bool (not (by_default q))) (quantify_loop q x body items)
        (rw h.at (λ y e. assign-Agree x (some item) t y e ∙ a y e))
        (λ u' a'. quantify_loop-Agree q x body items s u' h a')

  quantify-Keeps :
      (q : Quantifier) (x : Text) (body : Exec F (Value F)) (items : Values F)
      → Keeps body
      → Keeps (quantify q x body items)
  unfolding quantify
  quantify-Keeps q x body items h = record {
    at = λ s.
        assign_back x s (quantify_loop q x body items s).1
          (quantify_loop-Agree q x body items s s h (λ y e. refl));
  }

module _ {F : Type 0} (ops : FloatOps F) (schema : Schema)
    (full_match : Text → Text → Option Bool) where
  mutual
    unfolding eval

    pub eval-Keeps : (n : Node F) → Keeps (eval ops schema full_match n)
    eval-Keeps (int_lit b n) = Keeps-pure _
    eval-Keeps (double_lit b x) = Keeps-pure _
    eval-Keeps (string_lit b s) = Keeps-pure _
    eval-Keeps (bool_lit b t) = Keeps-pure _
    eval-Keeps (list_lit b es) = Keeps-bind _ _ (eval_all-Keeps es) (λ vs. Keeps-pure _)
    eval-Keeps (ident b x) = record { at = λ s. refl }
    eval-Keeps (select b x name f) = Keeps-bind _ _ (eval-Keeps x) (λ v. Keeps-lift _)
    eval-Keeps (index b x i) =
        Keeps-bind _ _ (eval-Keeps x) (λ v. Keeps-bind _ _ (eval-Keeps i) (λ w. Keeps-lift _))
    eval-Keeps (call b fn args regex) =
        Keeps-choose (text_eq fn (bytes "has")) _ _ (eval_has-Keeps args)
          (Keeps-bind _ _ (eval_all-Keeps args) (λ vs. Keeps-lift _))
    eval-Keeps (quantified b q range x body) =
        Keeps-bind _ _ (eval-Keeps range) (λ r. quantify-Keeps q x _ (as_list r) (eval-Keeps body))
    eval-Keeps (unary b op x) = Keeps-bind _ _ (eval-Keeps x) (λ v. Keeps-lift _)
    eval-Keeps (binary b op l r) =
        short_circuit-Keeps op _ _ _ (eval-Keeps l) (eval-Keeps r)
          (Keeps-bind _ _ (eval-Keeps l) (λ v. Keeps-bind _ _ (eval-Keeps r) (λ w. Keeps-lift _)))
    eval-Keeps (ternary b c x y) =
        Keeps-bind _ _ (eval-Keeps c)
          (λ v. Keeps-choose (as_bool v) _ _ (eval-Keeps x) (eval-Keeps y))

    pub eval_all-Keeps : (es : Nodes F) → Keeps (eval_all ops schema full_match es)
    eval_all-Keeps Nodes.nil = Keeps-pure _
    eval_all-Keeps (Nodes.cons e es) =
        Keeps-bind _ _ (eval-Keeps e) (λ v. Keeps-bind _ _ (eval_all-Keeps es) (λ vs. Keeps-pure _))

    eval_has-Keeps : (es : Nodes F) → Keeps (eval_has ops schema full_match es)
    eval_has-Keeps Nodes.nil = Keeps-lift _
    eval_has-Keeps (Nodes.cons (select b x name f) es) =
        Keeps-bind _ _ (eval-Keeps x) (λ v. Keeps-lift _)
    eval_has-Keeps (Nodes.cons _ es) = Keeps-lift _

  -- Evaluation leaves the caller's scope as it was, whether it returns a value or an error, and
  -- although a quantifier writes its variable into that scope, over one of the same name too.
  pub scope-eval : (n : Node F) (s : Scope F) → (eval ops schema full_match n s).1 ≡ s
  scope-eval n s = (eval-Keeps n).at s
