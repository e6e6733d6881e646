-- ===== src/Onkexpr/Soundness/Calls.antt =====
-- internal/onkexpr/check.go and eval.go: `inferCall` against `evalCall`.
use onekit.Base.{
  Option, ℕ, ◌≡◌, ◌≢◌, refl, Bool, true, false, none, some, List, [], ◌∷◌, Text, bytes, text_eq,
  inl, inr, Bool-cases,
}
use onekit.Onkir.Schema.{Schema}
use onekit.Onkexpr.Pattern.{MatchesValid, validate_regex, is_valid}
use onekit.Onkexpr.Syntax.{Ty, Node, Nodes, NodeBase, call, select, string_lit}
use onekit.Onkexpr.Value.{Value, Values, FloatOps}
use onekit.Onkexpr.Exec.{choose}
use onekit.Onkexpr.Operators.{Fn, fn_of, apply_fn, matched}
use onekit.Onkexpr.Value.{as_string}
use onekit.Onkexpr.Eval.{eval, eval_all, eval_has}
use onekit.Onkexpr.Eval.ScopeLaws.{eval-Keeps, eval_all-Keeps}
use onekit.Onkexpr.Check.Rules.{fn_rule, pattern_rule, has_rule, has_arity, call_rule}
use onekit.Onkexpr.Check.Types.{Names, Checked, is_number}
use onekit.Onkexpr.Soundness.Typed
use onekit.Onkexpr.Soundness.Typed.{
  HasType, Good, returns, Post, accepted, rejected, Post-bind, Post-require,
}
use onekit.Onkexpr.Soundness.Values.{Any, to_int-Good, to_double-HasType}
use onekit.Onkexpr.Soundness.Actions.{Runs, Runs-bind, Runs-pure, Runs-lift}
use onekit.Onkexpr.Soundness.Expressions.{Evals, plain}

Any-Post : {A : Type 0} (r : Checked A) → Post Any r
Any-Post (Checked.ok a) = accepted tt
Any-Post (Checked.failed i e) = rejected

module _ {F : Type 0} (schema : Schema) where
  -- Arguments of the types that the checker found.
  pub data HaveTypes : Values F → List Ty → Type 0 where
    none_left : HaveTypes Values.nil []
    argument :
        {v : Value F} {vs : Values F} {t : Ty} {ts : List Ty}
        → HasType schema v t
        → HaveTypes vs ts
        → HaveTypes (Values.cons v vs) (t ∷ ts)

module _ {F : Type 0} (ops : FloatOps F) (schema : Schema)
    (full_match : Text → Text → Option Bool) where
  -- The function takes arguments of these types to a result of that one.
  pub record Applies (f : Fn) (ts : List Ty) (typed : Ty × Text) : Type 0 where
    pub at :
        (vs : Values F)
        → HaveTypes schema vs ts
        → Good (λ v. HasType schema v typed.0) (apply_fn ops full_match f typed.1 vs)

  abbrev Gives : Fn → Text → Ty → Values F → Type 0
  Gives f re u vs = Good (λ v. HasType schema v u) (apply_fn ops full_match f re vs)

  one_argument :
      (f : Fn) (re : Text) (t u : Ty) (vs : Values F)
      → ((v : Value F) → HasType schema v t → Gives f re u (Values.cons v Values.nil))
      → HaveTypes schema vs (t ∷ [])
      → Gives f re u vs
  one_argument f re t u vs k (argument {v} hv none_left) = k v hv

  two_arguments :
      (f : Fn) (re : Text) (t t' u : Ty) (vs : Values F)
      → ((v w : Value F) → Gives f re u (Values.cons v (Values.cons w Values.nil)))
      → HaveTypes schema vs (t ∷ t' ∷ [])
      → Gives f re u vs
  two_arguments f re t t' u vs k (argument {v} hv (argument {v = w} hw none_left)) = k v w

  size-Applies : (t : Ty) (re : Text) → Applies Fn.size (t ∷ []) (Ty.int, re)
  unfolding apply_fn
  size-Applies t re = record {
    at = λ vs. one_argument Fn.size re t Ty.int vs λ v hv. returns Typed.is_int;
  }

  int-Applies : (t : Ty) (re : Text) → is_number t ≡ true → Applies Fn.int_of (t ∷ []) (Ty.int, re)
  unfolding apply_fn
  int-Applies t re h = record {
    at = λ vs. one_argument Fn.int_of re t Ty.int vs λ v hv. to_int-Good ops schema t v h hv;
  }

  double-Applies :
      (t : Ty) (re : Text) → is_number t ≡ true → Applies Fn.double_of (t ∷ []) (Ty.double, re)
  unfolding apply_fn
  double-Applies t re h = record {
    at = λ vs.
        one_argument Fn.double_of re t Ty.double vs
          λ v hv. returns (to_double-HasType ops schema t v h hv);
  }

  -- The functions of two strings.
  abbrev is_string_fn : Fn → Bool
  is_string_fn Fn.starts_with = true
  is_string_fn Fn.ends_with = true
  is_string_fn Fn.contains_sub = true
  is_string_fn _ = false

  apply_two-Good :
      (f : Fn) (re : Text) (v w : Value F)
      → is_string_fn f ≡ true
      → Good
          (λ r. HasType schema r Ty.bool)
          (apply_fn ops full_match f re (Values.cons v (Values.cons w Values.nil)))
  unfolding apply_fn
  apply_two-Good Fn.starts_with re v w h = returns Typed.is_bool
  apply_two-Good Fn.ends_with re v w h = returns Typed.is_bool
  apply_two-Good Fn.contains_sub re v w h = returns Typed.is_bool
  apply_two-Good _ re v w h = cc

  string-Applies :
      (f : Fn) (t u : Ty) (re : Text) → is_string_fn f ≡ true → Applies f (t ∷ u ∷ []) (Ty.bool, re)
  string-Applies f t u re h = record {
    at = λ vs. two_arguments f re t u Ty.bool vs λ v w. apply_two-Good f re v w h;
  }

  matched-Good :
      (o : Option Bool) → o ≢ none → Good (λ r. HasType schema r Ty.bool) (matched {F = F} o)
  matched-Good none h = absurd (h refl)
  matched-Good (some b) h = returns Typed.is_bool

  matches-Applies :
      (valid : MatchesValid full_match) (t u : Ty) (re : Text)
      → is_valid (validate_regex re) ≡ true
      → Applies Fn.matches (t ∷ u ∷ []) (Ty.bool, re)
  unfolding apply_fn
  matches-Applies valid t u re h = record {
    at = λ vs.
        two_arguments Fn.matches re t u Ty.bool vs
          λ v w. matched-Good (full_match re (as_string v)) (valid re (as_string v) h);
  }

  pattern_rule-Post :
      (valid : MatchesValid full_match) (t u : Ty) (ns : Nodes F)
      → Post (Applies Fn.matches (t ∷ u ∷ [])) (pattern_rule t ns)
  unfolding pattern_rule
  pattern_rule-Post valid t u (Nodes.cons n (Nodes.cons (string_lit b re) _)) =
      Post-require _ _ _ λ _. Post-require _ _ _ λ h. accepted (matches-Applies valid t u re h)
  pattern_rule-Post valid t u (Nodes.cons n (Nodes.cons m _)) = Post-require _ _ _ λ _. rejected
  pattern_rule-Post valid t u (Nodes.cons n Nodes.nil) = rejected
  pattern_rule-Post valid t u Nodes.nil = rejected

  fn_rule-Post :
      (valid : MatchesValid full_match) (i : ℕ) (name : Text) (f : Fn) (ts : List Ty) (ns : Nodes F)
      (re : Text)
      → Post (Applies f ts) (fn_rule i name f ts ns re)
  unfolding fn_rule
  fn_rule-Post valid i name Fn.size (t ∷ []) ns re =
      Post-require _ _ _ λ _. accepted (size-Applies t re)
  fn_rule-Post valid i name Fn.int_of (t ∷ []) ns re =
      Post-require _ _ _ λ h. accepted (int-Applies t re h)
  fn_rule-Post valid i name Fn.double_of (t ∷ []) ns re =
      Post-require _ _ _ λ h. accepted (double-Applies t re h)
  fn_rule-Post valid i name Fn.matches (t ∷ u ∷ []) ns re = pattern_rule-Post valid t u ns
  fn_rule-Post valid i name Fn.starts_with (t ∷ u ∷ []) ns re =
      Post-bind (Any-Post _) λ _ _. accepted (string-Applies Fn.starts_with t u re refl)
  fn_rule-Post valid i name Fn.ends_with (t ∷ u ∷ []) ns re =
      Post-bind (Any-Post _) λ _ _. accepted (string-Applies Fn.ends_with t u re refl)
  fn_rule-Post valid i name Fn.contains_sub (t ∷ u ∷ []) ns re =
      Post-bind (Any-Post _) λ _ _. accepted (string-Applies Fn.contains_sub t u re refl)
  fn_rule-Post valid i name f ts ns re = rejected

  -- Arguments that evaluate to values of their types.
  pub data Args (c : Names) : Nodes F → List Ty → Type 0 where
    no_args : Args c Nodes.nil []
    arg :
        {n : Node F} {ns : Nodes F} {t : Ty} {ts : List Ty}
        → Evals ops schema full_match c n t
        → Args c ns ts
        → Args c (Nodes.cons n ns) (t ∷ ts)

  eval_all-Runs :
      (c : Names) (ns : Nodes F) (ts : List Ty)
      → Args c ns ts
      → Runs schema c (λ vs. HaveTypes schema vs ts) (eval_all ops schema full_match ns)
  unfolding eval
  eval_all-Runs c ns ts no_args = Runs-pure _ none_left
  eval_all-Runs c ns ts (arg {n} {ns = rest} h hs) =
      Runs-bind _ _ (eval-Keeps ops schema full_match n) h.at λ v hv.
        Runs-bind _ _ (eval_all-Keeps ops schema full_match rest) (eval_all-Runs c rest _ hs)
          λ vs hvs. Runs-pure _ (argument hv hvs)

  -- `has` of a field that the checker found.
  record Asks (c : Names) (ns : Nodes F) (typed : Ty × Text) : Type 0 where
    pub at : Runs schema c (λ v. HasType schema v typed.0) (eval_has ops schema full_match ns)

  has_rule-Post :
      (c : Names) (i : ℕ) (ns : Nodes F) (re : Text) (t : Ty) (ts : List Ty)
      → Args c ns (t ∷ ts)
      → Post (Asks c ns) (has_rule i ns re)
  unfolding has_rule
  has_rule-Post c i ns re t ts (arg {n = select b x name (some f)} {ns = rest} h hs) =
      accepted (record { at = h.test rest refl })
  has_rule-Post c i ns re t ts (arg h hs) = rejected

  has_arity-Post :
      (c : Names) (i : ℕ) (name : Text) (ts : List Ty) (ns : Nodes F) (re : Text)
      → Args c ns ts
      → Post (Asks c ns) (has_arity i name ts ns re)
  unfolding has_arity
  has_arity-Post c i name (t ∷ []) ns re h = has_rule-Post c i ns re t [] h
  has_arity-Post c i name ts ns re h = rejected

  has-Evals :
      (c : Names) (b : NodeBase) (fn : Text) (ns : Nodes F) (t : Ty) (re : Text)
      → text_eq fn (bytes "has") ≡ true
      → Asks c ns (t, re)
      → Evals ops schema full_match c (call b fn ns re) t
  unfolding eval choose
  has-Evals c b fn ns t re e h = plain ops schema full_match _ _ refl (rw e h.at)

  fn-Evals :
      (c : Names) (b : NodeBase) (fn : Text) (ns : Nodes F) (ts : List Ty) (t : Ty) (re : Text)
      → text_eq fn (bytes "has") ≡ false
      → Args c ns ts
      → Applies (fn_of fn) ts (t, re)
      → Evals ops schema full_match c (call b fn ns re) t
  unfolding eval choose
  fn-Evals c b fn ns ts t re e hs h = plain ops schema full_match _ _ refl (
      rw e (
        Runs-bind _ _ (eval_all-Keeps ops schema full_match ns) (eval_all-Runs c ns ts hs)
          λ vs hvs. Runs-lift _ (h.at vs hvs)))

  -- The type, and the node with the types written.
  pub record Typing (c : Names) (tn : Ty × Node F) : Type 0 where
    pub at : Evals ops schema full_match c tn.1 tn.0

  pub call_rule-Post :
      (c : Names) (valid : MatchesValid full_match) (b : NodeBase) (fn re : Text) (ts : List Ty)
      (ns : Nodes F)
      → Args c ns ts
      → Post (Typing c) (call_rule b fn re (ts, ns))
  unfolding call_rule
  call_rule-Post c valid b fn re ts ns hs = elim (Bool-cases (text_eq fn (bytes "has"))) [
    | inl e ↦ rw e (
        Post-bind (has_arity-Post c b.pos fn ts ns re hs)
          λ typed h. accepted (record { at = has-Evals c _ fn ns typed.0 typed.1 e h }))
    | inr e ↦ rw e (
        Post-bind (fn_rule-Post valid b.pos fn (fn_of fn) ts ns re)
          λ typed h. accepted (record { at = fn-Evals c _ fn ns ts typed.0 typed.1 e hs h }))
  ]
