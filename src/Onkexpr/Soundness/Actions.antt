-- ===== src/Onkexpr/Soundness/Actions.antt =====
-- internal/onkexpr/eval.go: actions on scopes that hold what the checker takes the names for.
use onekit.Base.{
  ◌≡◌, subst, Bool, true, false, not, Option, none, some, Text, text_eq, inl, inr, Bool-cases,
}
use onekit.Onkir.Schema.{Schema}
use onekit.Onkexpr.Outcome.{Result}
use onekit.Onkexpr.Syntax.{Ty, Quantifier}
use onekit.Onkexpr.Value.{Value, Values, as_bool}
use onekit.Onkexpr.Exec.{Scope, Exec, assign, pure, lift, choose, continue, ◌>>=◌}
use onekit.Onkexpr.Eval.{decides, by_default, quantify_loop, quantify}
use onekit.Onkexpr.Eval.ScopeLaws.{Keeps}
use onekit.Onkexpr.Check.Types.{Names, lookup, find_in, push}
use onekit.Onkexpr.Soundness.Typed
use onekit.Onkexpr.Soundness.Typed.{HasType, Items, Good, returns, raises}

module _ {F : Type 0} (schema : Schema) where
  abbrev pub Present : Option (Value F) → Ty → Type 0
  Present none t = ⊥
  Present (some v) t = HasType schema v t

  -- Every name that the checker knows has a value of its type.
  pub record Conforms (c : Names) (s : Scope F) : Type 0 where
    pub at : (name : Text) (t : Ty) → lookup c name ≡ some t → Present (s name) t

  -- A run from a scope that conforms is good.
  pub record Runs {A : Type 0} (c : Names) (P : A → Type 0) (m : Exec F A) : Type 0 where
    pub at : (s : Scope F) → Conforms c s → Good P (m s).0

module _ {F A B : Type 0} {P : A → Type 0} {Q : B → Type 0} where
  continue-Good :
      {r : Result A} (f : A → Exec F B) (s : Scope F)
      → Good P r
      → ((a : A) → P a → Good Q (f a s).0)
      → Good Q (continue r f s).0
  continue-Good f s (returns {a} h) k = k a h
  continue-Good f s (raises h) k = raises h

  bind-Good :
      (m : Exec F A) (f : A → Exec F B) (s : Scope F)
      → Keeps m
      → Good P (m s).0
      → ((a : A) → P a → Good Q (f a s).0)
      → Good Q ((m >>= f) s).0
  unfolding ◌>>=◌
  bind-Good m f s keeps h k = rw (keeps.at s) (continue-Good f s h k)

  pub Runs-bind :
      {schema : Schema} {c : Names} (m : Exec F A) (f : A → Exec F B)
      → Keeps m
      → Runs schema c P m
      → ((a : A) → P a → Runs schema c Q (f a))
      → Runs schema c Q (m >>= f)
  Runs-bind m f keeps h k = record {
    at = λ s conforms. bind-Good m f s keeps (h.at s conforms) λ a p. (k a p).at s conforms;
  }

module _ {F A : Type 0} {schema : Schema} {c : Names} {P : A → Type 0} where
  pub Runs-pure : (a : A) → P a → Runs {F = F} schema c P (pure a)
  unfolding pure
  Runs-pure a h = record { at = λ s conforms. returns h }

  pub Runs-lift : (r : Result A) → Good P r → Runs {F = F} schema c P (lift r)
  unfolding lift
  Runs-lift r h = record { at = λ s conforms. h }

  pub Runs-choose :
      (b : Bool) (m n : Exec F A)
      → Runs schema c P m
      → Runs schema c P n
      → Runs schema c P (choose b m n)
  unfolding choose
  Runs-choose true m n hm hn = hm
  Runs-choose false m n hm hn = hn

module _ {F : Type 0} (schema : Schema) where
  -- Conforming at every name but one.
  abbrev ConformsBut : Text → Names → Scope F → Type 0
  ConformsBut x c s =
      (name : Text) (t : Ty)
      → text_eq name x ≡ false
      → lookup c name ≡ some t
      → Present schema (s name) t

  assign-Conforms :
      (x : Text) (t : Ty) (v : Value F) (c : Names) (s : Scope F)
      → ConformsBut x c s
      → HasType schema v t
      → Conforms schema (push x t c) (assign x (some v) s)
  unfolding assign lookup find_in
  assign-Conforms x t v c s h hv = record {
    at = λ name u known. elim (Bool-cases (text_eq name x)) [
      | inl e ↦ rw e (subst (HasType schema v) (cc (rw e at known)) hv)
      | inr e ↦ rw e (h name u e (rw e at known))
    ];
  }

  assign-ConformsBut :
      (x : Text) (w : Option (Value F)) (c : Names) (s : Scope F)
      → ConformsBut x c s
      → ConformsBut x c (assign x w s)
  unfolding assign
  assign-ConformsBut x w c s h name t e known = rw e (h name t e known)

  abbrev Truth : Value F → Type 0
  Truth v = HasType schema v Ty.bool

  choose-Good :
      (b : Bool) (v : Bool) (m : Exec F (Value F)) (s : Scope F)
      → Good Truth (m s).0
      → Good Truth (choose b (pure (Value.bool v)) m s).0
  unfolding choose pure
  choose-Good true v m s h = returns Typed.is_bool
  choose-Good false v m s h = h

  quantify_loop-Good :
      (q : Quantifier) (x : Text) (t : Ty) (c : Names) (body : Exec F (Value F)) (items : Values F)
      (s : Scope F)
      → Keeps body
      → Runs schema (push x t c) Truth body
      → Items schema items t
      → ConformsBut x c s
      → Good Truth (quantify_loop q x body items s).0
  unfolding quantify_loop
  quantify_loop-Good q x t c body items s keeps runs Typed.none_left h = returns Typed.is_bool
  quantify_loop-Good q x t c body items s keeps runs (Typed.item {v} {vs} hv hs) h =
      let u = assign x (some v) s in
      bind-Good body _ u keeps (runs.at u (assign-Conforms x t v c s h hv)) λ w _.
        choose-Good (decides q (as_bool w)) (not (by_default q)) _ u
          (quantify_loop-Good q x t c body vs u keeps runs hs (assign-ConformsBut x (some v) c s h))

  pub quantify-Runs :
      (q : Quantifier) (x : Text) (t : Ty) (c : Names) (body : Exec F (Value F)) (items : Values F)
      → Keeps body
      → Runs schema (push x t c) Truth body
      → Items schema items t
      → Runs schema c Truth (quantify q x body items)
  unfolding quantify
  quantify-Runs q x t c body items keeps runs hs = record {
    at = λ s conforms.
        quantify_loop-Good q x t c body items s keeps runs hs
          λ name u _ known. conforms.at name u known;
  }
