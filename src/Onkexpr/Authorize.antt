-- ===== src/Onkexpr/Authorize.antt =====
-- internal/onkexpr/authorize.go: the rules that say who may call a method.
pub mod Sound
mod Tests
use onekit.Base.{ℕ, Bool, Option, none, some, List, [], ◌∷◌, Text, bytes, text_eq, if◌then◌else◌}
use onekit.Onkir.Schema
use onekit.Onkir.Schema.{Schema, Arg, Decorator}
use onekit.Onkexpr.Syntax.{Ty, Node}
use onekit.Onkexpr.Check.{check_rule}
use onekit.Onkexpr.Check.Types.{Names}
use onekit.Onkexpr.Rules.{
  Compiled, ok, failed, ◌>>=◌, needs_two_arguments, needs_principal, compiled,
}

-- `AuthRule`
pub record AuthRule (F : Type 0) : Type 0 where
  pub source : Text
  pub message : Text
  pub expr : Node F

-- `AuthEnv`: `auth` is the principal, and `req` the request.
abbrev pub auth_env : ℕ → ℕ → Names
auth_env principal request = record {
  scope = [];
  env = λ name.
      if text_eq name (bytes "auth")
      then some (Ty.message principal)
      else if text_eq name (bytes "req")
      then some (Ty.message request)
      else none;
}

-- `Method.AuthorizeRules`
unfoldable pub authorize_rules : List Decorator → List Decorator
authorize_rules [] = []
authorize_rules (d ∷ ds) =
    let rest = authorize_rules ds in if text_eq d.name (bytes "authorize") then d ∷ rest else rest

module _ {F : Type 0} (schema : Schema) (parse_float : Text → Option F) where
  -- `CompileAuthorize`
  unfoldable pub compile_authorize : ℕ → ℕ → Text → Compiled (Node F)
  unfolding check_rule
  compile_authorize principal request src =
      compiled (check_rule schema parse_float (auth_env principal request) src)

  -- One round of the loop of `AuthRulesFor`, before the rest of it.
  abbrev pub add_authorize :
      ℕ → ℕ → List Arg → Compiled (List (AuthRule F)) → Compiled (List (AuthRule F))
  add_authorize principal request (src ∷ message ∷ []) rest = do
    n ← compile_authorize principal request src.value
    rules ← rest
    ok (record { source = src.value; message = message.value; expr = n } ∷ rules)
  add_authorize principal request _ rest = failed needs_two_arguments

  unfoldable pub authorize_loop : ℕ → ℕ → List Decorator → Compiled (List (AuthRule F))
  unfolding compile_authorize
  authorize_loop principal request [] = ok []
  authorize_loop principal request (d ∷ ds) =
      add_authorize principal request d.args (authorize_loop principal request ds)

  -- A method with no rule needs no principal.
  abbrev pub with_principal : Option ℕ → ℕ → List Decorator → Compiled (List (AuthRule F))
  with_principal principal request [] = ok []
  with_principal none request (d ∷ ds) = failed needs_principal
  with_principal (some principal) request (d ∷ ds) = authorize_loop principal request (d ∷ ds)

  -- `AuthRulesFor`
  unfoldable pub auth_rules_for : Schema.Method → Compiled (List (AuthRule F))
  unfolding authorize_rules authorize_loop
  auth_rules_for m = with_principal m.principal m.request (authorize_rules m.decorators)
