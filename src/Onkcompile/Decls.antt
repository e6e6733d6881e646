-- ===== src/Onkcompile/Decls.antt =====
-- internal/onkcompile: decorators of declarations, the HTTP verbs, and `convertDecorators`.
use onekit.Base.{
  Bool, true, false, Option, none, some, List, [], ◌∷◌, map, Text, bytes, text_eq, ◌||◌,
  if◌then◌else◌,
}
use onekit.Onkir.Schema.{Arg}
use onekit.Onkir.Schema
use onekit.Base.Strings.{trim_prefix}
use onekit.Onkcompile.Errors.{contains}
use onekit.Onkschema.{Decorator, RpcDecl}

-- `findDecorator` and `hasDecorator` of internal/onkcompile/validate.go
unfoldable pub find_declared : List Decorator → Text → Option Decorator
find_declared [] name = none
find_declared (d ∷ ds) name = if text_eq d.name name then some d else find_declared ds name

unfoldable pub has_declared : List Decorator → Text → Bool
unfolding find_declared
has_declared ds name = elim (find_declared ds name) [ none ↦ false | some _ ↦ true ]

-- `isHTTPVerb` and `isBodyBearingVerb`
unfoldable pub is_declared_verb : Text → Bool
is_declared_verb name =
    text_eq name (bytes "get")
    || text_eq name (bytes "post")
    || text_eq name (bytes "put")
    || text_eq name (bytes "delete")
    || text_eq name (bytes "patch")
    || text_eq name (bytes "query")
    || text_eq name (bytes "any")

-- The first argument's value; the callers have tested that there is one.
abbrev pub first_value : List Arg → Text
first_value [] = []
first_value (a ∷ rest) = a.value

abbrev single_value : List Arg → Option Text
single_value (a ∷ []) = some a.value
single_value _ = none

abbrev or_route : Bool → Option Text → Text → Text
or_route true (some v) rest = v
or_route true none rest = rest
or_route false o rest = rest

-- `rpcRoute`
unfoldable pub route_in : List Decorator → Text
unfolding is_declared_verb
route_in [] = []
route_in (d ∷ ds) = or_route (is_declared_verb d.name) (single_value d.args) (route_in ds)

abbrev pub rpc_route : RpcDecl → Text
rpc_route rpc = route_in rpc.decorators

-- `numericDecorators`
abbrev numeric_decorators : List Text
numeric_decorators =
    map bytes
      ("len" ∷ "min_items" ∷ "max_items" ∷ "gt" ∷ "gte" ∷ "lt" ∷ "lte" ∷ "range" ∷ "in" ∷ [])

unplussed : Arg → Arg
unfolding trim_prefix
unplussed a = if a.quoted then a else record a { value = trim_prefix a.value (bytes "+") }

-- `convertArgs` keeps all that there is in the model.
convert_args : Bool → List Arg → List Arg
unfolding unplussed
convert_args numeric args = if numeric then map unplussed args else args

-- `convertDecorators`
unfoldable pub convert_decorator : Decorator → Schema.Decorator
unfolding convert_args
convert_decorator d = record {
  name = d.name;
  args = convert_args (contains numeric_decorators d.name) d.args;
}

abbrev pub convert_decorators : List Decorator → List Schema.Decorator
convert_decorators ds = map convert_decorator ds
