-- ===== src/Onkcompile/Tests.antt =====
-- internal/onkcompile and httpkit/guard.go, run on the declarations of an RPC.
use onekit.Onkcompile.Decls.{route_in}
use onekit.Onkcompile.Decls.{route_in}
use onekit.Base.{◌≡◌, refl, false, none, some, [], ◌∷◌, map, Text, bytes, text_eq}
use onekit.Base.Strings.{split, trim_suffix}
use onekit.Onkir.Schema.{Arg}
use onekit.Onkir.Paths.{path_param_names, scan_names}
use onekit.Onkschema.{Decorator, RpcDecl}
use onekit.Onkcompile.Paths.{path_parameter_names, parameters_from, validate_http_path}
use onekit.Onkcompile.Paths.Agree.{path_param_names-path_parameter_names}
use onekit.Onkcompile.Authz.{validate_guard}
use onekit.Onkcompile.Authz.Guards.{resolve_guards-validate_guard}
use onekit.Httpkit.Guard.{
  filled, resolve_guard, resolve_guards, resolve_guard-split, Resolves, safe_guard_value,
}
use onekit.Onkexpr.Samples.{argument}

abbrev route : Text
route = bytes "/pets/{id}/{rest...}"

route_accepted : validate_http_path route false ≡ none
unfolding validate_http_path text_eq parameters_from trim_suffix
route_accepted = refl

path_param_names-path_parameter_names_example : path_param_names route ≡ path_parameter_names route
path_param_names-path_parameter_names_example =
    path_param_names-path_parameter_names route false route_accepted

-- On a route that is refused the two differ.
nested : parameters_from none (bytes "/{a{b}") ≡ bytes "a{b" ∷ []
unfolding parameters_from trim_suffix
nested = refl

nested_scanned : scan_names none (bytes "/{a{b}") ≡ bytes "b" ∷ []
unfolding scan_names trim_suffix
nested_scanned = refl

abbrev guard_decorator : Decorator
guard_decorator = record {
  name = bytes "guard";
  args = argument (bytes "pet/:id") ∷ [];
  line = 3;
  col = 5;
}

abbrev get_decorator : Decorator
get_decorator = record { name = bytes "get"; args = argument route ∷ []; line = 2; col = 5 }

abbrev get_pet : RpcDecl
get_pet = record {
  name = bytes "GetPet";
  decorators = get_decorator ∷ guard_decorator ∷ [];
  headers = [];
  line = 4;
  col = 3;
}

abbrev values : Text → Text
values _ = bytes "42"

guard_accepted : validate_guard [] get_pet guard_decorator ≡ none
unfolding validate_guard text_eq parameters_from route_in trim_suffix
guard_accepted = refl

resolve_guards-validate_guard_example :
    Resolves (resolve_guards values (map (λ (a : Arg). a.value) guard_decorator.args))
unfolding parameters_from route_in text_eq
resolve_guards-validate_guard_example =
    resolve_guards-validate_guard [] get_pet guard_decorator values guard_accepted
      (unfold safe_guard_value in (refl, (refl, tt)))

guard_resolved : resolve_guard values (bytes "pet/:id") ≡ some (bytes "pet/42")
unfolding resolve_guard text_eq
guard_resolved = refl

resolve_guard-split_example :
    split b'/' (bytes "pet/42") ≡ map (filled values) (split b'/' (bytes "pet/:id"))
resolve_guard-split_example =
    resolve_guard-split values (bytes "pet/:id") (bytes "pet/42") guard_resolved
