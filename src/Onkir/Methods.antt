-- ===== src/Onkir/Methods.antt =====
-- internal/onkir/helpers.go: what the decorators of a method say.
use onekit.Base.{
  Bool, true, false, not, Option, none, some, List, [], ◌∷◌, ◌++◌, map, Text, bytes, text_eq, ◌&&◌,
  ◌||◌, any, if◌then◌else◌,
}
use onekit.Base.Int.{ℤ, pos}
use onekit.Base.Decimal.{parse_int64}
use onekit.Onkir.Schema.{Arg, Decorator, Method, File, Service, Message}
use onekit.Onkir.Decorators.{find_decorator, has_decorator, named_arg, value}
use onekit.Onkir.Members.{is_some, or_empty, value_in}

-- `HTTPVerbs`
abbrev pub http_verbs : List Text
http_verbs = map bytes ("get" ∷ "post" ∷ "put" ∷ "delete" ∷ "patch" ∷ "query" ∷ "any" ∷ [])

unfoldable pub is_http_verb : Text → Bool
is_http_verb name = any (text_eq name) http_verbs

-- `Method.Verb`: the name of the first decorator that is a verb.
unfoldable pub verb_in : List Decorator → Option Text
verb_in [] = none
verb_in (d ∷ ds) = if is_http_verb d.name then some d.name else verb_in ds

abbrev pub verb : Method → Option Text
verb m = verb_in m.decorators

abbrev path_at : List Decorator → Option Text → Option Text
path_at ds none = none
path_at ds (some v) = value_in (find_decorator ds v)

-- `Method.Path`
unfoldable pub path : Method → Option Text
path m = path_at m.decorators (verb m)

abbrev pub method_has : Method → Text → Bool
method_has m name = has_decorator m.decorators name

abbrev arg_values : List Arg → List Text
arg_values = map (λ a. a.value)

abbrev scopes_of : Option Decorator → List Text
scopes_of none = []
scopes_of (some d) = arg_values d.args

-- `Method.RequiredScopes`
unfoldable pub required_scopes : Method → List Text
required_scopes m = scopes_of (find_decorator m.decorators (bytes "requires"))

unfoldable pub guards_in : List Decorator → List Text
guards_in [] = []
guards_in (d ∷ ds) =
    let rest = guards_in ds in
    if text_eq d.name (bytes "guard") then arg_values d.args ++ rest else rest

-- `Method.Guards`
abbrev pub guards : Method → List Text
guards m = guards_in m.decorators

-- `Method.IsRawHTTP`
abbrev pub is_raw_http : Method → Bool
is_raw_http m = method_has m (bytes "http")

first_positional : List Arg → Text
first_positional [] = []
first_positional (a ∷ rest) = if text_eq a.name [] then a.value else first_positional rest

abbrev content_type_of : Option Decorator → Text
unfolding first_positional
content_type_of none = []
content_type_of (some d) = first_positional d.args

-- `Method.RawContentType`
unfoldable pub raw_content_type : Method → Text
unfolding content_type_of
raw_content_type m = content_type_of (find_decorator m.decorators (bytes "http"))

-- `IsBodyBearingVerb`
unfoldable pub is_body_bearing_verb : Text → Bool
is_body_bearing_verb v =
    text_eq v (bytes "post")
    || text_eq v (bytes "put")
    || text_eq v (bytes "patch")
    || text_eq v (bytes "query")
    || text_eq v (bytes "any")

abbrev named_in : Option Decorator → Text → Option Text
named_in none name = none
named_in (some d) name = named_arg d name

abbrev bears_body : Option Text → Bool
unfolding is_body_bearing_verb
bears_body none = false
bears_body (some v) = is_body_bearing_verb v

abbrev default_request : Option Text → Option Text → Text
unfolding bears_body
default_request (some kind) v = kind
default_request none v = if bears_body v then bytes "stream" else bytes "none"

-- `Method.RawRequestKind`
unfoldable pub raw_request_kind : Method → Text
unfolding default_request
raw_request_kind m =
    default_request (named_in (find_decorator m.decorators (bytes "http")) (bytes "request"))
      (verb m)

abbrev or_stream : Option Text → Text
or_stream none = bytes "stream"
or_stream (some kind) = kind

-- `Method.RawResponseKind`
unfoldable pub raw_response_kind : Method → Text
raw_response_kind m =
    or_stream (named_in (find_decorator m.decorators (bytes "http")) (bytes "response"))

-- `Method.RawIsFetchable`
unfoldable pub raw_is_fetchable : Method → Bool
raw_is_fetchable m =
    let kind = raw_response_kind m in
    not (text_eq kind (bytes "redirect")) && not (text_eq kind (bytes "websocket"))

abbrev or_200 : Option ℤ → ℤ
or_200 none = pos 200
or_200 (some n) = n

abbrev status_of : Option Decorator → ℤ
status_of none = pos 200
status_of (some d) = or_200 (parse_int64 (or_empty (value d)))

-- `Method.SuccessStatus`
unfoldable pub success_status : Method → ℤ
success_status m = status_of (find_decorator m.decorators (bytes "success"))

-- `Method.IsStream`
abbrev pub is_stream : Method → Bool
is_stream m = method_has m (bytes "stream")

-- `Method.WebSocketPath` and `Method.IsWebSocket`
abbrev pub web_socket_path : Method → Option Text
web_socket_path m = value_in (find_decorator m.decorators (bytes "ws"))

abbrev pub is_web_socket : Method → Bool
is_web_socket m = is_some (web_socket_path m)

-- `Method.BodyField`
abbrev pub body_field : Method → Option Text
body_field m = value_in (find_decorator m.decorators (bytes "body"))

-- `MetaEntry`
pub record MetaEntry : Type 0 where
  pub key : Text
  pub value : Text

-- The arguments of a decorator that has two.
abbrev two_args : List Arg → Option MetaEntry
two_args (a ∷ b ∷ []) = some (record { key = a.value; value = b.value })
two_args _ = none

abbrev add_meta : Bool → Option MetaEntry → List MetaEntry → List MetaEntry
add_meta true (some e) rest = e ∷ rest
add_meta true none rest = rest
add_meta false e rest = rest

unfoldable pub meta_in : List Decorator → List MetaEntry
meta_in [] = []
meta_in (d ∷ ds) = add_meta (text_eq d.name (bytes "meta")) (two_args d.args) (meta_in ds)

-- `Method.Meta`
abbrev pub meta : Method → List MetaEntry
meta m = meta_in m.decorators

any_method : (Method → Bool) → List Service → Bool
any_method p services = any (λ s. any p s.methods) services

-- `FileHasStreamMethods` and `FileHasWSMethods`
unfoldable pub file_has_stream_methods : File → Bool
unfolding any_method
file_has_stream_methods f = any_method is_stream f.services

unfoldable pub file_has_ws_methods : File → Bool
unfolding any_method
file_has_ws_methods f = any_method is_web_socket f.services

status_in : Option Decorator → Option ℤ
status_in none = none
status_in (some d) = elim (value d) [ none ↦ none | some v ↦ parse_int64 v ]

-- `Message.StatusCode`
unfoldable pub status_code : Message → Option ℤ
unfolding status_in
status_code m = status_in (find_decorator m.decorators (bytes "status"))
