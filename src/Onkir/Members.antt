-- ===== src/Onkir/Members.antt =====
-- internal/onkir/helpers.go: what the decorators of fields, oneofs and headers say.
use onekit.Base.{
  ℕ, Bool, true, false, Option, none, some, List, [], ◌++◌, Text, bytes, text_eq, ◌||◌, between,
  ◌==◌, keep, if◌then◌else◌,
}
use onekit.Onkir.Schema.{Decorator, OneofVariant, Oneof, Field, Header}
use onekit.Onkir.Decorators.{find_decorator, has_decorator, find_named, value}

abbrev pub is_some {ℓ} : {A : Type ℓ} → Option A → Bool
is_some none = false
is_some (some a) = true

abbrev pub or_empty : Option Text → Text
or_empty none = []
or_empty (some s) = s

abbrev pub value_in : Option Decorator → Option Text
value_in none = none
value_in (some d) = value d

-- `deprecation`: the reason, which may be empty, if there is the decorator.
abbrev reason_of : Option Decorator → Option Text
reason_of none = none
reason_of (some d) = some (or_empty (value d))

unfoldable pub deprecation : List Decorator → Option Text
deprecation ds = reason_of (find_decorator ds (bytes "deprecated"))

-- `Oneof.NamedArg`
abbrev pub oneof_arg : Oneof → Text → Option Text
oneof_arg o name = find_named o.args name

-- `Oneof.Discriminator`
abbrev pub discriminator : Oneof → Option Text
discriminator o = oneof_arg o (bytes "discriminator")

abbrev is_true : Option Text → Bool
is_true none = false
is_true (some v) = text_eq v (bytes "true")

-- `Oneof.Flatten`
unfoldable pub flatten : Oneof → Bool
unfolding find_named
flatten o = is_true (oneof_arg o (bytes "flatten"))

abbrev or_own_name : Text → Option Text → Text
or_own_name name none = name
or_own_name name (some s) = s

-- `OneofVariant.Tag`
unfoldable pub tag : OneofVariant → Text
unfolding find_decorator
tag v = or_own_name v.name (value_in (find_decorator v.decorators (bytes "tag")))

-- `OneofVariant.IsWSCancel`
abbrev pub is_ws_cancel : OneofVariant → Bool
is_ws_cancel v = has_decorator v.decorators (bytes "ws_cancel")

-- `Header.Required`
abbrev pub required : Header → Bool
required h = has_decorator h.decorators (bytes "required")

-- `Header.Format`, `Header.Example`, `Header.AuthType` and `Header.AuthSchemeName`
abbrev pub format : Header → Option Text
format h = value_in (find_decorator h.decorators (bytes "format"))

abbrev pub example : Header → Option Text
example h = value_in (find_decorator h.decorators (bytes "example"))

abbrev pub auth_type : Header → Option Text
auth_type h = value_in (find_decorator h.decorators (bytes "auth"))

abbrev pub auth_scheme_name : Header → Option Text
auth_scheme_name h = value_in (find_decorator h.decorators (bytes "auth_scheme_name"))

-- A byte that `securitySchemeUnsafe` does not match.
unfoldable pub is_scheme_safe : ℕ → Bool
is_scheme_safe c =
    between b'A' b'Z' c
    || between b'a' b'z' c
    || between b'0' b'9' c
    || c == b'_'
    || c == b'.'
    || c == b'-'

abbrev or_header : Text → Text
or_header s = if text_eq s [] then bytes "Header" else s

abbrev stripped_name : Header → Text
stripped_name h = or_header (keep is_scheme_safe h.name) ++ bytes "Auth"

abbrev scheme_or : Header → Option Text → Text
scheme_or h none = stripped_name h
scheme_or h (some s) = if text_eq s [] then stripped_name h else s

-- `Header.SecuritySchemeName`
unfoldable pub security_scheme_name : Header → Text
unfolding find_decorator is_scheme_safe
security_scheme_name h = scheme_or h (auth_scheme_name h)

-- `Field.HasDecorator`
abbrev pub field_has : Field → Text → Bool
field_has f name = has_decorator f.decorators name

-- `Field.IsRaw`
abbrev pub is_raw : Field → Bool
is_raw f = field_has f (bytes "raw")

-- `f.Oneof == nil`
abbrev pub no_oneof : Field → Bool
no_oneof f = elim f.oneof [ none ↦ true | some _ ↦ false ]
