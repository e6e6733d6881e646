-- ===== src/Onkir/Decorators.antt =====
-- internal/onkir/helpers.go: decorators and their arguments.
use onekit.Base.{
  ℕ, Bool, true, false, Option, none, some, List, [], ◌∷◌, Text, bytes, text_eq, get_elem?,
  if◌then◌else◌,
}
use onekit.Onkir.Schema.{Arg, Decorator, EnumValue}

-- `FindDecorator`
unfoldable pub find_decorator : List Decorator → Text → Option Decorator
find_decorator [] name = none
find_decorator (d ∷ ds) name = if text_eq d.name name then some d else find_decorator ds name

-- `HasDecorator`
abbrev pub has_decorator : List Decorator → Text → Bool
has_decorator ds name = elim (find_decorator ds name) [ none ↦ false | some d ↦ true ]

abbrev pub value_of : Option Arg → Option Text
value_of none = none
value_of (some a) = some a.value

-- `Decorator.Arg`, for an index that is not negative.
abbrev pub arg : Decorator → ℕ → Option Text
arg d i = value_of (get_elem? d.args i)

unfoldable pub find_named : List Arg → Text → Option Text
find_named [] name = none
find_named (a ∷ rest) name = if text_eq a.name name then some a.value else find_named rest name

-- `Decorator.NamedArg`
abbrev pub named_arg : Decorator → Text → Option Text
named_arg d name = find_named d.args name

-- `Decorator.Value`
abbrev pub value : Decorator → Option Text
value d = arg d 0

abbrev or_name : EnumValue → Option Text → Text
or_name v none = v.name
or_name v (some s) = s

abbrev overridden : EnumValue → Option Decorator → Text
overridden v none = v.name
overridden v (some d) = or_name v (value d)

-- `EnumValue.JSONName`: the spelling on the wire.
unfoldable pub json_name : EnumValue → Text
unfolding find_decorator
json_name v = overridden v (find_decorator v.decorators (bytes "json"))
