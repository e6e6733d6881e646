-- ===== src/Onkcompat/Tests.antt =====
-- internal/onkcompat/compat.go, run on a package with a message, an enum and a route.
use onekit.Onkir.Methods.{is_http_verb}
use onekit.Onkir.Methods.{verb_in}
use onekit.Base.{◌≡◌, refl, none, List, [], ◌∷◌, Text, bytes, text_eq}
use onekit.Onkir.Schema
use onekit.Onkir.Schema.{Schema}
use onekit.Onkcompat.Collect.{Package, enums, messages}
use onekit.Onkcompat.Compare.{finding, route_removed}
use onekit.Onkcompat.Report.{compare_packages}
use mathlib.Core.List
use onekit.Base.Sort.{sort, less}
use onekit.Onkcompat.Signatures.{field_contract_signature}
use onekit.Onkcompat.Self.{UniqueValues, compare_packages_self}
use onekit.Onkexpr.Samples.{pet, name_field, kind_enum, argument}

abbrev get_pet : Schema.Method
get_pet = record {
  name = bytes "GetPet";
  request = 0;
  response = 0;
  error_types = [];
  decorators = record { name = bytes "get"; args = argument (bytes "/pets/{name}") ∷ [] } ∷ [];
  headers = [];
  principal = none;
}

abbrev pets_service : Schema.Service
pets_service = record {
  name = bytes "Pets";
  base_path = bytes "/v1";
  headers = [];
  methods = get_pet ∷ [];
}

abbrev file_with : List Schema.Service → Schema.File
file_with services = record {
  package_name = bytes "zoo";
  messages = 0 ∷ [];
  enums = 0 ∷ [];
  services = services;
}

abbrev package_with : List Schema.Service → Package
package_with services = record {
  schema = record { message_at = λ _. pet; enum_at = λ _. kind_enum };
  size = 1;
  files = file_with services ∷ [];
}

abbrev zoo : Package
zoo = package_with (pets_service ∷ [])

abbrev same : Text → Text
same s = s

zoo-UniqueValues : UniqueValues zoo
zoo-UniqueValues = unfold enums in ((refl, tt), tt)

compare_packages_self_example : compare_packages same zoo zoo ≡ []
compare_packages_self_example = compare_packages_self same zoo zoo-UniqueValues

-- The bar between the signatures of two decorators can be part of an argument.
abbrev constrained : List Schema.Decorator → Schema.Field
constrained ds = record name_field { decorators = ds }

abbrev id_pattern : Text → Schema.Decorator
id_pattern s = record { name = bytes "pattern"; args = argument s ∷ [] }

signatures_collide :
    field_contract_signature (constrained (id_pattern (bytes "a|uuid") ∷ []))
    ≡ field_contract_signature
        (constrained (id_pattern (bytes "a") ∷ record { name = bytes "uuid"; args = [] } ∷ []))
unfolding field_contract_signature text_eq sort less
signatures_collide = refl

-- Without its service the package has lost a route.
route_lost :
    compare_packages same zoo (package_with [])
    ≡ finding (bytes "zoo.Pets get /v1/pets/{name}") route_removed ∷ []
unfolding compare_packages text_eq verb_in is_http_verb
route_lost = refl
