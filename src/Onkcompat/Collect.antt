-- ===== src/Onkcompat/Collect.antt =====
-- internal/onkcompat/compat.go: the messages, enums, routes and uses of a package, by their names.
pub mod Distinct
use onekit.Base.{
  ℕ, zero, suc, Bool, true, false, not, Option, none, some, List, [], ◌∷◌, ◌++◌, map, Text, bytes,
  text_eq, ◌&&◌, ◌||◌, if◌then◌else◌,
}
use onekit.Base.Dict.{Dict, lookup, insert}
use onekit.Onkir.Schema
use onekit.Onkir.Schema.{
  Schema, FieldType, Field, Oneof, OneofVariant, Decorator, Service, Method, File,
}
use onekit.Onkir.Decorators.{find_decorator}
use onekit.Onkir.Members.{or_empty, value_in}
use onekit.Onkir.Methods.{verb, path, web_socket_path}
use onekit.Onkir.Names.{full_name, enum_full_name}
use onekit.Onkcompat.Signatures.{method_signature}

-- A compiled package: its files, and the store of the messages and enums that they point at, of which
-- there are `size`.
pub record Package : Type 0 where
  pub schema : Schema
  pub size : ℕ
  pub files : List File

-- A loop that writes to a map.
unfoldable pub fold_map {ℓ κ} : {A : Type ℓ} {S : Type κ} → (A → S → S) → List A → S → S
fold_map f [] s = s
fold_map f (x ∷ xs) s = fold_map f xs (f x s)

-- `direction`: a set of two bits.
pub record Use : Type 0 where
  pub in_request : Bool
  pub in_response : Bool

abbrev pub unused : Use
unused = record { in_request = false; in_response = false }

abbrev pub in_both : Use
in_both = record { in_request = true; in_response = true }

abbrev pub used_in_request : Use
used_in_request = record { in_request = true; in_response = false }

abbrev pub used_in_response : Use
used_in_response = record { in_request = false; in_response = true }

abbrev pub join_use : Use → Use → Use
join_use a b = record {
  in_request = a.in_request || b.in_request;
  in_response = a.in_response || b.in_response;
}

-- `a & b == b`
abbrev covers : Use → Use → Bool
covers a b = (a.in_request || not b.in_request) && (a.in_response || not b.in_response)

abbrev or_unused : Option Use → Use
or_unused none = unused
or_unused (some u) = u

-- `out[name]`, and `out[name] |= use`
unfoldable pub use_of : Dict Use → Text → Use
unfolding lookup
use_of d name = or_unused (lookup name d)

unfoldable pub mark_use : Text → Use → Dict Use → Dict Use
unfolding use_of insert
mark_use name u d = insert name (join_use (use_of d name) u) d

-- `enumUsageKey`
abbrev pub enum_usage_key : Text → Text
enum_usage_key name = bytes "enum:" ++ name

module _ (p : Package) where
  -- `markType`, with `mark` as a parameter
  mark_type : (ℕ → Use → Dict Use → Dict Use) → FieldType → Use → Dict Use → Dict Use
  unfolding enum_full_name mark_use
  mark_type mark (FieldType.scalar k) u d = d
  mark_type mark (FieldType.message i) u d = mark i u d
  mark_type mark (FieldType.enum i) u d =
      mark_use (enum_usage_key (enum_full_name p.schema (p.schema.enum_at i))) u d
  mark_type mark (FieldType.map_of k t) u d = mark_type mark t u d

  mark_any : (ℕ → Use → Dict Use → Dict Use) → Option FieldType → Use → Dict Use → Dict Use
  unfolding mark_type
  mark_any mark none u d = d
  mark_any mark (some t) u d = mark_type mark t u d

  mark_oneof : (ℕ → Use → Dict Use → Dict Use) → Option Oneof → Use → Dict Use → Dict Use
  unfolding mark_any fold_map
  mark_oneof mark none u d = d
  mark_oneof mark (some o) u d = fold_map (λ v. mark_any mark v.type u) o.variants d

  mark_field : (ℕ → Use → Dict Use → Dict Use) → Use → Field → Dict Use → Dict Use
  unfolding mark_any mark_oneof
  mark_field mark u f d = mark_oneof mark f.oneof u (mark_any mark f.type u d)

  abbrev enter : Bool → Dict Use → Dict Use → Dict Use
  enter true d rest = d
  enter false d rest = rest

  -- `mark`. A call marks one more message than the call that made it, so calls nest no deeper than there
  -- are messages.
  mark : ℕ → ℕ → Use → Dict Use → Dict Use
  unfolding mark_field full_name mark_use fold_map
  mark zero i u d = d
  mark (suc fuel) i u d =
      let name = full_name p.schema (p.schema.message_at i) in
      enter (covers (use_of d name) u) d
        (fold_map (mark_field (mark fuel) u) (p.schema.message_at i).fields (mark_use name u d))

  mark_method : Method → Dict Use → Dict Use
  unfolding mark fold_map
  mark_method m d =
      fold_map (λ i. mark (suc p.size) i used_in_response) m.error_types
        (mark (suc p.size) m.response used_in_response
          (mark (suc p.size) m.request used_in_request d))

  -- `messageUsage`
  unfoldable pub message_usage : Dict Use
  unfolding mark_method fold_map
  message_usage =
      fold_map (λ (f : File). fold_map (λ (s : Service). fold_map mark_method s.methods) f.services)
        p.files []

  -- `add` of `messages`: a nested message has a greater address than its parent.
  add_message : ℕ → ℕ → Dict Schema.Message → Dict Schema.Message
  unfolding full_name fold_map insert
  add_message zero i d = d
  add_message (suc fuel) i d =
      let m = p.schema.message_at i in
      fold_map (add_message fuel) m.nested (insert (full_name p.schema m) m d)

  -- `messages`
  unfoldable pub messages : Dict Schema.Message
  unfolding add_message fold_map
  messages = fold_map (λ (f : File). fold_map (add_message (suc p.size)) f.messages) p.files []

  add_enum : ℕ → Dict Schema.Enum → Dict Schema.Enum
  unfolding enum_full_name insert
  add_enum i d = insert (enum_full_name p.schema (p.schema.enum_at i)) (p.schema.enum_at i) d

  -- `addMessage` of `enums`
  add_nested_enums : ℕ → ℕ → Dict Schema.Enum → Dict Schema.Enum
  unfolding add_enum fold_map
  add_nested_enums zero i d = d
  add_nested_enums (suc fuel) i d =
      let m = p.schema.message_at i in
      fold_map (add_nested_enums fuel) m.nested (fold_map add_enum m.nested_enums d)

  add_file_enums : File → Dict Schema.Enum → Dict Schema.Enum
  unfolding add_nested_enums add_enum fold_map
  add_file_enums f d =
      fold_map (add_nested_enums (suc p.size)) f.messages (fold_map add_enum f.enums d)

  -- `enums`
  unfoldable pub enums : Dict Schema.Enum
  unfolding add_file_enums fold_map
  enums = fold_map add_file_enums p.files []

-- `fields`
unfoldable pub fields : Schema.Message → Dict Field
unfolding insert fold_map
fields m = fold_map (λ (f : Field). insert f.name f) m.fields []

-- `routeKey`
unfoldable pub route_key : Text → Text → Text → Text → Text
route_key file service verb full_path =
    let key = service ++ bytes " " ++ verb ++ bytes " " ++ full_path in
    if text_eq file [] then key else file ++ bytes "." ++ key

module _ (to_lower : Text → Text) (p : Package) where
  abbrev http_route :
      File → Service → Method → Option Text → Option Text → Dict (List Text) → Dict (List Text)
  unfolding route_key method_signature insert
  http_route f s m (some v) (some path) d =
      insert (route_key f.package_name s.name v (s.base_path ++ path))
        (method_signature to_lower p.schema s m) d
  http_route f s m _ _ d = d

  add_route : File → Service → Option Text → Method → Dict (List Text) → Dict (List Text)
  unfolding http_route path
  add_route f s (some ws_path) m d =
      insert (route_key f.package_name s.name (bytes "ws") (s.base_path ++ ws_path))
        (method_signature to_lower p.schema s m) d
  add_route f s none m d = http_route f s m (verb m) (path m) d

  -- `routes`
  unfoldable pub routes : Dict (List Text)
  unfolding add_route fold_map
  routes =
      fold_map
        (λ (f : File).
          fold_map
            (λ (s : Service).
              fold_map (λ (m : Method). add_route f s (web_socket_path m) m) s.methods)
            f.services)
        p.files []
