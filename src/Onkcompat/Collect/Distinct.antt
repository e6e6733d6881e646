-- ===== src/Onkcompat/Collect/Distinct.antt =====
-- internal/onkcompat/compat.go: no key of the maps of a package has two entries.
use onekit.Base.{ℕ, zero, suc, Option, none, some, List, [], ◌∷◌, Text}
use onekit.Base.Dict.{Dict, Distinct, insert-Distinct}
use onekit.Onkir.Schema
use onekit.Onkir.Schema.{Schema, Field, File, Service, Method}
use onekit.Onkcompat.Collect.{
  Package, fold_map, add_message, messages, add_enum, add_nested_enums, add_file_enums, enums,
  fields, http_route, add_route, routes,
}

fold_map-Distinct {ℓ} :
    {A : Type ℓ} {V : Type 0} (f : A → Dict V → Dict V) (xs : List A) (d : Dict V)
    → ((x : A) (d' : Dict V) → Distinct d' → Distinct (f x d'))
    → Distinct d
    → Distinct (fold_map f xs d)
unfolding fold_map
fold_map-Distinct f [] d k h = h
fold_map-Distinct f (x ∷ xs) d k h = fold_map-Distinct f xs (f x d) k (k x d h)

module _ (p : Package) where
  add_message-Distinct :
      (fuel i : ℕ) (d : Dict Schema.Message) → Distinct d → Distinct (add_message p fuel i d)
  unfolding add_message
  add_message-Distinct zero i d h = h
  add_message-Distinct (suc fuel) i d h =
      fold_map-Distinct (add_message p fuel) (p.schema.message_at i).nested _
        (add_message-Distinct fuel) (insert-Distinct _ _ d h)

  pub messages-Distinct : Distinct (messages p)
  unfolding messages
  messages-Distinct =
      fold_map-Distinct _ p.files []
        (λ (f : File) d h. fold_map-Distinct _ f.messages d (add_message-Distinct (suc p.size)) h)
        tt

  add_enum-Distinct : (i : ℕ) (d : Dict Schema.Enum) → Distinct d → Distinct (add_enum p i d)
  unfolding add_enum
  add_enum-Distinct i d h = insert-Distinct _ _ d h

  add_nested_enums-Distinct :
      (fuel i : ℕ) (d : Dict Schema.Enum) → Distinct d → Distinct (add_nested_enums p fuel i d)
  unfolding add_nested_enums
  add_nested_enums-Distinct zero i d h = h
  add_nested_enums-Distinct (suc fuel) i d h =
      fold_map-Distinct (add_nested_enums p fuel) (p.schema.message_at i).nested _
        (add_nested_enums-Distinct fuel)
        (fold_map-Distinct (add_enum p) (p.schema.message_at i).nested_enums d add_enum-Distinct h)

  add_file_enums-Distinct :
      (f : File) (d : Dict Schema.Enum) → Distinct d → Distinct (add_file_enums p f d)
  unfolding add_file_enums
  add_file_enums-Distinct f d h =
      fold_map-Distinct _ f.messages _ (add_nested_enums-Distinct (suc p.size))
        (fold_map-Distinct (add_enum p) f.enums d add_enum-Distinct h)

  pub enums-Distinct : Distinct (enums p)
  unfolding enums
  enums-Distinct = fold_map-Distinct (add_file_enums p) p.files [] add_file_enums-Distinct tt

pub fields-Distinct : (m : Schema.Message) → Distinct (fields m)
unfolding fields
fields-Distinct m = fold_map-Distinct _ m.fields [] (λ f d h. insert-Distinct _ _ d h) tt

module _ (to_lower : Text → Text) (p : Package) where
  http_route-Distinct :
      (f : File) (s : Service) (m : Method) (v path : Option Text) (d : Dict (List Text))
      → Distinct d
      → Distinct (http_route to_lower p f s m v path d)
  unfolding http_route
  http_route-Distinct f s m none path d h = h
  http_route-Distinct f s m (some v) none d h = h
  http_route-Distinct f s m (some v) (some path) d h = insert-Distinct _ _ d h

  add_route-Distinct :
      (f : File) (s : Service) (o : Option Text) (m : Method) (d : Dict (List Text))
      → Distinct d
      → Distinct (add_route to_lower p f s o m d)
  unfolding add_route
  add_route-Distinct f s (some path) m d h = insert-Distinct _ _ d h
  add_route-Distinct f s none m d h = http_route-Distinct f s m _ _ d h

  pub routes-Distinct : Distinct (routes to_lower p)
  unfolding routes
  routes-Distinct =
      fold_map-Distinct _ p.files []
        (λ (f : File) d h.
          fold_map-Distinct _ f.services d
            (λ (s : Service) d' h'.
              fold_map-Distinct _ s.methods d'
                (λ (m : Method) d'' h''. add_route-Distinct f s _ m d'' h'') h')
            h)
        tt
