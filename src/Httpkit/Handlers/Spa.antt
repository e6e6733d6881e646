-- ===== src/Httpkit/Handlers/Spa.antt =====
-- httpkit/handlers.go: which file `SPA` answers a request with.
use onekit.Base.{◌≡◌, ◌≢◌, ◌⊎◌, true, false, some, List, [], ◌∷◌, Text, bytes}
use onekit.Base.Strings.{join}
use onekit.Httpkit.Handlers.{
  Files, has_ext, Served, method_not_allowed, not_found, index_document, file, SpaOptions,
  index_name, is_immutable,
}

module _ (opts : SpaOptions) (files : Files) where
  -- What a request with a method for a name is answered with. A name that is none of a file is a route of
  -- the app where it has no extension.
  abbrev pub Allowed : Text → Type 0
  Allowed method = (method ≡ bytes "GET") ⊎ (method ≡ bytes "HEAD")

  abbrev pub IsRoute : Text → Type 0
  IsRoute name = (name ≡ index_name opts) ⊎ ((files name ≢ some false) × (has_ext name ≡ false))

  pub data Answers (method name : Text) : Served → Type 0 where
    refused : method ≢ bytes "GET" → method ≢ bytes "HEAD" → Answers method name method_not_allowed
    by_itself :
        Allowed method
        → files name ≡ some false
        → name ≢ index_name opts
        → Answers method name (file name (is_immutable opts name))
    by_index :
        Allowed method
        → IsRoute name
        → files (index_name opts) ≡ some false
        → Answers method name index_document
    missing :
        Allowed method
        → files name ≢ some false
        → has_ext name ≡ true
        → Answers method name not_found
    no_index :
        Allowed method
        → IsRoute name
        → files (index_name opts) ≢ some false
        → Answers method name not_found

  -- Either segments of a path joined, or the index document where there are none.
  abbrev pub name_of : List Text → Text
  name_of [] = index_name opts
  name_of (s ∷ ss) = join (bytes "/") (s ∷ ss)
