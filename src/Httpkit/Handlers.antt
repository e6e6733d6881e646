-- ===== src/Httpkit/Handlers.antt =====
-- httpkit/handlers.go: the readiness handler, the files of a single-page app, and conditional requests.
pub mod Spa
use onekit.Base.{
  ◌≡◌, refl, Bool, true, false, not, Option, none, some, List, [], ◌∷◌, Text, bytes, text_eq,
  text_eq_refl, inl, inr, Bool-cases, arith, ◌&&◌, ◌||◌, ◌==◌, any, if◌then◌else◌,
}
use onekit.Base.Utf8.{has_prefix}
use onekit.Base.Strings.{split, trim_prefix, trim_space}
use onekit.Base.Sort.{sort_texts}
use onekit.Onkcompile.Paths.{clean_rooted}

-- `Check`: a name, and what its probe answers if there is one: whether it fails.
pub record Check : Type 0 where
  pub name : Text
  pub fails : Option Bool

abbrev has_failed : Check → Bool
has_failed c = elim c.fails [ none ↦ false | some b ↦ b ]

unfoldable pub failed : List Check → List Text
failed [] = []
failed (c ∷ cs) = let rest = failed cs in if has_failed c then c.name ∷ rest else rest

-- What `Health` answers: its status, and the names of the checks that failed.
pub data Health : Type 0 where
  ok : Health
  unavailable : List Text → Health

abbrev health_of : List Text → Health
health_of [] = ok
health_of (n ∷ ns) = unavailable (sort_texts (n ∷ ns))

-- `Health`
unfoldable pub health : List Check → Health
unfolding failed
health checks = health_of (failed checks)

-- A file system: whether a name is there, and whether it is a directory.
abbrev pub Files : Type 0
Files = Text → Option Bool

abbrev pub is_file : Option Bool → Bool
is_file none = false
is_file (some directory) = not directory

-- `path.Ext(name) != ""`: there is a dot in the last element.
unfoldable pub has_slash : Text → Bool
has_slash s = any (λ c. c == b'/') s

unfoldable pub has_ext : Text → Bool
unfolding has_slash
has_ext [] = false
has_ext (c ∷ s) = let rest = has_ext s in (c == b'.') && not (has_slash s) || rest

-- What `SPA` answers. A file is cached for ever, or not.
pub data Served : Type 0 where
  method_not_allowed not_found : Served
  index_document : Served
  file : Text → Bool → Served

-- `SPAOptions`, less `OnServe`, which is run before a file or the index document is served.
pub record SpaOptions : Type 0 where
  pub index : Text
  pub immutable : Option (Text → Bool)

abbrev or_index_html : Text → Text
or_index_html [] = bytes "index.html"
or_index_html (c ∷ s) = c ∷ s

abbrev or_assets : Option (Text → Bool) → Text → Bool
unfolding has_prefix
or_assets none name = has_prefix name (bytes "assets/")
or_assets (some f) name = f name

-- The options with their defaults.
abbrev pub index_name : SpaOptions → Text
index_name opts = or_index_html opts.index

unfoldable pub is_immutable : SpaOptions → Text → Bool
unfolding or_assets has_prefix
is_immutable opts name = or_assets opts.immutable name

module _ (opts : SpaOptions) where
  abbrev pub or_index_name : Text → Text
  or_index_name [] = index_name opts
  or_index_name (c ∷ s) = c ∷ s

  -- The name of the file that a path asks for.
  unfoldable pub requested : Text → Text
  unfolding clean_rooted trim_prefix
  requested url_path = or_index_name (trim_prefix (clean_rooted (b'/' ∷ url_path)) (bytes "/"))

module _ (opts : SpaOptions) (files : Files) where
  -- `serveFile` of the index document: a directory cannot be read.
  abbrev pub serve_index : Bool → Served
  serve_index true = index_document
  serve_index false = not_found

  unfoldable pub serve : Text → Served
  unfolding is_immutable
  serve name =
      if text_eq name (index_name opts)
      then serve_index (is_file (files (index_name opts)))
      else file name (is_immutable opts name)

  unfoldable pub serve_name : Text → Served
  unfolding has_ext serve
  serve_name name =
      if is_file (files name)
      then serve name
      else if has_ext name
      then not_found
      else serve (index_name opts)

  -- `SPA`. A file is served by `http.FileServerFS`, which cleans the path of the request in the same way.
  unfoldable pub spa : Text → Text → Served
  unfolding serve_name requested
  spa method url_path =
      if text_eq method (bytes "GET") || text_eq method (bytes "HEAD")
      then serve_name (requested opts url_path)
      else method_not_allowed

-- `IfNoneMatch`
unfoldable pub candidate_matches : Text → Text → Bool
unfolding trim_space trim_prefix
candidate_matches want raw =
    let candidate = trim_space raw in
    text_eq candidate (bytes "*") || text_eq (trim_prefix candidate (bytes "W/")) want

unfoldable pub if_none_match : Text → Text → Bool
unfolding candidate_matches trim_prefix split
if_none_match header etag =
    not (text_eq header [] || text_eq etag [])
    && any (candidate_matches (trim_prefix etag (bytes "W/"))) (split b',' header)
