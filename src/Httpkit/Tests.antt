-- ===== src/Httpkit/Tests.antt =====
-- httpkit, run on a response, a chain of proxies and a file system.
use onekit.Base.{
  ◌≡◌, ◌≤◌, refl, Bool, true, false, Option, none, some, List, [], ◌∷◌, Text, bytes, text_eq, ◌⊎◌,
  if◌then◌else◌,
}
use mathlib.Core.List.{reverse}
use onekit.Base.Utf8.{has_prefix}
use onekit.Httpkit.Recorder.{Shared, Op, do_header, do_write, new_recorder, run}
use onekit.Httpkit.Recorder.Refine.{account, Holds, run_refines}
use onekit.Httpkit.Recorder.Once.{finals, finals-run}
use onekit.Httpkit.ClientIp.{
  Netip, Request, trusts, host_of, chain_of, client_ip, ClosestIn, nearest, behind_trusted,
  client_ip-ClosestIn, client_ip_found,
}
use onekit.Httpkit.Handlers.{Files, SpaOptions, file, not_found, index_document, spa, if_none_match}

-- Early hints, a body without a header, and a header that comes too late.
abbrev calls : List Op
calls = do_header 103 ∷ do_write 5 ∷ do_header 500 ∷ do_write 7 ∷ []

abbrev shared : Option Shared
shared = some (record { status = 0; bytes = 0 })

recorded :
    ((run calls (new_recorder shared)).status ≡ 200)
    × ((run calls (new_recorder shared)).bytes ≡ 12)
unfolding run
recorded = (refl, refl)

run_refines_example : Holds (account calls) (run calls (new_recorder shared))
run_refines_example = run_refines calls shared (refl, refl)

finals-run_example : finals (run calls (new_recorder shared)).sent ≤ 1
finals-run_example = finals-run calls shared

-- Addresses as texts, of which those that begin with 10. are trusted.
abbrev texts : Netip Text Text
texts = record {
  parse_addr = λ s. some s;
  parse_prefix = λ s. some s;
  whole = λ s. s;
  prefix_contains = λ p s. has_prefix s p;
  unmap = λ s. s;
  addr_text = λ s. s;
  split_host = λ s. none;
}

abbrev proxies : List Text
proxies = bytes "10." ∷ []

abbrev forwarded : Request
forwarded = record {
  remote_addr = bytes "10.0.0.1";
  forwarded = bytes "6.6.6.6, 7.7.7.7" ∷ bytes " 10.0.0.2" ∷ [];
}

closest_found : client_ip texts proxies forwarded ≡ bytes "7.7.7.7"
unfolding client_ip has_prefix text_eq
closest_found = refl

client_ip-ClosestIn_example :
    (client_ip texts proxies forwarded ≡ host_of texts proxies forwarded)
    ⊎ ((peer : Text) × ((◌≡◌ {A = Option Text} (some (host_of texts proxies forwarded)) (some peer))
          × ((trusts texts proxies peer ≡ true)
              × ((a : Text) × (ClosestIn texts proxies (reverse (chain_of forwarded.forwarded)) a
                    × (client_ip texts proxies forwarded ≡ a))))))
client_ip-ClosestIn_example = client_ip-ClosestIn texts proxies forwarded

abbrev files : Files
files name = if text_eq name (bytes "assets/app.js") then some false else none

abbrev is_asset : Text → Bool
unfolding has_prefix
is_asset name = has_prefix name (bytes "assets/")

abbrev options : SpaOptions
unfolding is_asset
options = record { index = bytes "app.html"; immutable = some is_asset }

abbrev no_options : SpaOptions
no_options = record { index = []; immutable = none }

abbrev page : Files
page name = if text_eq name (bytes "app.html") then some false else files name

asset_served :
    spa options page (bytes "GET") (bytes "/x/../assets/app.js") ≡ file (bytes "assets/app.js") true
unfolding spa text_eq
asset_served = refl

default_asset :
    spa no_options page (bytes "GET") (bytes "/assets/app.js") ≡ file (bytes "assets/app.js") true
unfolding spa text_eq
default_asset = refl

route_served : spa options page (bytes "GET") (bytes "/pets/4") ≡ index_document
unfolding spa text_eq
route_served = refl

no_page : spa options files (bytes "GET") (bytes "/pets/4") ≡ not_found
unfolding spa text_eq
no_page = refl

missing_asset : spa options page (bytes "GET") (bytes "/assets/old.js") ≡ not_found
unfolding spa text_eq
missing_asset = refl

weak_match : if_none_match (bytes "\"a\", W/\"b\"") (bytes "\"b\"") ≡ true
unfolding if_none_match text_eq
weak_match = refl

client_ip_found_example : client_ip texts proxies forwarded ≡ bytes "7.7.7.7"
unfolding has_prefix text_eq trusts chain_of
client_ip_found_example =
    client_ip_found texts proxies forwarded (bytes "10.0.0.1") (bytes "7.7.7.7") refl refl
      (behind_trusted {b = bytes "10.0.0.2"} refl refl (nearest refl refl))
