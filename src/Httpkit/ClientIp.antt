-- ===== src/Httpkit/ClientIp.antt =====
-- httpkit/state.go: the address of the client behind trusted proxies.
use onekit.Base.{
  ℕ, ◌≡◌, refl, Bool, true, false, Option, none, some, List, [], ◌∷◌, ◌++◌, Text, text_eq, ◌||◌,
  ◌==◌, any, ◌⊎◌, inl, inr, Bool-cases, Option-cases, if◌then◌else◌,
}
use mathlib.Core.List.{reverse}

-- What is used of Go's packages net and net/netip.
pub record Netip (Addr Prefix : Type 0) : Type 0 where
  pub parse_addr : Text → Option Addr
  pub parse_prefix : Text → Option Prefix
  -- `netip.PrefixFrom(addr, addr.BitLen())`
  pub whole : Addr → Prefix
  pub prefix_contains : Prefix → Addr → Bool
  pub unmap : Addr → Addr
  pub addr_text : Addr → Text
  -- the host of `net.SplitHostPort`, unless that is an error
  pub split_host : Text → Option Text

abbrev is_blank : ℕ → Bool
is_blank c = c == 0x20 || c == 0x09

-- The first loop of `trimSpace`.
unfoldable pub drop_blanks : Text → Text
drop_blanks [] = []
drop_blanks (c ∷ s) = let rest = drop_blanks s in if is_blank c then rest else c ∷ s

-- `trimSpace`: the second loop is the first from the other end.
unfoldable pub trim_blanks : Text → Text
unfolding drop_blanks
trim_blanks s = reverse (drop_blanks (reverse (drop_blanks s)))

-- `if part != "" { out = append(out, part) }`
unfoldable pub with_part : Text → List Text → List Text
unfolding trim_blanks
with_part raw rest = let part = trim_blanks raw in if text_eq part [] then rest else part ∷ rest

-- `value[start:i]`, and the part behind it.
unfoldable pub parts_from : Text → Text → List Text
unfolding with_part
parts_from raw [] = with_part raw []
parts_from raw (c ∷ s) = elim (c == b',') [
  | true ↦ with_part raw (parts_from [] s)
  | false ↦ parts_from (raw ++ c ∷ []) s
]

-- `splitComma`
abbrev pub split_comma : Text → List Text
split_comma value = parts_from [] value

unfoldable pub chain_of : List Text → List Text
unfolding parts_from
chain_of [] = []
chain_of (v ∷ vs) = split_comma v ++ chain_of vs

-- The part of a request that is read.
pub record Request : Type 0 where
  pub remote_addr : Text
  -- the values of `X-Forwarded-For`
  pub forwarded : List Text

module _ {Addr Prefix : Type 0} (net : Netip Addr Prefix) where
  abbrev add_prefix : Option Prefix → Option Addr → List Prefix → List Prefix
  add_prefix (some p) a rest = p ∷ rest
  add_prefix none (some a) rest = net.whole a ∷ rest
  add_prefix none none rest = rest

  -- `parseProxies`
  unfoldable pub parse_proxies : List Text → List Prefix
  parse_proxies [] = []
  parse_proxies (e ∷ es) = add_prefix (net.parse_prefix e) (net.parse_addr e) (parse_proxies es)

  module _ (proxies : List Prefix) where
    -- `trusts`
    unfoldable pub trusts : Addr → Bool
    trusts a = any (λ p. net.prefix_contains p (net.unmap a) || net.prefix_contains p a) proxies

    abbrev pub closest_of : Text → Option Addr → Text → Text
    unfolding trusts
    closest_of host none rest = host
    closest_of host (some a) rest = if trusts a then rest else net.addr_text a

    -- The loop over the chain, from its end.
    unfoldable pub closest : Text → List Text → Text
    unfolding closest_of
    closest host [] = host
    closest host (e ∷ es) = closest_of host (net.parse_addr e) (closest host es)

    abbrev or_remote : Text → Option Text → Text
    or_remote remote none = remote
    or_remote remote (some host) = host

    abbrev pub host_of : Request → Text
    host_of r = or_remote r.remote_addr (net.split_host r.remote_addr)

    abbrev pub behind : Text → Option Addr → List Text → Text
    unfolding trusts closest
    behind host none chain = host
    behind host (some peer) chain = if trusts peer then closest host (reverse chain) else host

    -- `ClientIP`
    unfoldable pub client_ip : Request → Text
    unfolding behind chain_of
    client_ip r = behind (host_of r) (net.parse_addr (host_of r)) (chain_of r.forwarded)

    -- The entry is an address that is not trusted, and all behind it in the chain are trusted ones.
    pub data ClosestIn : List Text → Addr → Type 0 where
      nearest :
          {e : Text} {es : List Text} {a : Addr}
          → net.parse_addr e ≡ some a
          → trusts a ≡ false
          → ClosestIn (e ∷ es) a
      behind_trusted :
          {e : Text} {es : List Text} {a b : Addr}
          → net.parse_addr e ≡ some b
          → trusts b ≡ true
          → ClosestIn es a
          → ClosestIn (e ∷ es) a

    closest-ClosestIn :
        (host : Text) (es : List Text)
        → (closest host es ≡ host)
          ⊎ ((a : Addr) × (ClosestIn es a × (closest host es ≡ net.addr_text a)))
    unfolding closest closest_of
    closest-ClosestIn host [] = inl refl
    closest-ClosestIn host (e ∷ es) = elim (Option-cases (net.parse_addr e)) [
      | inl none_e ↦ inl (rw none_e refl)
      | inr (a, e') ↦ elim (Bool-cases (trusts a)) [
        | inl t ↦ elim (closest-ClosestIn host es) [
          | inl same ↦ inl (rw (e', t) same)
          | inr (b, (c, q)) ↦ inr (b, (behind_trusted e' t c, rw (e', t) q))
        ]
        | inr t ↦ inr (a, (nearest e' t, rw (e', t) refl))
      ]
    ]

    behind-cases :
        (host : Text) (o : Option Addr) (chain : List Text)
        → (behind host o chain ≡ host)
          ⊎ ((peer : Addr) × ((o ≡ some peer)
                × ((trusts peer ≡ true)
                    × ((a : Addr) × (ClosestIn (reverse chain) a
                          × (behind host o chain ≡ net.addr_text a))))))
    unfolding behind
    behind-cases host none chain = inl refl
    behind-cases host (some peer) chain = elim (Bool-cases (trusts peer)) [
      | inl t ↦ elim (closest-ClosestIn host (reverse chain)) [
        | inl same ↦ inl (rw t same)
        | inr (a, (c, q)) ↦ inr (peer, (refl, (t, (a, (c, rw t q)))))
      ]
      | inr t ↦ inl (rw t refl)
    ]

    -- `ClientIP` returns the host of the connection, or, only where that is a trusted proxy, an address of
    -- the forwarding chain that is not trusted itself and has none but trusted ones behind it.
    pub client_ip-ClosestIn :
        (r : Request)
        → (client_ip r ≡ host_of r)
          ⊎ ((peer : Addr) × ((net.parse_addr (host_of r) ≡ some peer)
                × ((trusts peer ≡ true)
                    × ((a : Addr) × (ClosestIn (reverse (chain_of r.forwarded)) a
                          × (client_ip r ≡ net.addr_text a))))))
    unfolding client_ip
    client_ip-ClosestIn r =
        behind-cases (host_of r) (net.parse_addr (host_of r)) (chain_of r.forwarded)

    closest_found :
        {es : List Text} {a : Addr} (host : Text)
        → ClosestIn es a
        → closest host es ≡ net.addr_text a
    unfolding closest closest_of
    closest_found host (nearest e t) = rw (e, t) refl
    closest_found host (behind_trusted e t c) = rw (e, t) (closest_found host c)

    -- Where the host of the connection is a trusted proxy and the forwarding chain has an address that is not
    -- trusted with none but trusted ones behind it, `ClientIP` returns that address.
    pub client_ip_found :
        (r : Request) (peer a : Addr)
        → net.parse_addr (host_of r) ≡ some peer
        → trusts peer ≡ true
        → ClosestIn (reverse (chain_of r.forwarded)) a
        → client_ip r ≡ net.addr_text a
    unfolding client_ip behind
    client_ip_found r peer a e t c = rw (e, t) (closest_found (host_of r) c)
