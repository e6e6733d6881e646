-- ===== src/Httpkit/State.antt =====
-- httpkit/state.go: the state of a request, which the context carries by its pointer. `P` is what a principal
-- is, and `T` the times.
use onekit.Base.{ℕ, Bool, Option, none, some, List, [], ◌∷◌, Text, text_eq, any, if◌then◌else◌}
use onekit.Httpkit.ClientIp.{Netip, Request, client_ip}

pub record State (P T : Type 0) : Type 0 where
  pub request_id : Text
  pub start : T
  pub client_address : Text
  pub flags : List Text
  pub principal : Option P
  pub status : ℕ
  pub bytes : ℕ

-- A flag that is set again is in the map once.
abbrev with_flag : Text → List Text → List Text
with_flag name flags = if any (λ f. text_eq f name) flags then flags else name ∷ flags

abbrev or_new : Text → Text → Text
or_new fresh id = if text_eq id [] then fresh else id

abbrev cast : {P Q : Type 0} → (P → Option Q) → Option P → Option Q
cast as_type none = none
cast as_type (some p) = as_type p

-- A context has the state that `Middleware` stored, or none.
module _ {P T : Type 0} where
  abbrev id_of : Option (State P T) → Text
  id_of none = []
  id_of (some s) = s.request_id

  -- `RequestID`
  abbrev pub request_id_of : Option (State P T) → Text
  request_id_of ctx = id_of ctx

  -- `SetFlag`
  unfoldable pub set_flag : Text → Option (State P T) → Option (State P T)
  set_flag name none = none
  set_flag name (some s) = some (record s { flags = with_flag name s.flags })

  -- `State.Flag`
  unfoldable pub flag : State P T → Text → Bool
  flag s name = any (λ f. text_eq f name) s.flags

  -- `SetPrincipal`
  unfoldable pub set_principal : P → Option (State P T) → Option (State P T)
  set_principal p none = none
  set_principal p (some s) = some (record s { principal = some p })

  -- `Principal`, where `as_type` is the test of the principal's type.
  module _ {Q : Type 0} (as_type : P → Option Q) where
    unfoldable pub principal_of : Option (State P T) → Option Q
    principal_of none = none
    principal_of (some s) = cast as_type s.principal

  -- The request's header field for its id, and its address.
  module _ {Addr Prefix : Type 0} (net : Netip Addr Prefix) (proxies : List Prefix) where
    abbrev new_state : T → Text → Text → State P T
    new_state now id address = record {
      request_id = id;
      start = now;
      client_address = address;
      flags = [];
      principal = none;
      status = 0;
      bytes = 0;
    }

    -- `ensureState`, given the id that the request carries, the id that would be made, and the time.
    unfoldable pub ensure_state :
        Option (State P T) → Option (Text × Request) → Text → T → State P T
    unfolding client_ip
    ensure_state (some s) r fresh now = s
    ensure_state none none fresh now = new_state now fresh []
    ensure_state none (some (id, r)) fresh now =
        new_state now (or_new fresh id) (client_ip net proxies r)
