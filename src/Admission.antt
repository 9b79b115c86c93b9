-- ===== src/Admission.antt =====
-- The control connection of a publisher, from its request to its session:
-- PageAndControlProvider::publisher of
-- brokerpp/src/brokerpp/request_listener/page_control_provider.cpp, and the request that
-- publisherpp/src/publisherpp/publisher.cpp makes. The base64 functions of the Roar library and the
-- JWT library are arguments.
pub mod Admits
mod Examples
use tunnel_drill.Prelude.{ℕ, Bool, true, false, List, Option, none, some, String}
use tunnel_drill.Tunnel.Peek.{PublisherToken}
use tunnel_drill.Auth.{Jwt, verify_publisher_token}
use tunnel_drill.Registry.{Registry, upgraded}

-- What the route comes to: a rejection with its reason, or an upgrade for an identity.
pub data Admission : Type 0 where
  rejected : String → Admission
  upgrading : String → Admission

-- The token as the header carries it.
abbrev pub bearer : (List ℕ → List ℕ) → List ℕ → Option (List ℕ)
bearer encode auth_token = some (encode auth_token)

-- The end of the upgrade: it failed, or there is a websocket, and whether the provider is still
-- there.
pub data Upgrade : Type 0 where
  failed : Upgrade
  complete : Bool → Upgrade

-- The handlers of the upgrade; the new session has the number `n`.
pub on_upgrade : Upgrade → String → ℕ → Registry → Registry
on_upgrade failed identity n r = r
on_upgrade (complete false) identity n r = r
on_upgrade (complete true) identity n r = upgraded identity n r

module _ (jwt : Jwt) (decode : List ℕ → List ℕ) (key : String) where
  abbrev pub decided : Option PublisherToken → Admission
  decided none = rejected "Token was rejected."
  decided (some token) = upgrading token.identity

  -- The route, up to the upgrade.
  pub request : Option (List ℕ) → Admission
  request none = rejected "Missing bearer auth."
  request (some token_data) = decided (verify_publisher_token jwt key (decode token_data))

  -- PageAndControlProvider::publisher, with what the upgrade comes to.
  pub publisher : Option (List ℕ) → Upgrade → ℕ → Registry → Registry
  unfolding request on_upgrade
  publisher token_data upgrade n r = elim (request token_data) [
    | rejected reason ↦ r
    | upgrading identity ↦ on_upgrade upgrade identity n r
  ]
