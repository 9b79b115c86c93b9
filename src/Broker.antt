-- ===== src/Broker.antt =====
-- brokerpp/src/brokerpp/publisher/publisher.cpp: what the broker knows of one publisher, its
-- services under their ids and its control session. Control sessions are numbered; the number in
-- `control_session` is the weak pointer, and whether it can be locked is an argument.
pub mod Ports
pub mod Handshake
mod Examples
use tunnel_drill.Prelude.{
  ℕ, Bool, true, false, List, [], ◌∷◌, ◌++◌, Option, none, some, String, ◌==◌, if◌then◌else◌, map,
}
use tunnel_drill.Prelude.Dict.{lookup, insert, erase}
use tunnel_drill.Json.{Json, object, member, end, string, boolean}
use tunnel_drill.Tunnel.{ServiceInfo}

-- Publisher::Implementation
pub record Publisher : Type 0 where
  pub identity : String
  pub services : List (String × ServiceInfo)
  pub control_session : Option ℕ

abbrev pub Services : Type 0
Services = List (String × ServiceInfo)

-- Publisher::getService
unfoldable pub get_service : String → Publisher → Option ServiceInfo
get_service id p = lookup id p.services

-- Publisher::removeService: how many services were removed, and the publisher.
pub remove_service : String → Publisher → ℕ × Publisher
remove_service id p = elim (lookup id p.services) [
  | none ↦ (0, p)
  | some service ↦ (1, record p { services = erase id p.services })
]

-- Publisher::getServiceIds
abbrev pub get_service_ids : Publisher → List String
get_service_ids p = map (λ x. x.0) p.services

-- Publisher::clearServices
abbrev pub clear_services : Publisher → Publisher
clear_services p = record p { services = [] }

-- Publisher::detachControlSession
unfoldable pub detach_control_session : Bool → Publisher → Publisher
detach_control_session erase_services p =
    let p' : Publisher = record p { control_session = none } in
    if erase_services then clear_services p' else p'

-- The loop of `addService` over the services: whether one has the port.
pub has_port : ℕ → Services → Bool
has_port port [] = false
has_port port ((id, info) ∷ rest) = if port == info.public_port then true else has_port port rest

-- What the world answers to one service that is added: the id that the generator gives, and whether
-- `start` succeeds.
pub record Start : Type 0 where
  pub id : String
  pub succeeds : Bool

abbrev start_result : Bool → Json
start_result b =
    object (member "type" (string "ServiceStartResult") (member "result" (boolean b) end))

-- What `returnResult` writes to the control session, if that can be locked.
abbrev report : Bool → Bool → List Json
report lockable result = if lockable then start_result result ∷ [] else []

-- Publisher::addService: the publisher, the result and what is written. The loop returns on the
-- first service with the port, so nothing is ever recreated.
pub add_service : Bool → Start → ServiceInfo → Publisher → Publisher × Bool × List Json
add_service lockable start info p =
    if has_port info.public_port p.services
    then (p, true, report lockable true)
    else if start.succeeds
    then (record p { services = insert start.id info p.services }, true, report lockable true)
    else (p, false, report lockable false)

-- Publisher::addServices
pub add_services : Bool → List (Start × ServiceInfo) → Publisher → Publisher × List Json
unfolding add_service
add_services lockable [] p = (p, [])
add_services lockable ((start, info) ∷ rest) p =
    let (p', result, out) = add_service lockable start info p in
    let (p'', outs) = add_services lockable rest p' in (p'', out ++ outs)
