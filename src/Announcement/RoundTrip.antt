-- ===== src/Announcement/RoundTrip.antt =====
-- What the publisher announces is what the broker adds.
use tunnel_drill.Prelude.{
  none, ℕ, ◌<◌, ◌^◌, ◌%◌, ◌≡◌, refl, true, List, [], ◌∷◌, map, some, String, All,
}
use tunnel_drill.Json.{
  Json, get_int-json_of_int, name_of-json_of_name, get_unsigned_short-json_of_int,
}
use tunnel_drill.Tunnel.{ServiceInfo}
use tunnel_drill.Broker.{Publisher, add_services}
use tunnel_drill.ControlSession.{ControlSession}
use tunnel_drill.PublisherClient.Control.{Service}
use tunnel_drill.Announcement.{
  json_of_service, items_of, handshake, service_info_of, service_from_json, infos_of, numbered,
  added, on_handshake, Additions, is_current,
}

-- Both ports are an `int`.
abbrev pub HasPorts : Service → Type 0
HasPorts s = (s.public_port < 2 ^ 32) × (s.hidden_port < 2 ^ 32)

-- What the broker makes of a service: of each port the lower 16 bits.
abbrev pub info_of : Service → ServiceInfo
info_of s = record {
  name = s.name;
  public_port = s.public_port % 2 ^ 16;
  hidden_port = s.hidden_port % 2 ^ 16;
}

service_info_of-json_of_service :
    (s : Service) → HasPorts s → service_info_of (json_of_service s) ≡ some (info_of s)
service_info_of-json_of_service s h =
    rw
      (
        service_info_of,
        name_of-json_of_name s.name,
        get_unsigned_short-json_of_int s.public_port h.0,
        get_unsigned_short-json_of_int s.hidden_port h.1,
      )
      refl

-- The publisher's own reader gives the service back.
service_from_json-json_of_service :
    (s : Service) → HasPorts s → service_from_json (json_of_service s) ≡ some s
unfolding service_from_json
service_from_json-json_of_service s h =
    rw
      (
        service_from_json,
        name_of-json_of_name s.name,
        get_int-json_of_int s.public_port h.0,
        get_int-json_of_int s.hidden_port h.1,
      )
      refl

infos_of-items_of :
    (ss : List Service) → All HasPorts ss → infos_of (items_of ss) ≡ some (map info_of ss)
infos_of-items_of [] h = refl
infos_of-items_of (s ∷ ss) h =
    rw (infos_of, service_info_of-json_of_service s h.0, infos_of-items_of ss h.1) refl

-- The broker takes the handshake of a publisher for exactly its services: if the callback's
-- pointers can be locked, it adds each with its name and the lower 16 bits of its ports (which are
-- ints), in order, as far as `addService` throws nothing, and returns true. The results of the
-- additions are written on this session if it is the publisher's current one, and not on it
-- otherwise.
pub on_handshake-handshake :
    (dump : Json → List ℕ) (what identity ref : String) (world : Additions) (own : ℕ)
    (ss : List Service) (p : Publisher) (s : ControlSession)
    → All HasPorts ss
    → world.throws_at ≡ none
    → on_handshake dump true (some own) what world (handshake identity ss) ref p s
      ≡ added dump (add_services (is_current own p) (numbered 0 world.start (map info_of ss)) p) s
unfolding on_handshake
on_handshake-handshake dump what identity ref world own ss p s h q =
    rw (infos_of-items_of ss h, q) refl
