-- ===== src/Broker/Examples.antt =====
-- The theorem on ports at a publisher with one service.
use tunnel_drill.Prelude.{ℕ, ◌≡◌, refl, true, false, List, [], ◌∷◌, none}
use tunnel_drill.Prelude.Dict.{lookup}
use tunnel_drill.Tunnel.{ServiceInfo}
use tunnel_drill.Broker.{Publisher, Start, has_port, add_services}
use tunnel_drill.Broker.Ports.{DistinctPorts}
use tunnel_drill.Broker.Handshake.{AreServed, add_services-AreServed}

abbrev on_port : ℕ → ServiceInfo
on_port n = record { name = none; public_port = n; hidden_port = 8080 }

abbrev one_service : Publisher
one_service = record { identity = "ann"; services = ("s", on_port 80) ∷ []; control_session = none }

abbrev starts : Start
starts = record { id = "t"; succeeds = true }

abbrev fails : Start
fails = record { id = "u"; succeeds = false }

-- A service that starts, one on the port that is served, and one that does not start.
abbrev announced : List (Start × ServiceInfo)
announced =
    (starts, on_port 81) ∷ (record starts { id = "v" }, on_port 80) ∷ (fails, on_port 82) ∷ []

add_services-AreServed_example :
    let q = (add_services true announced one_service).0 in
    DistinctPorts q.services
    × ((port : ℕ) → has_port port one_service.services ≡ true → has_port port q.services ≡ true)
    × AreServed announced q
unfolding lookup has_port
add_services-AreServed_example =
    add_services-AreServed true announced one_service
      (refl, (refl, (refl, tt)), (refl, (refl, tt), (refl, tt, tt))) (refl, tt)
