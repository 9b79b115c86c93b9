-- ===== src/Registry/Examples.antt =====
-- The theorems on reconnecting at concrete registries.
use tunnel_drill.Prelude.{◌≡◌, refl, [], ◌∷◌, none, some}
use tunnel_drill.Prelude.Dict.{lookup}
use tunnel_drill.Tunnel.{ServiceInfo}
use tunnel_drill.Registry.{Registry, upgraded, current_session}
use tunnel_drill.Registry.Reconnect.{publisher, upgraded-detaches}

abbrev web : ServiceInfo
web = record { name = none; public_port = 80; hidden_port = 8080 }

-- Publisher "ann" has one service, and control session 1.
abbrev connected : Registry
connected = record {
  publishers =
      ("ann", record { identity = "ann"; services = ("s", web) ∷ []; control_session = some 1 })
      ∷ [];
  control_sessions = ("ann", 1) ∷ [];
}

abbrev away : Registry
away = record connected { control_sessions = [] }

upgraded-detaches_example :
    (lookup "ann" (upgraded "ann" 2 connected).control_sessions ≡ some 2)
    × ((publisher "ann" (upgraded "ann" 2 connected)).services ≡ [])
    × (current_session "ann" (upgraded "ann" 2 connected) ≡ none)
unfolding lookup
upgraded-detaches_example = upgraded-detaches "ann" 2 1 connected refl
