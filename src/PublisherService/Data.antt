-- ===== src/PublisherService/Data.antt =====
-- A service of the publisher, for the tests and the examples.
use tunnel_drill.Prelude.{[], ◌∷◌, true, false, some}
use tunnel_drill.PublisherClient.Control
use tunnel_drill.PublisherService.{ServiceSession, Service, pipe}

abbrev pub web : Control.Service
web = record { name = some "web"; public_port = 80; hidden_host = "localhost"; hidden_port = 8080 }

abbrev pub idle : Service
idle = record { settings = web; sessions = []; held = []; store = [] }

abbrev pub working : ServiceSession
working = record { tunnel_id = "t"; active = true; timer_armed = true; socket_shut_down = false }

-- One tunnel, "t", from "i" to "o".
abbrev pub busy : Service
busy = record {
  settings = web;
  sessions =
      (
        "t",
        record {
          inward = "i";
          outward = "o";
          inward_pipe = some (pipe "i" "o");
          outward_pipe = some (pipe "o" "i");
        },
      )
      ∷ [];
  held = [];
  store = ("o", working) ∷ ("i", working) ∷ [];
}
