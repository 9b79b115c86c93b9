-- ===== src/Tunnel/Data.antt =====
-- Sessions and services to run the model of the tunnels on.
use tunnel_drill.Prelude.{true, false, List, [], ◌∷◌, none, some, String}
use tunnel_drill.Tunnel.{TunnelSession, ServiceInfo, Service}

abbrev pub blank : TunnelSession
blank = record {
  peek_buffer = [];
  is_publisher_side = false;
  timer_armed = true;
  timer_was_cancelled = false;
  was_closed = false;
  socket_shut_down = false;
  pipe_operation = none;
}

abbrev pub info : ServiceInfo
info = record { name = none; public_port = 8080; hidden_port = 80 }

abbrev pub serving : List String → List (String × TunnelSession) → Service
serving ids tunnels = record {
  service_id = "service";
  info = info;
  alive = true;
  acceptor_open = true;
  accepting = 1;
  sessions = ids;
  held = [];
  tunnels = tunnels;
}

-- A subscriber that has sent two bytes, and the publisher's session, not yet joined.
abbrev pub waiting : TunnelSession
waiting = record blank { peek_buffer = 71 ∷ 69 ∷ [] }

abbrev pub unjoined : Service
unjoined = serving ("c" ∷ "p" ∷ []) (("c", waiting) ∷ ("p", blank) ∷ [])

-- Joined in both directions.
abbrev pub towards : String → String → TunnelSession
towards self other = record blank {
  pipe_operation = some (record { side_original = self; side_other = other });
}

abbrev pub joined_pair : Service
joined_pair = serving ("c" ∷ "p" ∷ []) (("c", towards "c" "p") ∷ ("p", towards "p" "c") ∷ [])

-- The subscriber has left.
abbrev pub left_behind : Service
left_behind = serving ("p" ∷ []) (("p", blank) ∷ [])
