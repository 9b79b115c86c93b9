-- ===== src/Whole/Examples.antt =====
-- The theorem on a tunnel through both programs at one service and one configuration.
use tunnel_drill.Prelude.{
  zero, suc, ap, length, if◌then◌else◌, ◌==◌, ℕ, ◌≡◌, refl, false, true, List, [], ◌∷◌, Option,
  none, some, done, bytes_of, Returns, arith,
}
use tunnel_drill.Prelude.Dict.{lookup}
use tunnel_drill.Parser.{empty}
use tunnel_drill.Broker as Broker
use tunnel_drill.Broker.{get_service}
use tunnel_drill.Json.{Json, object, member, end, string}
use tunnel_drill.ControlSession.{
  ControlSession, new_tunnel_message, write_payload, inform_about_connection,
}
use tunnel_drill.Tunnel.{Service}
use tunnel_drill.Tunnel.Data.{left_behind}
use tunnel_drill.Tunnel.Link.{write_initial, start_pipe, inform, on_initial_written}
use tunnel_drill.Tunnel.Peek.{PublisherToken, on_peek}
use tunnel_drill.Tunnel.Accept.{Accepted, on_accept}
use tunnel_drill.Tunnel.Served.{IsServable, read_of}
use tunnel_drill.PublisherClient.{init}
use tunnel_drill.PublisherClient.Control as Control
use tunnel_drill.PublisherClient.Control.{NewTunnel, Signed, find_service, on_control_read}
use tunnel_drill.PublisherService as Local
use tunnel_drill.PublisherService.{started}
use tunnel_drill.PublisherService.Reach.{Reach-IsTidy, here}
use tunnel_drill.PublisherService.Create.{
  Network, TokenWrite, opened, create_session, on_token_written,
}
use tunnel_drill.PublisherService.Create.Connects.{IsUp}
use tunnel_drill.Home.PublisherConfig.{ServiceInfo, Config, services_of}
use tunnel_drill.Home.Announced.{announced}
use tunnel_drill.Whole.{tunnel-served}

abbrev from_subscriber : Accepted
from_subscriber = record {
  aborted = false;
  error = false;
  publisher = true;
  control = true;
  socket_open = true;
  endpoint_known = true;
  tunnel_id = "c";
}

abbrev from_publisher : Accepted
from_publisher = record from_subscriber { tunnel_id = "d" }

abbrev first_in_order : IsServable from_subscriber
first_in_order = record {
  not_aborted = refl;
  no_error = refl;
  has_publisher = refl;
  has_control = refl;
  has_socket = refl;
  has_endpoint = refl;
}

abbrev second_in_order : IsServable from_publisher
second_in_order = record {
  not_aborted = refl;
  no_error = refl;
  has_publisher = refl;
  has_control = refl;
  has_socket = refl;
  has_endpoint = refl;
}

abbrev ann : PublisherToken
ann = record { identity = "ann"; claims = object (member "tunnelId" (string "c") end) }

abbrev verified : List ℕ → Option PublisherToken
verified text = some ann

abbrev entry : ServiceInfo
entry = record {
  name = some "web";
  socket_type = "tcp";
  hidden_port = 8080;
  public_port = 80;
  hidden_host = none;
}

abbrev config : Config
config = record {
  identity = "ann";
  pass_hashed = "5f4d";
  host = "broker";
  port = 443;
  authority_host = "broker";
  authority_port = 443;
  services = entry ∷ [];
  ssl = true;
}

abbrev signs : NewTunnel → Signed
signs t = record { code = 200; token = some "token" }

-- The peek buffer of a new session.
zeros_of : ℕ → List ℕ
zeros_of zero = []
zeros_of (suc n) = 0 ∷ zeros_of n

length-zeros_of : (n : ℕ) → length (zeros_of n) ≡ n
unfolding zeros_of
length-zeros_of zero = refl
length-zeros_of (suc n) = ap suc (length-zeros_of n)

abbrev zeros : List ℕ
zeros = zeros_of 4096

-- The service that the publisher makes of the entry.
abbrev web : Control.Service
web = record { name = some "web"; public_port = 80; hidden_host = "localhost"; hidden_port = 8080 }

abbrev stands_for_entry : Service
stands_for_entry = record left_behind { info = announced entry }

abbrev knows : Broker.Publisher
knows = record {
  identity = "ann";
  services = ("service", announced entry) ∷ [];
  control_session = some 1;
}

abbrev request : Json
request = new_tunnel_message (announced entry) "service" "c"

abbrev dump : Json → List ℕ
dump j = 123 ∷ []

abbrev parse : List ℕ → Option Json
parse text = some request

abbrev session : ControlSession
session = record {
  identity = "ann";
  text_parser = empty;
  pending_messages = [];
  write_in_progress = false;
  sent = [];
  in_flight = 0;
  ended = false;
}

-- The broker and the hidden host answer on their ports.
abbrev net : Network
net host port = if port == 80 then opened "o" else opened "i"

tunnel-served_example :
    (x y z : Service) × (message : List ℕ) × (w : TokenWrite) × (q' : Local.Service) × (on_peek
        verified 1 "c"
        (read_of (71 ∷ []) ann)
        (on_accept zeros 0 from_subscriber stands_for_entry)
      ≡ done (x, inform "service" "c" ∷ []))
    × (inform_about_connection dump (get_service "service" knows) "service" "c" session
        ≡ write_payload message session)
    × (on_control_read (services_of config) signs (parse message) init
        ≡ done (init, some (record { service = web; token = "token"; tunnel_id = "c" })))
    × (create_session (bytes_of "token") "c" "broker" net (started web) ≡ done (some w, q'))
    × (on_peek verified 1 "d" (read_of w.bytes ann) (on_accept zeros 0 from_publisher x)
        ≡ done (y, write_initial "c" "d" (71 ∷ []) ∷ start_pipe "d" "c" ∷ []))
    × (on_initial_written 1 "c" "d" false y ≡ done (z, start_pipe "c" "d" ∷ []))
    × Returns (IsUp "c" "i" "o" q') (on_token_written 1 false net "c" "o" q')
unfolding lookup get_service find_service services_of
tunnel-served_example =
    tunnel-served verified zeros 1 0 0 71 [] from_subscriber from_publisher ann stands_for_entry
      config signs entry "token" "o" "i" init (started web) knows dump parse session net
      first_in_order second_in_order refl refl refl refl (length-zeros_of 4096) (omega arith) refl
      refl refl refl (omega arith) (omega arith) refl refl (omega arith) refl refl
      (Reach-IsTidy here) refl refl refl refl refl refl
