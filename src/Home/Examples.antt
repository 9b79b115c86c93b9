-- ===== src/Home/Examples.antt =====
-- The theorems on the home directory at concrete files.
use tunnel_drill.Prelude.{
  ℕ, ◌≡◌, refl, Bool, true, false, List, [], ◌∷◌, Option, none, some, ◌==◌, arith, if◌then◌else◌,
  done, thrown, Returns,
}
use mathlib.Core.List.Memᴰ
use tunnel_drill.Prelude.Dict.{lookup}
use tunnel_drill.Json.{
  Json, object, array, string, get_unsigned_short, cons, nil, member, end, contains,
}
use tunnel_drill.Broker as Known
use tunnel_drill.ControlSession.{ControlSession, new_tunnel_message}
use tunnel_drill.Parser.{empty}
use tunnel_drill.PublisherClient.Control.{
  Service, NewTunnel, Signed, failure, on_control_read, Serves,
}
use tunnel_drill.PublisherClient as Client
use tunnel_drill.Announcement.{Additions, handshake, numbered, added, on_handshake}
use tunnel_drill.Home.{Home, load_home_file, setup_home}
use tunnel_drill.Home.Users.{load_users, users_file_of, publishers_of}
use tunnel_drill.Home.PublisherConfig.{
  ServiceInfo, Config, json_of_config, load_config, services_of,
}
use tunnel_drill.Home.PublisherConfig as Publisher
use tunnel_drill.Home.BrokerConfig as Broker
use tunnel_drill.Home.Saved.{config_of-json_of_config, save_config-unreadable}
use tunnel_drill.Home.Announced.{announced, configured-announced}
use tunnel_drill.Home.Requested.{request_for, requested-opens, requested-unknown}
use tunnel_drill.Home.Startup.{Serving, broker_main}

abbrev web : ServiceInfo
web = record {
  name = some "web";
  socket_type = "tcp";
  hidden_port = 80;
  public_port = 8080;
  hidden_host = none;
}

abbrev config : Config
config = record {
  identity = "me";
  pass_hashed = "5f4d";
  host = "broker";
  port = 443;
  authority_host = "broker";
  authority_port = 8443;
  services = web ∷ [];
  ssl = true;
}

abbrev broker_config : Broker.Config
broker_config = record { bind = record { iface = "::"; port = 443 }; ssl = true }

config_of-json_of_config_example : Publisher.config_of (json_of_config config) ≡ done config
config_of-json_of_config_example =
    config_of-json_of_config config (omega arith, omega arith, ((omega arith, omega arith), tt))

-- Texts of one letter, for the two values that are written.
abbrev is_bound : Json → Bool
is_bound (array (cons j js)) = contains "bind" j
is_bound _ = false

abbrev dump : Json → List ℕ
dump j = if is_bound j then 98 ∷ [] else 112 ∷ []

abbrev parse : List ℕ → Option Json
parse [] = none
parse (c ∷ cs) =
    if c == 98
    then some (array (cons (Broker.json_of_config broker_config) nil))
    else some (array (cons (json_of_config config) nil))

abbrev bare : Home
bare = record { exists = true; files = [] }

save_config-unreadable_example :
    Returns
      (λ h'. load_config true parse h' ≡ thrown)
      (Publisher.save_config true dump (λ _. true) config bare)
    × Returns
        (λ h'. Broker.load_config true parse h' ≡ thrown)
        (Broker.save_config true dump (λ _. true) broker_config bare)
save_config-unreadable_example =
    save_config-unreadable dump parse (λ _. true) true bare config broker_config refl refl refl refl

abbrev opened : ControlSession
opened = record {
  identity = "me";
  text_parser = empty;
  pending_messages = [];
  write_in_progress = false;
  sent = [];
  in_flight = 0;
  ended = false;
}

abbrev starts : Additions
starts = record { start = λ n. record { id = "s"; succeeds = true }; throws_at = none }

abbrev parse_config : List ℕ → Option Json
parse_config text = some (json_of_config config)

abbrev publisher_home : Home
publisher_home = record { exists = true; files = ("publisher/config.json", []) ∷ [] }

abbrev me : Known.Publisher
me = record { identity = "me"; services = []; control_session = some 1 }

configured-announced_example :
    (load_config false parse_config publisher_home ≡ done config)
    × (on_handshake dump true (some 1) "" starts (handshake "me" (services_of config)) "" me opened
        ≡ added dump
            (Known.add_services true (numbered 0 starts.start (announced web ∷ [])) me)
            opened)
unfolding load_home_file lookup
configured-announced_example =
    configured-announced dump parse_config false publisher_home [] config "" "" starts 1 me opened
      refl refl (omega arith, omega arith, ((omega arith, omega arith), tt)) refl

abbrev signs : NewTunnel → Signed
signs t = record { code = 200; token = some "token" }

requested-opens_example :
    (s : Service) × Serves 80 8080 s (services_of config)
    × (on_control_read
          (services_of config)
          signs
          (some (new_tunnel_message (announced web) "s" "t"))
          Client.init
        ≡ done (Client.init, some (record { service = s; token = "token"; tunnel_id = "t" })))
requested-opens_example =
    requested-opens config signs web "s" "t" Client.init "token" (Memᴰ.head refl) (omega arith)
      (omega arith) refl refl

-- A public port of more than 16 bits.
abbrev wide : ServiceInfo
wide = record web { public_port = 70000 }

requested-unknown_example :
    on_control_read
      (services_of (record config { services = wide ∷ [] }))
      signs
      (some (new_tunnel_message (announced wide) "s" "t"))
      Client.init
    ≡ done (
      Client.send_queued (failure (request_for wide "s" "t") "Unknown service") Client.init,
      none,
    )
requested-unknown_example =
    requested-unknown (record config { services = wide ∷ [] }) signs wide "s" "t" Client.init
      (omega arith, tt)

abbrev broker_home : Home
broker_home = record {
  exists = true;
  files =
      ("broker/jwt/private.key", 1 ∷ [])
      ∷ ("broker/jwt/public.key", 2 ∷ [])
      ∷ ("broker/config.json", 98 ∷ [])
      ∷ ("broker/users.json", 117 ∷ [])
      ∷ [];
}

abbrev parse_broker : List ℕ → Option Json
parse_broker [] = none
parse_broker (c ∷ cs) =
    if c == 98
    then some (Broker.json_of_config broker_config)
    else some (object (member "pepper" (string "pepper") (member "publishers" (array nil) end)))

abbrev serving : Serving
serving = record {
  private_jwt = 1 ∷ [];
  users = record { pepper = "pepper"; publishers = [] };
  public_jwt = 2 ∷ [];
  served_directory = "www";
  bind = broker_config.bind;
  ssl = true;
}

serving_test :
    broker_main false parse_broker true "www" broker_home ≡ done (setup_home broker_home, serving)
unfolding broker_main load_home_file setup_home lookup Broker.load_config Broker.config_of
    Broker.server_config_of get_unsigned_short load_users users_file_of publishers_of
serving_test = refl
