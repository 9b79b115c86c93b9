-- ===== src/Home/BrokerConfig.antt =====
-- brokerpp/include/brokerpp/config.hpp, with the readers and printers that its macros define, and
-- brokerpp/src/brokerpp/config.cpp. The port is an `unsigned short`.
use tunnel_drill.Prelude.{
  ℕ, Bool, List, Option, String, if◌then◌else◌, Outcome, done, ◌>>=◌, or_throw,
}
use tunnel_drill.Json.{
  Json, number, string, boolean, array, object, nil, cons, member, end, field, find, get_string,
  get_bool, get_unsigned_short,
}
use tunnel_drill.Home.{Home, load_home_file, save_home_file}

pub record ServerConfig : Type 0 where
  pub iface : String
  pub port : ℕ

pub record Config : Type 0 where
  pub bind : ServerConfig
  pub ssl : Bool

-- from_json
unfoldable pub server_config_of : Json → Outcome ServerConfig
server_config_of j = do
  iface ← or_throw (field get_string "iface" j)
  port ← or_throw (field get_unsigned_short "port" j)
  done (record { iface = iface; port = port })

unfoldable pub config_of : Json → Outcome Config
unfolding server_config_of
config_of j = do
  member_bind ← or_throw (find "bind" j)
  bind ← server_config_of member_bind
  ssl ← or_throw (field get_bool "ssl" j)
  done (record { bind = bind; ssl = ssl })

-- to_json
abbrev pub json_of_server_config : ServerConfig → Json
json_of_server_config s =
    object (member "iface" (string s.iface) (member "port" (number s.port) end))

abbrev pub json_of_config : Config → Json
json_of_config c =
    object (member "bind" (json_of_server_config c.bind) (member "ssl" (boolean c.ssl) end))

-- The file, for a build with or without NDEBUG.
abbrev pub config_path : Bool → String
config_path in_dev = if in_dev then "broker/configDev.json" else "broker/config.json"

-- loadConfig
unfoldable pub load_config : Bool → (List ℕ → Option Json) → Home → Outcome Config
load_config in_dev parse h = do
  config_string ← load_home_file (config_path in_dev) h
  j ← or_throw (parse config_string)
  config_of j

-- saveConfig, with the array of `json{config}`.
unfoldable pub save_config : Bool → (Json → List ℕ) → (String → Bool) → Config → Home → Outcome Home
save_config in_dev dump opens c h =
    save_home_file opens (config_path in_dev) (dump (array (cons (json_of_config c) nil))) h
