-- ===== src/Home/PublisherConfig.antt =====
-- publisherpp/include/publisherpp/config.hpp and service_info.hpp, with the readers and printers
-- that their macros define, publisherpp/src/publisherpp/config.cpp, and what the constructor of
-- Publisher makes of the services. `json::parse` and `dump` are arguments; `thrown` is their
-- exception or that of a missing member or a value of another type.
use tunnel_drill.Prelude.{
  ℕ, Bool, List, [], ◌∷◌, map, Option, none, some, String, if◌then◌else◌, Outcome, done, thrown,
  ◌>>=◌, or_throw,
}
use tunnel_drill.Json.{
  Json, Items, string, boolean, array, object, nil, cons, member, end, field, find, get_string,
  get_bool, get_int, json_of_int, json_of_name, name_of,
}
use tunnel_drill.PublisherClient.Control.{Service}
use tunnel_drill.Home.{Home, load_home_file, save_home_file}

pub record ServiceInfo : Type 0 where
  pub name : Option String
  pub socket_type : String
  pub hidden_port : ℕ
  pub public_port : ℕ
  pub hidden_host : Option String

pub record Config : Type 0 where
  pub identity : String
  pub pass_hashed : String
  pub host : String
  pub port : ℕ
  pub authority_host : String
  pub authority_port : ℕ
  pub services : List ServiceInfo
  pub ssl : Bool

-- from_json of a ServiceInfo.
unfoldable pub service_info_of : Json → Outcome ServiceInfo
service_info_of j = do
  name ← or_throw (field name_of "name" j)
  socket_type ← or_throw (field get_string "socketType" j)
  hidden_port ← or_throw (field get_int "hiddenPort" j)
  public_port ← or_throw (field get_int "publicPort" j)
  hidden_host ← or_throw (field name_of "hiddenHost" j)
  done (record {
    name = name;
    socket_type = socket_type;
    hidden_port = hidden_port;
    public_port = public_port;
    hidden_host = hidden_host;
  })

unfoldable pub service_infos_of : Items → Outcome (List ServiceInfo)
service_infos_of nil = done []
service_infos_of (cons j js) = do
  info ← service_info_of j
  infos ← service_infos_of js
  done (info ∷ infos)

-- get<std::vector<ServiceInfo>>()
abbrev pub vector_of : Json → Outcome (List ServiceInfo)
vector_of (array js) = service_infos_of js
vector_of _ = thrown

-- from_json of a Config.
unfoldable pub config_of : Json → Outcome Config
config_of j = do
  identity ← or_throw (field get_string "identity" j)
  pass_hashed ← or_throw (field get_string "passHashed" j)
  host ← or_throw (field get_string "host" j)
  port ← or_throw (field get_int "port" j)
  authority_host ← or_throw (field get_string "authorityHost" j)
  authority_port ← or_throw (field get_int "authorityPort" j)
  listed ← or_throw (find "services" j)
  services ← vector_of listed
  ssl ← or_throw (field get_bool "ssl" j)
  done (record {
    identity = identity;
    pass_hashed = pass_hashed;
    host = host;
    port = port;
    authority_host = authority_host;
    authority_port = authority_port;
    services = services;
    ssl = ssl;
  })

-- to_json
abbrev pub json_of_service_info : ServiceInfo → Json
json_of_service_info i = object (
    member "name" (json_of_name i.name) (
      member "socketType" (string i.socket_type) (
        member "hiddenPort" (json_of_int i.hidden_port) (
          member "publicPort" (json_of_int i.public_port)
            (member "hiddenHost" (json_of_name i.hidden_host) end)))))

abbrev pub json_of_service_infos : List ServiceInfo → Items
json_of_service_infos [] = nil
json_of_service_infos (i ∷ is) = cons (json_of_service_info i) (json_of_service_infos is)

abbrev pub json_of_config : Config → Json
json_of_config c = object (
    member "identity" (string c.identity) (
      member "passHashed" (string c.pass_hashed) (
        member "host" (string c.host) (
          member "port" (json_of_int c.port) (
            member "authorityHost" (string c.authority_host) (
              member "authorityPort" (json_of_int c.authority_port) (
                member "services" (array (json_of_service_infos c.services))
                  (member "ssl" (boolean c.ssl) end))))))))

-- The file, for a build with or without NDEBUG.
abbrev pub config_path : Bool → String
config_path in_dev = if in_dev then "publisher/configDev.json" else "publisher/config.json"

-- loadConfig
unfoldable pub load_config : Bool → (List ℕ → Option Json) → Home → Outcome Config
load_config in_dev parse h = do
  config_string ← load_home_file (config_path in_dev) h
  j ← or_throw (parse config_string)
  config_of j

-- saveConfig. `json{config}` is a list initialisation, which makes an array of the one value.
unfoldable pub save_config : Bool → (Json → List ℕ) → (String → Bool) → Config → Home → Outcome Home
save_config in_dev dump opens c h =
    save_home_file opens (config_path in_dev) (dump (array (cons (json_of_config c) nil))) h

-- The services that the constructor of Publisher makes.
abbrev host_of : Option String → String
host_of none = "localhost"
host_of (some host) = host

abbrev pub service_of : ServiceInfo → Service
service_of i = record {
  name = i.name;
  public_port = i.public_port;
  hidden_host = host_of i.hidden_host;
  hidden_port = i.hidden_port;
}

unfoldable pub services_of : Config → List Service
services_of c = map service_of c.services
