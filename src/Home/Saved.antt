-- ===== src/Home/Saved.antt =====
-- The configuration of the publisher and of the broker, written and read back.
use tunnel_drill.Prelude.{
  ℕ, ◌<◌, ◌^◌, ◌≡◌, refl, Bool, true, List, [], ◌∷◌, Option, some, String, All, done, thrown,
  Returns, Returns-mono, ◌∙◌, eq_refl,
}
use tunnel_drill.Prelude.Dict.{lookup-insert}
use tunnel_drill.Json.{
  Json, array, nil, cons, get_int-json_of_int, get_unsigned_short-number, name_of-json_of_name,
}
use tunnel_drill.Home.{Home, load_home_file, save_home_file}
use tunnel_drill.Home.PublisherConfig.{
  ServiceInfo, service_info_of, service_infos_of, json_of_service_info, json_of_service_infos,
  vector_of,
}
use tunnel_drill.Home.PublisherConfig as Publisher
use tunnel_drill.Home.BrokerConfig as Broker

-- The ports are ints.
abbrev pub HasInts : ServiceInfo → Type 0
HasInts i = (i.hidden_port < 2 ^ 32) × (i.public_port < 2 ^ 32)

abbrev pub IsPublisherConfig : Publisher.Config → Type 0
IsPublisherConfig c = (c.port < 2 ^ 32) × (c.authority_port < 2 ^ 32) × All HasInts c.services

service_info_of-json :
    (i : ServiceInfo) → HasInts i → service_info_of (json_of_service_info i) ≡ done i
unfolding service_info_of
service_info_of-json i h =
    rw
      (
        service_info_of,
        name_of-json_of_name i.name,
        get_int-json_of_int i.hidden_port h.0,
        get_int-json_of_int i.public_port h.1,
        name_of-json_of_name i.hidden_host,
      )
      refl

service_infos_of-json :
    (is : List ServiceInfo) → All HasInts is → service_infos_of (json_of_service_infos is) ≡ done is
unfolding service_infos_of
service_infos_of-json [] h = refl
service_infos_of-json (i ∷ is) h =
    rw (service_infos_of, service_info_of-json i h.0, service_infos_of-json is h.1) refl

-- A configuration of the publisher is read back from its JSON value, if its ports are ints.
pub config_of-json_of_config :
    (c : Publisher.Config)
    → IsPublisherConfig c
    → Publisher.config_of (Publisher.json_of_config c) ≡ done c
unfolding Publisher.config_of
config_of-json_of_config c h =
    rw
      (
        Publisher.config_of,
        get_int-json_of_int c.port h.0,
        get_int-json_of_int c.authority_port h.1,
        service_infos_of-json c.services h.2,
      )
      refl

broker_config_of-json :
    (c : Broker.Config) → c.bind.port < 2 ^ 16 → Broker.config_of (Broker.json_of_config c) ≡ done c
unfolding Broker.config_of Broker.server_config_of
broker_config_of-json c h = rw (get_unsigned_short-number c.bind.port h) refl

-- A file that was written is read back.
load-save :
    (opens : String → Bool) (path : String) (bytes : List ℕ) (h : Home)
    → opens path ≡ true
    → Returns (λ h'. load_home_file path h' ≡ done bytes) (save_home_file opens path bytes h)
unfolding load_home_file save_home_file
load-save opens path bytes h o =
    rw o (rw (lookup-insert path path bytes h.files, eq_refl path) refl)

module _ (dump : Json → List ℕ) (parse : List ℕ → Option Json) (opens : String → Bool)
    (in_dev : Bool) (h : Home) where
  -- What a load comes to that finds a text with the value `j`.
  pub publisher-loads :
      (j : Json) (text : List ℕ) (h' : Home)
      → parse text ≡ some j
      → load_home_file (Publisher.config_path in_dev) h' ≡ done text
      → Publisher.load_config in_dev parse h' ≡ Publisher.config_of j
  unfolding Publisher.load_config
  publisher-loads j text h' p l = rw (l, p) refl

  pub broker-loads :
      (j : Json) (text : List ℕ) (h' : Home)
      → parse text ≡ some j
      → load_home_file (Broker.config_path in_dev) h' ≡ done text
      → Broker.load_config in_dev parse h' ≡ Broker.config_of j
  unfolding Broker.load_config
  broker-loads j text h' p l = rw (l, p) refl

  array-refused :
      (j : Json)
      → (Publisher.config_of (array (cons j nil)) ≡ thrown)
        × (Broker.config_of (array (cons j nil)) ≡ thrown)
  unfolding Publisher.config_of Broker.config_of
  array-refused j = (refl, refl)

  -- Let json::parse read back what was dumped, and let the files be opened for writing. Then
  -- saveConfig returns, and loadConfig throws on what it has saved: of any configuration of the
  -- publisher, and of any of the broker.
  pub save_config-unreadable :
      (c : Publisher.Config) (b : Broker.Config)
      → (let j = array (cons (Publisher.json_of_config c) nil) in parse (dump j) ≡ some j)
      → (let j = array (cons (Broker.json_of_config b) nil) in parse (dump j) ≡ some j)
      → opens (Publisher.config_path in_dev) ≡ true
      → opens (Broker.config_path in_dev) ≡ true
      → Returns
          (λ h'. Publisher.load_config in_dev parse h' ≡ thrown)
          (Publisher.save_config in_dev dump opens c h)
        × Returns
            (λ h'. Broker.load_config in_dev parse h' ≡ thrown)
            (Broker.save_config in_dev dump opens b h)
  unfolding Publisher.save_config Broker.save_config
  save_config-unreadable c b p q o k = (
    Returns-mono (λ h'. load_home_file (Publisher.config_path in_dev) h' ≡ done (dump pj)) _ _
        (load-save opens (Publisher.config_path in_dev) (dump pj) h o)
        (λ h' l.
          publisher-loads pj (dump pj) h' p l ∙ (array-refused (Publisher.json_of_config c)).0),
    Returns-mono (λ h'. load_home_file (Broker.config_path in_dev) h' ≡ done (dump bj)) _ _
        (load-save opens (Broker.config_path in_dev) (dump bj) h k)
        (λ h' l. broker-loads bj (dump bj) h' q l ∙ (array-refused (Broker.json_of_config b)).1),
  )
    where
      pj : Json
      pj = array (cons (Publisher.json_of_config c) nil)

      bj : Json
      bj = array (cons (Broker.json_of_config b) nil)
