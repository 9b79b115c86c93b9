-- ===== src/Home/Announced.antt =====
-- From the configuration file of the publisher to the services of the broker.
use tunnel_drill.Prelude.{
  none, ℕ, ◌%◌, ◌^◌, ◌≡◌, refl, ap, ◌∙◌, Bool, true, List, [], ◌∷◌, map, Option, some, String, done,
  All,
}
use tunnel_drill.Json.{Json}
use tunnel_drill.Tunnel as Tunnel
use tunnel_drill.Broker as Broker
use tunnel_drill.ControlSession.{ControlSession}
use tunnel_drill.Announcement.{handshake, numbered, added, on_handshake, Additions, is_current}
use tunnel_drill.Announcement.RoundTrip.{HasPorts, info_of, on_handshake-handshake}
use tunnel_drill.Home.{Home, load_home_file}
use tunnel_drill.Home.PublisherConfig.{
  ServiceInfo, Config, config_path, json_of_config, load_config, service_of, services_of,
}
use tunnel_drill.Home.Saved.{HasInts, IsPublisherConfig, publisher-loads, config_of-json_of_config}

-- What the broker is to make of an entry of the configuration.
abbrev pub announced : ServiceInfo → Tunnel.ServiceInfo
announced i = record {
  name = i.name;
  public_port = i.public_port % 2 ^ 16;
  hidden_port = i.hidden_port % 2 ^ 16;
}

announced-service_of : (is : List ServiceInfo) → map info_of (map service_of is) ≡ map announced is
announced-service_of [] = refl
announced-service_of (i ∷ is) = ap (λ l. announced i ∷ l) (announced-service_of is)

HasPorts-service_of : (is : List ServiceInfo) → All HasInts is → All HasPorts (map service_of is)
HasPorts-service_of [] h = tt
HasPorts-service_of (i ∷ is) h = ((h.0.1, h.0.0), HasPorts-service_of is h.1)

-- If the publisher's configuration file holds a text that json::parse reads as the JSON value of a
-- configuration whose ports are ints, loadConfig returns this configuration, and the broker, when
-- the callback's pointers can be locked and `addService` does not throw, takes the handshake of a
-- publisher that is made of it for exactly the configured services in their order: each is added
-- with its name and the lower 16 bits of its ports. The results are written on the session if it is
-- the publisher's current control session, and are not written on it otherwise.
pub configured-announced :
    (dump : Json → List ℕ) (parse : List ℕ → Option Json) (in_dev : Bool) (h : Home) (text : List ℕ)
    (c : Config) (what ref : String) (world : Additions) (own : ℕ) (p : Broker.Publisher)
    (s : ControlSession)
    → load_home_file (config_path in_dev) h ≡ done text
    → parse text ≡ some (json_of_config c)
    → IsPublisherConfig c
    → world.throws_at ≡ none
    → (load_config in_dev parse h ≡ done c)
      × (on_handshake dump true (some own) what world (handshake c.identity (services_of c)) ref p s
          ≡ added dump
              (Broker.add_services
                (is_current own p)
                (numbered 0 world.start (map announced c.services))
                p)
              s)
unfolding services_of
configured-announced dump parse in_dev h text c what ref world own p s l r v q = (
  publisher-loads dump parse (λ _. true) in_dev h (json_of_config c) text h r l
      ∙ config_of-json_of_config c v,
  on_handshake-handshake dump what c.identity ref world own (map service_of c.services) p s
        (HasPorts-service_of c.services v.2) q
      ∙ ap (λ l. added dump (Broker.add_services (is_current own p) (numbered 0 world.start l) p) s)
          (announced-service_of c.services),
)
