-- ===== src/Home/Requested.antt =====
-- From a connection at the broker back to the service of the configuration.
use tunnel_drill.Prelude.{
  ℕ, ◌%◌, ◌^◌, ◌≤◌, ◌<◌, ◌≡◌, refl, subst, ◌∙◌, true, List, [], ◌∷◌, map, none, some, String, done,
  All, arith, Option-cases, inl, inr, is_some,
}
use mathlib.Core.List.{Memᴰ}
use tunnel_drill.Json.{get_int-number}
use tunnel_drill.ControlSession.{new_tunnel_message}
use tunnel_drill.PublisherClient.{Publisher, send_queued}
use tunnel_drill.PublisherClient.Control.{
  Service, NewTunnel, Signed, find_service, failure, on_new_tunnel, on_new_tunnel_message,
  on_control_read, Serves, find_service-Serves, on_new_tunnel-refused,
}
use tunnel_drill.Home.PublisherConfig.{ServiceInfo, Config, service_of, services_of}
use tunnel_drill.Home.Announced.{announced}

-- The request of the broker for a service that it knows by these ports.
abbrev pub request_for : ServiceInfo → String → String → NewTunnel
request_for i service_id tunnel_id = record {
  service_id = service_id;
  tunnel_id = tunnel_id;
  hidden_port = i.hidden_port % 2 ^ 16;
  public_port = i.public_port % 2 ^ 16;
  socket_type = "tcp";
}

module _ (services : List Service) (sign : NewTunnel → Signed) where
  -- The broker's message is read as the request that it was made from.
  on_control_read-request_for :
      (i : ServiceInfo) (service_id tunnel_id : String) (p : Publisher)
      → on_control_read services sign
          (some (new_tunnel_message (announced i) service_id tunnel_id))
          p
        ≡ on_new_tunnel services sign (request_for i service_id tunnel_id) p
  unfolding on_control_read on_new_tunnel_message
  on_control_read-request_for i service_id tunnel_id p =
      rw
        (
          on_control_read,
          on_new_tunnel_message,
          get_int-number (i.hidden_port % 2 ^ 16) (small i.hidden_port),
          get_int-number (i.public_port % 2 ^ 16) (small i.public_port),
        )
        refl
    where
      small : (n : ℕ) → n % 2 ^ 16 < 2 ^ 32
      small n = omega arith

-- A service of the list is found by its ports, or one before it that has the same.
find_service-service_of :
    (i : ServiceInfo) (is : List ServiceInfo)
    → Memᴰ i is
    → is_some (find_service i.hidden_port i.public_port (map service_of is)) ≡ true
unfolding find_service
find_service-service_of i [] m = elim m [ ]
find_service-service_of i (x ∷ is) (Memᴰ.head e) =
    subst (λ y. is_some (find_service i.hidden_port i.public_port (map service_of (y ∷ is))) ≡ true)
      e (ground arith)
find_service-service_of i (x ∷ is) (Memᴰ.tail m) = ground (arith, find_service-service_of i is m)

-- No service with a wide public port is found by 16 bits of it.
find_service-wide :
    (hidden public : ℕ) (is : List ServiceInfo)
    → public < 2 ^ 16
    → All (λ (i : ServiceInfo). 2 ^ 16 ≤ i.public_port) is
    → find_service hidden public (map service_of is) ≡ none
unfolding find_service
find_service-wide hidden public [] h a = refl
find_service-wide hidden public (x ∷ is) h a =
    ground (arith, find_service-wide hidden public is h a.1, a.0)

module _ (c : Config) (sign : NewTunnel → Signed) (i : ServiceInfo) (service_id tunnel_id : String)
    (p : Publisher) where
  -- The message for 16-bit ports that a configured service is found by opens a session for this
  -- service.
  pub requested-found :
      (token : String) (s : Service)
      → find_service i.hidden_port i.public_port (services_of c) ≡ some s
      → i.hidden_port < 2 ^ 16
      → i.public_port < 2 ^ 16
      → (sign (request_for i service_id tunnel_id)).code ≡ 200
      → (sign (request_for i service_id tunnel_id)).token ≡ some token
      → on_control_read
          (services_of c)
          sign
          (some (new_tunnel_message (announced i) service_id tunnel_id))
          p
        ≡ done (p, some (record { service = s; token = token; tunnel_id = tunnel_id }))
  unfolding services_of on_new_tunnel
  requested-found token s f hidden public code signed =
      on_control_read-request_for (map service_of c.services) sign i service_id tunnel_id p
      ∙ rw (on_new_tunnel, same i.hidden_port hidden, same i.public_port public, f)
          (rw (code, signed) refl)
    where
      same : (n : ℕ) → n < 2 ^ 16 → n % 2 ^ 16 ≡ n
      same n h = omega arith

  -- Let an entry of the publisher's configuration have 16-bit ports, and let the authority sign the
  -- request for it. Then the message that the broker sends for a connection to the service that it
  -- was announced makes the publisher open a session for a configured service with both ports, with
  -- the signed token and under the connection's tunnel id.
  pub requested-opens :
      (token : String)
      → Memᴰ i c.services
      → i.hidden_port < 2 ^ 16
      → i.public_port < 2 ^ 16
      → (sign (request_for i service_id tunnel_id)).code ≡ 200
      → (sign (request_for i service_id tunnel_id)).token ≡ some token
      → (s : Service) × Serves i.hidden_port i.public_port s (services_of c)
        × (on_control_read
              (services_of c)
              sign
              (some (new_tunnel_message (announced i) service_id tunnel_id))
              p
            ≡ done (p, some (record { service = s; token = token; tunnel_id = tunnel_id })))
  unfolding services_of on_new_tunnel
  requested-opens token m hidden public code signed =
      elim (Option-cases (find_service i.hidden_port i.public_port (map service_of c.services))) [
        | inl f ↦ absurd (found f (find_service-service_of i c.services m))
        | inr (s, f) ↦ (
          s,
          find_service-Serves i.hidden_port i.public_port s _ f,
          on_control_read-request_for (map service_of c.services) sign i service_id tunnel_id p
              ∙ rw (on_new_tunnel, same i.hidden_port hidden, same i.public_port public, f)
                  (rw (code, signed) refl),
        )
      ]
    where
      found :
          find_service i.hidden_port i.public_port (map service_of c.services) ≡ none
          → is_some (find_service i.hidden_port i.public_port (map service_of c.services)) ≡ true
          → ⊥
      found f k = cc

      same : (n : ℕ) → n < 2 ^ 16 → n % 2 ^ 16 ≡ n
      same n h = omega arith

  -- If no service of the configuration has a public port of 16 bits, every such message is answered
  -- with "Unknown service", and no session is opened.
  pub requested-unknown :
      All (λ (k : ServiceInfo). 2 ^ 16 ≤ k.public_port) c.services
      → on_control_read
          (services_of c)
          sign
          (some (new_tunnel_message (announced i) service_id tunnel_id))
          p
        ≡ done
            (send_queued (failure (request_for i service_id tunnel_id) "Unknown service") p, none)
  unfolding services_of
  requested-unknown wide =
      on_control_read-request_for (map service_of c.services) sign i service_id tunnel_id p
      ∙ (on_new_tunnel-refused (map service_of c.services) sign (request_for i service_id tunnel_id)
            p).0
          (find_service-wide (i.hidden_port % 2 ^ 16) (i.public_port % 2 ^ 16) c.services
            (omega arith) wide)
