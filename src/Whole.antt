-- ===== src/Whole.antt =====
-- A tunnel through both programs: from the connection of a subscriber at the broker, over the
-- control connection, to the service of the publisher's configuration and back. The messages are
-- taken as the JSON values and the bytes that one side writes and the other reads.
mod Examples
use tunnel_drill.Prelude.{
  ◌≤◌, ℕ, ◌<◌, ◌^◌, ◌≡◌, refl, sym, ap, ◌∙◌, false, true, List, [], ◌∷◌, Option, none, some, String,
  str_eq, eq_iff, eq_refl, done, length, bytes_of, Returns, arith, if◌then◌else◌,
}
use tunnel_drill.Prelude.Dict.{lookup, lookup-insert}
use tunnel_drill.Json.{Json, at, get_string}
use tunnel_drill.ControlSession.{
  ControlSession, new_tunnel_message, write_payload, write_json, inform_about_connection,
}
use tunnel_drill.Broker as Broker
use tunnel_drill.Broker.{get_service}
use tunnel_drill.Tunnel.{Service}
use tunnel_drill.Tunnel.Link.{write_initial, start_pipe, inform, on_initial_written}
use tunnel_drill.Tunnel.Peek.{
  PublisherToken, publisher_to_broker_prefix, starts_with, received, on_peek,
}
use tunnel_drill.Tunnel.Accept.{Accepted, new_session, on_accept}
use tunnel_drill.Tunnel.Served.{IsServable, read_of, connection-served}
use tunnel_drill.PublisherClient.{Publisher}
use tunnel_drill.PublisherClient.Control as Control
use tunnel_drill.PublisherClient.Control.{NewTunnel, Signed, find_service, on_control_read}
use tunnel_drill.PublisherService as Local
use tunnel_drill.PublisherService.Close.Tidy.{IsTidy, tunnel_of}
use tunnel_drill.PublisherService.Create as Create
use tunnel_drill.PublisherService.Create.{
  TokenWrite, Network, opened, hold, prefixed, create_session, on_token_written,
}
use tunnel_drill.PublisherService.Create.Connects.{
  create_session-opened, IsUp, on_token_written-IsUp,
}
use tunnel_drill.PublisherService.Create.Fails.{made-IsTidy}
use tunnel_drill.Home.PublisherConfig.{ServiceInfo, Config, services_of}
use tunnel_drill.Home.Announced.{announced}
use tunnel_drill.Home.Requested.{request_for, requested-found}

-- The publisher's side: what `createSession` and its write handler leave.
module _ (tunnel_id o inner : String) (q : Local.Service) where
  pub made : Local.Service
  made = hold o (Local.put o (Create.new_session tunnel_id) q)

  tunnel_of-made : tunnel_of o made ≡ some tunnel_id
  unfolding made
  tunnel_of-made =
      ground (arith, lookup-insert o o (Create.new_session tunnel_id) q.store, eq_refl o)

  lookup-made :
      str_eq o inner ≡ false → lookup inner q.store ≡ none → lookup inner made.store ≡ none
  unfolding made
  lookup-made ne e = ground (arith, lookup-insert o inner (Create.new_session tunnel_id) q.store)

  pub made-IsUp :
      (n : ℕ) (net : Network)
      → net q.settings.hidden_host q.settings.hidden_port ≡ opened inner
      → IsTidy q
      → lookup tunnel_id q.sessions ≡ none
      → lookup o q.store ≡ none
      → str_eq o inner ≡ false
      → lookup inner q.store ≡ none
      → Returns (IsUp tunnel_id inner o made) (on_token_written n false net tunnel_id o made)
  unfolding made
  made-IsUp n net inside v free fresh ne fresh' =
      on_token_written-IsUp n tunnel_id inner o made (made-IsTidy tunnel_id o q v fresh) free
        tunnel_of-made (lookup-made ne fresh') net inside

module _ (verify : List ℕ → Option PublisherToken) (zeros : List ℕ) (n m k c : ℕ) (cs : List ℕ)
    (a b : Accepted) (token : PublisherToken) (s : Service) (config : Config)
    (sign : NewTunnel → Signed) (entry : ServiceInfo) (text o inner : String) (p : Publisher)
    (q : Local.Service) (known : Broker.Publisher) (dump : Json → List ℕ)
    (parse : List ℕ → Option Json) (control : ControlSession) (net : Network) where
  -- Let a service of the broker be alive and accepting, and let the broker know it, under its id,
  -- by what the publisher announces for an entry with 16-bit ports; let `q` be the configured
  -- service that the publisher finds by these ports. A new session's peek buffer has 4096 bytes.
  -- Let a subscriber's connection and then another connection, with a different id, be accepted in
  -- order, and let the subscriber send bytes that fit into the buffer and do not look like the
  -- publisher's. Let the control connection carry the JSON text of the request for the tunnel; let
  -- the authority sign this request with a token of at most 4080 bytes that the broker verifies,
  -- with the control session's identity and the subscriber's tunnel id. Let the table of `q` be
  -- tidy and not have the tunnel, and its two new sessions have new ids. If the broker's host is
  -- reached on the service's public port and the hidden host on its hidden port, and the writes
  -- succeed, then every handler returns: the broker asks for the publisher to be informed of the
  -- connection, and this writes the request's text on the control session; the publisher, which
  -- reads this text, opens a session for `q`; what this session writes makes the broker pass on the
  -- subscriber's bytes and start both pipes; and the tunnel is up at the publisher.
  pub tunnel-served :
      IsServable a
      → IsServable b
      → s.alive ≡ true
      → s.acceptor_open ≡ true
      → str_eq b.tunnel_id a.tunnel_id ≡ false
      → starts_with publisher_to_broker_prefix (received (c ∷ cs) (new_session zeros)).peek_buffer
        ≡ false
      → length zeros ≡ 4096
      → length (c ∷ cs) ≤ 4096
      → get_service s.service_id known ≡ some s.info
      → s.info ≡ announced entry
      → parse (dump (new_tunnel_message s.info s.service_id a.tunnel_id))
        ≡ some (new_tunnel_message s.info s.service_id a.tunnel_id)
      → find_service entry.hidden_port entry.public_port (services_of config) ≡ some q.settings
      → entry.hidden_port < 2 ^ 16
      → entry.public_port < 2 ^ 16
      → (sign (request_for entry s.service_id a.tunnel_id)).code ≡ 200
      → (sign (request_for entry s.service_id a.tunnel_id)).token ≡ some text
      → length (bytes_of text) ≤ 4080
      → verify (bytes_of text) ≡ some token
      → get_string (at "tunnelId" token.claims) ≡ some a.tunnel_id
      → IsTidy q
      → lookup a.tunnel_id q.sessions ≡ none
      → lookup o q.store ≡ none
      → lookup inner q.store ≡ none
      → str_eq o inner ≡ false
      → net config.host q.settings.public_port ≡ opened o
      → net q.settings.hidden_host q.settings.hidden_port ≡ opened inner
      → (x y z : Service) × (message : List ℕ) × (w : TokenWrite) × (q' : Local.Service) × (on_peek
            verify n a.tunnel_id
            (read_of (c ∷ cs) token)
            (on_accept zeros m a s)
          ≡ done (x, inform s.service_id a.tunnel_id ∷ []))
        × (inform_about_connection dump
              (get_service s.service_id known)
              s.service_id
              a.tunnel_id
              control
            ≡ write_payload message control)
        × (on_control_read (services_of config) sign (parse message) p
            ≡ done
                (p, some (record { service = q.settings; token = text; tunnel_id = a.tunnel_id })))
        × (create_session (bytes_of text) a.tunnel_id config.host net q ≡ done (some w, q'))
        × (on_peek verify n b.tunnel_id (read_of w.bytes token) (on_accept zeros k b x)
            ≡ done (
              y,
              write_initial a.tunnel_id b.tunnel_id (c ∷ cs)
                  ∷ start_pipe b.tunnel_id a.tunnel_id
                  ∷ [],
            ))
        × (on_initial_written n a.tunnel_id b.tunnel_id false y
            ≡ done (z, start_pipe a.tunnel_id b.tunnel_id ∷ []))
        × Returns (IsUp a.tunnel_id inner o q') (on_token_written n false net a.tunnel_id o q')
  unfolding made inform_about_connection write_json
  tunnel-served va vb live open_ ne plain size short listed stands carried found hidden public code
        signed fits v names tidy free fresh fresh' apart outside inside =
      let (x, y, z, informed, linked, piped) =
        connection-served verify zeros n m k c cs (bytes_of text) a b token s va vb live open_ ne
          plain size short fits v names in
      (
        x,
        y,
        z,
        dump (new_tunnel_message s.info s.service_id a.tunnel_id),
        record { session = o; bytes = prefixed (bytes_of text) },
        made a.tunnel_id o inner q,
        informed,
        ap (λ i. inform_about_connection dump i s.service_id a.tunnel_id control) listed,
        ap (λ (r : Option Json). on_control_read (services_of config) sign r p)
              (carried ∙ ap (λ i. some (new_tunnel_message i s.service_id a.tunnel_id)) stands)
            ∙ requested-found config sign entry s.service_id a.tunnel_id p text q.settings found
                hidden public code signed,
        create_session-opened (bytes_of text) a.tunnel_id config.host o net q outside,
        linked,
        piped,
        made-IsUp a.tunnel_id o inner q n net inside tidy free fresh apart fresh',
      )
