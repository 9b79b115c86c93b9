-- ===== src/PublisherClient/Examples.antt =====
-- The theorems on the publisher at concrete states and messages.
use tunnel_drill.Prelude.{◌≡◌, refl, true, [], ◌∷◌, none, some, arith}
use tunnel_drill.Json.{null}
use tunnel_drill.PublisherClient.{
  Publisher, Response, here, next, init, authenticate, on_wait_over, on_connected, on_send_failed,
  connected, wait_over,
}
use tunnel_drill.PublisherClient.Backoff.{
  IsPaced, Reach-IsPaced, fail_rounds, delays, fail_rounds-delays,
}
use tunnel_drill.PublisherClient.Stall.{on_send_failed-stalls}
use tunnel_drill.PublisherClient.Control.{
  Service, NewSession, NewTunnel, Signed, find_service, on_new_tunnel, Serves, on_new_tunnel-Serves,
}

abbrev unauthorized : Response
unauthorized = record { result = 0; code = 401 }

abbrev granted : Response
granted = record { result = 0; code = 200 }

-- The handshake is being sent.
abbrev sending : Publisher
sending = on_connected null init

-- The send fails, the publisher waits, authenticates, and connects again.
on_send_failed-stalls_example :
    (on_connected null (on_wait_over granted (on_send_failed 0 sending))).sent ≡ sending.sent
unfolding on_connected init
on_send_failed-stalls_example = on_send_failed-stalls {handshake = null} sending refl (
    next (next here (wait_over (on_send_failed 0 sending) granted))
      (connected (on_wait_over granted (on_send_failed 0 sending))))

fail_rounds-delays_example :
    let p = fail_rounds 7 unauthorized (authenticate unauthorized init) in
    (p.waits ≡ delays 8) × (p.is_reconnecting ≡ true)
fail_rounds-delays_example = fail_rounds-delays unauthorized 7 (λ e. omega (arith, e))

Reach-IsPaced_example : IsPaced (on_connected null (on_wait_over unauthorized init))
Reach-IsPaced_example =
    Reach-IsPaced {handshake = null}
      (next (next here (wait_over init unauthorized)) (connected (on_wait_over unauthorized init)))

abbrev web : Service
web = record { name = some "web"; public_port = 80; hidden_host = "localhost"; hidden_port = 8080 }

abbrev request : NewTunnel
request = record {
  service_id = "s";
  tunnel_id = "t";
  hidden_port = 8080;
  public_port = 80;
  socket_type = "tcp";
}

abbrev signs : NewTunnel → Signed
signs t = record { code = 200; token = some "token" }

abbrev refuses : NewTunnel → Signed
refuses t = record { code = 401; token = none }

abbrev session : NewSession
session = record { service = web; token = "token"; tunnel_id = "t" }

on_new_tunnel-Serves_example :
    Serves 8080 80 web (web ∷ [])
    × ((signs request).code ≡ 200)
    × ((signs request).token ≡ some session.token)
    × (session.tunnel_id ≡ request.tunnel_id)
    × (init ≡ init)
unfolding on_new_tunnel find_service
on_new_tunnel-Serves_example = on_new_tunnel-Serves (web ∷ []) signs request init init session refl
