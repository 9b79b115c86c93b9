-- ===== src/Tunnel/Reach/Examples.antt =====
-- A service that a connection has come to, and its end.
use tunnel_drill.Prelude.{
  str_eq, ◌⊎◌, ◌≢◌, ℕ, ◌≡◌, refl, true, false, not, List, [], Option, none, some, String, arith,
  Returns, undefined,
}
use tunnel_drill.Prelude.Dict.{lookup, insert}
use tunnel_drill.Tunnel.{Pipe, TunnelSession, Service, session, registered, contains}
use tunnel_drill.Tunnel.Data.{info}
use tunnel_drill.Tunnel.Close.Effect.{open_count}
use tunnel_drill.Tunnel.Close.Sound.{IsSound}
use tunnel_drill.Tunnel.Link.{connect_tunnels}
use tunnel_drill.Tunnel.Peek.{PublisherToken}
use tunnel_drill.Tunnel.Accept.{Accepted, StartErrors, start, on_accept, accept_once, stop}
use tunnel_drill.Tunnel.Destroy.{destroy, destroy-closes}
use tunnel_drill.Tunnel.Reach.{
  constructed, Reach, here, next, starts, accepts, Reach-IsSound, connect_tunnels-defined,
}

abbrev no_token : List ℕ → Option PublisherToken
no_token text = none

abbrev no_errors : StartErrors
no_errors = record {
  open_fails = false;
  option_fails = false;
  bind_fails = false;
  listen_fails = false;
}

abbrev arrival : Accepted
arrival = record {
  aborted = false;
  error = false;
  publisher = true;
  control = true;
  socket_open = true;
  endpoint_known = true;
  tunnel_id = "c";
}

abbrev listening : Service
listening = (start no_errors (constructed "service" info)).0

abbrev visited : Service
visited = on_accept [] 0 arrival listening

visited-Reach : Reach no_token [] "service" info visited
unfolding open_count constructed start stop accept_once lookup
visited-Reach =
    next 1 (next 1 here (omega arith) (starts no_errors (constructed "service" info))) (omega arith)
      (accepts 0 arrival listening refl)

Reach-IsSound_example : IsSound visited
Reach-IsSound_example = Reach-IsSound no_token [] visited-Reach

connect_tunnels-defined_example :
    (registered "c" visited ≡ not (registered "p" visited)
      → connect_tunnels 2 "c" "p" visited ≡ undefined)
    × (registered "c" visited ≡ false
        → registered "p" visited ≡ false
        → Returns (λ x. IsSound x.0) (connect_tunnels 2 "c" "p" visited))
    × ((t : TunnelSession)
        → registered "c" visited ≡ true
        → registered "p" visited ≡ true
        → session "c" visited ≡ some t
        → ((t.peek_buffer ≢ []) ⊎ (t.pipe_operation ≡ none)
            → Returns (λ x. IsSound x.0) (connect_tunnels 2 "c" "p" visited))
          × ((p : Pipe)
              → t.peek_buffer ≡ []
              → t.pipe_operation ≡ some p
              → contains "c" visited.held ≡ false
              → str_eq "c" "p" ≡ false
              → connect_tunnels 2 "c" "p" visited ≡ undefined))
unfolding open_count constructed start stop accept_once on_accept insert
connect_tunnels-defined_example =
    connect_tunnels-defined no_token [] 2 "c" "p" visited-Reach refl (omega arith)

destroy-closes_example :
    Returns
      (λ s'.
        (id : String)
        → (registered id s' ≡ false)
          × (registered id visited ≡ true
              → contains id visited.held ≡ false
              → (t : TunnelSession) → session id s' ≡ some t
              → (t.socket_shut_down ≡ true) × (t.timer_armed ≡ false)))
      (destroy 2 visited)
unfolding open_count constructed start stop accept_once on_accept insert
destroy-closes_example =
    destroy-closes 2 visited (Reach-IsSound no_token [] visited-Reach) refl (omega arith)
