-- ===== src/Tunnel/Accept.antt =====
-- brokerpp/src/brokerpp/publisher/service.cpp: start, stop and the accept loop of a service.
pub mod Kept
use tunnel_drill.Prelude.{
  ℕ, suc, ◌≡◌, Bool, true, false, not, ◌||◌, List, ◌∷◌, none, some, String, str_eq, eq_iff, arith,
  if◌then◌else◌,
}
use tunnel_drill.Prelude.Dict.{lookup-insert}
use tunnel_drill.Tunnel.{TunnelSession, Service, put, session, registered, contains}

-- Service::stop
unfoldable pub stop : Service → Service
stop s = record s { acceptor_open = false }

-- Service::acceptOnce
unfoldable pub accept_once : Service → Service
accept_once s = if s.acceptor_open then record s { accepting = suc s.accepting } else s

-- The error codes of the four calls on the acceptor.
pub record StartErrors : Type 0 where
  pub open_fails : Bool
  pub option_fails : Bool
  pub bind_fails : Bool
  pub listen_fails : Bool

-- Service::start, and whether it succeeds.
unfoldable pub start : StartErrors → Service → Service × Bool
unfolding stop accept_once
start e s =
    let opened : Service = record (stop s) { acceptor_open = true } in
    if e.open_fails
    then (stop s, false)
    else if e.option_fails
    then (opened, false)
    else if e.bind_fails
    then (opened, false)
    else if e.listen_fails
    then (opened, false)
    else (accept_once opened, true)

-- What the accept handler finds: the error code, whether the publisher and its control session can
-- be locked, whether the socket is open, whether its remote endpoint is known (which the session's
-- constructor reads, and throws if it is not), and the id that the generator gives.
pub record Accepted : Type 0 where
  pub aborted : Bool
  pub error : Bool
  pub publisher : Bool
  pub control : Bool
  pub socket_open : Bool
  pub endpoint_known : Bool
  pub tunnel_id : String

-- TunnelSession's constructor, and the timer that `peek` starts.
abbrev pub new_session : List ℕ → TunnelSession
new_session zeros = record {
  peek_buffer = zeros;
  is_publisher_side = false;
  timer_armed = true;
  timer_was_cancelled = false;
  was_closed = false;
  socket_shut_down = false;
  pipe_operation = none;
}

-- sessions[tunnelId] = tunnelSide
abbrev pub add_session : List ℕ → String → Service → Service
add_session zeros id s = record (put id (new_session zeros) s) {
  sessions = if contains id s.sessions then s.sessions else id ∷ s.sessions;
}

-- The handler of `async_accept`; `n` other accepts are pending, and `zeros` is an empty peek
-- buffer.
unfoldable pub on_accept : List ℕ → ℕ → Accepted → Service → Service
unfolding accept_once
on_accept zeros n a s =
    let s' : Service = record s { accepting = n } in
    if a.aborted
    then s'
    else if not s.alive
    then s'
    else if a.error
    then accept_once s'
    else if not s.acceptor_open
    then s'
    else if not a.publisher
    then s'
    else if not a.control
    then s'
    else if not a.socket_open
    then accept_once s'
    else if not a.endpoint_known
    then s'
    else accept_once (add_session zeros a.tunnel_id s')

-- `start` begins one accept when all four calls succeed, and none otherwise; it reports which, and
-- after a success the acceptor is open.
pub start-accepting :
    (e : StartErrors) (s : Service)
    → let r = start e s in
      (r.1 ≡ not (e.open_fails || e.option_fails || e.bind_fails || e.listen_fails))
      × (r.0.accepting ≡ (if r.1 then suc s.accepting else s.accepting))
      × (r.1 ≡ true → r.0.acceptor_open ≡ true)
unfolding start
start-accepting e s = ground arith

-- On an open acceptor a connection that can be served is registered under its id as an open session
-- that waits for its first bytes, every other session stays as it is, and the next accept begins.
pub on_accept-serves :
    (zeros : List ℕ) (n : ℕ) (a : Accepted) (s : Service)
    → a.aborted ≡ false
    → s.alive ≡ true
    → a.error ≡ false
    → s.acceptor_open ≡ true
    → a.publisher ≡ true
    → a.control ≡ true
    → a.socket_open ≡ true
    → a.endpoint_known ≡ true
    → let s' = on_accept zeros n a s in
      (registered a.tunnel_id s' ≡ true)
      × (session a.tunnel_id s' ≡ some (new_session zeros))
      × ((j : String) → str_eq a.tunnel_id j ≡ false → session j s' ≡ session j s)
      × (s'.accepting ≡ suc n)
unfolding on_accept
on_accept-serves zeros n a s h1 h2 h3 h4 h5 h6 h7 h8 = (
  ground (arith, eq_iff a.tunnel_id a.tunnel_id),
  ground (
    arith,
    lookup-insert a.tunnel_id a.tunnel_id (new_session zeros) s.tunnels,
    eq_iff a.tunnel_id a.tunnel_id,
  ),
  (λ j ne. ground (arith, lookup-insert a.tunnel_id j (new_session zeros) s.tunnels)),
  ground arith,
)

-- A connection that comes while the control session is gone ends the accept loop: no accept is
-- begun, the acceptor stays open, and no session is added.
pub on_accept-stops :
    (zeros : List ℕ) (n : ℕ) (a : Accepted) (s : Service)
    → a.aborted ≡ false
    → s.alive ≡ true
    → a.error ≡ false
    → s.acceptor_open ≡ true
    → a.control ≡ false
    → let s' = on_accept zeros n a s in
      (s'.accepting ≡ n) × (s'.acceptor_open ≡ true) × (s'.sessions ≡ s.sessions)
unfolding on_accept
on_accept-stops zeros n a s h1 h2 h3 h4 h6 = ground arith
