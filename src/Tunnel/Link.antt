-- ===== src/Tunnel/Link.antt =====
-- TunnelSession::link and pipeTo, and Service::connectTunnels and closeTunnelSide's callers:
-- how two sessions become the two ends of a tunnel.
pub mod Laws
pub mod Kept
pub mod Survives
use tunnel_drill.Prelude.{
  undefined, ◌||◌, ℕ, Bool, true, false, not, List, [], ◌∷◌, ◌++◌, Option, none, some, String,
  str_eq, if◌then◌else◌, Outcome, done, ◌>>=◌,
}
use tunnel_drill.Tunnel.{Pipe, TunnelSession, Service, put, session, registered, lockable}
use tunnel_drill.Tunnel.Close.{close, close_pipe, drop_pipe, close_tunnel_side}

-- What the code asks of the sockets and of the control session.
pub data Action : Type 0 where
  -- async_write of the peeked bytes of the first session to the second's socket
  write_initial : String → String → List ℕ → Action
  -- PipeOperation::doPipe from the first session to the second
  start_pipe : String → String → Action
  -- ControlSession::informAboutConnection(serviceId, tunnelId)
  inform : String → String → Action

abbrev pub Step : Type 0
Step = Outcome (Service × List Action)

-- pipeOperation = p. The operation that was there before is destroyed, which closes its sides.
abbrev pub assign_pipe : ℕ → Option TunnelSession → String → Pipe → Service → Outcome Service
assign_pipe n none id p s = done s
assign_pipe n (some t) id p s =
    close_pipe (close n) t.pipe_operation (put id (record t { pipe_operation = some p }) s)

-- self.pipeOperation = self.pipeTo(other)
pub pipe_to : ℕ → String → String → Service → Step
pipe_to n self other s = do
  s' ← assign_pipe n (session self s) self (record { side_original = self; side_other = other }) s
  done (s', start_pipe self other ∷ [])

abbrev pub peeked : Option TunnelSession → List ℕ
peeked none = []
peeked (some t) = t.peek_buffer

-- One direction of `link`: bytes that were peeked are written first, by a handler that keeps both
-- sessions alive.
pub forward : ℕ → String → String → List ℕ → Service → Step
unfolding pipe_to
forward n self other [] s = pipe_to n self other s
forward n self other (c ∷ cs) s =
    done (record s { held = self ∷ other ∷ s.held }, write_initial self other (c ∷ cs) ∷ [])

-- Whether `this` is still there for the second direction of `link`: closing a side of the pipe that
-- the first direction replaced may have released it. The caller keeps `other`.
abbrev pub survives : String → String → Service → Bool
survives self other s = lockable self s || str_eq self other

-- TunnelSession::link, where no write throws. The second direction uses `*this`.
unfoldable pub link : ℕ → String → String → Service → Step
unfolding forward
link n self other s = do
  (s', first) ← forward n self other (peeked (session self s)) s
  (if survives self other s'
      then (do
        (s'', second) ← forward n other self (peeked (session other s')) s'
        done (s'', first ++ second))
      else undefined)

-- One direction of `link`, and whether `async_write` throws, which closes the session.
pub forward_or_close : ℕ → Bool → String → String → List ℕ → Service → Step
unfolding forward
forward_or_close n false self other bytes s = forward n self other bytes s
forward_or_close n true self other [] s = forward n self other [] s
forward_or_close n true self other (c ∷ cs) s = do s' ← close n self s; done (s', [])

-- TunnelSession::link, with whether its first and its second write throw.
pub link_or_close : ℕ → Bool → Bool → String → String → Service → Step
unfolding forward_or_close
link_or_close n first_throws second_throws self other s = do
  (s', first) ← forward_or_close n first_throws self other (peeked (session self s)) s
  (if survives self other s'
      then (do
        (s'', second) ← forward_or_close n second_throws other self (peeked (session other s')) s'
        done (s'', first ++ second))
      else undefined)

abbrev pub pipe_of : Option TunnelSession → Option Pipe
pipe_of none = none
pipe_of (some t) = t.pipe_operation

abbrev pub release : String → List String → List String
release k [] = []
release k (j ∷ js) = let rest = release k js in if str_eq j k then js else j ∷ rest

-- TunnelSession::~TunnelSession, and behind it the destructor of the pipe that the session has.
pub destroyed : ℕ → String → Service → Outcome Service
destroyed n id s = do
  s' ← close n id s
  close_pipe (close n) (pipe_of (session id s')) (drop_pipe (session id s') id s')

-- A handler's shared pointer goes out of scope; the last one runs the destructor.
pub let_go : ℕ → String → Service → Outcome Service
unfolding destroyed
let_go n id s =
    let s' : Service = record s { held = release id s.held } in
    if lockable id s' then done s' else destroyed n id s'

-- The completion of `write_initial self other`, with the error code's truth. The handler then lets
-- go of both sessions.
pub on_initial_written : ℕ → String → String → Bool → Service → Step
unfolding pipe_to let_go
on_initial_written n self other true s = do
  s1 ← close n self s
  s2 ← close n other s1
  s3 ← let_go n other s2
  s4 ← let_go n self s3
  done (s4, [])
on_initial_written n self other false s = do
  (s1, acts) ← pipe_to n self other s
  s2 ← let_go n other s1
  s3 ← let_go n self s2
  done (s3, acts)

-- Service::connectTunnels
unfoldable pub connect_tunnels : ℕ → String → String → Service → Step
connect_tunnels n client publisher s =
    if not (registered client s)
    then (do s' ← close_tunnel_side n publisher false s; done (s', []))
    else if not (registered publisher s)
    then (do s' ← close_tunnel_side n client false s; done (s', []))
    else link n client publisher s
