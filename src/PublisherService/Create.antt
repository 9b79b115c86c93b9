-- ===== src/PublisherService/Create.antt =====
-- Service::createSession and its write handler, ServiceSession::resetTimer and pipeTo.
pub mod Connects
pub mod Accepted
pub mod Fails
use Prim.Native.String.{◌++◌ as str_append}
use tunnel_drill.Prelude.{
  ℕ, Bool, true, false, List, [], ◌∷◌, ◌++◌, Option, none, some, String, if◌then◌else◌, Outcome,
  done, undefined, thrown, ◌>>=◌, bytes_of,
}
use tunnel_drill.Prelude.Dict.{lookup, insert}
use tunnel_drill.Tunnel.{Pipe}
use tunnel_drill.Tunnel.Peek.{publisher_to_broker_prefix}
use tunnel_drill.PublisherService.{ServiceSession, SessionPair, Service, lockable, put, pipe}
use tunnel_drill.PublisherService.Close.{drop_pipe, drop_session, close}

-- What a connection comes to: the host does not resolve, which throws; it cannot be reached; or
-- there is a socket, and the session for it is made under this id.
pub data Connection : Type 0 where
  unresolved refused : Connection
  opened : String → Connection

abbrev pub new_session : String → ServiceSession
new_session tunnel_id = record {
  tunnel_id = tunnel_id;
  active = true;
  timer_armed = false;
  socket_shut_down = false;
}

abbrev pub hold : String → Service → Service
hold id s = record s { held = id ∷ s.held }

-- What `resolve` and `connect` come to for a host and a port.
abbrev pub Network : Type 0
Network = String → ℕ → Connection

-- The lambda createConnection, behind `connect`. The caller holds the session that it returns.
pub connected_over : String → Connection → Service → Outcome (Option String × Service)
connected_over tunnel_id unresolved s = thrown
connected_over tunnel_id refused s = done (none, s)
connected_over tunnel_id (opened id) s = done (some id, hold id (put id (new_session tunnel_id) s))

-- The lambda createConnection
pub create_connection : String → String → ℕ → Network → Service → Outcome (Option String × Service)
unfolding connected_over
create_connection tunnel_id host port net s = connected_over tunnel_id (net host port) s

-- async_write of these bytes to the session's socket.
pub record TokenWrite : Type 0 where
  pub session : String
  pub bytes : List ℕ

-- publisherToBrokerPrefix + ":" + token
abbrev pub prefixed : List ℕ → List ℕ
prefixed token = publisher_to_broker_prefix ++ (b':' ∷ token)

-- Service::createSession behind the connection to the broker, up to the write. The handler holds
-- the session.
pub session_over : List ℕ → String → Connection → Service → Outcome (Option TokenWrite × Service)
unfolding connected_over
session_over token tunnel_id outwards s = do
  (session, s') ← connected_over tunnel_id outwards s
  elim session [
    | none ↦ done (none, s')
    | some id ↦ done (some (record { session = id; bytes = prefixed token }), s')
  ]

-- Service::createSession, up to the write.
pub create_session :
    List ℕ → String → String → Network → Service → Outcome (Option TokenWrite × Service)
unfolding session_over
create_session token tunnel_id broker_host net s =
    session_over token tunnel_id (net broker_host s.settings.public_port) s

abbrev armed : Option ServiceSession → String → Service → Service
armed none id s = s
armed (some t) id s = put id (record t { timer_armed = true }) s

-- ServiceSession::resetTimer
pub reset_timer : String → Service → Service
reset_timer id s = armed (lookup id s.store) id s

-- The handler of the inactivity timer, with the error code's truth.
pub on_timer : ℕ → String → Bool → Service → Outcome Service
on_timer n id true s = done s
on_timer n id false s = if lockable id s then close n id s else done s

-- sessions_.emplace(tunnelId, ServiceSessionPair{inwards, outwards, {}, {}}): an entry that is
-- there stays.
abbrev pub emplaced : Option SessionPair → String → String → String → Service → Service
emplaced (some p) tunnel_id inwards outwards s = s
emplaced none tunnel_id inwards outwards s = record s {
  sessions =
      insert tunnel_id
        (record { inward = inwards; outward = outwards; inward_pipe = none; outward_pipe = none })
        s.sessions;
}

abbrev pub set_pair : String → SessionPair → Service → Service
set_pair tunnel_id p s = record s { sessions = insert tunnel_id p s.sessions }

-- elem.first->second.inwardPipe = inwards->pipeTo(*outwards). The pipe that was there is destroyed
-- behind the assignment; `elem` must still be valid.
assign_inward : ℕ → String → String → String → Option SessionPair → Service → Outcome Service
unfolding reset_timer
assign_inward n tunnel_id inwards outwards none s = undefined
assign_inward n tunnel_id inwards outwards (some p) s = drop_pipe (close n) p.inward_pipe (
    set_pair tunnel_id (record p { inward_pipe = some (pipe inwards outwards) })
      (reset_timer inwards s))

-- elem.first->second.outwardPipe = outwards->pipeTo(*inwards)
assign_outward : ℕ → String → String → String → Option SessionPair → Service → Outcome Service
unfolding reset_timer
assign_outward n tunnel_id inwards outwards none s = undefined
assign_outward n tunnel_id inwards outwards (some p) s = drop_pipe (close n) p.outward_pipe (
    set_pair tunnel_id (record p { outward_pipe = some (pipe outwards inwards) })
      (reset_timer outwards s))

-- The block under `sessionGuard_`.
pub connect_pipes : ℕ → String → String → String → Service → Outcome Service
unfolding assign_inward assign_outward
connect_pipes n tunnel_id inwards outwards s = do
  let s1 = emplaced (lookup tunnel_id s.sessions) tunnel_id inwards outwards s
  s2 ← assign_inward n tunnel_id inwards outwards (lookup tunnel_id s1.sessions) s1
  assign_outward n tunnel_id inwards outwards (lookup tunnel_id s2.sessions) s2

on_inwards : ℕ → String → String → Option String → Service → Outcome Service
unfolding connect_pipes
on_inwards n tunnel_id outwards none s = close n outwards s
on_inwards n tunnel_id outwards (some inwards) s = do
  s' ← connect_pipes n tunnel_id inwards outwards s
  drop_session (close n) inwards s'

-- The handler of the write of the token: the error code's truth, and what the connection to the
-- hidden host comes to. The service is there, since the publisher keeps its services as long as it
-- lives.
pub written_over : ℕ → Bool → Connection → String → String → Service → Outcome Service
unfolding connected_over on_inwards
written_over n true inwards tunnel_id outwards s = drop_session (close n) outwards s
written_over n false inwards tunnel_id outwards s = do
  (session, s1) ← connected_over tunnel_id inwards s
  s2 ← on_inwards n tunnel_id outwards session s1
  drop_session (close n) outwards s2

-- The handler of the write of the token.
pub on_token_written : ℕ → Bool → Network → String → String → Service → Outcome Service
unfolding written_over
on_token_written n error net tunnel_id outwards s =
    written_over n error (net s.settings.hidden_host s.settings.hidden_port) tunnel_id outwards s
