-- ===== src/Tunnel.antt =====
-- brokerpp/src/brokerpp/publisher/tunnel_session.cpp and the session table of service.cpp: the
-- objects of one service. Sessions point at one another through weak pointers, so they are kept
-- in a heap under their tunnel id; `sessions` are the keys of the service's table.
pub mod Close
pub mod Link
pub mod Peek
pub mod Accept
pub mod Reach
pub mod Destroy
pub mod Served
pub mod Data
mod Examples
use tunnel_drill.Prelude.{
  ℕ, Bool, true, false, ◌||◌, List, [], ◌∷◌, ◌++◌, Option, none, some, String, str_eq,
  if◌then◌else◌,
}
use tunnel_drill.Prelude.Dict.{lookup, insert}

-- brokerpp ServiceInfo
pub record ServiceInfo : Type 0 where
  pub name : Option String
  pub public_port : ℕ
  pub hidden_port : ℕ

-- PipeOperation<TunnelSession>: its two weak pointers.
pub record Pipe : Type 0 where
  pub side_original : String
  pub side_other : String

-- TunnelSession::Implementation. `timer_armed`: a wait on the inactivity timer is pending.
pub record TunnelSession : Type 0 where
  pub peek_buffer : List ℕ
  pub is_publisher_side : Bool
  pub timer_armed : Bool
  pub timer_was_cancelled : Bool
  pub was_closed : Bool
  pub socket_shut_down : Bool
  pub pipe_operation : Option Pipe

-- Service::Implementation, with the heap of its sessions. `held` are the sessions that a pending
-- handler keeps alive by a shared pointer, and `alive` says whether a weak pointer to the service
-- can still be locked. `accepting` counts the pending accepts.
pub record Service : Type 0 where
  pub service_id : String
  pub info : ServiceInfo
  pub alive : Bool
  pub acceptor_open : Bool
  pub accepting : ℕ
  pub sessions : List String
  pub held : List String
  pub tunnels : List (String × TunnelSession)

abbrev pub contains : String → List String → Bool
contains k [] = false
contains k (j ∷ js) = if str_eq j k then true else contains k js

abbrev pub remove : String → List String → List String
remove k [] = []
remove k (j ∷ js) = let rest = remove k js in if str_eq j k then rest else j ∷ rest

-- impl_->sessions.find(id) != end
abbrev pub registered : String → Service → Bool
registered id s = contains id s.sessions

-- Whether a weak pointer to the session can be locked.
abbrev pub lockable : String → Service → Bool
lockable id s = contains id s.sessions || contains id s.held

abbrev pub put : String → TunnelSession → Service → Service
put id t s = record s { tunnels = insert id t s.tunnels }

abbrev pub session : String → Service → Option TunnelSession
session id s = lookup id s.tunnels

abbrev pub closed : Option TunnelSession → Bool
closed none = false
closed (some t) = t.was_closed

abbrev pub is_closed : String → Service → Bool
is_closed id s = closed (session id s)

-- impl_->sessions.erase(id)
pub unregister : String → Service → Service
unregister id s = record s { sessions = remove id s.sessions }
