-- ===== src/PublisherService.antt =====
-- publisherpp/src/publisherpp/service.cpp and service_session.cpp: the two connections of a tunnel
-- on the publisher's side, to the broker and to the hidden host. Sessions are kept in a heap under
-- their ids; what connecting and writing come to are arguments.
pub mod Close
pub mod Create
pub mod Reach
pub mod Data
mod Examples
use tunnel_drill.Prelude.{
  ℕ, Bool, true, false, ◌||◌, List, [], ◌∷◌, ◌++◌, Option, none, some, String, str_eq,
  if◌then◌else◌, bytes_of,
}
use tunnel_drill.Prelude.Dict.{lookup, insert, erase}
use tunnel_drill.Tunnel.{Pipe, contains}
use tunnel_drill.PublisherClient.Control

-- ServiceSession::Implementation; `tunnel_id` is what the callback in `onClose` captured.
pub record ServiceSession : Type 0 where
  pub tunnel_id : String
  pub active : Bool
  pub timer_armed : Bool
  pub socket_shut_down : Bool

-- Service::ServiceSessionPair
pub record SessionPair : Type 0 where
  pub inward : String
  pub outward : String
  pub inward_pipe : Option Pipe
  pub outward_pipe : Option Pipe

-- The fields of a Service that do not change, its table, and the heap of its sessions. `held` are
-- the sessions that a variable or a pending handler keeps alive, as often as it does.
pub record Service : Type 0 where
  pub settings : Control.Service
  pub sessions : List (String × SessionPair)
  pub held : List String
  pub store : List (String × ServiceSession)

-- Service::Service
abbrev pub started : Control.Service → Service
started settings = record { settings = settings; sessions = []; held = []; store = [] }

-- Whether a pair of the table holds the session.
abbrev pub in_pairs : String → List (String × SessionPair) → Bool
in_pairs id [] = false
in_pairs id ((key, p) ∷ rest) = str_eq p.inward id || (str_eq p.outward id || in_pairs id rest)

-- Whether a weak pointer to the session can be locked.
abbrev pub lockable : String → Service → Bool
lockable id s = in_pairs id s.sessions || contains id s.held

abbrev pub active_of : Option ServiceSession → Bool
active_of none = false
active_of (some t) = t.active

-- ServiceSession::active; a session that is gone is not active.
abbrev pub is_active : String → Service → Bool
is_active id s = active_of (lookup id s.store)

-- PipeOperation's constructor, with its two weak pointers.
abbrev pub pipe : String → String → Pipe
pipe original other = record { side_original = original; side_other = other }

abbrev pub put : String → ServiceSession → Service → Service
put id t s = record s { store = insert id t s.store }
