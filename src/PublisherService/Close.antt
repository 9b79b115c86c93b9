-- ===== src/PublisherService/Close.antt =====
-- ServiceSession::close and its destructor, the callback that `createConnection` sets, and
-- PipeOperation::close, which call one another. A nested close is one unit of fuel less.
pub mod Removal
pub mod Tidy
pub mod Keeps
pub mod Ends
pub mod Drops
use tunnel_drill.Prelude.{
  ℕ, zero, suc, Bool, true, false, ◌||◌, List, [], ◌∷◌, Option, none, some, String, if◌then◌else◌,
  Outcome, done, out_of_fuel, undefined, ◌>>=◌,
}
use tunnel_drill.Prelude.Dict.{lookup, insert, erase}
use tunnel_drill.Tunnel.{Pipe}
use tunnel_drill.Tunnel.Link.{release}
use tunnel_drill.PublisherService.{ServiceSession, SessionPair, Service, lockable, is_active, put}

-- The socket is shut down, and the session is no longer active.
abbrev pub ended : ServiceSession → ServiceSession
ended t = record t { active = false; socket_shut_down = true }

abbrev pub forget : String → Service → Service
forget id s = record s { store = erase id s.store }

-- While its members are being destroyed, a pair still owns its sessions.
abbrev pub hold_pair : SessionPair → Service → Service
hold_pair p s = record s { held = p.inward ∷ p.outward ∷ s.held }

module _ (rec : String → Service → Outcome Service) where
  abbrev pub close_if : Bool → String → Service → Outcome Service
  close_if true id s = rec id s
  close_if false id s = done s

  -- PipeOperation::close through a shared pointer; a null pointer is undefined behaviour.
  pub close_pipe : Option Pipe → Service → Outcome Service
  close_pipe none s = undefined
  close_pipe (some p) s = do
    s' ← close_if (lockable p.side_original s) p.side_original s
    close_if (lockable p.side_other s) p.side_other s'

  -- The destructor of a pipe that a shared pointer owned, if it did.
  pub drop_pipe : Option Pipe → Service → Outcome Service
  unfolding close_pipe
  drop_pipe none s = done s
  drop_pipe (some p) s = close_pipe (some p) s

  -- A shared pointer to a session goes away. The last one runs the destructor, which closes.
  pub drop_session : String → Service → Outcome Service
  drop_session id s =
      let s' : Service = record s { held = release id s.held } in
      if lockable id s' then done s' else (do s'' ← rec id s'; done (forget id s''))

  -- The pair's members are destroyed behind `erase`: the pipes, and then the sessions.
  drop_pair : SessionPair → Service → Outcome Service
  unfolding drop_pipe drop_session
  drop_pair p s = do
    s1 ← drop_pipe p.outward_pipe s
    s2 ← drop_pipe p.inward_pipe s1
    s3 ← drop_session p.outward s2
    drop_session p.inward s3

  -- sessions_.erase(it), where `it` must not have been erased meanwhile.
  erase_pair : String → Option SessionPair → Service → Outcome Service
  unfolding drop_pair
  erase_pair key none s = undefined
  erase_pair key (some p) s =
      drop_pair p (hold_pair p (record s { sessions = erase key s.sessions }))

  close_outward_pipe : Option SessionPair → Service → Outcome Service
  unfolding close_pipe
  close_outward_pipe none s = undefined
  close_outward_pipe (some p) s = close_pipe p.outward_pipe s

  -- Both sessions of the pair are no longer active. `session` refers into the table: if a nested
  -- call has erased the entry, the next use of it is undefined.
  pub end_pair : String → SessionPair → Service → Outcome Service
  unfolding erase_pair close_outward_pipe
  end_pair key p s = do
    s1 ← close_pipe p.inward_pipe s
    s2 ← close_outward_pipe (lookup key s1.sessions) s1
    erase_pair key (lookup key s2.sessions) s2

  on_close_pair : String → Option SessionPair → Service → Outcome Service
  unfolding end_pair
  on_close_pair key none s = done s
  on_close_pair key (some p) s =
      if is_active p.inward s || is_active p.outward s then done s else end_pair key p s

  -- The callback that `createConnection` sets.
  pub on_close : String → Service → Outcome Service
  unfolding on_close_pair
  on_close key s = on_close_pair key (lookup key s.sessions) s

  close_on : String → Option ServiceSession → Service → Outcome Service
  unfolding on_close
  close_on id none s = done s
  close_on id (some t) s = if t.active then on_close t.tunnel_id (put id (ended t) s) else done s

-- ServiceSession::close
pub close : ℕ → String → Service → Outcome Service
unfolding close_on
close zero id s = out_of_fuel
close (suc n) id s = close_on (close n) id (lookup id s.store) s
