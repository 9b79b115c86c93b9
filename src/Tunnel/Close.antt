-- ===== src/Tunnel/Close.antt =====
-- TunnelSession::close, PipeOperation::close and Service::closeTunnelSide, which call one another.
-- A nested close is one unit of fuel less; the fuel that suffices is in Close/Total.
pub mod Effect
pub mod Sides
pub mod Total
pub mod Side
pub mod Kept
pub mod Held
pub mod Sound
use tunnel_drill.Prelude.{
  ℕ, zero, suc, Bool, true, false, Option, none, some, String, if◌then◌else◌, Outcome, done,
  out_of_fuel, undefined, ◌>>=◌,
}
use tunnel_drill.Tunnel.{
  Pipe, TunnelSession, Service, put, session, registered, lockable, unregister,
}

-- TunnelSession::cancelTimer
abbrev pub cancelled : TunnelSession → TunnelSession
cancelled t = record t { timer_armed = false; timer_was_cancelled = true }

-- cancelTimer, wasClosed = true and socket.shutdown.
abbrev pub shut : TunnelSession → TunnelSession
shut t = record t {
  timer_armed = false;
  timer_was_cancelled = true;
  was_closed = true;
  socket_shut_down = true;
}

-- Service::closeTunnelSide(id, true)
pub close_preclosed : String → Service → Service
close_preclosed id s = if registered id s then unregister id s else s

-- A call through a weak pointer that was locked, or not.
abbrev pub close_if :
    (String → Service → Outcome Service) → Bool → String → Service → Outcome Service
close_if rec true id s = rec id s
close_if rec false id s = done s

-- PipeOperation::close: both pointers are locked before either side is closed.
unfoldable pub close_pipe :
    (String → Service → Outcome Service) → Option Pipe → Service → Outcome Service
close_pipe rec none s = done s
close_pipe rec (some p) s = do
  s' ← close_if rec (lockable p.side_original s) p.side_original s
  close_if rec (lockable p.side_other s) p.side_other s'

-- pipeOperation.reset()
abbrev pub drop_pipe : Option TunnelSession → String → Service → Service
drop_pipe none id s = s
drop_pipe (some t) id s = put id (record t { pipe_operation = none }) s

abbrev pub leave : String → Service → Service
leave id s = if s.alive then close_preclosed id s else s

-- The part of `close` behind `if (wasClosed) return`. The destructor that `reset` runs closes the
-- pipe a second time.
pub close_open :
    (String → Service → Outcome Service) → String → TunnelSession → Service → Outcome Service
unfolding close_pipe
close_open rec id t s = do
  s' ← close_pipe rec t.pipe_operation (put id (shut t) s)
  s'' ← close_pipe rec t.pipe_operation (drop_pipe (session id s') id s')
  done (leave id s'')

close_on :
    (String → Service → Outcome Service) → String → Option TunnelSession → Service → Outcome Service
close_on rec id none s = done s
close_on rec id (some t) s = elim t.was_closed [
  | true ↦ done (put id (cancelled t) s)
  | false ↦ close_open rec id t s
]

-- TunnelSession::close
pub close : ℕ → String → Service → Outcome Service
unfolding close_on close_open
close zero id s = out_of_fuel
close (suc n) id s = close_on (close n) id (session id s) s

-- Service::closeTunnelSide(id, wasPreclosed). `close` may erase the entry that `tunnelSide` points
-- at; erasing through the iterator afterwards is undefined.
pub close_tunnel_side : ℕ → String → Bool → Service → Outcome Service
close_tunnel_side n id true s = done (close_preclosed id s)
close_tunnel_side n id false s =
    if registered id s
    then (do s' ← close n id s; if registered id s' then done (unregister id s') else undefined)
    else done s
