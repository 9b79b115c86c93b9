-- ===== src/Tunnel/Link/Laws.antt =====
-- What connectTunnels comes to: a tunnel in both directions, or undefined behaviour.
use tunnel_drill.Prelude.{
  ℕ, ◌<◌, ◌≡◌, refl, true, false, List, [], ◌∷◌, none, some, String, str_eq, arith, done, undefined,
}
use tunnel_drill.Prelude.Dict.{lookup-insert}
use tunnel_drill.Tunnel.{TunnelSession, Service, put, session, registered}
use tunnel_drill.Tunnel.Close.{close_pipe}
use tunnel_drill.Tunnel.Close.Effect.{open_count}
use tunnel_drill.Tunnel.Close.Side.{close_tunnel_side-undefined}
use tunnel_drill.Tunnel.Link.Kept.{let_go-registered}
use tunnel_drill.Tunnel.Link.{
  write_initial, start_pipe, link, pipe_to, forward, on_initial_written, connect_tunnels, release,
}

-- `connectTunnels` is undefined behaviour when the subscriber has left before the publisher
-- connects back: the service is there, `client` has no entry, and `publisher` is registered and
-- open. The fuel is enough for all open sessions.
pub connect_tunnels-undefined :
    (n : ℕ) (client publisher : String) (t : TunnelSession) (s : Service)
    → open_count s.tunnels < n
    → s.alive ≡ true
    → registered client s ≡ false
    → registered publisher s ≡ true
    → session publisher s ≡ some t
    → t.was_closed ≡ false
    → connect_tunnels n client publisher s ≡ undefined
unfolding connect_tunnels
connect_tunnels-undefined n client publisher t s h a c r e o =
    rw (c, close_tunnel_side-undefined n publisher t s h a r e o) refl

-- A session without a pipe gets one, and the pipe starts.
pipe_to-fresh :
    (n : ℕ) (self other : String) (t : TunnelSession) (s : Service)
    → session self s ≡ some t
    → t.pipe_operation ≡ none
    → pipe_to n self other s
      ≡ done (
        put self
            (record t {
              pipe_operation = some (record { side_original = self; side_other = other });
            })
            s,
        start_pipe self other ∷ [],
      )
unfolding pipe_to close_pipe
pipe_to-fresh n self other t s e h = ground arith

-- A session with its pipe to `other`.
abbrev pub piped : String → String → TunnelSession → TunnelSession
piped self other t = record t {
  pipe_operation = some (record { side_original = self; side_other = other });
}

-- The state after `link`, and after the write that it began.
abbrev pub linked : String → String → TunnelSession → Service → Service
linked client publisher u s =
    put publisher (piped publisher client u) (record s { held = client ∷ publisher ∷ s.held })

abbrev pub joined : String → String → TunnelSession → TunnelSession → Service → Service
joined client publisher t u s = put client (piped client publisher t) (linked client publisher u s)

abbrev pub both_released : String → String → Service → Service
both_released client publisher s = record s { held = release client (release publisher s.held) }

-- `connectTunnels` on a subscriber whose first bytes were peeked and on the publisher's session,
-- whose buffer is empty, both registered and without a pipe: the pipe from the publisher to the
-- subscriber runs at once, the peeked bytes are written to the publisher first, and when that write
-- has succeeded the pipe from the subscriber runs too. The states and the actions are written out
-- in full.
pub connect_tunnels-full_duplex :
    (n : ℕ) (client publisher : String) (c : ℕ) (cs : List ℕ) (t u : TunnelSession) (s : Service)
    → registered client s ≡ true
    → registered publisher s ≡ true
    → str_eq publisher client ≡ false
    → session client s ≡ some t
    → session publisher s ≡ some u
    → t.peek_buffer ≡ c ∷ cs
    → u.peek_buffer ≡ []
    → t.pipe_operation ≡ none
    → u.pipe_operation ≡ none
    → (connect_tunnels n client publisher s
        ≡ done (
          linked client publisher u s,
          write_initial client publisher (c ∷ cs) ∷ start_pipe publisher client ∷ [],
        ))
      × (on_initial_written n client publisher false (linked client publisher u s)
          ≡ done (
            both_released client publisher (joined client publisher t u s),
            start_pipe client publisher ∷ [],
          ))
unfolding connect_tunnels link forward on_initial_written
connect_tunnels-full_duplex n client publisher c cs t u s rc rp ne et eu pt pu ot ou = (
  ground
      (arith, pipe_to-fresh n publisher client u (record s { held = client ∷ publisher ∷ s.held })),
  rw
      (pipe_to-fresh n client publisher t (linked client publisher u s)
        (ground (arith, lookup-insert publisher client (piped publisher client u) s.tunnels)) ot)
      (rw (let_go-registered n publisher (joined client publisher t u s) rp) (
        rw
          (let_go-registered n client
            (record (joined client publisher t u s) {
              held = release publisher (joined client publisher t u s).held;
            })
            rc)
          refl)),
)
