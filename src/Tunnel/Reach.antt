-- ===== src/Tunnel/Reach.antt =====
-- A service of the broker from its constructor on: what can happen to it, one handler after the
-- other. A handler's fuel is more than the number of open sessions, with which every close returns.
mod Examples
use tunnel_drill.Prelude.{
  str_eq, ◌⊎◌, ◌≢◌, IfDone, ℕ, ◌<◌, ◌≡◌, refl, Bool, true, false, List, [], Option, none, some,
  String, Outcome, done, undefined, subst, Returns, Returns-mono, not, Bool-cases, is_some, refl,
  arith, Option-cases, inl, inr,
}
use tunnel_drill.Prelude.Dict.{lookup}
use tunnel_drill.Tunnel.{
  Pipe, TunnelSession, ServiceInfo, Service, session, registered, contains, is_closed,
}
use tunnel_drill.Tunnel.Close.{close, close_pipe, close_tunnel_side}
use tunnel_drill.Tunnel.Close.Effect.{open_count}
use tunnel_drill.Tunnel.Close.Kept.{Kept, close-Kept, close_pipe-Kept}
use tunnel_drill.Tunnel.Close.Sound.{IsSound, Kept-IsSound}
use tunnel_drill.Tunnel.Close.Side.{close_tunnel_side-undefined, close_tunnel_side-gone}
use tunnel_drill.Tunnel.Link.{Action, on_initial_written, link, link_or_close, connect_tunnels}
use tunnel_drill.Tunnel.Link.Kept.{
  KeptOf, link-Returns, link_or_close-Kept, on_initial_written-Kept,
}
use tunnel_drill.Tunnel.Link.Survives.{link-survives, link-undefined}
use tunnel_drill.Tunnel.Peek.{PublisherToken, Wake, set_timer, peek, on_timer, Read, on_peek}
use tunnel_drill.Tunnel.Peek.Kept.{set_timer-Kept, peek-Kept, on_timer-Kept, on_peek-Kept}
use tunnel_drill.Tunnel.Accept.{stop, StartErrors, start, Accepted, on_accept}
use tunnel_drill.Tunnel.Accept.Kept.{stop-Kept, start-Kept, on_accept-IsSound}

-- Service's constructor.
unfoldable pub constructed : String → ServiceInfo → Service
constructed id info = record {
  service_id = id;
  info = info;
  alive = true;
  acceptor_open = false;
  accepting = 0;
  sessions = [];
  held = [];
  tunnels = [];
}

module _ (verify : List ℕ → Option PublisherToken) (zeros : List ℕ) where
  pub data Step (n : ℕ) : Service → Service → Type 0 where
    starts : (e : StartErrors) (s : Service) → Step n s (start e s).0
    stops : (s : Service) → Step n s (stop s)
    -- a connection comes, with an id that is new
    accepts :
        (m : ℕ) (a : Accepted) (s : Service)
        → session a.tunnel_id s ≡ none
        → Step n s (on_accept zeros m a s)
    -- the first bytes of a session are read
    peeks :
        (id : String) (r : Read) (s s' : Service) (acts : List Action)
        → on_peek verify n id r s ≡ done (s', acts)
        → Step n s s'
    -- two sessions are linked, and a write throws or not
    links :
        (first_throws second_throws : Bool) (self other : String) (s s' : Service)
        (acts : List Action)
        → link_or_close n first_throws second_throws self other s ≡ done (s', acts)
        → Step n s s'
    -- the bytes that were peeked are written to the other session
    writes :
        (self other : String) (error : Bool) (s s' : Service) (acts : List Action)
        → on_initial_written n self other error s ≡ done (s', acts)
        → Step n s s'
    -- the timer of a session is set, or a call on it throws
    rearms :
        (id : String) (throws : Bool) (s s' : Service)
        → set_timer n throws id s ≡ done s'
        → Step n s s'
    -- the read for the first bytes begins
    begins :
        (id : String) (timer_throws read_throws : Bool) (s s' : Service)
        → peek n timer_throws read_throws id s ≡ done s'
        → Step n s s'
    -- the timer wakes up
    wakes : (id : String) (w : Wake) (s s' : Service) → on_timer n id w s ≡ done s' → Step n s s'
    -- a pipe gives up
    pipe_ends :
        (p : Option Pipe) (s s' : Service) → close_pipe (close n) p s ≡ done s' → Step n s s'
    -- a session is closed
    closes : (id : String) (s s' : Service) → close n id s ≡ done s' → Step n s s'

  pub data Reach (id : String) (info : ServiceInfo) : Service → Type 0 where
    here : Reach id info (constructed id info)
    next :
        {s s' : Service} (n : ℕ)
        → Reach id info s
        → open_count s.tunnels < n
        → Step n s s'
        → Reach id info s'

  Returns-done :
      {A : Type 0} (P : A → Type 0) (m : Outcome A) (x : A) → Returns P m → m ≡ done x → P x
  Returns-done P m x r e = subst (Returns P) e r

  IfDone-done :
      {A : Type 0} (P : A → Type 0) (m : Outcome A) (x : A) → IfDone P m → m ≡ done x → P x
  IfDone-done P m x r e = subst (IfDone P) e r

  constructed-IsSound : (id : String) (info : ServiceInfo) → IsSound (constructed id info)
  unfolding constructed lookup
  constructed-IsSound id info = record { only_open = λ a j r. cc; all_well = λ j t e. cc }

  Step-IsSound :
      {s s' : Service} (n : ℕ) → open_count s.tunnels < n → Step n s s' → IsSound s → IsSound s'
  Step-IsSound n h (starts e s) v = Kept-IsSound (start-Kept e s) v
  Step-IsSound n h (stops s) v = Kept-IsSound (stop-Kept s) v
  Step-IsSound n h (accepts m a s fresh) v = on_accept-IsSound zeros m a s v
  Step-IsSound n h (peeks id r s s' acts e) v =
      Kept-IsSound (IfDone-done (KeptOf s) _ (s', acts) (on_peek-Kept verify n id r s h) e) v
  Step-IsSound n h (links f g self other s s' acts e) v =
      Kept-IsSound (IfDone-done (KeptOf s) _ (s', acts) (link_or_close-Kept n f g self other s h) e)
        v
  Step-IsSound n h (writes self other error s s' acts e) v =
      Kept-IsSound
        (Returns-done (KeptOf s) _ (s', acts) (on_initial_written-Kept n self other error s h) e) v
  Step-IsSound n h (rearms id throws s s' e) v =
      Kept-IsSound (Returns-done (Kept s) _ s' (set_timer-Kept n id s h throws) e) v
  Step-IsSound n h (begins id timer_throws read_throws s s' e) v =
      Kept-IsSound (Returns-done (Kept s) _ s' (peek-Kept n id s h timer_throws read_throws) e) v
  Step-IsSound n h (wakes id w s s' e) v =
      Kept-IsSound (Returns-done (Kept s) _ s' (on_timer-Kept n id s h w) e) v
  Step-IsSound n h (pipe_ends p s s' e) v =
      Kept-IsSound (Returns-done (Kept s) _ s' (close_pipe-Kept n p s h) e) v
  Step-IsSound n h (closes id s s' e) v =
      Kept-IsSound (Returns-done (Kept s) _ s' (close-Kept n id s h) e) v

  -- In every state that a service reaches from its constructor by these handlers, with ids of
  -- sessions that are new and fuel for all open sessions: while the service lives, each session in
  -- its table is there and open; a session that is closed has its socket shut down and no wait
  -- pending on its timer; and a session's pipe reads from the session itself.
  pub Reach-IsSound : {id : String} {info : ServiceInfo} {s : Service} → Reach id info s → IsSound s
  Reach-IsSound here = constructed-IsSound _ _
  Reach-IsSound (next n r h step) = Step-IsSound n h step (Reach-IsSound r)

  -- `closeTunnelSide(id, false)` on an id in the table of a reachable, living service.
  pub close_tunnel_side-never :
      {id : String} {info : ServiceInfo} {s : Service} (n : ℕ) (key : String)
      → Reach id info s
      → s.alive ≡ true
      → open_count s.tunnels < n
      → registered key s ≡ true
      → close_tunnel_side n key false s ≡ undefined
  close_tunnel_side-never {id} {info} {s} n key r a h k = elim (Option-cases (session key s)) [
    | inl e ↦ absurd (there e ((Reach-IsSound r).only_open a key k).0)
    | inr (t, e) ↦
        close_tunnel_side-undefined n key t s h a k e
          (open_session t e ((Reach-IsSound r).only_open a key k).1)
  ]
    where
      there : session key s ≡ none → is_some (session key s) ≡ true → ⊥
      there e i = cc

      open_session :
          (t : TunnelSession)
          → session key s ≡ some t
          → is_closed key s ≡ false
          → t.was_closed ≡ false
      open_session t e c = ground (arith, e, c)

  -- In every state that a service reaches by these handlers, while it lives and with fuel for all
  -- open sessions: if exactly one of the two ids is in the table, `connectTunnels` is undefined
  -- behaviour; if neither is, it returns and the service stays sound. If both are, let `t` be the
  -- subscriber's session: with bytes that were peeked, or without a pipe, the call returns and the
  -- service stays sound; with an empty buffer, a pipe, no pending handler that holds it, and an id
  -- that is not the publisher's, it is undefined behaviour.
  pub connect_tunnels-defined :
      {id : String} {info : ServiceInfo} {s : Service} (n : ℕ) (client publisher : String)
      → Reach id info s
      → s.alive ≡ true
      → open_count s.tunnels < n
      → (registered client s ≡ not (registered publisher s)
          → connect_tunnels n client publisher s ≡ undefined)
        × (registered client s ≡ false
            → registered publisher s ≡ false
            → Returns (λ x. IsSound x.0) (connect_tunnels n client publisher s))
        × ((t : TunnelSession)
            → registered client s ≡ true
            → registered publisher s ≡ true
            → session client s ≡ some t
            → ((t.peek_buffer ≢ []) ⊎ (t.pipe_operation ≡ none)
                → Returns (λ x. IsSound x.0) (connect_tunnels n client publisher s))
              × ((p : Pipe)
                  → t.peek_buffer ≡ []
                  → t.pipe_operation ≡ some p
                  → contains client s.held ≡ false
                  → str_eq client publisher ≡ false
                  → connect_tunnels n client publisher s ≡ undefined))
  unfolding connect_tunnels
  connect_tunnels-defined {id} {info} {s} n client publisher r a h = (
    λ e. elim (Bool-cases (registered client s)) [
      | inl c ↦ rw (c, other_gone c e, never client c) refl
      | inr c ↦ rw (c, never publisher (other_there c e)) refl
    ],
    λ c p. rw (c, close_tunnel_side-gone n publisher s p) sound,
    λ t c p e. (
      λ w.
          rw (c, p)
            (Returns-mono (KeptOf s) _ _
              (link-Returns n client publisher s h (link-survives n client publisher t s e c w))
              (λ x k. Kept-IsSound k sound)),
      λ q b o l d.
          rw (c, p)
            (link-undefined n client publisher t s e c q h a
              (open_session t e (sound.only_open a client c).1) o
              ((sound.all_well client t e).own_pipe q o) l b d),
    ),
  )
    where
      sound : IsSound s
      sound = Reach-IsSound r

      never : (key : String) → registered key s ≡ true → close_tunnel_side n key false s ≡ undefined
      never key k = close_tunnel_side-never n key r a h k

      other_gone :
          registered client s ≡ true
          → registered client s ≡ not (registered publisher s)
          → registered publisher s ≡ false
      other_gone c e = ground arith

      other_there :
          registered client s ≡ false
          → registered client s ≡ not (registered publisher s)
          → registered publisher s ≡ true
      other_there c e = ground arith

      open_session :
          (t : TunnelSession)
          → session client s ≡ some t
          → is_closed client s ≡ false
          → t.was_closed ≡ false
      open_session t e c = ground (arith, e, c)
