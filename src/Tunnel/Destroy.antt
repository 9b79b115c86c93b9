-- ===== src/Tunnel/Destroy.antt =====
-- Service::~Service and TunnelSession::~TunnelSession: what is left of the sessions when the last
-- shared pointer to their service is gone. Weak pointers to the service can no longer be locked
-- then, and those to a session only while a pending handler holds it.
use tunnel_drill.Prelude.{
  sym, ap, some, ℕ, ◌<◌, ◌≡◌, ◌∙◌, true, false, List, [], ◌∷◌, String, str_eq, eq_iff,
  if◌then◌else◌, Bool-cases, inl, inr, is_some, Outcome, done, Returns, Returns-bind, Returns-mono,
  subst, ◌>>=◌,
}
use tunnel_drill.Tunnel.{
  TunnelSession, Service, session, registered, contains, closed, is_closed, unregister,
}
use tunnel_drill.Tunnel.Close.{cancelled, close}
use tunnel_drill.Tunnel.Close.Effect.{open_count, not_registered}
use tunnel_drill.Tunnel.Close.Sides.{Closes}
use tunnel_drill.Tunnel.Close.Kept.{Kept, Kept-refl, Kept-trans, close-ClosesKept, bound-Kept}
use tunnel_drill.Tunnel.Close.Sound.{IsSound}
use tunnel_drill.Tunnel.Close.Side.{unregister-Kept, unregistered}
use tunnel_drill.Tunnel.Peek.{modify}
use tunnel_drill.Tunnel.Peek.Modify.{sessions-modify}
use tunnel_drill.Tunnel.Peek.Kept.{cancel-Kept}
use tunnel_drill.Tunnel.Accept.{stop}

-- TunnelSession::~TunnelSession
destroy_tunnel_session : ℕ → String → Service → Outcome Service
destroy_tunnel_session n id s = close n id (modify cancelled id s)

-- The table's destructor lets go of one session after the other; `held` are those that a pending
-- handler still holds.
destroy_sessions : ℕ → List String → List String → Service → Outcome Service
unfolding destroy_tunnel_session
destroy_sessions n held [] s = done s
destroy_sessions n held (id ∷ ids) s = do
  s' ←
      (if contains id held
        then done (unregister id s)
        else destroy_tunnel_session n id (unregister id s))
  destroy_sessions n held ids s'

-- Service::~Service
pub destroy : ℕ → Service → Outcome Service
unfolding destroy_sessions
destroy n s = destroy_sessions n s.held s.sessions (record (stop s) { alive = false })

-- What the destruction of the sessions `ids` leaves.
record Gone (held ids : List String) (s s' : Service) : Type 0 where
  kept : Kept s s'
  emptied : (id : String) → contains id ids ≡ true → registered id s' ≡ false
  ended :
      (id : String)
      → contains id ids ≡ true
      → contains id held ≡ false
      → is_some (session id s) ≡ true
      → is_closed id s' ≡ true

module _ (n : ℕ) (held : List String) where
  -- One session: it leaves the table, and is closed unless it is held.
  record GoneOne (id : String) (s s' : Service) : Type 0 where
    kept : Kept s s'
    emptied : registered id s' ≡ false
    ended : contains id held ≡ false → is_some (session id s) ≡ true → is_closed id s' ≡ true

  destroy_one :
      (id : String) (s : Service)
      → open_count s.tunnels < n
      → Returns (GoneOne id s) (
          if contains id held
          then done (unregister id s)
          else destroy_tunnel_session n id (unregister id s))
  unfolding destroy_tunnel_session
  destroy_one id s h = elim (Bool-cases (contains id held)) [
    | inl k ↦
        rw k (record { kept = unregister-Kept id s; emptied = unregistered id s; ended = λ q. cc })
    | inr k ↦ rw k (
        Returns-mono (λ s'. Closes id u s' × Kept u s') (GoneOne id s) _
          (close-ClosesKept n id u (bound-Kept e n h))
          λ s' c. record {
            kept = Kept-trans e c.1;
            emptied = not_again s' (c.0.effect.shrinks id);
            ended = λ q i. c.0.itself (e.effect.known id ∙ i);
          })
  ]
    where
      u : Service
      u = modify cancelled id (unregister id s)

      e : Kept s u
      e = Kept-trans (unregister-Kept id s) (cancel-Kept id (unregister id s))

      not_again :
          (s' : Service)
          → (registered id s' ≡ true → registered id u ≡ true)
          → registered id s' ≡ false
      not_again s' f =
          not_registered id u s' f
            (rw (sessions-modify cancelled id (unregister id s)) (unregistered id s))

  destroy_sessions-Gone :
      (ids : List String) (s : Service)
      → open_count s.tunnels < n
      → Returns (Gone held ids s) (destroy_sessions n held ids s)
  unfolding destroy_sessions
  destroy_sessions-Gone [] s h = record {
    kept = Kept-refl s;
    emptied = λ j e. cc;
    ended = λ j e. cc;
  }
  destroy_sessions-Gone (id ∷ ids) s h =
      Returns-bind (GoneOne id s) (Gone held (id ∷ ids) s) _ _ (destroy_one id s h) λ t g.
        Returns-mono (Gone held ids t) (Gone held (id ∷ ids) s) _
          (destroy_sessions-Gone ids t (bound-Kept g.kept n h))
          λ s' r. record {
            kept = Kept-trans g.kept r.kept;
            emptied = λ j e. elim (Bool-cases (str_eq id j)) [
              | inl same ↦
                  not_registered j t s' (r.kept.effect.shrinks j)
                    (subst (λ k. registered k t ≡ false) ((eq_iff id j).0 same) g.emptied)
              | inr other ↦ r.emptied j (rw other at e)
            ];
            ended = λ j e k i. elim (Bool-cases (str_eq id j)) [
              | inl same ↦ r.kept.effect.stays j (
                  subst
                    (λ (m : String).
                      contains m held ≡ false → is_some (session m s) ≡ true → is_closed m t ≡ true)
                    ((eq_iff id j).0 same) g.ended k i)
              | inr other ↦ r.ended j (rw other at e) k (g.kept.effect.known j ∙ i)
            ];
          }

-- After the destructor of a sound, living service, with fuel for all open sessions, its table is
-- empty, and each session that was in it and that no pending handler holds is closed: its socket is
-- shut down and no wait is pending on its timer.
pub destroy-closes :
    (n : ℕ) (s : Service)
    → IsSound s
    → s.alive ≡ true
    → open_count s.tunnels < n
    → Returns
        (λ s'.
          (id : String)
          → (registered id s' ≡ false)
            × (registered id s ≡ true
                → contains id s.held ≡ false
                → (t : TunnelSession) → session id s' ≡ some t
                → (t.socket_shut_down ≡ true) × (t.timer_armed ≡ false)))
        (destroy n s)
unfolding destroy stop
destroy-closes n s v a h =
    Returns-mono (Gone s.held s.sessions s1) _ _ (destroy_sessions-Gone n s.held s.sessions s1 h)
      λ s' g id. (
        elim (Bool-cases (registered id s)) [
          | inl r ↦ g.emptied id r
          | inr r ↦ not_registered id s1 s' (g.kept.effect.shrinks id) r
        ],
        λ r k t e.
            (g.kept.well v.all_well id t e).released
              (ap closed (sym e) ∙ g.ended id r k (v.only_open a id r).0),
      )
  where
    s1 : Service
    s1 = record (stop s) { alive = false }
