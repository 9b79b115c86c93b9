-- ===== src/Tunnel/Close/Total.antt =====
-- TunnelSession::close ends, on any graph of pipes, and closes what it is meant to.
use tunnel_drill.Prelude.{
  ℕ, zero, suc, ◌+◌, ◌<◌, ◌≡◌, refl, subst, ◌∙◌, true, false, Option, none, some, String, str_eq,
  eq_iff, arith, if◌then◌else◌, Bool-cases, inl, inr, is_some, Outcome, Returns, Returns-bind,
}
use tunnel_drill.Prelude.Dict.{lookup-insert}
use tunnel_drill.Tunnel.{
  Pipe, TunnelSession, Service, put, session, registered, unregister, is_closed,
}
use tunnel_drill.Tunnel.Close.{
  cancelled, shut, close_preclosed, drop_pipe, leave, close_open, close_on, close,
}
use tunnel_drill.Tunnel.Close.Effect.{
  open_count, open_count-insert, contains-remove, Effect, Effect-refl, Effect-trans, Effect-put,
}
use tunnel_drill.Tunnel.Close.Sides.{
  SidesClose, Closes, ClosesPipe, SidesClose-stays, close_pipe-Closes, drop_pipe-Effect,
}

registered-leave :
    (id j : String) (s : Service)
    → registered j (leave id s)
      ≡ (if s.alive then (if str_eq id j then false else registered j s) else registered j s)
unfolding close_preclosed unregister
registered-leave id j s = ground (arith, contains-remove id j s.sessions, eq_iff id j)

pub tunnels-leave : (id : String) (s : Service) → (leave id s).tunnels ≡ s.tunnels
unfolding close_preclosed unregister
tunnels-leave id s = ground arith

alive-leave : (id : String) (s : Service) → (leave id s).alive ≡ s.alive
unfolding close_preclosed unregister
alive-leave id s = ground arith

pub session-put :
    (id j : String) (v : TunnelSession) (s : Service)
    → session j (put id v s) ≡ (if str_eq id j then some v else session j s)
session-put id j v s = lookup-insert id j v s.tunnels

-- The write that marks a session closed.
module _ (id : String) (t : TunnelSession) (s : Service) (e : session id s ≡ some t)
    (o : t.was_closed ≡ false) where
  open_count-shut : open_count (put id (shut t) s).tunnels + 1 ≡ open_count s.tunnels
  open_count-shut = ground (arith, open_count-insert id t (shut t) s.tunnels e)

  -- Up to the entry in the service's table, which `leave` removes.
  leave-Effect : (s' : Service) → Effect (put id (shut t) s) s' → Effect s (leave id s')
  leave-Effect s' f = record {
    alive_same = alive-leave id s' ∙ f.alive_same;
    fewer = rw (tunnels-leave id s') (omega (arith, f.fewer, open_count-shut));
    known = λ j. rw (tunnels-leave id s') (f.known j ∙ put-known j);
    stays = λ j c. rw (tunnels-leave id s') (f.stays j (put-stays j c));
    shrinks = λ j r. f.shrinks j (ground (arith, registered-leave id j s'));
    gone = λ j a b c. left j a b (rw (tunnels-leave id s') at c);
  }
    where
      put-known : (j : String) → is_some (session j (put id (shut t) s)) ≡ is_some (session j s)
      put-known j = ground (arith, session-put id j (shut t) s, eq_iff id j)

      put-stays : (j : String) → is_closed j s ≡ true → is_closed j (put id (shut t) s) ≡ true
      put-stays j c = ground (arith, session-put id j (shut t) s, eq_iff id j)

      left :
          (j : String)
          → s.alive ≡ true
          → is_closed j s ≡ false
          → is_closed j s' ≡ true
          → registered j (leave id s') ≡ false
      left j a b c = elim (Bool-cases (str_eq id j)) [
        | inl same ↦ ground (arith, registered-leave id j s', f.alive_same)
        | inr other ↦ ground (
          arith,
          registered-leave id j s',
          f.gone j a (ground (arith, session-put id j (shut t) s)) c,
        )
      ]

  leave-Closes :
      (s' : Service)
      → Effect (put id (shut t) s) s'
      → SidesClose t.pipe_operation (put id (shut t) s) s'
      → Closes id s (leave id s')
  leave-Closes s' f p = record {
    effect = leave-Effect s' f;
    itself = λ k. rw (tunnels-leave id s') (f.stays id now_closed);
    sides = λ u e' o'.
        subst (λ x. SidesClose (TunnelSession.pipe_operation x) s (leave id s')) (same u e')
          (kept t.pipe_operation p);
  }
    where
      now_closed : is_closed id (put id (shut t) s) ≡ true
      now_closed = ground (arith, session-put id id (shut t) s, eq_iff id id)

      same : (u : TunnelSession) → session id s ≡ some u → t ≡ u
      same u e' = cc

      put-known :
          (j : String)
          → is_some (session j s) ≡ true
          → is_some (session j (put id (shut t) s)) ≡ true
      put-known j k = ground (arith, session-put id j (shut t) s, eq_iff id j)

      kept : (q : Option Pipe) → SidesClose q (put id (shut t) s) s' → SidesClose q s (leave id s')
      kept none h = tt
      kept (some q) h = (
        λ l k. rw (tunnels-leave id s') (h.0 l (put-known q.side_original k)),
        λ l k. rw (tunnels-leave id s') (h.1 l (put-known q.side_other k)),
      )

module _ (rec : String → Service → Outcome Service) (n : ℕ)
    (ih : (id : String) (s : Service)
      → open_count s.tunnels < n
      → Returns (Closes id s) (rec id s)) where
  close_open-Closes :
      (id : String) (t : TunnelSession) (s : Service)
      → session id s ≡ some t
      → t.was_closed ≡ false
      → open_count s.tunnels < suc n
      → Returns (Closes id s) (close_open rec id t s)
  unfolding close_open
  close_open-Closes id t s e o h =
      Returns-bind (ClosesPipe t.pipe_operation s1) (Closes id s) _ _
        (close_pipe-Closes rec n ih t.pipe_operation s1 (omega (arith, open_count-shut id t s e o)))
        λ s2 c.
          let d : Effect s2 (drop_pipe (session id s2) id s2) =
            drop_pipe-Effect rec n ih (session id s2) id s2 refl in
          Returns-bind (ClosesPipe t.pipe_operation (drop_pipe (session id s2) id s2)) (Closes id s)
            _ _
            (close_pipe-Closes rec n ih t.pipe_operation _
              (omega (arith, open_count-shut id t s e o, c.effect.fewer, d.fewer)))
            λ s3 c'.
              let after : Effect s2 s3 = Effect-trans d c'.effect in
              leave-Closes id t s e o s3 (Effect-trans c.effect after)
                (SidesClose-stays t.pipe_operation s1 s2 s3 c.sides after)
    where
      s1 : Service
      s1 = put id (shut t) s

  close_on-Closes :
      (o : Option TunnelSession) (id : String) (s : Service)
      → session id s ≡ o
      → open_count s.tunnels < suc n
      → Returns (Closes id s) (close_on rec id o s)
  unfolding close_on
  close_on-Closes none id s e h = record {
    effect = Effect-refl s;
    itself = λ k. cc;
    sides = λ t e' o. cc;
  }
  close_on-Closes (some t) id s e h = elim (Bool-cases t.was_closed) [
    | inl c ↦ rw c (record {
      effect = Effect-put id t (cancelled t) s e refl;
      itself = λ k. ground (arith, session-put id id (cancelled t) s, eq_iff id id);
      sides = λ u e' o. cc;
    })
    | inr o ↦ rw o (close_open-Closes id t s e o h)
  ]

-- With more fuel than there are open sessions `close` returns, on any graph of pipes, and meets
-- `Closes`: closed sessions stay closed and no session becomes open, the session that was closed is
-- closed, and if it was open and had a pipe, the sides of the pipe that could be locked are closed
-- too.
pub close-Closes :
    (n : ℕ) (id : String) (s : Service)
    → open_count s.tunnels < n
    → Returns (Closes id s) (close n id s)
unfolding close
close-Closes zero id s h = absurd (omega arith)
close-Closes (suc n) id s h =
    close_on-Closes (close n) n (close-Closes n) (session id s) id s refl h
