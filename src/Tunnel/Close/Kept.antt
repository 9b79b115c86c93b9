-- ===== src/Tunnel/Close/Kept.antt =====
-- What every handler of a service keeps: beside the effect on the table, what is true of each
-- single session in the heap.
use tunnel_drill.Prelude.{
  IfDone, IfDone-bind, Bool, subst, ℕ, zero, suc, ◌<◌, ◌≡◌, refl, true, false, Option, none, some,
  String, str_eq, eq_iff, arith, Bool-cases, inl, inr, Outcome, done, out_of_fuel, undefined,
  thrown, Returns, Returns-mono,
}
use tunnel_drill.Tunnel.{Pipe, TunnelSession, Service, put, session, lockable, is_closed}
use tunnel_drill.Tunnel.Close.{
  cancelled, shut, close_if, close_pipe, drop_pipe, leave, close_open, close_on, close,
}
use tunnel_drill.Tunnel.Close.Effect.{open_count, Effect, Effect-refl, Effect-trans, Effect-put}
use tunnel_drill.Tunnel.Close.Sides.{Closes, ClosesPipe, close_pipe-Closes}
use tunnel_drill.Tunnel.Close.Total.{close-Closes, session-put, tunnels-leave}

-- A session's record: once it is closed its socket is shut down and no wait on its timer is
-- pending, and its pipe, if it has one, reads from the session itself.
pub record IsWell (id : String) (t : TunnelSession) : Type 0 where
  pub released : t.was_closed ≡ true → (t.socket_shut_down ≡ true) × (t.timer_armed ≡ false)
  pub own_pipe : (p : Pipe) → t.pipe_operation ≡ some p → p.side_original ≡ id

abbrev pub AllWell : Service → Type 0
AllWell s = (id : String) (t : TunnelSession) → session id s ≡ some t → IsWell id t

pub put-AllWell :
    (id : String) (t : TunnelSession) (s : Service) → IsWell id t → AllWell s → AllWell (put id t s)
put-AllWell id t s w a j u e = elim (Bool-cases (str_eq id j)) [
  | inl same ↦ own ((eq_iff id j).0 same) (rw (session-put id j t s, same) at e)
  | inr other ↦ a j u (rw (session-put id j t s, other) at e)
]
  where
    inner : ◌≡◌ {A = Option TunnelSession} (some t) (some u) → t ≡ u
    inner q = cc

    own : id ≡ j → some t ≡ some u → IsWell j u
    own p q = subst (λ x. IsWell x u) p (subst (IsWell id) (inner q) w)

-- The writes of a close to a session.
cancelled-IsWell : (id : String) (t : TunnelSession) → IsWell id t → IsWell id (cancelled t)
cancelled-IsWell id t w = record { released = λ c. ((w.released c).0, refl); own_pipe = w.own_pipe }

shut-IsWell : (id : String) (t : TunnelSession) → IsWell id t → IsWell id (shut t)
shut-IsWell id t w = record { released = λ c. (refl, refl); own_pipe = w.own_pipe }

drop_pipe-AllWell :
    (o : Option TunnelSession) (id : String) (s : Service)
    → session id s ≡ o
    → AllWell s
    → AllWell (drop_pipe o id s)
drop_pipe-AllWell none id s e a = a
drop_pipe-AllWell (some t) id s e a =
    put-AllWell id _ s (record { released = (a id t e).released; own_pipe = λ p q. cc }) a

leave-AllWell : (id : String) (s : Service) → AllWell s → AllWell (leave id s)
leave-AllWell id s a j t e = a j t (rw (tunnels-leave id s) at e)

module _ (rec : String → Service → Outcome Service)
    (ih : (id : String) (s : Service) → AllWell s → IfDone AllWell (rec id s)) where
  close_if-AllWell :
      (b : Bool) (id : String) (s : Service) → AllWell s → IfDone AllWell (close_if rec b id s)
  close_if-AllWell true id s a = ih id s a
  close_if-AllWell false id s a = a

  close_pipe-AllWell :
      (p : Option Pipe) (s : Service) → AllWell s → IfDone AllWell (close_pipe rec p s)
  unfolding close_pipe
  close_pipe-AllWell none s a = a
  close_pipe-AllWell (some p) s a =
      IfDone-bind AllWell AllWell _ _ (close_if-AllWell (lockable p.side_original s) _ s a)
        (λ s' a'. close_if-AllWell (lockable p.side_other s) _ s' a')

  close_on-AllWell :
      (o : Option TunnelSession) (id : String) (s : Service)
      → session id s ≡ o
      → AllWell s
      → IfDone AllWell (close_on rec id o s)
  unfolding close_on close_open
  close_on-AllWell none id s e a = a
  close_on-AllWell (some t) id s e a = elim (Bool-cases t.was_closed) [
    | inl c ↦ rw c (put-AllWell id (cancelled t) s (cancelled-IsWell id t (a id t e)) a)
    | inr o ↦ rw o (
        IfDone-bind AllWell AllWell _ _
          (close_pipe-AllWell t.pipe_operation _
            (put-AllWell id (shut t) s (shut-IsWell id t (a id t e)) a))
          λ s2 a2.
            IfDone-bind AllWell AllWell _ _
              (close_pipe-AllWell t.pipe_operation _ (drop_pipe-AllWell _ id s2 refl a2))
              (λ s3 a3. leave-AllWell id s3 a3))
  ]

close-AllWell : (n : ℕ) (id : String) (s : Service) → AllWell s → IfDone AllWell (close n id s)
unfolding close
close-AllWell zero id s a = tt
close-AllWell (suc n) id s a =
    close_on-AllWell (close n) (close-AllWell n) (session id s) id s refl a

-- What a handler does to a service: the effect on the table, and on the sessions' records.
pub record Kept (s s' : Service) : Type 0 where
  pub effect : Effect s s'
  pub well : AllWell s → AllWell s'

pub Kept-refl : (s : Service) → Kept s s
Kept-refl s = record { effect = Effect-refl s; well = λ a. a }

pub Kept-trans : {s t u : Service} → Kept s t → Kept t u → Kept s u
Kept-trans a b = record { effect = Effect-trans a.effect b.effect; well = λ w. b.well (a.well w) }

-- One fact that a call has when it returns, and another that follows from an assumption.
both :
    (X : Type 0) (P Q : Service → Type 0) (m : Outcome Service)
    → Returns P m
    → (X → IfDone Q m)
    → Returns (λ s. P s × (X → Q s)) m
both X P Q (done s) r f = (r, f)
both X P Q out_of_fuel r f = r
both X P Q undefined r f = r
both X P Q thrown r f = r

-- What `Closes` says of a close, and what it keeps.
pub close-ClosesKept :
    (n : ℕ) (id : String) (s : Service)
    → open_count s.tunnels < n
    → Returns (λ s'. Closes id s s' × Kept s s') (close n id s)
close-ClosesKept n id s h =
    Returns-mono (λ s'. Closes id s s' × (AllWell s → AllWell s')) _ (close n id s)
      (both (AllWell s) (Closes id s) AllWell (close n id s) (close-Closes n id s h)
        (close-AllWell n id s))
      (λ s' b. (b.0, record { effect = b.0.effect; well = b.1 }))

pub close-Kept :
    (n : ℕ) (id : String) (s : Service) → open_count s.tunnels < n → Returns (Kept s) (close n id s)
close-Kept n id s h =
    Returns-mono (λ s'. Closes id s s' × Kept s s') (Kept s) (close n id s)
      (close-ClosesKept n id s h) (λ s' b. b.1)

pub close_pipe-Kept :
    (n : ℕ) (p : Option Pipe) (s : Service)
    → open_count s.tunnels < n
    → Returns (Kept s) (close_pipe (close n) p s)
close_pipe-Kept n p s h =
    Returns-mono (λ s'. ClosesPipe p s s' × (AllWell s → AllWell s')) (Kept s) _
      (both (AllWell s) (ClosesPipe p s) AllWell _
        (close_pipe-Closes (close n) n (close-Closes n) p s h)
        (close_pipe-AllWell (close n) (close-AllWell n) p s))
      (λ s' b. record { effect = b.0.effect; well = b.1 })

-- A write to a session that is there.
pub put-Kept :
    (id : String) (t v : TunnelSession) (s : Service)
    → session id s ≡ some t
    → v.was_closed ≡ t.was_closed
    → (IsWell id t → IsWell id v)
    → Kept s (put id v s)
put-Kept id t v s e c w = record {
  effect = Effect-put id t v s e c;
  well = λ a. put-AllWell id v s (w (a id t e)) a;
}

-- What follows a change that keeps, keeps too.
pub after-Kept :
    {s t : Service} → Kept s t → (m : Outcome Service) → Returns (Kept t) m → Returns (Kept s) m
after-Kept {s} {t} k m h = Returns-mono (Kept t) (Kept s) m h (λ u d. Kept-trans k d)

pub bound-Kept :
    {s t : Service} → Kept s t → (n : ℕ) → open_count s.tunnels < n → open_count t.tunnels < n
bound-Kept k n h = omega (arith, h, k.effect.fewer)

-- A change of the other fields of the service.
pub same-Kept :
    {s s' : Service}
    → s'.alive ≡ s.alive
    → s'.sessions ≡ s.sessions
    → s'.tunnels ≡ s.tunnels
    → Kept s s'
same-Kept {s} {s'} a b c = record {
  effect = record {
    alive_same = a;
    fewer = rw c (omega arith);
    known = λ j. rw c refl;
    stays = λ j e. rw c e;
    shrinks = λ j e. rw b at e;
    gone = λ j l e e'. absurd (not_both j e (rw c at e'));
  };
  well = λ w j t e. w j t (rw c at e);
}
  where
    not_both : (j : String) → is_closed j s ≡ false → is_closed j s ≡ true → ⊥
    not_both j e e' = cc
