-- ===== src/Tunnel/Link/Kept.antt =====
-- What joining two sessions keeps, in every case that is not undefined behaviour.
use tunnel_drill.Prelude.{
  Returns-mono, Outcome, subst, IfDone, IfDone-bind, Returns-IfDone, IfDone-mono, ℕ, ◌<◌, ◌≡◌, refl,
  Bool, true, false, List, [], ◌∷◌, Option, none, some, String, done, Returns, Returns-bind,
  Bool-cases, inl, inr, ◌>>=◌,
}
use tunnel_drill.Tunnel.{Pipe, TunnelSession, Service, put, session, registered, lockable}
use tunnel_drill.Tunnel.Close.{close_tunnel_side, drop_pipe}
use tunnel_drill.Tunnel.Close.Effect.{open_count}
use tunnel_drill.Tunnel.Close.Side.{close_tunnel_side-Kept}
use tunnel_drill.Tunnel.Close.Kept.{
  Kept, Kept-refl, Kept-trans, close-Kept, close_pipe-Kept, put-Kept, after-Kept, bound-Kept,
  same-Kept,
}
use tunnel_drill.Tunnel.Link.{
  destroyed, let_go, release, pipe_of, Action, Step, assign_pipe, pipe_to, peeked, forward,
  forward_or_close, link_or_close, link, survives, on_initial_written, connect_tunnels,
}

abbrev pub KeptOf : Service → Service × List Action → Type 0
KeptOf s x = Kept s x.0

-- A handler that also asks for actions.
abbrev pub KeptStep : Service → Step → Type 0
KeptStep s m = IfDone (KeptOf s) m

pub after-KeptStep : {s t : Service} → Kept s t → (m : Step) → KeptStep t m → KeptStep s m
after-KeptStep {s} {t} k m h = IfDone-mono (KeptOf t) (KeptOf s) m h (λ u d. Kept-trans k d)

Returns-both :
    {A : Type 0} (P Q : A → Type 0) (m : Outcome A)
    → Returns P m
    → Returns Q m
    → Returns (λ x. P x × Q x) m
Returns-both P Q (done x) p q = (p, q)
Returns-both P Q Outcome.out_of_fuel p q = p
Returns-both P Q Outcome.undefined p q = p
Returns-both P Q Outcome.thrown p q = p

module _ (n : ℕ) where
  assign_pipe-Kept :
      (o : Option TunnelSession) (self other : String) (s : Service)
      → session self s ≡ o
      → open_count s.tunnels < n
      → Returns
          (Kept s)
          (assign_pipe n o self (record { side_original = self; side_other = other }) s)
  assign_pipe-Kept none self other s e h = Kept-refl s
  assign_pipe-Kept (some t) self other s e h =
      after-Kept piped _ (close_pipe-Kept n t.pipe_operation _ (bound-Kept piped n h))
    where
      p : Pipe
      p = record { side_original = self; side_other = other }

      own : (q : Pipe) → ◌≡◌ {A = Option Pipe} (some p) (some q) → q.side_original ≡ self
      own q e' = cc

      piped : Kept s (put self (record t { pipe_operation = some p }) s)
      piped = put-Kept self t _ s e refl λ w. record { released = w.released; own_pipe = own }

  pipe_to-Kept :
      (self other : String) (s : Service)
      → open_count s.tunnels < n
      → Returns (KeptOf s) (pipe_to n self other s)
  unfolding pipe_to
  pipe_to-Kept self other s h =
      Returns-bind (Kept s) (KeptOf s) _ _ (assign_pipe-Kept (session self s) self other s refl h)
        (λ s' k. k)

  forward-Kept :
      (self other : String) (bytes : List ℕ) (s : Service)
      → open_count s.tunnels < n
      → Returns (KeptOf s) (forward n self other bytes s)
  unfolding forward
  forward-Kept self other [] s h = pipe_to-Kept self other s h
  forward-Kept self other (c ∷ cs) s h = same-Kept refl refl refl

  forward_or_close-Kept :
      (throws : Bool) (self other : String) (bytes : List ℕ) (s : Service)
      → open_count s.tunnels < n
      → Returns (KeptOf s) (forward_or_close n throws self other bytes s)
  unfolding forward_or_close
  forward_or_close-Kept false self other bytes s h = forward-Kept self other bytes s h
  forward_or_close-Kept true self other [] s h = forward-Kept self other [] s h
  forward_or_close-Kept true self other (c ∷ cs) s h =
      Returns-bind (Kept s) (KeptOf s) _ _ (close-Kept n self s h) (λ s' k. k)

  pub link_or_close-Kept :
      (first_throws second_throws : Bool) (self other : String) (s : Service)
      → open_count s.tunnels < n
      → KeptStep s (link_or_close n first_throws second_throws self other s)
  unfolding link_or_close
  link_or_close-Kept first_throws second_throws self other s h =
      IfDone-bind (KeptOf s) (KeptOf s)
        (forward_or_close n first_throws self other (peeked (session self s)) s) _
        (Returns-IfDone (KeptOf s) _
          (forward_or_close-Kept first_throws self other (peeked (session self s)) s h))
        λ x k. elim (Bool-cases (survives self other x.0)) [
          | inr c ↦ rw c tt
          | inl c ↦ rw c (
              IfDone-bind (KeptOf x.0) (KeptOf s)
                (forward_or_close n second_throws other self (peeked (session other x.0)) x.0) _
                (Returns-IfDone (KeptOf x.0) _ (
                  forward_or_close-Kept second_throws other self (peeked (session other x.0)) x.0
                    (bound-Kept k n h)))
                (λ y k'. Kept-trans k k'))
        ]

  link-link_or_close :
      (self other : String) (s : Service)
      → link_or_close n false false self other s ≡ link n self other s
  unfolding link link_or_close forward_or_close
  link-link_or_close self other s = refl

  pub link-Kept :
      (self other : String) (s : Service)
      → open_count s.tunnels < n
      → KeptStep s (link n self other s)
  link-Kept self other s h =
      subst (KeptStep s) (link-link_or_close self other s)
        (link_or_close-Kept false false self other s h)

  -- If `this` is still there behind the first direction, `link` returns.
  pub link-Returns :
      (self other : String) (s : Service)
      → open_count s.tunnels < n
      → Returns
          (λ x. survives self other x.0 ≡ true)
          (forward n self other (peeked (session self s)) s)
      → Returns (KeptOf s) (link n self other s)
  unfolding link
  link-Returns self other s h there =
      Returns-bind (λ x. KeptOf s x × (survives self other x.0 ≡ true)) (KeptOf s)
        (forward n self other (peeked (session self s)) s) _
        (Returns-both (KeptOf s) (λ x. survives self other x.0 ≡ true) _
          (forward-Kept self other (peeked (session self s)) s h) there)
        λ x k. rw k.1 (
          Returns-bind (KeptOf x.0) (KeptOf s)
            (forward n other self (peeked (session other x.0)) x.0) _
            (forward-Kept other self (peeked (session other x.0)) x.0 (bound-Kept k.0 n h))
            (λ y k'. Kept-trans k.0 k'))

  pub connect_tunnels-Kept :
      (client publisher : String) (s : Service)
      → open_count s.tunnels < n
      → KeptStep s (connect_tunnels n client publisher s)
  unfolding connect_tunnels
  connect_tunnels-Kept client publisher s h = elim (Bool-cases (registered client s)) [
    | inr c ↦ rw c (gone publisher)
    | inl c ↦ elim (Bool-cases (registered publisher s)) [
      | inr p ↦ rw (c, p) (gone client)
      | inl p ↦ rw (c, p) (link-Kept client publisher s h)
    ]
  ]
    where
      gone : (id : String) → KeptStep s (close_tunnel_side n id false s >>= λ s'. done (s', []))
      gone id = IfDone-bind (Kept s) (KeptOf s) _ _ (close_tunnel_side-Kept n id s h) (λ s' k. k)

  drop_pipe-Kept :
      (o : Option TunnelSession) (id : String) (s : Service)
      → session id s ≡ o
      → Kept s (drop_pipe o id s)
  drop_pipe-Kept none id s e = Kept-refl s
  drop_pipe-Kept (some t) id s e =
      put-Kept id t _ s e refl λ w. record { released = w.released; own_pipe = λ p q. cc }

  destroyed-Kept :
      (id : String) (s : Service) → open_count s.tunnels < n → Returns (Kept s) (destroyed n id s)
  unfolding destroyed
  destroyed-Kept id s h = Returns-bind (Kept s) (Kept s) _ _ (close-Kept n id s h) λ s1 k.
      let d : Kept s (drop_pipe (session id s1) id s1) =
        Kept-trans k (drop_pipe-Kept (session id s1) id s1 refl) in
      after-Kept d _ (close_pipe-Kept n (pipe_of (session id s1)) _ (bound-Kept d n h))

  let_go-Kept :
      (id : String) (s : Service) → open_count s.tunnels < n → Returns (Kept s) (let_go n id s)
  unfolding let_go
  let_go-Kept id s h = elim (Bool-cases (lockable id freed)) [
    | inl l ↦ rw l (same-Kept refl refl refl)
    | inr l ↦
        rw l
          (after-Kept {s = s} {t = freed} (same-Kept refl refl refl) _ (destroyed-Kept id freed h))
  ]
    where
      freed : Service
      freed = record s { held = release id s.held }

  -- A session that stays in the table is only let go of.
  pub let_go-registered :
      (id : String) (s : Service)
      → registered id s ≡ true
      → let_go n id s ≡ done (record s { held = release id s.held })
  unfolding let_go
  let_go-registered id s r = rw r refl

  both_go-Kept :
      (self other : String) (acts : List Action) (s : Service)
      → open_count s.tunnels < n
      → Returns (KeptOf s) (let_go n other s >>= λ s'. let_go n self s' >>= λ s''. done (s'', acts))
  both_go-Kept self other acts s h =
      Returns-bind (Kept s) (KeptOf s) _ _ (let_go-Kept other s h) λ s1 k.
        Returns-bind (Kept s1) (KeptOf s) _ _ (let_go-Kept self s1 (bound-Kept k n h))
          (λ s2 k'. Kept-trans k k')

  pub on_initial_written-Kept :
      (self other : String) (error : Bool) (s : Service)
      → open_count s.tunnels < n
      → Returns (KeptOf s) (on_initial_written n self other error s)
  unfolding on_initial_written
  on_initial_written-Kept self other true s h =
      Returns-bind (Kept s) (KeptOf s) _ _ (close-Kept n self s h) λ s1 k.
        Returns-bind (Kept s1) (KeptOf s) _ _ (close-Kept n other s1 (bound-Kept k n h)) λ s2 k'.
          let d : Kept s s2 = Kept-trans k k' in
          Returns-mono (KeptOf s2) (KeptOf s) _ (both_go-Kept self other [] s2 (bound-Kept d n h))
            (λ x k''. Kept-trans d k'')
  on_initial_written-Kept self other false s h =
      Returns-bind (KeptOf s) (KeptOf s) _ _ (pipe_to-Kept self other s h) λ x k.
        Returns-mono (KeptOf x.0) (KeptOf s) _ (both_go-Kept self other x.1 x.0 (bound-Kept k n h))
          (λ y k'. Kept-trans k k')
