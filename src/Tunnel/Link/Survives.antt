-- ===== src/Tunnel/Link/Survives.antt =====
-- Whether a session outlives the first direction of its `link`.
use tunnel_drill.Prelude.{
  ℕ, ◌<◌, ◌≡◌, refl, subst, true, false, List, [], ◌∷◌, none, some, String, str_eq, eq_iff, arith,
  ◌⊎◌, ◌≢◌, inl, inr, Outcome, done, out_of_fuel, undefined, thrown, Returns, Returns-mono,
  Returns-bind, IfDone, ◌>>=◌, is_some,
}
use tunnel_drill.Tunnel.{
  Pipe, TunnelSession, Service, put, session, registered, lockable, contains, is_closed,
}
use tunnel_drill.Tunnel.Close.{close, close_pipe}
use tunnel_drill.Tunnel.Close.Effect.{open_count}
use tunnel_drill.Tunnel.Close.Sides.{SideCloses, ClosesPipe, close_pipe-Closes}
use tunnel_drill.Tunnel.Close.Total.{close-Closes}
use tunnel_drill.Tunnel.Close.Held.{HeldAs, held-close_pipe}
use tunnel_drill.Tunnel.Close.Kept.{IsWell, put-Kept}
use tunnel_drill.Tunnel.Link.{pipe_to, peeked, forward, survives, link}
use tunnel_drill.Tunnel.Link.Laws.{piped}
use tunnel_drill.Prelude.Dict.{lookup-insert}

-- One fact that a call has when it returns, and another that it has if it does.
both_hold :
    {A : Type 0} (P Q : A → Type 0) (m : Outcome A)
    → Returns P m
    → IfDone Q m
    → Returns (λ x. P x × Q x) m
both_hold P Q (done x) p q = (p, q)
both_hold P Q out_of_fuel p q = p
both_hold P Q undefined p q = p
both_hold P Q thrown p q = p

-- What follows a call that returns, and is undefined whatever it returned.
bind-undefined :
    {A B : Type 0} (P : A → Type 0) (m : Outcome A) (f : A → Outcome B)
    → Returns P m
    → ((x : A) → P x → f x ≡ undefined)
    → (m >>= f) ≡ undefined
bind-undefined P (done x) f p u = u x p
bind-undefined P out_of_fuel f p u = absurd p
bind-undefined P undefined f p u = refl
bind-undefined P thrown f p u = absurd p

module _ (n : ℕ) (self other : String) (t : TunnelSession) (s : Service)
    (e : session self s ≡ some t) (r : registered self s ≡ true) where
  -- With bytes that are written first, or without an old pipe, nothing is closed.
  forward-survives :
      (bytes : List ℕ)
      → (bytes ≢ []) ⊎ (t.pipe_operation ≡ none)
      → Returns (λ x. survives self other x.0 ≡ true) (forward n self other bytes s)
  unfolding forward pipe_to close_pipe
  forward-survives (c ∷ cs) w = ground (arith, r)
  forward-survives [] (inl w) = absurd (w refl)
  forward-survives [] (inr w) = rw (e, w) (ground (arith, r))

  pub link-survives :
      (t.peek_buffer ≢ []) ⊎ (t.pipe_operation ≡ none)
      → Returns
          (λ x. survives self other x.0 ≡ true)
          (forward n self other (peeked (session self s)) s)
  link-survives w = rw e (forward-survives t.peek_buffer w)

  -- The old pipe of a session that only the table holds: its end takes the session with it.
  module _ (p : Pipe) (h : open_count s.tunnels < n) (live : s.alive ≡ true)
      (o : t.was_closed ≡ false) (own : t.pipe_operation ≡ some p) (first : p.side_original ≡ self)
      (alone : contains self s.held ≡ false) (empty : t.peek_buffer ≡ [])
      (apart : str_eq self other ≡ false) where
    abbrev assigned : Service
    assigned = put self (piped self other t) s

    bound : open_count assigned.tunnels < n
    bound = omega (arith, h, (put-Kept self t _ s e refl well).effect.fewer)
      where
        own_of : (q : Pipe) → (piped self other t).pipe_operation ≡ some q → q.side_original ≡ self
        own_of q i = cc

        well : IsWell self t → IsWell self (piped self other t)
        well w = record { released = w.released; own_pipe = own_of }

    known_open : (is_some (session self assigned) ≡ true) × (is_closed self assigned ≡ false)
    known_open = (
      ground (arith, lookup-insert self self (piped self other t) s.tunnels, eq_iff self self),
      ground (arith, lookup-insert self self (piped self other t) s.tunnels, eq_iff self self, o),
    )

    gone :
        (s' : Service)
        → ClosesPipe (some p) assigned s'
        → HeldAs assigned s'
        → lockable self s' ≡ false
    gone s' c k = ground (
      arith,
      k,
      alone,
      c.effect.gone self live known_open.1
          (closed s' (subst (λ i. SideCloses i assigned s') first c.sides.0)),
    )
      where
        closed : (s' : Service) → SideCloses self assigned s' → is_closed self s' ≡ true
        closed s' d = d (rw r refl) known_open.0

    freed : Returns (λ s'. lockable self s' ≡ false) (close_pipe (close n) (some p) assigned)
    freed =
        Returns-mono (λ s'. ClosesPipe (some p) assigned s' × HeldAs assigned s')
          (λ s'. lockable self s' ≡ false) _
          (both_hold (ClosesPipe (some p) assigned) (HeldAs assigned) _
            (close_pipe-Closes (close n) n (close-Closes n) (some p) assigned bound)
            (held-close_pipe n (some p) assigned))
          (λ s' q. gone s' q.0 q.1)

    forward-frees :
        Returns (λ x. lockable self x.0 ≡ false) (forward n self other (peeked (session self s)) s)
    unfolding forward pipe_to
    forward-frees =
        rw (e, empty, pipe_to, e, own)
          (Returns-bind (λ s'. lockable self s' ≡ false) (λ x. lockable self x.0 ≡ false)
            (close_pipe (close n) (some p) assigned) _ freed (λ s' q. q))

    -- The rest of `link` uses a session that is gone.
    pub link-undefined : link n self other s ≡ undefined
    unfolding link
    link-undefined =
        bind-undefined (λ x. lockable self x.0 ≡ false)
          (forward n self other (peeked (session self s)) s) _ forward-frees
          (λ x q. rw (q, apart) refl)
