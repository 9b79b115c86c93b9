-- ===== src/Tunnel/Close/Held.antt =====
-- TunnelSession::close lets no pending handler go of a session.
use tunnel_drill.Prelude.{
  ℕ, zero, suc, ◌≡◌, refl, ◌∙◌, Bool, true, false, Option, none, some, String, arith, Bool-cases,
  inl, inr, Outcome, IfDone, IfDone-bind, IfDone-mono,
}
use tunnel_drill.Tunnel.{Pipe, TunnelSession, Service, put, session, lockable, unregister}
use tunnel_drill.Tunnel.Close.{
  shut, close_preclosed, close_if, close_pipe, drop_pipe, leave, close_open, close_on, close,
}

abbrev pub HeldAs : Service → Service → Type 0
HeldAs s s' = s'.held ≡ s.held

-- A call behind a change that keeps what is held.
after_held :
    (s t : Service) → HeldAs s t → (m : Outcome Service) → IfDone (HeldAs t) m → IfDone (HeldAs s) m
after_held s t e m d = IfDone-mono (HeldAs t) (HeldAs s) m d (λ u q. q ∙ e)

held-drop_pipe :
    (o : Option TunnelSession) (id : String) (s : Service) → HeldAs s (drop_pipe o id s)
held-drop_pipe none id s = refl
held-drop_pipe (some t) id s = refl

held-leave : (id : String) (s : Service) → HeldAs s (leave id s)
unfolding close_preclosed unregister
held-leave id s = ground arith

module _ (rec : String → Service → Outcome Service)
    (ih : (id : String) (s : Service) → IfDone (HeldAs s) (rec id s)) where
  close_if-held : (b : Bool) (id : String) (s : Service) → IfDone (HeldAs s) (close_if rec b id s)
  close_if-held true id s = ih id s
  close_if-held false id s = refl

  pub held-close_pipe_rec : (p : Option Pipe) (s : Service) → IfDone (HeldAs s) (close_pipe rec p s)
  unfolding close_pipe
  held-close_pipe_rec none s = refl
  held-close_pipe_rec (some p) s =
      IfDone-bind (HeldAs s) (HeldAs s) _ _ (close_if-held (lockable p.side_original s) _ s)
        (λ s' e. after_held s s' e _ (close_if-held (lockable p.side_other s) _ s'))

  close_on-held :
      (o : Option TunnelSession) (id : String) (s : Service)
      → IfDone (HeldAs s) (close_on rec id o s)
  unfolding close_on close_open
  close_on-held none id s = refl
  close_on-held (some t) id s = elim (Bool-cases t.was_closed) [
    | inl c ↦ rw c refl
    | inr o ↦ rw o (
        IfDone-bind (HeldAs s) (HeldAs s) _ _
          (held-close_pipe_rec t.pipe_operation (put id (shut t) s))
          λ s2 e2.
            IfDone-bind (HeldAs s) (HeldAs s) _ _
              (after_held s (drop_pipe (session id s2) id s2)
                (held-drop_pipe (session id s2) id s2 ∙ e2) _
                (held-close_pipe_rec t.pipe_operation (drop_pipe (session id s2) id s2)))
              (λ s3 e3. held-leave id s3 ∙ e3))
  ]

held-close : (n : ℕ) (id : String) (s : Service) → IfDone (HeldAs s) (close n id s)
unfolding close
held-close zero id s = tt
held-close (suc n) id s = close_on-held (close n) (held-close n) (session id s) id s

pub held-close_pipe :
    (n : ℕ) (p : Option Pipe) (s : Service) → IfDone (HeldAs s) (close_pipe (close n) p s)
held-close_pipe n p s = held-close_pipe_rec (close n) (held-close n) p s
