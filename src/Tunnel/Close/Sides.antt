-- ===== src/Tunnel/Close/Sides.antt =====
-- What a close is to do, and PipeOperation::close, which closes both sides of a pipe.
use tunnel_drill.Prelude.{
  ℕ, ◌<◌, ◌≡◌, refl, ◌∙◌, Bool, true, false, Option, none, some, String, arith, is_some, Outcome,
  Returns, Returns-bind, Returns-mono,
}
use tunnel_drill.Tunnel.{Pipe, TunnelSession, Service, session, lockable, is_closed}
use tunnel_drill.Tunnel.Close.{close_if, close_pipe, drop_pipe}
use tunnel_drill.Tunnel.Close.Effect.{open_count, Effect, Effect-refl, Effect-trans, Effect-put}

-- A side is closed, if it is there and its pointer could be locked before.
abbrev pub SideCloses : String → Service → Service → Type 0
SideCloses id s s' = lockable id s ≡ true → is_some (session id s) ≡ true → is_closed id s' ≡ true

-- The sides of a pipe, if there is one.
abbrev pub SidesClose : Option Pipe → Service → Service → Type 0
SidesClose none s s' = Unit
SidesClose (some p) s s' = SideCloses p.side_original s s' × SideCloses p.side_other s s'

-- What a close of `id` is to do: the effect; a session that is there is closed; and one that was
-- open takes both sides of its pipe with it.
pub record Closes (id : String) (s s' : Service) : Type 0 where
  pub effect : Effect s s'
  pub itself : is_some (session id s) ≡ true → is_closed id s' ≡ true
  pub sides :
      (t : TunnelSession)
      → session id s ≡ some t
      → t.was_closed ≡ false
      → SidesClose t.pipe_operation s s'

record ClosesIf (b : Bool) (id : String) (s s' : Service) : Type 0 where
  effect : Effect s s'
  side : b ≡ true → is_some (session id s) ≡ true → is_closed id s' ≡ true

pub record ClosesPipe (p : Option Pipe) (s s' : Service) : Type 0 where
  pub effect : Effect s s'
  pub sides : SidesClose p s s'

pub SidesClose-stays :
    (p : Option Pipe) (s t u : Service) → SidesClose p s t → Effect t u → SidesClose p s u
SidesClose-stays none s t u a e = tt
SidesClose-stays (some p) s t u a e =
    (λ l k. e.stays p.side_original (a.0 l k), λ l k. e.stays p.side_other (a.1 l k))

module _ (rec : String → Service → Outcome Service) (n : ℕ)
    (ih : (id : String) (s : Service)
      → open_count s.tunnels < n
      → Returns (Closes id s) (rec id s)) where
  close_if-Closes :
      (b : Bool) (id : String) (s : Service)
      → open_count s.tunnels < n
      → Returns (ClosesIf b id s) (close_if rec b id s)
  close_if-Closes true id s h =
      Returns-mono (Closes id s) _ (rec id s) (ih id s h)
        (λ s' c. record { effect = c.effect; side = λ _. c.itself })
  close_if-Closes false id s h = record { effect = Effect-refl s; side = λ e. cc }

  pub close_pipe-Closes :
      (p : Option Pipe) (s : Service)
      → open_count s.tunnels < n
      → Returns (ClosesPipe p s) (close_pipe rec p s)
  unfolding close_pipe
  close_pipe-Closes none s h = record { effect = Effect-refl s; sides = tt }
  close_pipe-Closes (some p) s h =
      Returns-bind (ClosesIf (lockable p.side_original s) p.side_original s) (ClosesPipe (some p) s)
        _ _ (close_if-Closes (lockable p.side_original s) p.side_original s h)
        λ t c.
          Returns-mono (ClosesIf (lockable p.side_other s) p.side_other t) _ _
            (close_if-Closes (lockable p.side_other s) p.side_other t
              (omega (arith, c.effect.fewer)))
            λ u d. record {
              effect = Effect-trans c.effect d.effect;
              sides = (
                λ l k. d.effect.stays p.side_original (c.side l k),
                λ l k. d.side l (c.effect.known p.side_other ∙ k),
              );
            }

  -- The pointer to the pipe is dropped: nothing that `Effect` speaks of changes.
  pub drop_pipe-Effect :
      (o : Option TunnelSession) (id : String) (s : Service)
      → session id s ≡ o
      → Effect s (drop_pipe o id s)
  drop_pipe-Effect none id s e = Effect-refl s
  drop_pipe-Effect (some t) id s e = Effect-put id t _ s e refl
