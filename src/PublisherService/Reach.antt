-- ===== src/PublisherService/Reach.antt =====
-- The service from its start on: what can happen to it, one handler after the other. The code does
-- not hold a mutex for a whole handler, so that handlers are atomic is an assumption. What the
-- network answers is any of its answers. Ids of sessions are new, and a tunnel's id is not in the
-- table when its second session comes up.
use tunnel_drill.Prelude.{
  ℕ, suc, ◌≡◌, sym, ◌∙◌, Bool, true, false, List, Option, none, some, String, Outcome, done,
  Returns, subst,
}
use tunnel_drill.Prelude.Dict.{lookup}
use tunnel_drill.PublisherClient.Control
use tunnel_drill.PublisherService.{SessionPair, Service, started}
use tunnel_drill.PublisherService.Close.{close, close_pipe}
use tunnel_drill.PublisherService.Close.Tidy.{IsTidy, tunnel_of}
use tunnel_drill.PublisherService.Close.Ends.{IsOver, close_pipe-IsOver}
use tunnel_drill.PublisherService.Create.{
  Connection, refused, opened, TokenWrite, session_over, reset_timer, on_timer, written_over,
}
use tunnel_drill.PublisherService.Create.Connects.{session_over-opened, IsUp, written_over-IsUp}
use tunnel_drill.PublisherService.Create.Fails.{
  made-IsTidy, unwritten-IsTidy, unreached-IsTidy, on_timer-IsTidy, reset_timer-IsTidy,
}

pub data Step : Service → Service → Type 0 where
  -- `createSession` reaches the broker, and writes the token
  creates :
      (token : List ℕ) (tunnel_id o : String) (w : Option TokenWrite) (s s' : Service)
      → lookup o s.store ≡ none
      → session_over token tunnel_id (opened o) s ≡ done (w, s')
      → Step s s'
  -- the token is written, and the hidden host is reached
  comes_up :
      (n : ℕ) (tunnel_id i o : String) (s s' : Service)
      → lookup tunnel_id s.sessions ≡ none
      → tunnel_of o s ≡ some tunnel_id
      → lookup i s.store ≡ none
      → written_over n false (opened i) tunnel_id o s ≡ done s'
      → Step s s'
  -- the token is not written
  unwritten :
      (n : ℕ) (c : Connection) (tunnel_id o : String) (s s' : Service)
      → written_over (suc (suc n)) true c tunnel_id o s ≡ done s'
      → Step s s'
  -- the hidden host refuses
  unreached :
      (n : ℕ) (tunnel_id o : String) (s s' : Service)
      → written_over (suc (suc n)) false refused tunnel_id o s ≡ done s'
      → Step s s'
  -- the timer of a session is set, and wakes up
  rearms : (id : String) (s : Service) → Step s (reset_timer id s)
  wakes :
      (n : ℕ) (id : String) (error : Bool) (s s' : Service)
      → on_timer (suc (suc n)) id error s ≡ done s'
      → Step s s'
  -- a pipe of a pair gives up
  inward_ends :
      (n : ℕ) (key : String) (p : SessionPair) (s s' : Service)
      → lookup key s.sessions ≡ some p
      → close_pipe (close (suc (suc n))) p.inward_pipe s ≡ done s'
      → Step s s'
  outward_ends :
      (n : ℕ) (key : String) (p : SessionPair) (s s' : Service)
      → lookup key s.sessions ≡ some p
      → close_pipe (close (suc (suc n))) p.outward_pipe s ≡ done s'
      → Step s s'

pub data Reach (settings : Control.Service) : Service → Type 0 where
  here : Reach settings (started settings)
  next : {s s' : Service} → Reach settings s → Step s s' → Reach settings s'

Returns-done :
    {A : Type 0} (P : A → Type 0) (m : Outcome A) (x : A) → Returns P m → m ≡ done x → P x
Returns-done P m x r e = subst (Returns P) e r

started-IsTidy : (settings : Control.Service) → IsTidy (started settings)
unfolding lookup
started-IsTidy settings = record { joined = λ key p l. absurd (not_there p l) }
  where
    not_there : (p : SessionPair) → ◌≡◌ {A = Option SessionPair} none (some p) → ⊥
    not_there p e = cc

Step-IsTidy : {s s' : Service} → Step s s' → IsTidy s → IsTidy s'
Step-IsTidy (creates token tunnel_id o w s s' fresh e) v =
    subst IsTidy (same _ s' _ w (sym (session_over-opened token tunnel_id o s) ∙ e))
      (made-IsTidy tunnel_id o s v fresh)
  where
    same :
        (a b : Service) (x y : Option TokenWrite)
        → ◌≡◌ {A = Outcome (Option TokenWrite × Service)} (done (x, a)) (done (y, b))
        → a ≡ b
    same a b x y e = cc
Step-IsTidy (comes_up n tunnel_id i o s s' free made fresh e) v =
    (Returns-done (IsUp tunnel_id i o s) _ s'
      (written_over-IsUp n tunnel_id i o s v free made fresh) e).tidy
Step-IsTidy (unwritten n c tunnel_id o s s' e) v =
    Returns-done IsTidy _ s' (unwritten-IsTidy n s v c tunnel_id o) e
Step-IsTidy (unreached n tunnel_id o s s' e) v =
    Returns-done IsTidy _ s' (unreached-IsTidy n s v tunnel_id o) e
Step-IsTidy (rearms id s) v = reset_timer-IsTidy id s v
Step-IsTidy (wakes n id error s s' e) v =
    Returns-done IsTidy _ s' (on_timer-IsTidy n s v id error) e
Step-IsTidy (inward_ends n key p s s' l e) v =
    (Returns-done (IsOver key p s) _ s' (close_pipe-IsOver n key p s v l).0 e).tidy
Step-IsTidy (outward_ends n key p s s' l e) v =
    (Returns-done (IsOver key p s) _ s' (close_pipe-IsOver n key p s v l).1 e).tidy

-- In every state that the service reaches from its start by these steps (hosts resolve, ids of
-- sessions are new, and no tunnel comes up under an id that is in the table), each entry of its
-- table has two sessions that were made for its tunnel, with a pipe in each direction between them,
-- and at least one of the two is active: the table is tidy.
pub Reach-IsTidy : {settings : Control.Service} {s : Service} → Reach settings s → IsTidy s
Reach-IsTidy here = started-IsTidy _
Reach-IsTidy (next r step) = Step-IsTidy step (Reach-IsTidy r)
