-- ===== src/PublisherService/Close/Removal.antt =====
-- How a pair whose two sessions are no longer active leaves the table: every nested close finds
-- nothing to do.
use tunnel_drill.Prelude.{
  ◌≡◌, refl, ◌∙◌, Bool, true, false, none, some, String, str_eq, eq_iff, if◌then◌else◌, arith,
  Bool-cases, inl, inr, Outcome, done,
}
use tunnel_drill.Prelude.Dict.{lookup, erase, lookup-erase}
use tunnel_drill.Tunnel.{Pipe}
use tunnel_drill.Tunnel.Link.{release}
use tunnel_drill.PublisherService.{SessionPair, Service, lockable, is_active, pipe}
use tunnel_drill.PublisherService.Close.{
  forget, close_if, close_pipe, drop_pipe, drop_session, drop_pair, hold_pair, erase_pair,
  close_outward_pipe, end_pair,
}

-- Each session of the pair has its pipe to the other.
pub record IsPiped (p : SessionPair) : Type 0 where
  pub inward_joined : p.inward_pipe ≡ some (pipe p.inward p.outward)
  pub outward_joined : p.outward_pipe ≡ some (pipe p.outward p.inward)

abbrev pub unheld : String → Service → Service
unheld id s = record s { held = release id s.held }

-- A shared pointer to a session that is not active goes away.
abbrev pub dropped : String → Service → Service
dropped id s = if lockable id (unheld id s) then unheld id s else forget id (unheld id s)

abbrev pub removed : String → SessionPair → Service → Service
removed key p s =
    dropped p.inward
      (dropped p.outward (hold_pair p (record s { sessions = erase key s.sessions })))

pub is_active-dropped :
    (id j : String) (s : Service)
    → is_active id s ≡ false
    → is_active j (dropped id s) ≡ is_active j s
is_active-dropped id j s e = elim (Bool-cases (lockable id (unheld id s))) [
  | inl l ↦ rw l refl
  | inr l ↦ rw l (ground (arith, lookup-erase id j s.store, eq_iff id j))
]

pub sessions-dropped : (id : String) (s : Service) → (dropped id s).sessions ≡ s.sessions
sessions-dropped id s = ground arith

pub lookup-dropped :
    (id j : String) (s : Service)
    → str_eq id j ≡ false
    → lookup j (dropped id s).store ≡ lookup j s.store
lookup-dropped id j s ne = elim (Bool-cases (lockable id (unheld id s))) [
  | inl l ↦ rw l refl
  | inr l ↦ rw l (lookup-erase id j s.store ∙ rw ne refl)
]

pub drop_pipe-none :
    (rec : String → Service → Outcome Service) (s : Service) → drop_pipe rec none s ≡ done s
unfolding drop_pipe
drop_pipe-none rec s = refl

-- A session that something else holds too is not destroyed.
pub drop_session-lockable :
    (rec : String → Service → Outcome Service) (id : String) (s : Service)
    → lockable id (unheld id s) ≡ true
    → drop_session rec id s ≡ done (unheld id s)
unfolding drop_session
drop_session-lockable rec id s h = rw h refl

module _ (rec : String → Service → Outcome Service)
    (still : (id : String) (s : Service) → is_active id s ≡ false → rec id s ≡ done s) where
  close_if-still :
      (b : Bool) (id : String) (s : Service) → is_active id s ≡ false → close_if rec b id s ≡ done s
  close_if-still true id s e = still id s e
  close_if-still false id s e = refl

  close_pipe-still :
      (p : Pipe) (s : Service)
      → is_active p.side_original s ≡ false
      → is_active p.side_other s ≡ false
      → close_pipe rec (some p) s ≡ done s
  unfolding close_pipe
  close_pipe-still p s e f =
      rw (close_if-still (lockable p.side_original s) p.side_original s e)
        (close_if-still (lockable p.side_other s) p.side_other s f)

  drop_session-still :
      (id : String) (s : Service)
      → is_active id s ≡ false
      → drop_session rec id s ≡ done (dropped id s)
  unfolding drop_session
  drop_session-still id s e = elim (Bool-cases (lockable id (unheld id s))) [
    | inl l ↦ rw l refl
    | inr l ↦ rw (l, still id (unheld id s) e) refl
  ]

  module _ (p : SessionPair) (joined : IsPiped p) where
    drop_pair-still :
        (s : Service)
        → is_active p.inward s ≡ false
        → is_active p.outward s ≡ false
        → drop_pair rec p s ≡ done (dropped p.inward (dropped p.outward s))
    unfolding drop_pair drop_pipe
    drop_pair-still s e f =
        rw
          (
            joined.outward_joined,
            close_pipe-still (pipe p.outward p.inward) s f e,
            joined.inward_joined,
            close_pipe-still (pipe p.inward p.outward) s e f,
            drop_session-still p.outward s f,
          )
          (drop_session-still p.inward (dropped p.outward s)
            (is_active-dropped p.outward p.inward s f ∙ e))

    pub end_pair-still :
        (key : String) (s : Service)
        → lookup key s.sessions ≡ some p
        → is_active p.inward s ≡ false
        → is_active p.outward s ≡ false
        → end_pair rec key p s ≡ done (removed key p s)
    unfolding end_pair
    end_pair-still key s l e f =
        rw
          (
            joined.inward_joined,
            close_pipe-still (pipe p.inward p.outward) s e f,
            l,
            close_outward_pipe,
            joined.outward_joined,
            close_pipe-still (pipe p.outward p.inward) s f e,
            l,
            erase_pair,
          )
          (drop_pair-still (hold_pair p (record s { sessions = erase key s.sessions })) e f)
