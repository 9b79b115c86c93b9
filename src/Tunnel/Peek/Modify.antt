-- ===== src/Tunnel/Peek/Modify.antt =====
-- Writes to a session that do not close it, and the ends of the read handler that do.
use tunnel_drill.Prelude.{
  ℕ, ◌<◌, ◌≡◌, refl, true, [], some, String, eq_iff, arith, is_some, Returns, Returns-bind, str_eq,
  false, Option-cases, inl, inr,
}
use tunnel_drill.Tunnel.{TunnelSession, Service, session, is_closed}
use tunnel_drill.Tunnel.Close.{close}
use tunnel_drill.Tunnel.Close.Effect.{open_count, open_count-insert}
use tunnel_drill.Tunnel.Close.Sides.{Closes}
use tunnel_drill.Tunnel.Close.Total.{close-Closes, session-put}
use tunnel_drill.Tunnel.Link.{Step}
use tunnel_drill.Tunnel.Peek.{modify, closing}

abbrev pub ClosesSession : String → Step → Type 0
ClosesSession id m = Returns (λ x. (is_closed id x.0 ≡ true) × (x.1 ≡ [])) m

pub closing-closes :
    (n : ℕ) (id : String) (s : Service)
    → open_count s.tunnels < n
    → is_some (session id s) ≡ true
    → ClosesSession id (closing n id s)
closing-closes n id s h k =
    Returns-bind (Closes id s) _ (close n id s) _ (close-Closes n id s h)
      (λ s' c. (c.itself k, refl))

-- A write that leaves `was_closed` alone.
module _ (f : TunnelSession → TunnelSession)
    (keeps : (t : TunnelSession) → (f t).was_closed ≡ t.was_closed) (id : String)
    (t : TunnelSession) (s : Service) (e : session id s ≡ some t) where
  pub session-modify : session id (modify f id s) ≡ some (f t)
  session-modify = ground (arith, session-put id id (f t) s, eq_iff id id)

  pub open_count-modify : open_count (modify f id s).tunnels ≡ open_count s.tunnels
  open_count-modify = ground (arith, open_count-insert id t (f t) s.tunnels e, keeps t)

  pub closing-modify :
      (n : ℕ) → open_count s.tunnels < n → ClosesSession id (closing n id (modify f id s))
  closing-modify n h =
      closing-closes n id (modify f id s) (omega (arith, open_count-modify))
        (rw session-modify refl)

pub sessions-modify :
    (f : TunnelSession → TunnelSession) (id : String) (s : Service)
    → (modify f id s).sessions ≡ s.sessions
sessions-modify f id s = ground arith

pub service_id-modify :
    (f : TunnelSession → TunnelSession) (id : String) (s : Service)
    → (modify f id s).service_id ≡ s.service_id
service_id-modify f id s = ground arith

pub alive-modify :
    (f : TunnelSession → TunnelSession) (id : String) (s : Service)
    → (modify f id s).alive ≡ s.alive
alive-modify f id s = ground arith

pub acceptor-modify :
    (f : TunnelSession → TunnelSession) (id : String) (s : Service)
    → (modify f id s).acceptor_open ≡ s.acceptor_open
acceptor-modify f id s = ground arith

pub session-modify_other :
    (f : TunnelSession → TunnelSession) (id j : String) (s : Service)
    → str_eq id j ≡ false
    → session j (modify f id s) ≡ session j s
session-modify_other f id j s ne = elim (Option-cases (session id s)) [
  | inl e ↦ rw (modify, e) refl
  | inr (t, e) ↦ rw (modify, e, session-put id j (f t) s, ne) refl
]
