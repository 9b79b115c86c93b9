-- ===== src/Tunnel/Close/Side.antt =====
-- Service::closeTunnelSide, called for a session that was closed before or by itself.
use tunnel_drill.Prelude.{
  IfDone, Returns-IfDone, IfDone-bind, ℕ, ◌<◌, ◌≡◌, refl, true, false, some, String, str_eq, eq_iff,
  arith, if◌then◌else◌, Outcome, done, undefined, Bool-cases, inl, inr, out_of_fuel, thrown,
  Returns, Returns-mono, ◌>>=◌,
}
use tunnel_drill.Tunnel.{TunnelSession, Service, session, registered, unregister}
use tunnel_drill.Tunnel.Close.{close, close_preclosed, close_tunnel_side}
use tunnel_drill.Tunnel.Close.Effect.{open_count, contains-remove}
use tunnel_drill.Tunnel.Close.Sides.{Closes}
use tunnel_drill.Tunnel.Close.Total.{close-Closes}
use tunnel_drill.Tunnel.Close.Kept.{Kept, Kept-refl, Kept-trans, close-Kept}

-- `closeTunnelSide(id, true)` removes exactly the entry `id`, and touches no session.
pub close_tunnel_side-preclosed :
    (n : ℕ) (id j : String) (s : Service)
    → Returns
        (λ s'.
          (registered j s' ≡ (if str_eq id j then false else registered j s))
          × (s'.tunnels ≡ s.tunnels))
        (close_tunnel_side n id true s)
unfolding close_tunnel_side close_preclosed unregister
close_tunnel_side-preclosed n id j s =
    (ground (arith, contains-remove id j s.sessions, eq_iff id j), ground arith)

undefined_of_gone :
    (id : String) (m : Outcome Service)
    → Returns (λ s'. registered id s' ≡ false) m
    → (m >>= λ s'. if registered id s' then done (unregister id s') else undefined) ≡ undefined
undefined_of_gone id (done s') h = rw h refl
undefined_of_gone id out_of_fuel h = absurd h
undefined_of_gone id undefined h = absurd h
undefined_of_gone id thrown h = absurd h

-- `closeTunnelSide(id, false)` on a registered session that is open, of a service that is still
-- there, is undefined behaviour, with fuel for all open sessions: `close` has erased the entry when
-- `erase(tunnelSide)` is reached.
pub close_tunnel_side-undefined :
    (n : ℕ) (id : String) (t : TunnelSession) (s : Service)
    → open_count s.tunnels < n
    → s.alive ≡ true
    → registered id s ≡ true
    → session id s ≡ some t
    → t.was_closed ≡ false
    → close_tunnel_side n id false s ≡ undefined
unfolding close_tunnel_side
close_tunnel_side-undefined n id t s h a r e o = rw r (
    undefined_of_gone id (close n id s) (
      Returns-mono (Closes id s) _ (close n id s) (close-Closes n id s h)
        (λ s' c. c.effect.gone id a (ground arith) (c.itself (ground arith)))))

pub unregister-Kept : (id : String) (s : Service) → Kept s (unregister id s)
unfolding unregister
unregister-Kept id s = record {
  effect = record {
    alive_same = refl;
    fewer = omega arith;
    known = λ j. refl;
    stays = λ j e. e;
    shrinks = λ j e. ground (arith, contains-remove id j s.sessions, eq_iff id j);
    gone = λ j a e e'. cc;
  };
  well = λ a. a;
}

pub close_tunnel_side-Kept :
    (n : ℕ) (id : String) (s : Service)
    → open_count s.tunnels < n
    → IfDone (Kept s) (close_tunnel_side n id false s)
unfolding close_tunnel_side
close_tunnel_side-Kept n id s h = elim (Bool-cases (registered id s)) [
  | inr r ↦ rw r (Kept-refl s)
  | inl r ↦ rw r (
      IfDone-bind (Kept s) (Kept s) _ _ (Returns-IfDone (Kept s) _ (close-Kept n id s h)) λ s' k.
        elim (Bool-cases (registered id s')) [
          | inr q ↦ rw q tt
          | inl q ↦ rw q (Kept-trans k (unregister-Kept id s'))
        ])
]

pub close_tunnel_side-gone :
    (n : ℕ) (id : String) (s : Service)
    → registered id s ≡ false
    → close_tunnel_side n id false s ≡ done s
unfolding close_tunnel_side
close_tunnel_side-gone n id s r = rw r refl

pub unregistered : (id : String) (s : Service) → registered id (unregister id s) ≡ false
unfolding unregister
unregistered id s = ground (arith, contains-remove id id s.sessions, eq_iff id id)
