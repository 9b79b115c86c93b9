-- ===== src/Tunnel/Accept/Kept.antt =====
-- What the accept loop keeps: a connection adds at most one session, which is open.
use tunnel_drill.Prelude.{
  ℕ, ◌≡◌, refl, Bool, true, false, not, List, String, str_eq, arith, Bool-cases, inl, inr,
  if◌then◌else◌,
}
use tunnel_drill.Prelude.Dict.{lookup-insert}
use tunnel_drill.Tunnel.{Service, registered}
use tunnel_drill.Tunnel.Close.Kept.{IsWell, Kept, Kept-refl, same-Kept, put-AllWell}
use tunnel_drill.Tunnel.Close.Sound.{IsSound, Kept-IsSound}
use tunnel_drill.Tunnel.Accept.{
  stop, accept_once, StartErrors, start, Accepted, new_session, add_session, on_accept,
}

accept_once-Kept : (s : Service) → Kept s (accept_once s)
unfolding accept_once
accept_once-Kept s = elim (Bool-cases s.acceptor_open) [
  | inl o ↦ simp o (same-Kept refl refl refl)
  | inr o ↦ simp o (Kept-refl s)
]

pub stop-Kept : (s : Service) → Kept s (stop s)
unfolding stop
stop-Kept s = same-Kept refl refl refl

pub start-Kept : (e : StartErrors) (s : Service) → Kept s (start e s).0
unfolding start stop accept_once
start-Kept e s = same-Kept (ground arith) (ground arith) (ground arith)

new_session-IsWell : (zeros : List ℕ) (id : String) → IsWell id (new_session zeros)
new_session-IsWell zeros id = record { released = λ c. absurd (no c); own_pipe = λ p e. cc }
  where
    no : false ≡ true → ⊥
    no c = cc

add_session-IsSound :
    (zeros : List ℕ) (id : String) (s : Service) → IsSound s → IsSound (add_session zeros id s)
add_session-IsSound zeros id s v = record {
  only_open = λ a j r. elim (Bool-cases (str_eq id j)) [
    | inl same ↦ (
      ground (arith, lookup-insert id j (new_session zeros) s.tunnels),
      ground (arith, lookup-insert id j (new_session zeros) s.tunnels),
    )
    | inr other ↦
        let before = v.only_open a j (was_there j r other) in
        (
          ground (arith, lookup-insert id j (new_session zeros) s.tunnels),
          ground (arith, lookup-insert id j (new_session zeros) s.tunnels),
        )
  ];
  all_well = put-AllWell id (new_session zeros) s (new_session-IsWell zeros id) v.all_well;
}
  where
    was_there :
        (j : String)
        → registered j (add_session zeros id s) ≡ true
        → str_eq id j ≡ false
        → registered j s ≡ true
    was_there j r other = ground arith

either : (b : Bool) (x y : Service) → IsSound x → IsSound y → IsSound (if b then x else y)
either true x y u v = u
either false x y u v = v

pub on_accept-IsSound :
    (zeros : List ℕ) (n : ℕ) (a : Accepted) (s : Service)
    → IsSound s
    → IsSound (on_accept zeros n a s)
unfolding on_accept
on_accept-IsSound zeros n a s v = either a.aborted _ _ idle (
    either (not s.alive) _ _ idle (
      either a.error _ _ (again s' idle) (
        either (not s.acceptor_open) _ _ idle (
          either (not a.publisher) _ _ idle (
            either (not a.control) _ _ idle (
              either (not a.socket_open) _ _ (again s' idle) (
                either (not a.endpoint_known) _ _ idle (
                  again (add_session zeros a.tunnel_id s')
                    (add_session-IsSound zeros a.tunnel_id s' idle)))))))))
  where
    s' : Service
    s' = record s { accepting = n }

    idle : IsSound s'
    idle = Kept-IsSound (same-Kept refl refl refl) v

    again : (u : Service) → IsSound u → IsSound (accept_once u)
    again u w = Kept-IsSound (accept_once-Kept u) w

pub on_accept-same :
    (zeros : List ℕ) (n : ℕ) (a : Accepted) (s : Service)
    → ((on_accept zeros n a s).alive ≡ s.alive)
      × ((on_accept zeros n a s).acceptor_open ≡ s.acceptor_open)
      × ((on_accept zeros n a s).service_id ≡ s.service_id)
      × ((j : String) → registered j s ≡ true → registered j (on_accept zeros n a s) ≡ true)
unfolding on_accept accept_once
on_accept-same zeros n a s = (ground arith, ground arith, ground arith, λ j r. ground arith)
