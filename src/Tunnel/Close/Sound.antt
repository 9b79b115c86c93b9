-- ===== src/Tunnel/Close/Sound.antt =====
-- The well-formedness of a service of the broker.
use tunnel_drill.Prelude.{◌≡◌, ◌∙◌, true, false, String, Bool-cases, inl, inr, is_some, sym}
use tunnel_drill.Tunnel.{Service, session, registered, is_closed}
use tunnel_drill.Tunnel.Close.Kept.{AllWell, Kept}

-- While the service lives, the sessions in its table are there and open; and of every session the
-- record is well.
pub record IsSound (s : Service) : Type 0 where
  pub only_open :
      s.alive ≡ true
      → (id : String) → registered id s ≡ true
      → (is_some (session id s) ≡ true) × (is_closed id s ≡ false)
  pub all_well : AllWell s

-- A session that closes has left the table.
pub Kept-IsSound : {s s' : Service} → Kept s s' → IsSound s → IsSound s'
Kept-IsSound {s} {s'} k v = record {
  only_open = λ a id r. (
    k.effect.known id ∙ (before a id r).0,
    elim (Bool-cases (is_closed id s')) [
      | inr o ↦ o
      | inl c ↦ absurd (not_both id r (k.effect.gone id (lived a) (before a id r).1 c))
    ],
  );
  all_well = k.well v.all_well;
}
  where
    lived : s'.alive ≡ true → s.alive ≡ true
    lived a = sym k.effect.alive_same ∙ a

    before :
        s'.alive ≡ true
        → (id : String) → registered id s' ≡ true
        → (is_some (session id s) ≡ true) × (is_closed id s ≡ false)
    before a id r = v.only_open (lived a) id (k.effect.shrinks id r)

    not_both : (id : String) → registered id s' ≡ true → registered id s' ≡ false → ⊥
    not_both id r q = cc
