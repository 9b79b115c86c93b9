-- ===== src/PublisherService/Close/Drops.antt =====
-- A shared pointer to a session that goes away.
use tunnel_drill.Prelude.{
  ℕ, suc, ◌≡◌, refl, sym, ap, ◌∙◌, Bool, true, false, List, some, String, str_eq, eq_iff, arith,
  Bool-cases, inl, inr, Returns, Returns-bind,
}
use tunnel_drill.Prelude.Dict.{lookup, lookup-erase}
use tunnel_drill.Tunnel.Link.{release}
use tunnel_drill.PublisherService.{SessionPair, Service, in_pairs, lockable, is_active}
use tunnel_drill.PublisherService.Close.{close, forget, drop_session}
use tunnel_drill.PublisherService.Close.Tidy.{IsTidy, IsJoined-transfer, tunnel_of}
use tunnel_drill.PublisherService.Close.Keeps.{Keeps, close-Keeps}
use tunnel_drill.PublisherService.Close.Ends.{lookup-in_pairs}

-- A session that no pair holds may leave the heap.
module _ (id : String) (s : Service) (v : IsTidy s)
    (apart : (key : String) (p : SessionPair)
      → lookup key s.sessions ≡ some p
      → (str_eq id p.inward ≡ false) × (str_eq id p.outward ≡ false)) where
  lookup-forget :
      (j : String) → str_eq id j ≡ false → lookup j (forget id s).store ≡ lookup j s.store
  lookup-forget j ne = lookup-erase id j s.store ∙ rw ne refl

  forget-IsTidy : IsTidy (forget id s)
  forget-IsTidy = record {
    joined = λ key p l.
        IsJoined-transfer key p s (forget id s) (v.joined key p l)
          (tunnel p.inward (apart key p l).0) (tunnel p.outward (apart key p l).1)
          (active p.inward (apart key p l).0) (active p.outward (apart key p l).1);
  }
    where
      tunnel : (j : String) → str_eq id j ≡ false → tunnel_of j (forget id s) ≡ tunnel_of j s
      tunnel j ne = rw (lookup-forget j ne) refl

      active : (j : String) → str_eq id j ≡ false → is_active j (forget id s) ≡ is_active j s
      active j ne = rw (lookup-forget j ne) refl

-- What is held does not matter to the table.
pub held-IsTidy : (held : List String) (s : Service) → IsTidy s → IsTidy (record s { held = held })
held-IsTidy held s v = record {
  joined = λ key p l.
      IsJoined-transfer key p s (record s { held = held }) (v.joined key p l) refl refl refl refl;
}

unlisted_apart :
    (id j : String) (s : Service)
    → in_pairs id s.sessions ≡ false
    → in_pairs j s.sessions ≡ true
    → str_eq id j ≡ false
unlisted_apart id j s h k = elim (Bool-cases (str_eq id j)) [
  | inr e ↦ e
  | inl e ↦ absurd (both (sym (ap (λ x. in_pairs x s.sessions) ((eq_iff id j).0 e) ∙ k) ∙ h))
]
  where
    both : ◌≡◌ {A = Bool} true false → ⊥
    both e = cc

pub drop_session-IsTidy :
    (n : ℕ) (id : String) (s : Service)
    → IsTidy s
    → Returns IsTidy (drop_session (close (suc (suc n))) id s)
unfolding drop_session
drop_session-IsTidy n id s v = elim (Bool-cases (lockable id s')) [
  | inl h ↦ rw h (held-IsTidy (release id s.held) s v)
  | inr h ↦ rw h (
      Returns-bind (Keeps id s') IsTidy (close (suc (suc n)) id s') _
        (close-Keeps n id s' (held-IsTidy (release id s.held) s v))
        λ s'' k. forget-IsTidy id s'' k.tidy λ key p l.
          let (a, b) = lookup-in_pairs key p s'.sessions (k.fewer key p l) in
          (
            unlisted_apart id p.inward s' (unlisted h) a,
            unlisted_apart id p.outward s' (unlisted h) b,
          ))
]
  where
    s' : Service
    s' = record s { held = release id s.held }

    unlisted : lockable id s' ≡ false → in_pairs id s'.sessions ≡ false
    unlisted h = ground arith
