-- ===== src/PublisherService/Create/Fails.antt =====
-- The first half of a tunnel, a tunnel that does not come up, and the end of a session by its
-- timer.
use tunnel_drill.Prelude.{
  ℕ, suc, ◌≡◌, refl, sym, ap, ◌∙◌, Bool, true, false, Option, none, some, String, str_eq, eq_iff,
  Bool-cases, inl, inr, Returns, Returns-bind, Returns-mono,
}
use tunnel_drill.Prelude.Dict.{lookup, lookup-insert}
use tunnel_drill.PublisherService.{Service, lockable, is_active, put}
use tunnel_drill.PublisherService.Close.{close}
use tunnel_drill.PublisherService.Close.Tidy.{
  IsTidy, IsJoined, IsJoined-transfer, tunnel_of, tunnel_id_of,
}
use tunnel_drill.PublisherService.Close.Keeps.{Keeps, close-Keeps}
use tunnel_drill.PublisherService.Close.Drops.{drop_session-IsTidy}
use tunnel_drill.PublisherService.Create.{
  Connection, refused, new_session, hold, connected_over, reset_timer, on_timer, on_inwards,
  written_over,
}
use tunnel_drill.PublisherService.Create.Connects.{
  tunnel_of-reset_timer, is_active-reset_timer, sessions-reset_timer,
}

-- A session under a new id.
module _ (tunnel_id id : String) (s : Service) (v : IsTidy s)
    (fresh : lookup id s.store ≡ none) where
  abbrev made : Service
  made = hold id (put id (new_session tunnel_id) s)

  fresh_apart : (j key : String) → tunnel_of j s ≡ some key → str_eq id j ≡ false
  fresh_apart j key h = elim (Bool-cases (str_eq id j)) [
    | inr ne ↦ ne
    | inl q ↦
        absurd (
          not_there (sym (ap tunnel_id_of fresh) ∙ ap (λ x. tunnel_of x s) ((eq_iff id j).0 q) ∙ h))
  ]
    where
      not_there : ◌≡◌ {A = Option String} none (some key) → ⊥
      not_there k = cc

  lookup-made : (j : String) → str_eq id j ≡ false → lookup j made.store ≡ lookup j s.store
  lookup-made j ne = lookup-insert id j (new_session tunnel_id) s.store ∙ rw ne refl

  pub made-IsTidy : IsTidy made
  made-IsTidy = record {
    joined = λ key p l.
        let q : IsJoined key p s = v.joined key p l in
        IsJoined-transfer key p s made q (tunnel p.inward (fresh_apart p.inward key q.inward_key))
          (tunnel p.outward (fresh_apart p.outward key q.outward_key))
          (active p.inward (fresh_apart p.inward key q.inward_key))
          (active p.outward (fresh_apart p.outward key q.outward_key));
  }
    where
      tunnel : (j : String) → str_eq id j ≡ false → tunnel_of j made ≡ tunnel_of j s
      tunnel j ne = rw (lookup-made j ne) refl

      active : (j : String) → str_eq id j ≡ false → is_active j made ≡ is_active j s
      active j ne = rw (lookup-made j ne) refl

module _ (n : ℕ) (s : Service) (v : IsTidy s) where
  pub unwritten-IsTidy :
      (c : Connection) (tunnel_id o : String)
      → Returns IsTidy (written_over (suc (suc n)) true c tunnel_id o s)
  unfolding written_over
  unwritten-IsTidy c tunnel_id o = drop_session-IsTidy n o s v

  pub unreached-IsTidy :
      (tunnel_id o : String)
      → Returns IsTidy (written_over (suc (suc n)) false refused tunnel_id o s)
  unfolding written_over connected_over on_inwards
  unreached-IsTidy tunnel_id o =
      Returns-bind (Keeps o s) IsTidy (close (suc (suc n)) o s) _ (close-Keeps n o s v)
        λ s' k. drop_session-IsTidy n o s' k.tidy

  pub on_timer-IsTidy :
      (id : String) (error : Bool) → Returns IsTidy (on_timer (suc (suc n)) id error s)
  unfolding on_timer
  on_timer-IsTidy id true = v
  on_timer-IsTidy id false = elim (Bool-cases (lockable id s)) [
    | inl h ↦ rw h (
        Returns-mono (Keeps id s) IsTidy (close (suc (suc n)) id s) (close-Keeps n id s v)
          (λ s' k. k.tidy))
    | inr h ↦ rw h v
  ]

pub reset_timer-IsTidy : (id : String) (s : Service) → IsTidy s → IsTidy (reset_timer id s)
reset_timer-IsTidy id s v = record {
  joined = λ key p l.
      IsJoined-transfer key p s (reset_timer id s)
        (v.joined key p (sym (ap (lookup key) (sessions-reset_timer id s)) ∙ l))
        (tunnel_of-reset_timer id s p.inward) (tunnel_of-reset_timer id s p.outward)
        (is_active-reset_timer id s p.inward) (is_active-reset_timer id s p.outward);
}
