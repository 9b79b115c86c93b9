-- ===== src/PublisherService/Close/Keeps.antt =====
-- ServiceSession::close on a tidy table: it returns, the table stays tidy, and only the session
-- that is closed changes its state.
use tunnel_drill.Prelude.{
  ℕ, suc, ◌≡◌, refl, sym, ap, ◌∙◌, Bool, true, false, ◌||◌, Option, none, some, String, str_eq,
  eq_iff, eq_refl, if◌then◌else◌, arith, Bool-cases, Option-cases, inl, inr, Returns, subst,
}
use tunnel_drill.Prelude.Dict.{lookup, erase, lookup-erase}
use tunnel_drill.PublisherService.{ServiceSession, SessionPair, Service, is_active, put}
use tunnel_drill.PublisherService.Close.{close, ended}
use tunnel_drill.PublisherService.Close.Removal.{removed}
use tunnel_drill.PublisherService.Close.Tidy.{
  tunnel_of, IsJoined, IsTidy, tunnel_of_apart, close-still, after_close, close-after,
  is_active-put, tunnel_of-put, IsJoined-transfer, is_active-removed, tunnel_of-removed,
  sessions-removed,
}

-- What a close of `id` is to leave.
pub record Keeps (id : String) (s s' : Service) : Type 0 where
  pub tidy : IsTidy s'
  pub itself : is_active id s' ≡ false
  pub others : (j : String) → str_eq id j ≡ false → is_active j s' ≡ is_active j s
  pub fewer :
      (key : String) (p : SessionPair)
      → lookup key s'.sessions ≡ some p
      → lookup key s.sessions ≡ some p

pub same_pair : (p q : SessionPair) → ◌≡◌ {A = Option SessionPair} (some p) (some q) → p ≡ q
same_pair p q h = cc

module _ (id : String) (t : ServiceSession) (s : Service) (v : IsTidy s)
    (h : lookup id s.store ≡ some t) where
  marked : Service
  marked = put id (ended t) s

  -- A pair of another tunnel does not notice.
  elsewhere :
      (key : String) (q : SessionPair)
      → lookup key s.sessions ≡ some q
      → str_eq t.tunnel_id key ≡ false
      → IsJoined key q marked
  unfolding marked
  elsewhere key q l ne =
      let j : IsJoined key q s = v.joined key q l in
      let mine : tunnel_of id s ≡ some t.tunnel_id = rw h refl in
      IsJoined-transfer key q s marked j (tunnel_of-put id t s h q.inward)
        (tunnel_of-put id t s h q.outward)
        (is_active-put id t s h q.inward
          ∙ rw (tunnel_of_apart id q.inward t.tunnel_id key s mine j.inward_key ne) refl)
        (is_active-put id t s h q.outward
          ∙ rw (tunnel_of_apart id q.outward t.tunnel_id key s mine j.outward_key ne) refl)

  -- No pair of the session's own tunnel is left without an active session.
  module _
      (others : (p : SessionPair)
        → lookup t.tunnel_id s.sessions ≡ some p
        → (is_active p.inward marked || is_active p.outward marked) ≡ true) where
    put-IsTidy : IsTidy marked
    unfolding marked
    put-IsTidy = record {
      joined = λ key p l. elim (Bool-cases (str_eq t.tunnel_id key)) [
        | inr ne ↦ elsewhere key p l ne
        | inl e ↦ own key p l ((eq_iff t.tunnel_id key).0 e)
      ];
    }
      where
        own :
            (key : String) (p : SessionPair)
            → lookup key s.sessions ≡ some p
            → t.tunnel_id ≡ key
            → IsJoined key p marked
        own key p l e =
            let j : IsJoined key p s = v.joined key p l in
            record {
              piped = j.piped;
              inward_key = tunnel_of-put id t s h p.inward ∙ j.inward_key;
              outward_key = tunnel_of-put id t s h p.outward ∙ j.outward_key;
              alive = others p (ap (λ k. lookup k s.sessions) e ∙ l);
            }

  -- The pair of the session's tunnel leaves.
  module _ (p : SessionPair) (l : lookup t.tunnel_id s.sessions ≡ some p)
      (a : is_active p.inward marked ≡ false) (b : is_active p.outward marked ≡ false) where
    removed-IsTidy : IsTidy (removed t.tunnel_id p marked)
    unfolding marked
    removed-IsTidy = record {
      joined = λ key q k.
          let kept : lookup key (erase t.tunnel_id s.sessions) ≡ some q =
            ap (lookup key) (sym (sessions-removed t.tunnel_id p marked a b)) ∙ k in
          elim (Bool-cases (str_eq t.tunnel_id key)) [
            | inl e ↦ absurd (gone key q e (sym (lookup-erase t.tunnel_id key s.sessions) ∙ kept))
            | inr ne ↦
                left key q ne
                  (kept_before key q ne (sym (lookup-erase t.tunnel_id key s.sessions) ∙ kept))
          ];
    }
      where
        gone :
            (key : String) (q : SessionPair)
            → str_eq t.tunnel_id key ≡ true
            → (if str_eq t.tunnel_id key then none else lookup key s.sessions) ≡ some q
            → ⊥
        gone key q e k = cc

        kept_before :
            (key : String) (q : SessionPair)
            → str_eq t.tunnel_id key ≡ false
            → (if str_eq t.tunnel_id key then none else lookup key s.sessions) ≡ some q
            → lookup key s.sessions ≡ some q
        kept_before key q e k = rw e at k

        left :
            (key : String) (q : SessionPair)
            → str_eq t.tunnel_id key ≡ false
            → lookup key s.sessions ≡ some q
            → IsJoined key q (removed t.tunnel_id p marked)
        left key q ne k =
            let i : IsJoined t.tunnel_id p s = v.joined t.tunnel_id p l in
            let j : IsJoined key q s = v.joined key q k in
            IsJoined-transfer key q marked (removed t.tunnel_id p marked) (elsewhere key q k ne)
              (tunnel_of-removed t.tunnel_id p marked a b q.inward
                (tunnel_of_apart p.inward q.inward t.tunnel_id key s i.inward_key j.inward_key ne)
                (tunnel_of_apart p.outward q.inward t.tunnel_id key s i.outward_key j.inward_key
                  ne))
              (tunnel_of-removed t.tunnel_id p marked a b q.outward
                (tunnel_of_apart p.inward q.outward t.tunnel_id key s i.inward_key j.outward_key ne)
                (tunnel_of_apart p.outward q.outward t.tunnel_id key s i.outward_key j.outward_key
                  ne))
              (is_active-removed t.tunnel_id p marked a b q.inward)
              (is_active-removed t.tunnel_id p marked a b q.outward)

    removed-fewer :
        (key : String) (q : SessionPair)
        → lookup key (removed t.tunnel_id p marked).sessions ≡ some q
        → lookup key s.sessions ≡ some q
    unfolding marked
    removed-fewer key q k = ground (
      arith,
      k,
      sessions-removed t.tunnel_id p marked a b,
      lookup-erase t.tunnel_id key s.sessions,
    )

  after_close-Keeps :
      (o : Option SessionPair)
      → lookup t.tunnel_id s.sessions ≡ o
      → Keeps id s (after_close t.tunnel_id o marked)
  unfolding marked
  after_close-Keeps none l = record {
    tidy = put-IsTidy (λ p k. absurd (not_there p (sym l ∙ k)));
    itself = is_active-put id t s h id ∙ rw (eq_refl id) refl;
    others = λ j ne. is_active-put id t s h j ∙ rw ne refl;
    fewer = λ key p k. k;
  }
    where
      not_there : (p : SessionPair) → ◌≡◌ {A = Option SessionPair} none (some p) → ⊥
      not_there p e = cc
  after_close-Keeps (some p) l =
      elim (Bool-cases (is_active p.inward marked || is_active p.outward marked)) [
        | inl a ↦ rw a (record {
          tidy = put-IsTidy (λ q k.
              subst
                (λ x.
                  (is_active (SessionPair.inward x) marked
                    || is_active (SessionPair.outward x) marked)
                  ≡ true)
                (same_pair p q (sym l ∙ k)) a);
          itself = is_active-put id t s h id ∙ rw (eq_refl id) refl;
          others = λ j ne. is_active-put id t s h j ∙ rw ne refl;
          fewer = λ key q k. k;
        })
        | inr a ↦ rw a (
            ends (first (is_active p.inward marked) (is_active p.outward marked) a)
              (second (is_active p.inward marked) (is_active p.outward marked) a))
      ]
    where
      first : (x y : Bool) → (x || y) ≡ false → x ≡ false
      first x y e = ground arith

      second : (x y : Bool) → (x || y) ≡ false → y ≡ false
      second x y e = ground arith

      ends :
          is_active p.inward marked ≡ false
          → is_active p.outward marked ≡ false
          → Keeps id s (removed t.tunnel_id p marked)
      ends a b = record {
        tidy = removed-IsTidy p l a b;
        itself =
            is_active-removed t.tunnel_id p marked a b id
            ∙ is_active-put id t s h id
            ∙ rw (eq_refl id) refl;
        others = λ j ne.
            is_active-removed t.tunnel_id p marked a b j ∙ is_active-put id t s h j ∙ rw ne refl;
        fewer = removed-fewer p l a b;
      }

still-Keeps : (id : String) (s : Service) → IsTidy s → is_active id s ≡ false → Keeps id s s
still-Keeps id s v e = record { tidy = v; itself = e; others = λ j ne. refl; fewer = λ key p k. k }

-- On a tidy table a close returns, whatever session is closed, if it has two units of fuel: nested
-- closes find sessions that are no longer active. The table stays tidy, so a pair leaves as soon as
-- neither of its sessions is active; the session is not active then; no other session changes its
-- state, and no entry is added.
pub close-Keeps :
    (n : ℕ) (id : String) (s : Service) → IsTidy s → Returns (Keeps id s) (close (suc (suc n)) id s)
unfolding marked
close-Keeps n id s v = elim (Option-cases (lookup id s.store)) [
  | inl h ↦ rw (close-still (suc n) id s (rw h refl)) (still-Keeps id s v (rw h refl))
  | inr (t, h) ↦ elim (Bool-cases t.active) [
    | inr a ↦ rw (close-still (suc n) id s (quiet t h a)) (still-Keeps id s v (quiet t h a))
    | inl a ↦
        rw (close-after n id t s v h a)
          (after_close-Keeps id t s v h (lookup t.tunnel_id s.sessions) refl)
  ]
]
  where
    quiet :
        (t : ServiceSession)
        → lookup id s.store ≡ some t
        → t.active ≡ false
        → is_active id s ≡ false
    quiet t h a = rw h a
