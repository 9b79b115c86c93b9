-- ===== src/PublisherService/Close/Tidy.antt =====
-- The table of a service: each entry has two sessions of its tunnel, joined by a pipe in each
-- direction, and one of them is active. ServiceSession::close keeps it so, and returns.
use tunnel_drill.Prelude.{
  ℕ, suc, ◌≡◌, refl, sym, ap, ◌∙◌, Bool, true, false, ◌||◌, Option, none, some, String, str_eq,
  eq_iff, if◌then◌else◌, arith, Bool-cases, Option-cases, inl, inr, done,
}
use tunnel_drill.Prelude.Dict.{lookup, erase, lookup-insert}
use tunnel_drill.PublisherService.{ServiceSession, SessionPair, Service, is_active, put}
use tunnel_drill.PublisherService.Close.{hold_pair, on_close_pair, on_close, close_on, close, ended}
use tunnel_drill.PublisherService.Close.Removal.{
  IsPiped, dropped, removed, is_active-dropped, sessions-dropped, lookup-dropped, end_pair-still,
}

abbrev pub tunnel_id_of : Option ServiceSession → Option String
tunnel_id_of none = none
tunnel_id_of (some t) = some t.tunnel_id

-- The tunnel that a session was made for, if the session is there.
abbrev pub tunnel_of : String → Service → Option String
tunnel_of id s = tunnel_id_of (lookup id s.store)

pub record IsJoined (key : String) (p : SessionPair) (s : Service) : Type 0 where
  pub piped : IsPiped p
  pub inward_key : tunnel_of p.inward s ≡ some key
  pub outward_key : tunnel_of p.outward s ≡ some key
  pub alive : (is_active p.inward s || is_active p.outward s) ≡ true

pub record IsTidy (s : Service) : Type 0 where
  pub joined : (key : String) (p : SessionPair) → lookup key s.sessions ≡ some p → IsJoined key p s

-- Sessions of different tunnels are different.
pub tunnel_of_apart :
    (a b key other : String) (s : Service)
    → tunnel_of a s ≡ some key
    → tunnel_of b s ≡ some other
    → str_eq key other ≡ false
    → str_eq a b ≡ false
tunnel_of_apart a b key other s h k ne = elim (Bool-cases (str_eq a b)) [
  | inr e ↦ e
  | inl e ↦
      let same : ◌≡◌ {A = Option String} (some key) (some other) =
        sym h ∙ ap (λ x. tunnel_of x s) ((eq_iff a b).0 e) ∙ k in
      absurd (not_both (sym ((eq_iff key other).1 (cc)) ∙ ne))
]
  where
    not_both : ◌≡◌ {A = Bool} true false → ⊥
    not_both h = cc

pub close-still :
    (n : ℕ) (id : String) (s : Service) → is_active id s ≡ false → close (suc n) id s ≡ done s
unfolding close
close-still n id s e = elim (Option-cases (lookup id s.store)) [
  | inl h ↦ rw (h, close_on) refl
  | inr (t, h) ↦ rw (h, close_on, rw h at e) refl
]

-- What the callback leaves.
abbrev pub after_close : String → Option SessionPair → Service → Service
after_close key none s = s
after_close key (some p) s =
    if is_active p.inward s || is_active p.outward s then s else removed key p s

module _ (n : ℕ) (key : String) (s : Service) where
  on_close-after :
      ((p : SessionPair) → lookup key s.sessions ≡ some p → IsPiped p)
      → on_close (close (suc n)) key s ≡ done (after_close key (lookup key s.sessions) s)
  unfolding on_close
  on_close-after piped = elim (Option-cases (lookup key s.sessions)) [
    | inl h ↦ rw (h, on_close_pair) refl
    | inr (p, h) ↦ elim (Bool-cases (is_active p.inward s)) [
      | inl a ↦ rw (h, on_close_pair, a) refl
      | inr a ↦ elim (Bool-cases (is_active p.outward s)) [
        | inl b ↦ rw (h, on_close_pair, a, b) refl
        | inr b ↦
            rw (h, on_close_pair, a, b)
              (end_pair-still (close (suc n)) (close-still n) p (piped p h) key s h a b)
      ]
    ]
  ]

close-suc :
    (n : ℕ) (id : String) (s : Service)
    → close (suc n) id s ≡ close_on (close n) id (lookup id s.store) s
unfolding close
close-suc n id s = refl

pub close-after :
    (n : ℕ) (id : String) (t : ServiceSession) (s : Service)
    → IsTidy s
    → lookup id s.store ≡ some t
    → t.active ≡ true
    → close (suc (suc n)) id s
      ≡ done (after_close t.tunnel_id (lookup t.tunnel_id s.sessions) (put id (ended t) s))
unfolding close_on on_close
close-after n id t s v h a =
    close-suc (suc n) id s
    ∙ rw (h, a)
        (on_close-after n t.tunnel_id (put id (ended t) s)
          (λ p l. (v.joined t.tunnel_id p l).piped))

-- The write that ends a session.
module _ (id : String) (t : ServiceSession) (s : Service) (h : lookup id s.store ≡ some t) where
  pub is_active-put :
      (j : String)
      → is_active j (put id (ended t) s) ≡ (if str_eq id j then false else is_active j s)
  is_active-put j = ground (arith, lookup-insert id j (ended t) s.store)

  pub tunnel_of-put : (j : String) → tunnel_of j (put id (ended t) s) ≡ tunnel_of j s
  tunnel_of-put j = ground (arith, lookup-insert id j (ended t) s.store, eq_iff id j)

pub IsJoined-transfer :
    (key : String) (p : SessionPair) (s s' : Service)
    → IsJoined key p s
    → tunnel_of p.inward s' ≡ tunnel_of p.inward s
    → tunnel_of p.outward s' ≡ tunnel_of p.outward s
    → is_active p.inward s' ≡ is_active p.inward s
    → is_active p.outward s' ≡ is_active p.outward s
    → IsJoined key p s'
IsJoined-transfer key p s s' v a b c d = record {
  piped = v.piped;
  inward_key = a ∙ v.inward_key;
  outward_key = b ∙ v.outward_key;
  alive = rw (c, d) v.alive;
}

-- A pair whose sessions are both not active leaves; the others stay joined.
module _ (key : String) (p : SessionPair) (s : Service) (a : is_active p.inward s ≡ false)
    (b : is_active p.outward s ≡ false) where
  abbrev pub unlisted : Service
  unlisted = hold_pair p (record s { sessions = erase key s.sessions })

  pub is_active-removed : (j : String) → is_active j (removed key p s) ≡ is_active j s
  is_active-removed j =
      is_active-dropped p.inward j (dropped p.outward unlisted)
        (is_active-dropped p.outward p.inward unlisted b ∙ a)
      ∙ is_active-dropped p.outward j unlisted b

  pub tunnel_of-removed :
      (j : String)
      → str_eq p.inward j ≡ false
      → str_eq p.outward j ≡ false
      → tunnel_of j (removed key p s) ≡ tunnel_of j s
  tunnel_of-removed j x y = ap tunnel_id_of (
      lookup-dropped p.inward j (dropped p.outward unlisted) x
      ∙ lookup-dropped p.outward j unlisted y)

  pub sessions-removed : (removed key p s).sessions ≡ erase key s.sessions
  sessions-removed =
      sessions-dropped p.inward (dropped p.outward unlisted) ∙ sessions-dropped p.outward unlisted
