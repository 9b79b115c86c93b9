-- ===== src/PublisherService/Create/Connects.antt =====
-- A tunnel that comes up on the publisher's side.
use tunnel_drill.Prelude.{
  ℕ, ◌≡◌, refl, sym, ap, ◌∙◌, true, false, ◌||◌, List, Option, none, some, String, str_eq, eq_iff,
  eq_refl, if◌then◌else◌, arith, Bool-cases, Option-cases, inl, inr, done, Returns, subst,
}
use tunnel_drill.Prelude.Dict.{lookup, insert, lookup-insert}
use tunnel_drill.PublisherService.{SessionPair, Service, in_pairs, is_active, put, pipe}
use tunnel_drill.PublisherService.Close.{close}
use tunnel_drill.PublisherService.Close.Removal.{unheld, drop_pipe-none, drop_session-lockable}
use tunnel_drill.PublisherService.Close.Tidy.{
  IsTidy, IsJoined, tunnel_of, tunnel_id_of, IsJoined-transfer,
}
use tunnel_drill.PublisherService.Close.Keeps.{same_pair}
use tunnel_drill.PublisherService.Close.Ends.{lookup-in_pairs}
use tunnel_drill.PublisherService.Create.{
  opened, new_session, hold, prefixed, session_over, create_session, reset_timer, emplaced,
  set_pair, assign_inward, assign_outward, connect_pipes, on_inwards, written_over,
  on_token_written, Network,
}

-- The first half: the session waits for its write, which is the prefix, a colon and the token.
pub session_over-opened :
    (token : List ℕ) (tunnel_id id : String) (s : Service)
    → session_over token tunnel_id (opened id) s
      ≡ done (
        some (record { session = id; bytes = prefixed token }),
        hold id (put id (new_session tunnel_id) s),
      )
unfolding session_over
session_over-opened token tunnel_id id s = refl

-- The connection to the broker, on the service's public port.
pub create_session-opened :
    (token : List ℕ) (tunnel_id host id : String) (net : Network) (s : Service)
    → net host s.settings.public_port ≡ opened id
    → create_session token tunnel_id host net s
      ≡ done (
        some (record { session = id; bytes = prefixed token }),
        hold id (put id (new_session tunnel_id) s),
      )
unfolding create_session
create_session-opened token tunnel_id host id net s e =
    ap (λ c. session_over token tunnel_id c s) e ∙ session_over-opened token tunnel_id id s

-- The timer is all that `resetTimer` changes.
module _ (id : String) (s : Service) where
  pub sessions-reset_timer : (reset_timer id s).sessions ≡ s.sessions
  unfolding reset_timer
  sessions-reset_timer = ground arith

  held-reset_timer : (reset_timer id s).held ≡ s.held
  unfolding reset_timer
  held-reset_timer = ground arith

  pub is_active-reset_timer : (j : String) → is_active j (reset_timer id s) ≡ is_active j s
  unfolding reset_timer
  is_active-reset_timer j = elim (Option-cases (lookup id s.store)) [
    | inl h ↦ rw h refl
    | inr (t, h) ↦
        rw h (
          ground (arith, lookup-insert id j (record t { timer_armed = true }) s.store, eq_iff id j))
  ]

  pub tunnel_of-reset_timer : (j : String) → tunnel_of j (reset_timer id s) ≡ tunnel_of j s
  unfolding reset_timer
  tunnel_of-reset_timer j = elim (Option-cases (lookup id s.store)) [
    | inl h ↦ rw h refl
    | inr (t, h) ↦
        rw h (
          ground (arith, lookup-insert id j (record t { timer_armed = true }) s.store, eq_iff id j))
  ]

abbrev pub joined_pair : String → String → SessionPair
joined_pair inwards outwards = record {
  inward = inwards;
  outward = outwards;
  inward_pipe = some (pipe inwards outwards);
  outward_pipe = some (pipe outwards inwards);
}

lookup-insert_self :
    (k : String) (p : SessionPair) (l : List (String × SessionPair))
    → lookup k (insert k p l) ≡ some p
lookup-insert_self k p l = lookup-insert k k p l ∙ rw (eq_refl k) refl

lookup-insert_other :
    (k key : String) (p : SessionPair) (l : List (String × SessionPair))
    → str_eq k key ≡ false
    → lookup key (insert k p l) ≡ lookup key l
lookup-insert_other k key p l h = lookup-insert k key p l ∙ rw h refl

module _ (n : ℕ) (tunnel_id i o : String) (s : Service) where
  -- The table with the first, the second and the third write to the entry.
  abbrev begun : Service
  begun = emplaced none tunnel_id i o s

  abbrev half : Service
  half =
      set_pair tunnel_id
        (record { inward = i; outward = o; inward_pipe = some (pipe i o); outward_pipe = none })
        (reset_timer i begun)

  abbrev pub whole : Service
  whole = set_pair tunnel_id (joined_pair i o) (reset_timer o half)

  connect_pipes-whole :
      lookup tunnel_id s.sessions ≡ none → connect_pipes n tunnel_id i o s ≡ done whole
  unfolding connect_pipes
  connect_pipes-whole e =
      rw
        (
          e,
          lookup-insert_self tunnel_id
              (record { inward = i; outward = o; inward_pipe = none; outward_pipe = none })
              s.sessions,
          assign_inward,
          drop_pipe-none (close n) half,
          lookup-insert_self tunnel_id
              (record {
                inward = i;
                outward = o;
                inward_pipe = some (pipe i o);
                outward_pipe = none;
              })
              (reset_timer i begun).sessions,
          assign_outward,
        )
        (drop_pipe-none (close n) whole)

  is_active-whole : (j : String) → is_active j whole ≡ is_active j s
  is_active-whole j = is_active-reset_timer o half j ∙ is_active-reset_timer i begun j

  tunnel_of-whole : (j : String) → tunnel_of j whole ≡ tunnel_of j s
  tunnel_of-whole j = tunnel_of-reset_timer o half j ∙ tunnel_of-reset_timer i begun j

  held-whole : whole.held ≡ s.held
  held-whole = held-reset_timer o half ∙ held-reset_timer i begun

  lookup-whole_other :
      (key : String)
      → str_eq tunnel_id key ≡ false
      → lookup key whole.sessions ≡ lookup key s.sessions
  lookup-whole_other key h =
      lookup-insert_other tunnel_id key (joined_pair i o) (reset_timer o half).sessions h
      ∙ ap (lookup key) (sessions-reset_timer o half)
      ∙ lookup-insert_other tunnel_id key
          (record { inward = i; outward = o; inward_pipe = some (pipe i o); outward_pipe = none })
          (reset_timer i begun).sessions h
      ∙ ap (lookup key) (sessions-reset_timer i begun)
      ∙ lookup-insert_other tunnel_id key
          (record { inward = i; outward = o; inward_pipe = none; outward_pipe = none }) s.sessions h

  lookup-whole :
      (key : String)
      → lookup key whole.sessions
        ≡ (if str_eq tunnel_id key then some (joined_pair i o) else lookup key s.sessions)
  lookup-whole key = elim (Bool-cases (str_eq tunnel_id key)) [
    | inl h ↦ lookup-insert tunnel_id key _ _ ∙ rw h refl
    | inr h ↦ rw h (lookup-whole_other key h)
  ]

-- What a tunnel that came up is to look like.
pub record IsUp (tunnel_id i o : String) (s s' : Service) : Type 0 where
  pub tidy : IsTidy s'
  pub listed : lookup tunnel_id s'.sessions ≡ some (joined_pair i o)
  pub inward_active : is_active i s' ≡ true
  pub outward_active : is_active o s ≡ true → is_active o s' ≡ true
  pub others : (j : String) → str_eq i j ≡ false → is_active j s' ≡ is_active j s
  pub entries :
      (key : String) → str_eq tunnel_id key ≡ false → lookup key s'.sessions ≡ lookup key s.sessions

module _ (n : ℕ) (tunnel_id i o : String) (s : Service) (v : IsTidy s)
    (e : lookup tunnel_id s.sessions ≡ none) (made : tunnel_of o s ≡ some tunnel_id)
    (fresh : lookup i s.store ≡ none) where
  abbrev pub ready : Service
  ready = hold i (put i (new_session tunnel_id) s)

  is_active-ready : (j : String) → is_active j ready ≡ (if str_eq i j then true else is_active j s)
  is_active-ready j = ground (arith, lookup-insert i j (new_session tunnel_id) s.store)

  tunnel_of-ready :
      (j : String) → tunnel_of j ready ≡ (if str_eq i j then some tunnel_id else tunnel_of j s)
  tunnel_of-ready j = ground (arith, lookup-insert i j (new_session tunnel_id) s.store)

  -- A session that is there is not the new one.
  known_apart : (j key : String) → tunnel_of j s ≡ some key → str_eq i j ≡ false
  known_apart j key h = elim (Bool-cases (str_eq i j)) [
    | inr ne ↦ ne
    | inl q ↦
        absurd
          (not_there (sym (ap tunnel_id_of fresh) ∙ ap (λ x. tunnel_of x s) ((eq_iff i j).0 q) ∙ h))
  ]
    where
      not_there : ◌≡◌ {A = Option String} none (some key) → ⊥
      not_there k = cc

  pub up : Service
  up = unheld o (unheld i (whole n tunnel_id i o ready))

  up-IsUp : IsUp tunnel_id i o s up
  unfolding up
  up-IsUp = record {
    tidy = record {
      joined = λ key q l. elim (Bool-cases (str_eq tunnel_id key)) [
        | inl h ↦ mine key q ((eq_iff tunnel_id key).0 h) (
            same_pair (joined_pair i o) q
              (sym (lookup-whole n tunnel_id i o ready key ∙ rw h refl) ∙ l))
        | inr h ↦ other key q (sym (lookup-whole n tunnel_id i o ready key ∙ rw h refl) ∙ l)
      ];
    };
    listed = lookup-whole n tunnel_id i o ready tunnel_id ∙ rw (eq_refl tunnel_id) refl;
    inward_active = active_of_i;
    outward_active = λ a.
        is_active-whole n tunnel_id i o ready o
        ∙ is_active-ready o
        ∙ rw (known_apart o tunnel_id made) a;
    others = λ j ne. is_active-whole n tunnel_id i o ready j ∙ is_active-ready j ∙ rw ne refl;
    entries = λ key ne. lookup-whole n tunnel_id i o ready key ∙ rw ne refl;
  }
    where
      outward_of : tunnel_of o up ≡ some tunnel_id
      outward_of =
          tunnel_of-whole n tunnel_id i o ready o ∙ tunnel_of-ready o ∙ ground (arith, made)

      inward_of : tunnel_of i up ≡ some tunnel_id
      inward_of = tunnel_of-whole n tunnel_id i o ready i ∙ tunnel_of-ready i ∙ rw (eq_refl i) refl

      active_of_i : is_active i up ≡ true
      active_of_i =
          is_active-whole n tunnel_id i o ready i ∙ is_active-ready i ∙ rw (eq_refl i) refl

      alive_of : (is_active i up || is_active o up) ≡ true
      alive_of = rw active_of_i refl

      own : IsJoined tunnel_id (joined_pair i o) up
      own = record {
        piped = record { inward_joined = refl; outward_joined = refl };
        inward_key = inward_of;
        outward_key = outward_of;
        alive = alive_of;
      }

      mine :
          (key : String) (q : SessionPair)
          → tunnel_id ≡ key
          → joined_pair i o ≡ q
          → IsJoined key q up
      mine key q e f = subst (λ x. IsJoined x q up) e (subst (λ x. IsJoined tunnel_id x up) f own)

      other : (key : String) (q : SessionPair) → lookup key s.sessions ≡ some q → IsJoined key q up
      other key q l =
          let j : IsJoined key q s = v.joined key q l in
          IsJoined-transfer key q s up j
            (tunnel_of-whole n tunnel_id i o ready q.inward
              ∙ tunnel_of-ready q.inward
              ∙ rw (known_apart q.inward key j.inward_key) refl)
            (tunnel_of-whole n tunnel_id i o ready q.outward
              ∙ tunnel_of-ready q.outward
              ∙ rw (known_apart q.outward key j.outward_key) refl)
            (is_active-whole n tunnel_id i o ready q.inward
              ∙ is_active-ready q.inward
              ∙ rw (known_apart q.inward key j.inward_key) refl)
            (is_active-whole n tunnel_id i o ready q.outward
              ∙ is_active-ready q.outward
              ∙ rw (known_apart q.outward key j.outward_key) refl)

  pub written_over-up : written_over n false (opened i) tunnel_id o s ≡ done up
  unfolding written_over up
  written_over-up =
      rw
        (
          on_inwards,
          connect_pipes-whole n tunnel_id i o ready e,
          drop_session-lockable (close n) i (whole n tunnel_id i o ready) (rw locked.0 refl),
        )
        (drop_session-lockable (close n) o (unheld i (whole n tunnel_id i o ready))
          (rw locked.1 refl))
    where
      locked :
          (in_pairs i (whole n tunnel_id i o ready).sessions ≡ true)
          × (in_pairs o (whole n tunnel_id i o ready).sessions ≡ true)
      locked =
          lookup-in_pairs tunnel_id (joined_pair i o) _
            (lookup-whole n tunnel_id i o ready tunnel_id ∙ rw (eq_refl tunnel_id) refl)

  pub written_over-IsUp :
      Returns (IsUp tunnel_id i o s) (written_over n false (opened i) tunnel_id o s)
  written_over-IsUp = rw written_over-up up-IsUp

  -- On a tidy table, with no entry for the tunnel, let `o` be the session that `createSession` made
  -- for it, and `i` an id that no session has. If the token is written and the connection to the
  -- service's hidden host and hidden port is made, with `i` for its session, then the write handler
  -- returns, and the tunnel is up: its entry joins `i` and `o` by a pipe in each direction, the
  -- table is tidy, `i` is active, `o` is active if it was, no other session than `i` changes its
  -- activity and the other entries are as they were.
  pub on_token_written-IsUp :
      (net : Network)
      → net s.settings.hidden_host s.settings.hidden_port ≡ opened i
      → Returns (IsUp tunnel_id i o s) (on_token_written n false net tunnel_id o s)
  unfolding on_token_written
  on_token_written-IsUp net reached =
      subst (λ c. Returns (IsUp tunnel_id i o s) (written_over n false c tunnel_id o s))
        (sym reached) written_over-IsUp
