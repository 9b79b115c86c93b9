-- ===== src/Tunnel/Peek/Kept.antt =====
-- What the read handler and the inactivity timer keep, on every branch.
use tunnel_drill.Prelude.{
  IfDone-bind, Returns-IfDone, ℕ, ◌+◌, ◌<◌, ◌≡◌, refl, Bool, true, false, List, Option, String,
  str_eq, Bool-cases, Option-cases, inl, inr, length, ◌==◌, Returns, Returns-bind, ◌||◌, ltb, arith,
}
use tunnel_drill.Json.{at, get_string}
use tunnel_drill.Tunnel.{TunnelSession, Service, session, lockable}
use tunnel_drill.Tunnel.Close.{cancelled}
use tunnel_drill.Tunnel.Close.Effect.{open_count}
use tunnel_drill.Tunnel.Close.Kept.{
  after-Kept, IsWell, Kept, Kept-refl, close-Kept, put-Kept, bound-Kept,
}
use tunnel_drill.Tunnel.Link.Kept.{KeptStep, KeptOf, after-KeptStep, connect_tunnels-Kept}
use tunnel_drill.Tunnel.Peek.{
  PublisherToken, publisher_to_broker_prefix, starts_with, token_text, Wake, aborted, failed,
  reached, rearmed, closing, modify, reset_timer, set_timer, peek, on_timer, Read, received,
  closing, cleared, as_client, buffer_of, side_of, on_client, on_token, on_publisher, on_bytes,
  on_peek, on_peeked, fitted,
}

-- A write to a session, if it is there.
modify-Kept :
    (f : TunnelSession → TunnelSession) (id : String) (s : Service)
    → ((t : TunnelSession) → (f t).was_closed ≡ t.was_closed)
    → ((t : TunnelSession) → IsWell id t → IsWell id (f t))
    → Kept s (modify f id s)
modify-Kept f id s c w = elim (Option-cases (session id s)) [
  | inl e ↦ rw (modify, e) (Kept-refl s)
  | inr (t, e) ↦ rw (modify, e) (put-Kept id t (f t) s e (c t) (w t))
]

-- Writes to the buffer and to the side leave the rest of the record alone.
buffer-Kept : (bytes : List ℕ) (id : String) (s : Service) → Kept s (modify (received bytes) id s)
buffer-Kept bytes id s =
    modify-Kept (received bytes) id s (λ t. refl)
      (λ t w. record { released = w.released; own_pipe = w.own_pipe })

cleared-Kept : (side : Bool) (id : String) (s : Service) → Kept s (modify (cleared side) id s)
cleared-Kept side id s =
    modify-Kept (cleared side) id s (λ t. refl)
      (λ t w. record { released = w.released; own_pipe = w.own_pipe })

pub cancel-Kept : (id : String) (s : Service) → Kept s (modify cancelled id s)
cancel-Kept id s =
    modify-Kept cancelled id s (λ t. refl)
      (λ t w. record { released = λ c. ((w.released c).0, refl); own_pipe = w.own_pipe })

rearmed-was_closed : (t : TunnelSession) → (rearmed t).was_closed ≡ t.was_closed
rearmed-was_closed t = ground arith

rearmed-IsWell : (id : String) (t : TunnelSession) → IsWell id t → IsWell id (rearmed t)
rearmed-IsWell id t w = elim (Bool-cases t.was_closed) [
  | inl c ↦ simp (rearmed, c) w
  | inr o ↦ elim (Bool-cases t.timer_was_cancelled) [
    | inl k ↦ simp (rearmed, o, k) w
    | inr k ↦ simp (rearmed, o, k) (record { released = λ c. absurd (no c); own_pipe = w.own_pipe })
  ]
]
  where
    no : false ≡ true → ⊥
    no c = cc

pub reset_timer-Kept : (id : String) (s : Service) → Kept s (reset_timer id s)
unfolding reset_timer
reset_timer-Kept id s = modify-Kept rearmed id s rearmed-was_closed (rearmed-IsWell id)

module _ (n : ℕ) (id : String) (s : Service) (h : open_count s.tunnels < n) where
  pub on_timer-Kept : (w : Wake) → Returns (Kept s) (on_timer n id w s)
  unfolding on_timer
  on_timer-Kept aborted = Kept-refl s
  on_timer-Kept failed = elim (Bool-cases (lockable id s)) [
    | inl l ↦ rw l (close-Kept n id s h)
    | inr l ↦ rw l (Kept-refl s)
  ]
  on_timer-Kept (reached false) = elim (Bool-cases (lockable id s)) [
    | inl l ↦ rw l (Kept-refl s)
    | inr l ↦ rw l (Kept-refl s)
  ]
  on_timer-Kept (reached true) = elim (Bool-cases (lockable id s)) [
    | inl l ↦ rw l (close-Kept n id s h)
    | inr l ↦ rw l (Kept-refl s)
  ]

  pub set_timer-Kept : (throws : Bool) → Returns (Kept s) (set_timer n throws id s)
  unfolding set_timer
  set_timer-Kept false = reset_timer-Kept id s
  set_timer-Kept true = elim (Option-cases (session id s)) [
    | inl e ↦ rw (set_timer, e) (Kept-refl s)
    | inr (t, e) ↦ elim (Bool-cases (t.was_closed || t.timer_was_cancelled)) [
      | inl c ↦ rw (set_timer, e, c) (Kept-refl s)
      | inr c ↦ rw (set_timer, e, c) (close-Kept n id s h)
    ]
  ]

  pub peek-Kept :
      (timer_throws read_throws : Bool) → Returns (Kept s) (peek n timer_throws read_throws id s)
  unfolding peek
  peek-Kept timer_throws read_throws =
      Returns-bind (Kept s) (Kept s) _ _ (set_timer-Kept timer_throws) λ s' k.
        elim (Bool-cases read_throws) [
          | inl r ↦ rw r (after-Kept k _ (close-Kept n id s' (bound-Kept k n h)))
          | inr r ↦ rw r k
        ]

  closing-Kept : KeptStep s (closing n id s)
  closing-Kept =
      IfDone-bind (Kept s) (KeptOf s) _ _ (Returns-IfDone (Kept s) _ (close-Kept n id s h))
        (λ s' k. k)

  on_client-Kept : (count : ℕ) → KeptStep s (on_client count id s)
  unfolding on_client
  on_client-Kept count =
      modify-Kept (as_client count) id s (λ t. refl)
        (λ t w. record { released = w.released; own_pipe = w.own_pipe })

  on_token-Kept :
      (control : String) (token : PublisherToken) → KeptStep s (on_token n id control token s)
  unfolding on_token
  on_token-Kept control token = elim (Bool-cases (str_eq token.identity control)) [
    | inr i ↦ rw i closing-Kept
    | inl i ↦ elim (Option-cases (get_string (at "tunnelId" token.claims))) [
      | inl c ↦ rw (i, c) closing-Kept
      | inr (client, c) ↦ rw (i, c) (connect_tunnels-Kept n client id s h)
    ]
  ]

module _ (verify : List ℕ → Option PublisherToken) (n : ℕ) (id : String) where
  on_publisher-Kept :
      (control : String) (count : ℕ) (buffer : List ℕ) (s : Service)
      → open_count s.tunnels < n
      → KeptStep s (on_publisher verify n id control count buffer s)
  unfolding on_publisher
  on_publisher-Kept control count buffer s h =
      elim (Bool-cases (ltb (length buffer) (length publisher_to_broker_prefix + 1))) [
        | inl q ↦ rw q (closing-Kept n id s h)
        | inr q ↦ elim (Option-cases (verify (token_text count buffer))) [
          | inl v ↦
              rw (q, v)
                (let k : Kept s (modify (cleared (side_of (session id s))) id s) =
                    cleared-Kept (side_of (session id s)) id s in
                  after-KeptStep k _ (closing-Kept n id _ (bound-Kept k n h)))
          | inr (token, v) ↦
              rw (q, v)
                (let k : Kept s (modify (cleared true) id s) = cleared-Kept true id s in
                  after-KeptStep k _ (on_token-Kept n id _ (bound-Kept k n h) control token))
        ]
      ]

  on_bytes-Kept :
      (control : String) (count : ℕ) (s : Service)
      → open_count s.tunnels < n
      → KeptStep s (on_bytes verify n id control count s)
  unfolding on_bytes
  on_bytes-Kept control count s h = elim (Bool-cases (count == 0)) [
    | inl z ↦ rw z (closing-Kept n id s h)
    | inr z ↦
        elim (Bool-cases (starts_with publisher_to_broker_prefix (buffer_of (session id s)))) [
          | inl p ↦ rw (z, p) (on_publisher-Kept control count _ s h)
          | inr p ↦ rw (z, p) (on_client-Kept n id s h count)
        ]
  ]

  on_peeked-Kept :
      (r : Read) (s : Service) → open_count s.tunnels < n → KeptStep s (on_peeked verify n id r s)
  unfolding on_peeked
  on_peeked-Kept r s h = elim (Bool-cases (lockable id s)) [
    | inr l ↦ simp l (Kept-refl s)
    | inl l ↦ elim (Bool-cases s.alive) [
      | inr a ↦ simp (l, a) closes
      | inl a ↦ elim (Bool-cases r.error) [
        | inl x ↦ simp (l, a, x) closes
        | inr x ↦ elim (Option-cases r.control) [
          | inl c ↦ simp (l, a, x, c) closes
          | inr (control, c) ↦
              simp (l, a, x, c)
                (after-KeptStep k _ (on_bytes-Kept control (length r.bytes) _ (bound-Kept k n h)))
        ]
      ]
    ]
  ]
    where
      k : Kept s (modify (received r.bytes) id s)
      k = buffer-Kept r.bytes id s

      closes : KeptStep s (closing n id (modify (received r.bytes) id s))
      closes = after-KeptStep k _ (closing-Kept n id _ (bound-Kept k n h))

  pub on_peek-Kept :
      (r : Read) (s : Service) → open_count s.tunnels < n → KeptStep s (on_peek verify n id r s)
  unfolding on_peek
  on_peek-Kept r s h = on_peeked-Kept (fitted (length (buffer_of (session id s))) r) s h
