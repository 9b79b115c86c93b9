-- ===== src/Tunnel/Peek/Refused.antt =====
-- The read handler of `peek` where it refuses a connection: the session is closed.
use tunnel_drill.Prelude.{
  subst, ℕ, ◌+◌, ◌<◌, ◌≡◌, refl, sym, ap, ◌∙◌, true, false, List, Option, none, some, String,
  str_eq, eq_iff, arith, ◌≢◌, length, Bool-cases, Option-cases, ◌⊎◌, inl, inr, ◌==◌, ltb,
}
use tunnel_drill.Json.{at, get_string}
use tunnel_drill.Tunnel.{TunnelSession, Service, session, lockable}
use tunnel_drill.Tunnel.Close.Effect.{open_count}
use tunnel_drill.Tunnel.Peek.{
  PublisherToken, publisher_to_broker_prefix, starts_with, token_text, Read, received, modify,
  closing, buffer_of, on_token, on_publisher, on_bytes, on_peeked, on_peek, on_peek-fitted, fitted,
  cleared, side_of,
}
use tunnel_drill.Tunnel.Peek.Modify.{
  ClosesSession, closing-closes, session-modify, open_count-modify, closing-modify,
}

module _ (verify : List ℕ → Option PublisherToken) where
  -- Why a read is refused. `buffer` is the buffer with the bytes in it.
  pub data Refusal (r : Read) (buffer : List ℕ) (s : Service) : Type 0 where
    service_gone : s.alive ≡ false → Refusal r buffer s
    read_failed : r.error ≡ true → Refusal r buffer s
    control_gone : r.control ≡ none → Refusal r buffer s
    no_bytes : length r.bytes ≡ 0 → Refusal r buffer s
    not_verified :
        starts_with publisher_to_broker_prefix buffer ≡ true
        → verify (token_text (length r.bytes) buffer) ≡ none
        → Refusal r buffer s
    other_identity :
        (token : PublisherToken)
        → starts_with publisher_to_broker_prefix buffer ≡ true
        → verify (token_text (length r.bytes) buffer) ≡ some token
        → r.control ≢ some token.identity
        → Refusal r buffer s
    no_tunnel_id :
        (token : PublisherToken)
        → starts_with publisher_to_broker_prefix buffer ≡ true
        → verify (token_text (length r.bytes) buffer) ≡ some token
        → get_string (at "tunnelId" token.claims) ≡ none
        → Refusal r buffer s

  module _ (n : ℕ) (id : String) (t : TunnelSession) (s : Service) (h : open_count s.tunnels < n)
      (e : session id s ≡ some t) where
    on_token-refused :
        (control : String) (token : PublisherToken)
        → (token.identity ≢ control) ⊎ (get_string (at "tunnelId" token.claims) ≡ none)
        → ClosesSession id (on_token n id control token s)
    unfolding on_token
    on_token-refused control token (inl d) = elim (Bool-cases (str_eq token.identity control)) [
      | inl q ↦ absurd (d ((eq_iff token.identity control).0 q))
      | inr q ↦ rw q (closing-closes n id s h (rw e refl))
    ]
    on_token-refused control token (inr d) = elim (Bool-cases (str_eq token.identity control)) [
      | inl q ↦ rw (q, d) (closing-closes n id s h (rw e refl))
      | inr q ↦ rw q (closing-closes n id s h (rw e refl))
    ]

  -- The verdicts on the bytes that follow the prefix.
  abbrev BadToken : List ℕ → String → Type 0
  BadToken text control =
      (verify text ≡ none)
      ⊎ ((token : PublisherToken) × (verify text ≡ some token)
          × ((token.identity ≢ control) ⊎ (get_string (at "tunnelId" token.claims) ≡ none)))

  module _ (n : ℕ) (id : String) (t : TunnelSession) (s : Service) (h : open_count s.tunnels < n)
      (e : session id s ≡ some t) where
    on_publisher-refused :
        (control : String) (count : ℕ) (buffer : List ℕ)
        → BadToken (token_text count buffer) control
        → ClosesSession id (on_publisher verify n id control count buffer s)
    unfolding on_publisher
    on_publisher-refused control count buffer bad =
        elim (Bool-cases (ltb (length buffer) (length publisher_to_broker_prefix + 1))) [
          | inl q ↦ rw q (closing-closes n id s h (rw e refl))
          | inr q ↦ elim bad [
            | inl v ↦
                rw (q, v)
                  (closing-modify (cleared (side_of (session id s))) (λ _. refl) id t s e n h)
            | inr (token, v, d) ↦
                rw (q, v)
                  (on_token-refused n id (cleared true t) (modify (cleared true) id s)
                    (omega (arith, open_count-modify (cleared true) (λ _. refl) id t s e))
                    (session-modify (cleared true) (λ _. refl) id t s e) control token d)
          ]
        ]

    on_bytes-refused :
        (control : String) (count : ℕ)
        → (count ≡ 0)
          ⊎ ((starts_with publisher_to_broker_prefix (buffer_of (session id s)) ≡ true)
              × BadToken (token_text count (buffer_of (session id s))) control)
        → ClosesSession id (on_bytes verify n id control count s)
    unfolding on_bytes
    on_bytes-refused control count (inl z) = rw z (closing-closes n id s h (rw e refl))
    on_bytes-refused control count (inr (p, bad)) = elim (Bool-cases (count == 0)) [
      | inl z ↦ rw z (closing-closes n id s h (rw e refl))
      | inr z ↦ rw (z, p) (on_publisher-refused control count (buffer_of (session id s)) bad)
    ]

  refused_bytes :
      (r : Read) (buffer : List ℕ) (s : Service) (control : String)
      → r.control ≡ some control
      → s.alive ≡ true
      → r.error ≡ false
      → Refusal r buffer s
      → (length r.bytes ≡ 0)
        ⊎ ((starts_with publisher_to_broker_prefix buffer ≡ true)
            × BadToken (token_text (length r.bytes) buffer) control)
  refused_bytes r buffer s control c a x (service_gone q) = cc
  refused_bytes r buffer s control c a x (read_failed q) = cc
  refused_bytes r buffer s control c a x (control_gone q) = cc
  refused_bytes r buffer s control c a x (no_bytes q) = inl q
  refused_bytes r buffer s control c a x (not_verified p v) = inr (p, inl v)
  refused_bytes r buffer s control c a x (other_identity token p v d) =
      inr (p, inr (token, v, inl (λ q. d (c ∙ ap some (sym q)))))
  refused_bytes r buffer s control c a x (no_tunnel_id token p v d) = inr (p, inr (token, v, inr d))

  on_peeked-refused :
      (n : ℕ) (id : String) (r : Read) (t : TunnelSession) (s : Service)
      → open_count s.tunnels < n
      → lockable id s ≡ true
      → session id s ≡ some t
      → Refusal r (received r.bytes t).peek_buffer s
      → ClosesSession id (on_peeked verify n id r s)
  unfolding on_peeked
  on_peeked-refused n id r t s h l e why = elim (Bool-cases s.alive) [
    | inr a ↦ simp (l, a) closes
    | inl a ↦ elim (Bool-cases r.error) [
      | inl x ↦ simp (l, a, x) closes
      | inr x ↦ elim (Option-cases r.control) [
        | inl c ↦ simp (l, a, x, c) closes
        | inr (control, c) ↦ simp (l, a, x, c) (read control c a x)
      ]
    ]
  ]
    where
      s' : Service
      s' = modify (received r.bytes) id s

      at_id : session id s' ≡ some (received r.bytes t)
      at_id = session-modify (received r.bytes) (λ _. refl) id t s e

      closes : ClosesSession id (closing n id s')
      closes = closing-modify (received r.bytes) (λ _. refl) id t s e n h

      read :
          (control : String)
          → r.control ≡ some control
          → s.alive ≡ true
          → r.error ≡ false
          → ClosesSession id (on_bytes verify n id control (length r.bytes) s')
      read control c a x =
          on_bytes-refused n id (received r.bytes t) s'
            (omega (arith, open_count-modify (received r.bytes) (λ _. refl) id t s e)) at_id control
            (length r.bytes) (rw (ap buffer_of at_id) (refused_bytes r _ s control c a x why))

  -- With fuel for all open sessions, a read on a session that can be locked, of which no more is
  -- delivered than fits into the session's buffer, is refused for each of these reasons: the
  -- service is gone, the read failed, the control session is gone, nothing was read, the token
  -- behind the prefix is not verified, names another identity or carries no tunnel id. Then the
  -- handler returns, the session is closed, and no action is taken.
  pub on_peek-refused :
      (n : ℕ) (id : String) (r : Read) (t : TunnelSession) (s : Service)
      → open_count s.tunnels < n
      → lockable id s ≡ true
      → session id s ≡ some t
      → let r' = fitted (length t.peek_buffer) r in
        Refusal r' (received r'.bytes t).peek_buffer s → ClosesSession id (on_peek verify n id r s)
  on_peek-refused n id r t s h l e why =
      subst (ClosesSession id) (sym (on_peek-fitted verify n id r t s e))
        (on_peeked-refused n id (fitted (length t.peek_buffer) r) t s h l e why)
