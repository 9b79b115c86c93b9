-- ===== src/Tunnel/Peek/Authentic.antt =====
-- The read handler of `peek`: who is joined to a subscriber.
use tunnel_drill.Prelude.{
  ℕ, ◌+◌, ◌≡◌, sym, ap, ◌∙◌, Bool, true, false, List, [], ◌∷◌, Option, some, String, str_eq, eq_iff,
  Outcome, done, ◌>>=◌, length, Bool-cases, Option-cases, inl, inr, ◌==◌, ltb,
}
use tunnel_drill.Tunnel.{Service, session, lockable}
use tunnel_drill.Tunnel.Close.{close}
use tunnel_drill.Tunnel.Link.{Action, write_initial, start_pipe, inform, Step}
use tunnel_drill.Tunnel.Peek.{
  PublisherToken, publisher_to_broker_prefix, starts_with, token_text, Read, received, modify,
  closing, buffer_of, on_client, on_token, on_publisher, on_bytes, on_peeked, on_peek, fitted,
}

-- Whether an action joins the session to another.
abbrev pub links : List Action → Bool
links [] = false
links (write_initial a b c ∷ as') = true
links (start_pipe a b ∷ as') = true
links (inform a b ∷ as') = links as'

abbrev pub Linking : Step → Type 0
Linking (done (s, acts)) = links acts ≡ true
Linking _ = ⊥

closing-not-Linking : (n : ℕ) (id : String) (s : Service) → ¬ Linking (closing n id s)
closing-not-Linking n id s = go (close n id s)
  where
    go : (m : Outcome Service) → ¬ Linking (m >>= λ s'. done (s', []))
    go (done s') h = cc
    go Outcome.out_of_fuel h = h
    go Outcome.undefined h = h
    go Outcome.thrown h = h

-- Who may be joined to a subscriber's session.
pub record IsAuthentic (verify : List ℕ → Option PublisherToken) (r : Read) (buffer : List ℕ)
    : Type 0 where
  pub token : PublisherToken
  pub prefixed : starts_with publisher_to_broker_prefix buffer ≡ true
  pub verified : verify (token_text (length r.bytes) buffer) ≡ some token
  pub same_identity : r.control ≡ some token.identity

module _ (verify : List ℕ → Option PublisherToken) where
  on_token-Linking :
      (n : ℕ) (id control : String) (token : PublisherToken) (s : Service)
      → Linking (on_token n id control token s)
      → token.identity ≡ control
  unfolding on_token
  on_token-Linking n id control token s h = elim (Bool-cases (str_eq token.identity control)) [
    | inl e ↦ (eq_iff token.identity control).0 e
    | inr e ↦ absurd (closing-not-Linking n id s (rw e at h))
  ]

  -- The part of `IsAuthentic` that stands behind the prefix.
  record Verified (count : ℕ) (control : String) (buffer : List ℕ) : Type 0 where
    token : PublisherToken
    verified : verify (token_text count buffer) ≡ some token
    same_identity : token.identity ≡ control

  on_publisher-Linking :
      (n : ℕ) (id control : String) (count : ℕ) (buffer : List ℕ) (s : Service)
      → Linking (on_publisher verify n id control count buffer s)
      → Verified count control buffer
  unfolding on_publisher
  on_publisher-Linking n id control count buffer s h =
      elim (Bool-cases (ltb (length buffer) (length publisher_to_broker_prefix + 1))) [
        | inl e ↦ absurd (closing-not-Linking n id s (rw e at h))
        | inr e ↦ elim (Option-cases (verify (token_text count buffer))) [
          | inl v ↦ absurd (closing-not-Linking n id _ (rw (e, v) at h))
          | inr (token, v) ↦ record {
            token = token;
            verified = v;
            same_identity = on_token-Linking n id control token _ (rw (e, v) at h);
          }
        ]
      ]

  on_client-not-Linking : (count : ℕ) (id : String) (s : Service) → ¬ Linking (on_client count id s)
  unfolding on_client
  on_client-not-Linking count id s h = cc

  on_bytes-Linking :
      (n : ℕ) (id control : String) (r : Read) (s : Service)
      → r.control ≡ some control
      → Linking (on_bytes verify n id control (length r.bytes) s)
      → IsAuthentic verify r (buffer_of (session id s))
  unfolding on_bytes
  on_bytes-Linking n id control r s e h = elim (Bool-cases (length r.bytes == 0)) [
    | inl z ↦ absurd (closing-not-Linking n id s (rw z at h))
    | inr z ↦
        elim (Bool-cases (starts_with publisher_to_broker_prefix (buffer_of (session id s)))) [
          | inl p ↦
              let v : Verified (length r.bytes) control (buffer_of (session id s)) =
                on_publisher-Linking n id control (length r.bytes) (buffer_of (session id s)) s
                  (rw (z, p) at h) in
              record {
                token = v.token;
                prefixed = p;
                verified = v.verified;
                same_identity = e ∙ ap some (sym v.same_identity);
              }
          | inr p ↦ absurd (on_client-not-Linking (length r.bytes) id s (rw (z, p) at h))
        ]
  ]

  on_peeked-IsAuthentic :
      (n : ℕ) (id : String) (r : Read) (s : Service)
      → Linking (on_peeked verify n id r s)
      → IsAuthentic verify r (buffer_of (session id (modify (received r.bytes) id s)))
  unfolding on_peeked
  on_peeked-IsAuthentic n id r s h = elim (Bool-cases (lockable id s)) [
    | inr l ↦ absurd (silent (rw l at h))
    | inl l ↦ elim (Bool-cases s.alive) [
      | inr a ↦ absurd (closing-not-Linking n id _ (rw (l, a) at h))
      | inl a ↦ elim (Bool-cases r.error) [
        | inl x ↦ absurd (closing-not-Linking n id _ (rw (l, a, x) at h))
        | inr x ↦ elim (Option-cases r.control) [
          | inl c ↦ absurd (closing-not-Linking n id _ (rw (l, a, x, c) at h))
          | inr (control, c) ↦ on_bytes-Linking n id control r _ c (rw (l, a, x, c) at h)
        ]
      ]
    ]
  ]
    where
      silent : ¬ Linking (done (s, []))
      silent k = cc

  -- Two sessions are joined by the read handler only if the bytes that fit into the buffer begin
  -- with the publisher's prefix, what follows is verified as a token, and the token's identity is
  -- that of the control session.
  pub on_peek-IsAuthentic :
      (n : ℕ) (id : String) (r : Read) (s : Service)
      → Linking (on_peek verify n id r s)
      → let r' = fitted (length (buffer_of (session id s))) r in
        IsAuthentic verify r' (buffer_of (session id (modify (received r'.bytes) id s)))
  unfolding on_peek
  on_peek-IsAuthentic n id r s h =
      on_peeked-IsAuthentic n id (fitted (length (buffer_of (session id s))) r) s h
