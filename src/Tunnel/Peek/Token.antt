-- ===== src/Tunnel/Peek/Token.antt =====
-- The read handler of `peek` on the prefix, a colon and a token that is verified.
use tunnel_drill.Prelude.{
  ◌≤◌, ℕ, ◌+◌, ◌-◌, ◌%◌, ◌^◌, ◌<◌, ◌≡◌, refl, ap, ◌∙◌, true, false, List, ◌∷◌, ◌++◌, some, String,
  eq_refl, arith, length, take, drop, take-append_self, Option, ◌==◌, ltb,
}
use tunnel_drill.Json.{at, get_string}
use tunnel_drill.Tunnel.{TunnelSession, Service, session, lockable}
use tunnel_drill.Tunnel.Link.{connect_tunnels}
use tunnel_drill.Tunnel.Peek.{
  PublisherToken, publisher_to_broker_prefix, starts_with, token_text, received, modify, cleared,
  buffer_of, on_token, on_publisher, on_bytes, on_peeked, on_peek, on_peek-whole,
}
use tunnel_drill.Tunnel.Peek.Modify.{session-modify}

-- What the publisher sends of itself before anything of the hidden host.
abbrev pub preamble : List ℕ → List ℕ
preamble text = publisher_to_broker_prefix ++ (58 ∷ text)

-- What follows the preamble in the buffer does not matter.
module _ (text rest : List ℕ) (fits : length text < 2 ^ 64) where
  token_text-preamble : token_text (length (preamble text)) (preamble text ++ rest) ≡ text
  token_text-preamble = ap (λ (n : ℕ). take n (text ++ rest)) count ∙ take-append_self text rest
    where
      count : (length (preamble text) + 2 ^ 64 - 15 - 1) % 2 ^ 64 ≡ length text
      count = omega arith

  starts_with-preamble : starts_with publisher_to_broker_prefix (preamble text ++ rest) ≡ true
  starts_with-preamble = refl

module _ (verify : List ℕ → Option PublisherToken) where
  -- The first read of a lockable session of a service that is alive, whose control session is
  -- there: if the bytes are the publisher's prefix, a colon and a text, which fit into the
  -- session's buffer of less than 2^64 bytes, and the text is verified as a token with the control
  -- session's identity and a tunnel's id, then the buffer is cleared, the session is marked as the
  -- publisher's side and it is joined to the session of that id.
  pub on_peek-token :
      (n : ℕ) (id client : String) (text : List ℕ) (token : PublisherToken) (t : TunnelSession)
      (s : Service)
      → lockable id s ≡ true
      → session id s ≡ some t
      → s.alive ≡ true
      → length (preamble text) ≤ length t.peek_buffer
      → length t.peek_buffer < 2 ^ 64
      → verify text ≡ some token
      → get_string (at "tunnelId" token.claims) ≡ some client
      → on_peek verify n id
          (record { error = false; bytes = preamble text; control = some token.identity })
          s
        ≡ connect_tunnels n client id
            (modify (cleared true) id (modify (received (preamble text)) id s))
  unfolding on_peeked on_bytes on_publisher on_token
  on_peek-token n id client text token t s l e a fits small v c =
      on_peek-whole verify n id
        (record { error = false; bytes = preamble text; control = some token.identity }) t s e fits
      ∙ simp (l, a, nonzero, buffer, long, v', eq_refl token.identity, c)
    where
      rest : List ℕ
      rest = drop (length (preamble text)) t.peek_buffer

      buffer :
          buffer_of (session id (modify (received (preamble text)) id s)) ≡ preamble text ++ rest
      buffer = ap buffer_of (session-modify (received (preamble text)) (λ _. refl) id t s e)

      v' : verify (token_text (length (preamble text)) (preamble text ++ rest)) ≡ some token
      v' = ap verify (token_text-preamble text rest (omega arith)) ∙ v

      nonzero : (length (preamble text) == 0) ≡ false
      nonzero = ground arith

      long : ltb (length (preamble text ++ rest)) (length publisher_to_broker_prefix + 1) ≡ false
      long = ground arith
