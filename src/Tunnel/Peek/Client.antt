-- ===== src/Tunnel/Peek/Client.antt =====
-- The read handler of `peek` on a connection that does not look like the publisher's.
use tunnel_drill.Prelude.{
  ◌≤◌, ℕ, ◌≡◌, refl, ap, ◌∙◌, true, false, List, [], ◌∷◌, Option, some, String, arith, ◌≢◌, length,
  drop, take-append_self, done, Returns, ◌==◌,
}
use tunnel_drill.Tunnel.{TunnelSession, Service, session, lockable}
use tunnel_drill.Tunnel.Link.{inform}
use tunnel_drill.Tunnel.Peek.{
  PublisherToken, publisher_to_broker_prefix, starts_with, Read, received, modify, buffer_of,
  on_client, on_bytes, on_peeked, on_peek, on_peek-whole, as_client,
}
use tunnel_drill.Tunnel.Peek.Modify.{session-modify, sessions-modify}

module _ (verify : List ℕ → Option PublisherToken) where
  -- What the handler comes to: the state that it leaves, and the message to the publisher.
  pub on_peek-client_run :
      (n : ℕ) (id control : String) (r : Read) (t : TunnelSession) (s : Service)
      → lockable id s ≡ true
      → session id s ≡ some t
      → s.alive ≡ true
      → r.error ≡ false
      → r.control ≡ some control
      → length r.bytes ≢ 0
      → length r.bytes ≤ length t.peek_buffer
      → starts_with publisher_to_broker_prefix (received r.bytes t).peek_buffer ≡ false
      → on_peek verify n id r s
        ≡ done (
          modify (as_client (length r.bytes)) id (modify (received r.bytes) id s),
          inform (modify (received r.bytes) id s).service_id id ∷ [],
        )
  unfolding on_peeked on_bytes on_client
  on_peek-client_run n id control r t s l e a x c z f p =
      on_peek-whole verify n id r t s e f ∙ simp (l, a, x, c, nonzero, other) refl
    where
      nonzero : (length r.bytes == 0) ≡ false
      nonzero = ground arith

      other :
          starts_with publisher_to_broker_prefix
            (buffer_of (session id (modify (received r.bytes) id s)))
          ≡ false
      other = rw (ap buffer_of (session-modify (received r.bytes) (λ _. refl) id t s e)) p

  -- A read that is in order, fits into the buffer and does not begin with the publisher's prefix:
  -- the session keeps exactly the bytes that were read, is marked as the subscriber's side, and the
  -- publisher is told of it once, by the service's id and the session's.
  pub on_peek-client :
      (n : ℕ) (id control : String) (r : Read) (t : TunnelSession) (s : Service)
      → lockable id s ≡ true
      → session id s ≡ some t
      → s.alive ≡ true
      → r.error ≡ false
      → r.control ≡ some control
      → length r.bytes ≢ 0
      → length r.bytes ≤ length t.peek_buffer
      → starts_with publisher_to_broker_prefix (received r.bytes t).peek_buffer ≡ false
      → Returns
          (λ x.
            (session id x.0 ≡ some (record t { peek_buffer = r.bytes; is_publisher_side = false }))
            × (x.0.sessions ≡ s.sessions)
            × (x.1 ≡ inform s.service_id id ∷ []))
          (on_peek verify n id r s)
  on_peek-client n id control r t s l e a x c z b p =
      rw (on_peek-client_run n id control r t s l e a x c z b p) (
        kept,
        ground (arith, sessions-modify (as_client k) id s', sessions-modify f id s),
        ap (λ (i : String). inform i id ∷ []) service,
      )
    where
      k : ℕ
      k = length r.bytes

      f : TunnelSession → TunnelSession
      f = received r.bytes

      s' : Service
      s' = modify f id s

      at_id : session id s' ≡ some (f t)
      at_id = session-modify f (λ _. refl) id t s e

      service : s'.service_id ≡ s.service_id
      service = ground arith

      kept :
          session id (modify (as_client k) id s')
          ≡ some (record t { peek_buffer = r.bytes; is_publisher_side = false })
      kept =
          session-modify (as_client k) (λ _. refl) id (f t) s' at_id
          ∙ ap (λ (b : List ℕ). some (record t { peek_buffer = b; is_publisher_side = false }))
              (take-append_self r.bytes (drop k t.peek_buffer))
