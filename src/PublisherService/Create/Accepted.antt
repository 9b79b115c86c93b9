-- ===== src/PublisherService/Create/Accepted.antt =====
-- What `createSession` writes to the broker, and what the broker's TunnelSession::peek reads of it.
use tunnel_drill.Prelude.{
  ℕ, ◌<◌, ◌≤◌, ◌^◌, ◌≡◌, sym, ap, subst, true, false, List, Option, some, String, Outcome, done,
  length,
}
use tunnel_drill.Json.{at, get_string}
use tunnel_drill.Tunnel.{TunnelSession, Service, session, lockable}
use tunnel_drill.Tunnel.Link.{connect_tunnels}
use tunnel_drill.Tunnel.Peek.{PublisherToken, received, modify, cleared, on_peek}
use tunnel_drill.Tunnel.Peek.Token.{on_peek-token}
use tunnel_drill.PublisherService as Local
use tunnel_drill.PublisherService.Create.{
  Connection, unresolved, refused, opened, TokenWrite, prefixed, connected_over, session_over,
  Network, create_session,
}

bytes-session_over :
    (text : List ℕ) (tunnel_id : String) (c : Connection) (w : TokenWrite) (s s' : Local.Service)
    → session_over text tunnel_id c s ≡ done (some w, s')
    → w.bytes ≡ prefixed text
unfolding session_over connected_over
bytes-session_over text tunnel_id unresolved w s s' e = cc
bytes-session_over text tunnel_id refused w s s' e = cc
bytes-session_over text tunnel_id (opened id) w s s' e = sym (ap TokenWrite.bytes (same _ w _ s' e))
  where
    same :
        (a b : TokenWrite) (s s' : Local.Service)
        → ◌≡◌ {A = Outcome (Option TokenWrite × Local.Service)}
            (done (some a, s))
            (done (some b, s'))
        → a ≡ b
    same a b s s' e = cc

bytes-create_session :
    (text : List ℕ) (tunnel_id host : String) (net : Network) (w : TokenWrite)
    (s s' : Local.Service)
    → create_session text tunnel_id host net s ≡ done (some w, s')
    → w.bytes ≡ prefixed text
unfolding create_session
bytes-create_session text tunnel_id host net w s s' e =
    bytes-session_over text tunnel_id (net host s.settings.public_port) w s s' e

-- If createSession writes, for a token that fits with its prefix and colon into the peek buffer of
-- a session of the broker, which is shorter than 2^64 bytes, and the broker reads what was written
-- as the first bytes of this session, then the prefix is recognised and the token is what is
-- verified: for a session that can be locked, a service that is alive, and a token that is verified
-- with the control session's identity and a tunnel's id, the broker clears the buffer, marks the
-- session as the publisher's side and joins it to the session of that id.
pub create_session-accepted :
    (verify : List ℕ → Option PublisherToken) (text : List ℕ) (tunnel_id host : String)
    (net : Network) (w : TokenWrite) (p p' : Local.Service) (n : ℕ) (id client : String)
    (token : PublisherToken) (t : TunnelSession) (s : Service)
    → create_session text tunnel_id host net p ≡ done (some w, p')
    → length (prefixed text) ≤ length t.peek_buffer
    → length t.peek_buffer < 2 ^ 64
    → lockable id s ≡ true
    → session id s ≡ some t
    → s.alive ≡ true
    → verify text ≡ some token
    → get_string (at "tunnelId" token.claims) ≡ some client
    → on_peek verify n id
        (record { error = false; bytes = w.bytes; control = some token.identity })
        s
      ≡ connect_tunnels n client id (modify (cleared true) id (modify (received w.bytes) id s))
create_session-accepted verify text tunnel_id host net w p p' n id client token t s written fits
      small l e a v k =
    subst
      (λ b.
        on_peek verify n id (record { error = false; bytes = b; control = some token.identity }) s
        ≡ connect_tunnels n client id (modify (cleared true) id (modify (received b) id s)))
      (sym (bytes-create_session text tunnel_id host net w p p' written))
      (on_peek-token verify n id client text token t s l e a fits small v k)
