-- ===== src/Tunnel/Served.antt =====
-- A tunnel from the first connection to both pipes: the subscriber's connection, the publisher's
-- connection for it, and the write of the bytes that the subscriber had sent before.
use tunnel_drill.Prelude.{
  ℕ, ◌≤◌, ◌≡◌, refl, ap, ◌∙◌, true, false, List, [], ◌∷◌, Option, some, String, str_eq, done, drop,
  length, take-append_self, arith,
}
use tunnel_drill.Json.{at, get_string}
use tunnel_drill.Tunnel.{TunnelSession, Service, session, registered, lockable, contains}
use tunnel_drill.Tunnel.Link.{
  write_initial, start_pipe, inform, connect_tunnels, on_initial_written,
}
use tunnel_drill.Tunnel.Link.Laws.{linked, connect_tunnels-full_duplex}
use tunnel_drill.Tunnel.Peek.{
  PublisherToken, publisher_to_broker_prefix, starts_with, Read, received, modify, cleared,
  as_client, on_peek,
}
use tunnel_drill.Tunnel.Peek.Modify.{
  session-modify, session-modify_other, sessions-modify, service_id-modify, alive-modify,
  acceptor-modify,
}
use tunnel_drill.Tunnel.Peek.Client.{on_peek-client_run}
use tunnel_drill.Tunnel.Peek.Token.{preamble, on_peek-token}
use tunnel_drill.Tunnel.Accept.{Accepted, new_session, on_accept, on_accept-serves}
use tunnel_drill.Tunnel.Accept.Kept.{on_accept-same}

-- A connection that finds everything in order.
pub record IsServable (a : Accepted) : Type 0 where
  pub not_aborted : a.aborted ≡ false
  pub no_error : a.error ≡ false
  pub has_publisher : a.publisher ≡ true
  pub has_control : a.control ≡ true
  pub has_socket : a.socket_open ≡ true
  pub has_endpoint : a.endpoint_known ≡ true

abbrev pub read_of : List ℕ → PublisherToken → Read
read_of bytes token = record { error = false; bytes = bytes; control = some token.identity }

registered-lockable : (id : String) (s : Service) → registered id s ≡ true → lockable id s ≡ true
registered-lockable id s r = ground (arith, r)

module _ (verify : List ℕ → Option PublisherToken) (zeros : List ℕ) (n m k : ℕ) (c : ℕ)
    (cs text : List ℕ) (a b : Accepted) (token : PublisherToken) (s : Service) where
  -- The subscriber's connection is accepted, and its first bytes are read.
  abbrev s1 : Service
  s1 = on_accept zeros m a s

  abbrev s2 : Service
  s2 = modify (as_client (length (c ∷ cs))) a.tunnel_id (modify (received (c ∷ cs)) a.tunnel_id s1)

  -- The publisher's connection is accepted, and its preamble is read.
  abbrev s3 : Service
  s3 = on_accept zeros k b s2

  abbrev s4 : Service
  s4 = modify (cleared true) b.tunnel_id (modify (received (preamble text)) b.tunnel_id s3)

  -- The subscriber's session, and the publisher's.
  abbrev t1 : TunnelSession
  t1 = as_client (length (c ∷ cs)) (received (c ∷ cs) (new_session zeros))

  abbrev u1 : TunnelSession
  u1 = cleared true (received (preamble text) (new_session zeros))

  module _ (va : IsServable a) (vb : IsServable b) (live : s.alive ≡ true)
      (open_ : s.acceptor_open ≡ true) (ne : str_eq b.tunnel_id a.tunnel_id ≡ false)
      (plain : starts_with publisher_to_broker_prefix
          (received (c ∷ cs) (new_session zeros)).peek_buffer
        ≡ false)
      (size : length zeros ≡ 4096) (short : length (c ∷ cs) ≤ 4096) (fits : length text ≤ 4080)
      (v : verify text ≡ some token)
      (names : get_string (at "tunnelId" token.claims) ≡ some a.tunnel_id) where
    live1 : s1.alive ≡ true
    live1 = (on_accept-same zeros m a s).0 ∙ live

    served1 :
        (registered a.tunnel_id s1 ≡ true) × (session a.tunnel_id s1 ≡ some (new_session zeros))
    served1 =
        let r =
          on_accept-serves zeros m a s va.not_aborted live va.no_error open_ va.has_publisher
            va.has_control va.has_socket va.has_endpoint in
        (r.0, r.1)

    peeked :
        on_peek verify n a.tunnel_id (read_of (c ∷ cs) token) s1
        ≡ done (s2, inform s.service_id a.tunnel_id ∷ [])
    peeked =
        on_peek-client_run verify n a.tunnel_id token.identity (read_of (c ∷ cs) token)
          (new_session zeros) s1 (registered-lockable a.tunnel_id s1 served1.0) served1.1 live1 refl
          refl (ground arith) (omega arith) plain
        ∙ ap (λ i. done (s2, inform i a.tunnel_id ∷ []))
            (service_id-modify (received (c ∷ cs)) a.tunnel_id s1 ∙ (on_accept-same zeros m a s).2)

    live2 : s2.alive ≡ true
    live2 =
        alive-modify (as_client (length (c ∷ cs))) a.tunnel_id _
        ∙ alive-modify (received (c ∷ cs)) a.tunnel_id s1
        ∙ live1

    open2 : s2.acceptor_open ≡ true
    open2 =
        acceptor-modify (as_client (length (c ∷ cs))) a.tunnel_id _
        ∙ acceptor-modify (received (c ∷ cs)) a.tunnel_id s1
        ∙ (on_accept-same zeros m a s).1
        ∙ open_

    there2 : (registered a.tunnel_id s2 ≡ true) × (session a.tunnel_id s2 ≡ some t1)
    there2 = (
      ap (contains a.tunnel_id) (
            sessions-modify (as_client (length (c ∷ cs))) a.tunnel_id _
            ∙ sessions-modify (received (c ∷ cs)) a.tunnel_id s1)
          ∙ served1.0,
      session-modify (as_client (length (c ∷ cs))) (λ _. refl) a.tunnel_id
          (received (c ∷ cs) (new_session zeros)) _
          (session-modify (received (c ∷ cs)) (λ _. refl) a.tunnel_id (new_session zeros) s1
            served1.1),
    )

    live3 : s3.alive ≡ true
    live3 = (on_accept-same zeros k b s2).0 ∙ live2

    served3 :
        (registered b.tunnel_id s3 ≡ true)
        × (session b.tunnel_id s3 ≡ some (new_session zeros))
        × (session a.tunnel_id s3 ≡ some t1)
        × (registered a.tunnel_id s3 ≡ true)
    served3 =
        let r =
          on_accept-serves zeros k b s2 vb.not_aborted live2 vb.no_error open2 vb.has_publisher
            vb.has_control vb.has_socket vb.has_endpoint in
        (
          r.0,
          r.1,
          r.2 a.tunnel_id ne ∙ there2.1,
          (on_accept-same zeros k b s2).3 a.tunnel_id there2.0,
        )

    there4 :
        (registered a.tunnel_id s4 ≡ true)
        × (registered b.tunnel_id s4 ≡ true)
        × (session a.tunnel_id s4 ≡ some t1)
        × (session b.tunnel_id s4 ≡ some u1)
    there4 = (
      ap (contains a.tunnel_id) same ∙ served3.3,
      ap (contains b.tunnel_id) same ∙ served3.0,
      session-modify_other (cleared true) b.tunnel_id a.tunnel_id _ ne
          ∙ session-modify_other (received (preamble text)) b.tunnel_id a.tunnel_id s3 ne
          ∙ served3.2,
      session-modify (cleared true) (λ _. refl) b.tunnel_id _ _
          (session-modify (received (preamble text)) (λ _. refl) b.tunnel_id (new_session zeros) s3
            served3.1),
    )
      where
        same : s4.sessions ≡ s3.sessions
        same =
            sessions-modify (cleared true) b.tunnel_id _
            ∙ sessions-modify (received (preamble text)) b.tunnel_id s3

    joins :
        on_peek verify n b.tunnel_id (read_of (preamble text) token) s3
        ≡ connect_tunnels n a.tunnel_id b.tunnel_id s4
    joins =
        on_peek-token verify n b.tunnel_id a.tunnel_id text token (new_session zeros) s3
          (registered-lockable b.tunnel_id s3 served3.0) served3.1 live3 (omega arith) (omega arith)
          v names

    buffered : t1.peek_buffer ≡ c ∷ cs
    buffered = take-append_self (c ∷ cs) (drop (length (c ∷ cs)) zeros)

    -- A subscriber connects and sends bytes, which do not look like the publisher's; then the
    -- publisher connects, with a token that is verified, has the control session's identity and
    -- names the subscriber's tunnel. The peek buffer of a new session has 4096 bytes, which the
    -- subscriber's bytes fit into, and the token with the 16 bytes in front of it. With both
    -- connections in order, the service alive and accepting, and different ids, the three handlers
    -- return: the first read tells the publisher of the connection, the second writes the
    -- subscriber's bytes to the publisher and starts the pipe back, and the completion of that
    -- write starts the pipe from the subscriber.
    pub connection-served :
        (x y z : Service) × (on_peek verify n a.tunnel_id
            (read_of (c ∷ cs) token)
            (on_accept zeros m a s)
          ≡ done (x, inform s.service_id a.tunnel_id ∷ []))
        × (on_peek verify n b.tunnel_id (read_of (preamble text) token) (on_accept zeros k b x)
            ≡ done (
              y,
              write_initial a.tunnel_id b.tunnel_id (c ∷ cs)
                  ∷ start_pipe b.tunnel_id a.tunnel_id
                  ∷ [],
            ))
        × (on_initial_written n a.tunnel_id b.tunnel_id false y
            ≡ done (z, start_pipe a.tunnel_id b.tunnel_id ∷ []))
    connection-served =
        let duplex =
          connect_tunnels-full_duplex n a.tunnel_id b.tunnel_id c cs t1 u1 s4 there4.0 there4.1 ne
            there4.2 there4.3 buffered refl refl refl in
        (s2, linked a.tunnel_id b.tunnel_id u1 s4, _, peeked, joins ∙ duplex.0, duplex.1)
