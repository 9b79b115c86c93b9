-- ===== src/Auth/TunnelToken.antt =====
-- The token for one tunnel: the request that onNewTunnel of
-- publisherpp/src/publisherpp/publisher.cpp sends to the authority, and what the broker reads from
-- the token that comes back.
use tunnel_drill.Prelude.{ℕ, ◌≡◌, refl, ap, true, List, Option, none, some, String, done}
use tunnel_drill.Json.{
  Json, Members, object, member, end, string, null, find_member, at, get_string, json_of_int,
}
use tunnel_drill.PublisherClient.Control.{NewTunnel}
use tunnel_drill.Auth.{
  UsersFile, User, get_user, Jwt, token_for, authenticate_then_sign, verify_publisher_token,
  BasicAuth, token, sign_json,
}
use tunnel_drill.Auth.Laws.{find-set_claims, token_for-identity}

-- The claims of the request.
abbrev pub tunnel_members : NewTunnel → Members
tunnel_members t = member "tunnelId" (string t.tunnel_id) (
    member "serviceId" (string t.service_id) (
      member "hiddenPort" (json_of_int t.hidden_port)
        (member "publicPort" (json_of_int t.public_port) end)))

module _ (jwt : Jwt) where
  open jwt use {Token, payload, sign, decode, verify}

  named-tunnel :
      (user : User) (t : NewTunnel)
      → find_member "tunnelId" (payload (token_for jwt user (object (tunnel_members t))))
        ≡ some (string t.tunnel_id)
  unfolding token_for
  named-tunnel user t = find-set_claims jwt "tunnelId" (tunnel_members t) _

  -- Let the token that is made for a user and a tunnel decode to itself after it was signed, and be
  -- verified with the public key. For a user whom the password lets in, the authority answers the
  -- publisher's request with a token that the broker takes for this user's, and that names the
  -- tunnel of the request.
  pub sign_json-tunnel :
      (sha512 : String → Option String) (users : UsersFile) (private public : String)
      (b : BasicAuth jwt) (user : User) (t : NewTunnel)
      → decode (sign private (token_for jwt user (object (tunnel_members t))))
        ≡ some (token_for jwt user (object (tunnel_members t)))
      → verify public (token_for jwt user (object (tunnel_members t))) ≡ true
      → get_user sha512 users b.user b.password ≡ some user
      → (text : List ℕ) × (claims : Json) × (sign_json jwt sha512 users private
            (some b)
            (some (object (tunnel_members t)))
          ≡ done (token text))
        × (verify_publisher_token jwt public text
            ≡ some (record { identity = user.identity; claims = claims }))
        × (get_string (at "tunnelId" claims) ≡ some t.tunnel_id)
  unfolding sign_json authenticate_then_sign verify_publisher_token
  sign_json-tunnel sha512 users private public b user t d v g = (
    sign private made,
    object (payload made),
    rw (g, authenticate_then_sign) refl,
    rw (d, verify_publisher_token, v, token_for-identity jwt user (tunnel_members t)) refl,
    ap (λ o. get_string (elim o [ none ↦ null | some j ↦ j ])) (named-tunnel user t),
  )
    where
      made : Token
      made = token_for jwt user (object (tunnel_members t))
