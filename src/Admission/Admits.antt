-- ===== src/Admission/Admits.antt =====
-- Who gets a control session.
use tunnel_drill.Prelude.{
  ℕ, ◌≡◌, refl, ap, ◌∙◌, true, false, List, Option, none, some, String, Option-cases, inl, inr, ◌⊎◌,
  done,
}
use tunnel_drill.Prelude.Dict.{lookup}
use tunnel_drill.Json.{null}
use tunnel_drill.Tunnel.Peek.{PublisherToken}
use tunnel_drill.Auth.{
  UsersFile, User, get_user, Jwt, token_for, verify_publisher_token, BasicAuth, token, auth,
}
use tunnel_drill.Auth.Laws.{auth-verified}
use tunnel_drill.Registry.{Registry, upgraded, current_session}
use tunnel_drill.Registry.Reconnect.{upgraded-first}
use tunnel_drill.Registry.Reconnect as Known
use tunnel_drill.Admission.{bearer, Upgrade, failed, complete, on_upgrade, request, publisher}

module _ (jwt : Jwt) (decode : List ℕ → List ℕ) (key : String) where
  -- A verified token with which the registry is changed for its own identity.
  pub record Admitted (token_data : Option (List ℕ)) (n : ℕ) (r r' : Registry) : Type 0 where
    pub text : List ℕ
    pub who : PublisherToken
    pub presented : token_data ≡ some text
    pub verified : verify_publisher_token jwt key (decode text) ≡ some who
    pub changed : r' ≡ upgraded who.identity n r

  publisher-upgraded :
      (text : List ℕ) (who : PublisherToken) (n : ℕ) (r : Registry)
      → verify_publisher_token jwt key (decode text) ≡ some who
      → publisher jwt decode key (some text) (complete true) n r ≡ upgraded who.identity n r
  unfolding publisher request on_upgrade
  publisher-upgraded text who n r h = rw (publisher, request, h) refl

  -- The route changes the publishers and control sessions only for a request whose bearer token is
  -- verified after decoding it, when the upgrade succeeds, and then as the upgrade of the identity
  -- that the token names does.
  pub publisher-Admitted :
      (token_data : Option (List ℕ)) (upgrade : Upgrade) (n : ℕ) (r : Registry)
      → (publisher jwt decode key token_data upgrade n r ≡ r)
        ⊎ ((upgrade ≡ complete true)
            × Admitted token_data n r (publisher jwt decode key token_data upgrade n r))
  unfolding publisher request on_upgrade
  publisher-Admitted none upgrade n r = inl refl
  publisher-Admitted (some text) upgrade n r =
      elim (Option-cases (verify_publisher_token jwt key (decode text))) [
        | inl h ↦ inl (rw (publisher, request, h) refl)
        | inr (who, h) ↦ go who h upgrade
      ]
    where
      go :
          (who : PublisherToken)
          → verify_publisher_token jwt key (decode text) ≡ some who
          → (upgrade : Upgrade)
          → (publisher jwt decode key (some text) upgrade n r ≡ r)
            ⊎ ((upgrade ≡ complete true)
                × Admitted (some text) n r (publisher jwt decode key (some text) upgrade n r))
      go who h failed = inl (rw (publisher, request, h) refl)
      go who h (complete false) = inl (rw (publisher, request, h) refl)
      go who h (complete true) = inr (
        refl,
        record {
          text = text;
          who = who;
          presented = refl;
          verified = h;
          changed = publisher-upgraded text who n r h;
        },
      )

-- Let the token that is made for a user decode to itself after it was signed, let it be verified
-- with the public key, and let base64 decode what it encodes. A user whom the password lets in gets
-- a token; a publisher that presents it is upgraded, and if the broker had no control session of
-- the user's identity, the publisher of this identity is reachable through the new one, with the
-- services that it had.
pub publisher-reachable :
    (jwt : Jwt) (encode decode : List ℕ → List ℕ) (sha512 : String → Option String)
    (users : UsersFile) (private public : String) (b : BasicAuth jwt) (user : User) (n : ℕ)
    (r : Registry)
    → jwt.decode (jwt.sign private (token_for jwt user null)) ≡ some (token_for jwt user null)
    → jwt.verify public (token_for jwt user null) ≡ true
    → ((text : List ℕ) → decode (encode text) ≡ text)
    → get_user sha512 users b.user b.password ≡ some user
    → lookup user.identity r.control_sessions ≡ none
    → (text : List ℕ) × (auth jwt sha512 users private (some b) ≡ done (token text))
      × (let r' = publisher jwt decode public (bearer encode text) (complete true) n r in
          (current_session user.identity r' ≡ some n)
          × ((Known.publisher user.identity r').services
              ≡ (Known.publisher user.identity r).services))
publisher-reachable jwt encode decode sha512 users private public b user n r d v base64 g e =
    let (text, claims, answered, verified) =
      auth-verified jwt sha512 users private public b user d v g in
    (
      text,
      answered,
      rw
          (publisher-upgraded jwt decode public (encode text)
            (record { identity = user.identity; claims = claims }) n r
            (ap (verify_publisher_token jwt public) (base64 text) ∙ verified))
          (upgraded-first user.identity n r e),
    )
