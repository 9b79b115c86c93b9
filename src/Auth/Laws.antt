-- ===== src/Auth/Laws.antt =====
-- What a token says of its bearer.
use tunnel_drill.Prelude.{
  ℕ, done, ◌≡◌, refl, ap, ◌∙◌, true, ◌||◌, List, [], ◌∷◌, Option, none, some, String, str_eq,
  eq_iff, if◌then◌else◌, arith, Bool-cases, Option-cases, inl, inr, ◌⊎◌,
}
use tunnel_drill.Json.{Json, Members, object, member, end, string, null, find_member}
use tunnel_drill.Auth.{
  Publisher, UsersFile, User, combined, check, get_user_from, get_user, Jwt, set_claims, token_for,
  authenticate_then_sign, verify_publisher_token, BasicAuth, token, auth,
}

-- The last member of that name.
abbrev pub last_member : String → Members → Option Json
last_member k end = none
last_member k (member j v ms) = elim (last_member k ms) [
  | none ↦ if str_eq j k then some v else none
  | some w ↦ some w
]

abbrev pub or_else : Option Json → Option Json → Option Json
or_else none b = b
or_else (some v) b = some v

-- An entry of the users file that lets `name` in with this password.
pub record Admits (sha512 : String → Option String) (users : UsersFile) (name password : String)
    (u : User) (entry : Publisher) : Type 0 where
  pub named : (entry.identity ≡ name) ⊎ (entry.email ≡ name)
  pub hashed : sha512 (combined password entry.salt users.pepper) ≡ some entry.pass
  pub same_identity : u.identity ≡ entry.identity
  pub same_email : u.email ≡ entry.email

-- One of the entries of a list has a property.
pub data Some (P : Publisher → Type 0) : List Publisher → Type 0 where
  here : {x : Publisher} {xs : List Publisher} → P x → Some P (x ∷ xs)
  there : {x : Publisher} {xs : List Publisher} → Some P xs → Some P (x ∷ xs)

module _ (sha512 : String → Option String) (users : UsersFile) (name password : String)
    (u : User) where
  check-Admits :
      (entry : Publisher)
      → (str_eq entry.identity name || str_eq entry.email name) ≡ true
      → check sha512 password users.pepper entry ≡ some u
      → Admits sha512 users name password u entry
  check-Admits entry n e =
      elim (Option-cases (sha512 (combined password entry.salt users.pepper))) [
        | inl h ↦ absurd (not_none (rw (h, check) at e))
        | inr (hash, h) ↦ elim (Bool-cases (str_eq hash entry.pass)) [
          | inl q ↦
              let k : ◌≡◌ {A = Option User}
                  (some (record { email = entry.email; identity = entry.identity })) (some u) =
                rw (h, check, q) at e in
              record {
                named = ground (arith, eq_iff entry.identity name, eq_iff entry.email name);
                hashed = h ∙ ap some ((eq_iff hash entry.pass).0 q);
                same_identity = cc;
                same_email = cc;
              }
          | inr q ↦ absurd (not_none (rw (h, check, q) at e))
        ]
      ]
    where
      not_none : ◌≡◌ {A = Option User} none (some u) → ⊥
      not_none k = cc

  get_user_from-Admits :
      (entries : List Publisher)
      → get_user_from sha512 name password users.pepper entries ≡ some u
      → Some (Admits sha512 users name password u) entries
  unfolding get_user_from
  get_user_from-Admits [] e = cc
  get_user_from-Admits (x ∷ xs) e =
      elim (Bool-cases (str_eq x.identity name || str_eq x.email name)) [
        | inl n ↦ here (check-Admits x n (rw n at e))
        | inr n ↦ there (get_user_from-Admits xs (rw n at e))
      ]

  -- A user is let in only by an entry of the users file with that identity or email, whose hash is
  -- the one of the given password with the entry's salt and the file's pepper; the user then has
  -- the identity and the email of this entry.
  pub get_user-Admits :
      get_user sha512 users name password ≡ some u
      → Some (Admits sha512 users name password u) users.publishers
  unfolding get_user
  get_user-Admits e = get_user_from-Admits users.publishers e

module _ (jwt : Jwt) where
  open jwt use {Token, fresh, set_payload_claim, payload, sign, decode, verify, find-set}

  pub find-set_claims :
      (k : String) (ms : Members) (t : Token)
      → find_member k (payload (set_claims jwt ms t))
        ≡ or_else (last_member k ms) (find_member k (payload t))
  unfolding set_claims
  find-set_claims k end t = refl
  find-set_claims k (member j v ms) t =
      find-set_claims k ms (set_payload_claim j v t) ∙ go (last_member k ms)
    where
      go :
          (o : Option Json)
          → or_else o (find_member k (payload (set_payload_claim j v t)))
            ≡ or_else
                (elim o [ none ↦ if str_eq j k then some v else none | some w ↦ some w ])
                (find_member k (payload t))
      go none = find-set j k v t ∙ ground arith
      go (some w) = refl

  -- The token of a user says the user's identity, if the claims to be signed are silent on it; and
  -- whatever identity they name otherwise.
  pub token_for-identity :
      (user : User) (ms : Members)
      → find_member "identity" (payload (token_for jwt user (object ms)))
        ≡ or_else (last_member "identity" ms) (some (string user.identity))
  unfolding token_for
  token_for-identity user ms =
      find-set_claims "identity" ms (set_payload_claim "identity" (string user.identity) fresh)
      ∙ ap (or_else (last_member "identity" ms))
          (find-set "identity" "identity" (string user.identity) fresh)

  -- Whoever is let in can have a token signed that the broker takes for any other identity: it is
  -- enough to send that identity among the claims. The token that `sign` made with the private key
  -- is assumed to decode to itself, and to verify with the public key.
  pub sign-impersonates :
      (sha512 : String → Option String) (users : UsersFile)
      (private public name password other : String) (user : User) (ms : Members)
      → decode (sign private (token_for jwt user (object ms)))
        ≡ some (token_for jwt user (object ms))
      → verify public (token_for jwt user (object ms)) ≡ true
      → get_user sha512 users name password ≡ some user
      → last_member "identity" ms ≡ some (string other)
      → (text : List ℕ) × (claims : Json) × (authenticate_then_sign jwt sha512 users private name
            password
            (object ms)
          ≡ some text)
        × (verify_publisher_token jwt public text
            ≡ some (record { identity = other; claims = claims }))
  unfolding authenticate_then_sign verify_publisher_token
  sign-impersonates sha512 users private public name password other user ms d v g l = (
    sign private t,
    object (payload t),
    rw (g, authenticate_then_sign) refl,
    rw (d, verify_publisher_token, v, named) refl,
  )
    where
      t : Token
      t = token_for jwt user (object ms)

      named : find_member "identity" (payload t) ≡ some (string other)
      named = token_for-identity user ms ∙ ap (λ o. or_else o (some (string user.identity))) l

  -- The token of Authenticator::auth is taken for its user.
  pub auth-verified :
      (sha512 : String → Option String) (users : UsersFile) (private public : String)
      (b : BasicAuth jwt) (user : User)
      → decode (sign private (token_for jwt user null)) ≡ some (token_for jwt user null)
      → verify public (token_for jwt user null) ≡ true
      → get_user sha512 users b.user b.password ≡ some user
      → (text : List ℕ) × (claims : Json) × (auth jwt sha512 users private (some b)
          ≡ done (token text))
        × (verify_publisher_token jwt public text
            ≡ some (record { identity = user.identity; claims = claims }))
  unfolding auth authenticate_then_sign verify_publisher_token
  auth-verified sha512 users private public b user d v g = (
    sign private t,
    object (payload t),
    rw (g, authenticate_then_sign) refl,
    rw (d, verify_publisher_token, v, named) refl,
  )
    where
      t : Token
      t = token_for jwt user null

      named : find_member "identity" (payload t) ≡ some (string user.identity)
      named = token_for-identity user end
