-- ===== src/Auth.antt =====
-- Who may have a token and what it says: brokerpp/src/brokerpp/user_control.cpp, authority.cpp,
-- publisher/publisher_token.cpp and request_listener/authenticator.cpp. The SHA-512 function and
-- the JWT library are arguments.
pub mod Laws
pub mod TunnelToken
mod Examples
use Prim.Native.String.{◌++◌ as str_append}
use tunnel_drill.Prelude.{
  ℕ, ◌≡◌, Bool, true, false, ◌||◌, List, [], ◌∷◌, Option, none, some, String, str_eq, if◌then◌else◌,
  Outcome, done, undefined,
}
use tunnel_drill.Json.{
  null, array, Json, Members, object, member, end, string, null, find_member, at, get_string,
}
use tunnel_drill.Tunnel.Peek.{PublisherToken}

-- The struct Publisher of user_control.cpp, but for `maxServices`, which nothing reads.
pub record Publisher : Type 0 where
  pub email : String
  pub identity : String
  pub pass : String
  pub salt : String

pub record UsersFile : Type 0 where
  pub pepper : String
  pub publishers : List Publisher

pub record User : Type 0 where
  pub email : String
  pub identity : String

-- password + "_" + salt + "_" + pepper
abbrev pub combined : String → String → String → String
combined password salt pepper =
    str_append password (str_append "_" (str_append salt (str_append "_" pepper)))

module _ (sha512 : String → Option String) where
  abbrev pub check : String → String → Publisher → Option User
  check password pepper user = elim (sha512 (combined password user.salt pepper)) [
    | none ↦ none
    | some hash ↦
        if str_eq hash user.pass
        then some (record { email = user.email; identity = user.identity })
        else none
  ]

  -- The loop of `getUser`: the first entry with the name decides.
  unfoldable pub get_user_from : String → String → String → List Publisher → Option User
  get_user_from name password pepper [] = none
  get_user_from name password pepper (user ∷ rest) =
      if str_eq user.identity name || str_eq user.email name
      then check password pepper user
      else get_user_from name password pepper rest

  -- UserControl::getUser
  unfoldable pub get_user : UsersFile → String → String → Option User
  unfolding get_user_from
  get_user users name password = get_user_from name password users.pepper users.publishers

-- The JWT library's builder and verifier. `set_payload_claim` is the documented assignment of a
-- claim.
pub record Jwt : Type 1 where
  pub Token : Type 0
  -- a token with the issuer, the type and the times of `authenticateThenSign`
  pub fresh : Token
  pub set_payload_claim : String → Json → Token → Token
  pub payload : Token → Members
  pub sign : String → Token → List ℕ
  -- `none` is the exception of a text that is no token
  pub decode : List ℕ → Option Token
  -- RS256 with this key, and the issuer: whether there is no error
  pub verify : String → Token → Bool
  pub find-set :
      (k j : String) (v : Json) (t : Token)
      → find_member j (payload (set_payload_claim k v t))
        ≡ (if str_eq k j then some v else find_member j (payload t))

module _ (jwt : Jwt) where
  open jwt use {Token, fresh, set_payload_claim, payload, sign, decode, verify}

  -- for (auto const& claim : claims.items())
  unfoldable pub set_claims : Members → Token → Token
  set_claims end t = t
  set_claims (member k v ms) t = set_claims ms (set_payload_claim k v t)

  -- The items of an object; a single value has an empty key, and null has no items. The items of an
  -- array, under the digits of their indices, are not modelled.
  abbrev pub members : Json → Members
  members (object ms) = ms
  members null = end
  members (array js) = end
  members v = member "" v end

  unfoldable pub token_for : User → Json → Token
  unfolding set_claims
  token_for user claims =
      set_claims (members claims) (set_payload_claim "identity" (string user.identity) fresh)

  -- Authority::authenticateThenSign
  pub authenticate_then_sign :
      (String → Option String) → UsersFile → String → String → String → Json → Option (List ℕ)
  unfolding token_for
  authenticate_then_sign sha512 users key name password claims =
      elim (get_user sha512 users name password) [
        | none ↦ none
        | some user ↦ some (sign key (token_for user claims))
      ]

  abbrev identity_token : Option String → Members → Option PublisherToken
  identity_token none claims = none
  identity_token (some identity) claims =
      some (record { identity = identity; claims = object claims })

  -- verifyPublisherToken; every exception in it is caught.
  pub verify_publisher_token : String → List ℕ → Option PublisherToken
  verify_publisher_token key text = elim (decode text) [
    | none ↦ none
    | some t ↦
        if verify key t
        then (elim (find_member "identity" (payload t)) [
          | none ↦ none
          | some ident ↦ identity_token (get_string ident) (payload t)
        ])
        else none
  ]

  -- What the two routes answer.
  pub data Reply : Type 0 where
    rejected : Reply
    token : List ℕ → Reply

  abbrev reply_of : Option (List ℕ) → Reply
  reply_of none = rejected
  reply_of (some t) = token t

  pub record BasicAuth : Type 0 where
    pub user : String
    pub password : String

  module _ (sha512 : String → Option String) (users : UsersFile) (key : String) where
    -- Authenticator::auth. The branch without credentials logs `basic->user` of the empty optional.
    pub auth : Option BasicAuth → Outcome Reply
    unfolding authenticate_then_sign
    auth none = undefined
    auth (some b) = done (reply_of (authenticate_then_sign sha512 users key b.user b.password null))

    -- Authenticator::signJson, with the parsed body; `none` is a body that does not parse.
    pub sign_json : Option BasicAuth → Option Json → Outcome Reply
    unfolding authenticate_then_sign
    sign_json none body = undefined
    sign_json (some b) none = done rejected
    sign_json (some b) (some claims) =
        done (reply_of (authenticate_then_sign sha512 users key b.user b.password claims))
