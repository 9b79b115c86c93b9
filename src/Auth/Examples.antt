-- ===== src/Auth/Examples.antt =====
-- The theorems on tokens with a hash that is the identity and tokens that are lists of claims.
use tunnel_drill.Prelude.{ℕ, done, ◌≡◌, refl, true, List, [], ◌∷◌, Option, some, String}
use tunnel_drill.PublisherClient.Control.{NewTunnel}
use tunnel_drill.Auth.TunnelToken.{tunnel_members, sign_json-tunnel}
use tunnel_drill.Json.{at, get_string, json_of_int, Json, Members, object, member, end, string}
use tunnel_drill.Auth.{
  Publisher, UsersFile, User, get_user, Jwt, token_for, authenticate_then_sign,
  verify_publisher_token, sign_json, token, set_claims, get_user_from,
}
use tunnel_drill.Auth.Laws.{sign-impersonates}

abbrev as_it_is : String → Option String
as_it_is s = some s

abbrev ann : Publisher
ann = record { email = "ann@example.com"; identity = "ann"; pass = "pw_salt_pepper"; salt = "salt" }

abbrev users : UsersFile
users = record { pepper = "pepper"; publishers = ann ∷ [] }

abbrev ann_user : User
ann_user = record { email = "ann@example.com"; identity = "ann" }

-- Tokens as their claims, with the last claim in front; the text tells two claims apart.
abbrev plain : Jwt
plain = record {
  Token = Members;
  fresh = end;
  set_payload_claim = member;
  payload = λ t. t;
  sign = λ key t. [];
  decode = λ text. some (member "identity" (string "bob") (member "identity" (string "ann") end));
  verify = λ key t. true;
  find-set = λ k j v t. refl;
}

abbrev claims : Members
claims = member "identity" (string "bob") end

sign-impersonates_example :
    (text : List ℕ) × (taken : Json) × (authenticate_then_sign plain as_it_is users "private" "ann"
        "pw"
        (object claims)
      ≡ some text)
    × (verify_publisher_token plain "public" text
        ≡ some (record { identity = "bob"; claims = taken }))
unfolding get_user token_for
sign-impersonates_example =
    sign-impersonates plain as_it_is users "private" "public" "ann" "pw" "bob" ann_user claims refl
      refl refl refl

abbrev request : NewTunnel
request = record {
  service_id = "s";
  tunnel_id = "t";
  hidden_port = 8080;
  public_port = 80;
  socket_type = "tcp";
}

-- A library whose text stands for the one token of this request.
abbrev single : Jwt
single = record {
  Token = Members;
  fresh = end;
  set_payload_claim = member;
  payload = λ t. t;
  sign = λ key t. [];
  decode = λ text. some (
      member "publicPort" (json_of_int 80) (
        member "hiddenPort" (json_of_int 8080) (
          member "serviceId" (string "s")
            (member "tunnelId" (string "t") (member "identity" (string "ann") end)))));
  verify = λ key t. true;
  find-set = λ k j v t. refl;
}

sign_json-tunnel_example :
    (text : List ℕ) × (claims : Json) × (sign_json single as_it_is users "private"
        (some (record { user = "ann"; password = "pw" }))
        (some (object (tunnel_members request)))
      ≡ done (token text))
    × (verify_publisher_token single "public" text
        ≡ some (record { identity = "ann"; claims = claims }))
    × (get_string (at "tunnelId" claims) ≡ some "t")
unfolding token_for set_claims get_user get_user_from
sign_json-tunnel_example =
    sign_json-tunnel single as_it_is users "private" "public"
      (record { user = "ann"; password = "pw" }) ann_user request refl refl refl
