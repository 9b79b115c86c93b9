-- ===== src/Admission/Examples.antt =====
-- A user who asks for a token and connects with it. Tokens are lists of claims here, and their text
-- is the same for all.
use tunnel_drill.Prelude.{ℕ, ◌≡◌, refl, true, List, [], ◌∷◌, Option, some, String, ◌⊎◌, done}
use tunnel_drill.Prelude.Dict.{lookup}
use tunnel_drill.Json.{Members, member, end, string}
use tunnel_drill.Auth.{Publisher, UsersFile, User, get_user, Jwt, token_for, BasicAuth, token, auth}
use tunnel_drill.Registry.{Registry, current_session}
use tunnel_drill.Registry.Reconnect as Known
use tunnel_drill.Admission.{bearer, complete, publisher}
use tunnel_drill.Admission.Admits.{Admitted, publisher-Admitted, publisher-reachable}

abbrev as_it_is : String → Option String
as_it_is s = some s

abbrev ann : Publisher
ann = record { email = "ann@example.com"; identity = "ann"; pass = "pw_salt_pepper"; salt = "salt" }

abbrev users : UsersFile
users = record { pepper = "pepper"; publishers = ann ∷ [] }

abbrev plain : Jwt
plain = record {
  Token = Members;
  fresh = end;
  set_payload_claim = member;
  payload = λ t. t;
  sign = λ key t. [];
  decode = λ text. some (member "identity" (string "ann") end);
  verify = λ key t. true;
  find-set = λ k j v t. refl;
}

abbrev nobody : Registry
nobody = record { publishers = []; control_sessions = [] }

abbrev same : List ℕ → List ℕ
same text = text

abbrev credentials : BasicAuth plain
credentials = record { user = "ann"; password = "pw" }

abbrev ann_user : User
ann_user = record { email = "ann@example.com"; identity = "ann" }

publisher-Admitted_example :
    (publisher plain same "public" (some []) (complete true) 1 nobody ≡ nobody)
    ⊎ ((complete true ≡ complete true)
        × Admitted plain same "public"
            (some [])
            1
            nobody
            (publisher plain same "public" (some []) (complete true) 1 nobody))
publisher-Admitted_example =
    publisher-Admitted plain same "public" (some []) (complete true) 1 nobody

publisher-reachable_example :
    (text : List ℕ) × (auth plain as_it_is users "private" (some credentials) ≡ done (token text))
    × (let r' = publisher plain same "public" (bearer same text) (complete true) 1 nobody in
        (current_session "ann" r' ≡ some 1)
        × ((Known.publisher "ann" r').services ≡ (Known.publisher "ann" nobody).services))
unfolding lookup token_for get_user
publisher-reachable_example =
    publisher-reachable plain same same as_it_is users "private" "public" credentials ann_user 1
      nobody refl refl (λ text. refl) refl refl
