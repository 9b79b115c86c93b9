-- ===== src/PublisherClient/Control.antt =====
-- publisherpp/src/publisherpp/publisher.cpp, onControlRead and onNewTunnel: what the publisher does
-- with the messages of the broker. The request to the authority and `json::parse` are arguments.
use Prim.Native.String.{◌++◌ as str_append}
use tunnel_drill.Prelude.{
  or_throw, ℕ, ◌≡◌, refl, ◌∙◌, inl, inr, ◌≢◌, false, ◌&&◌, List, [], ◌∷◌, Option, none, some,
  String, str_eq, ◌==◌, if◌then◌else◌, Outcome, done, thrown, ◌>>=◌, arith, Bool-cases,
  Option-cases, subst,
}
use tunnel_drill.Json.{
  Json, object, member, end, string, at, get_string, get_bool, get_int, json_of_int,
}
use tunnel_drill.PublisherClient.{Publisher, send_queued}

-- publisherpp Service, as far as it does not change.
pub record Service : Type 0 where
  pub name : Option String
  pub public_port : ℕ
  pub hidden_host : String
  pub hidden_port : ℕ

-- Service::name, with the decimal form of an `int`.
pub name_of_service : (ℕ → String) → Service → String
name_of_service to_string s = elim s.name [
  | some name ↦ name
  | none ↦ str_append s.hidden_host (str_append ":" (to_string s.hidden_port))
]

-- What a tunnel request gets: a session of this service with this token, for this tunnel.
pub record NewSession : Type 0 where
  pub service : Service
  pub token : String
  pub tunnel_id : String

-- The five values of a NewTunnel message.
pub record NewTunnel : Type 0 where
  pub service_id : String
  pub tunnel_id : String
  pub hidden_port : ℕ
  pub public_port : ℕ
  pub socket_type : String

-- The authority's answer to the request to sign: the status, and the token in the body; `none`
-- there is a body that does not parse, or has no token that is a string.
pub record Signed : Type 0 where
  pub code : ℕ
  pub token : Option String

-- std::find_if over `services_`
unfoldable pub find_service : ℕ → ℕ → List Service → Option Service
find_service hidden public [] = none
find_service hidden public (s ∷ ss) =
    if (s.hidden_port == hidden) && (s.public_port == public)
    then some s
    else find_service hidden public ss

abbrev pub failure : NewTunnel → String → Json
failure t reason = object (
    member "type" (string "NewTunnelFailed") (
      member "serviceId" (string t.service_id) (
        member "tunnelId" (string t.tunnel_id) (
          member "hiddenPort" (json_of_int t.hidden_port) (
            member "publicPort" (json_of_int t.public_port) (
              member "socketType" (string t.socket_type) (member "reason" (string reason) end)))))))

abbrev pub Reaction : Type 0
Reaction = Outcome (Publisher × Option NewSession)

module _ (services : List Service) (sign : NewTunnel → Signed) where
  -- Publisher::onNewTunnel
  unfoldable pub on_new_tunnel : NewTunnel → Publisher → Reaction
  on_new_tunnel t p = elim (find_service t.hidden_port t.public_port services) [
    | none ↦ done (send_queued (failure t "Unknown service") p, none)
    | some service ↦
        if (sign t).code == 200
        then (elim ((sign t).token) [
          | none ↦ thrown
          | some token ↦
              done (p, some (record { service = service; token = token; tunnel_id = t.tunnel_id }))
        ])
        else done (send_queued (failure t "Failed to sign tunnel request") p, none)
  ]

  unfoldable pub on_new_tunnel_message : Json → Publisher → Reaction
  on_new_tunnel_message j p = do
    service_id ← or_throw (get_string (at "serviceId" j))
    tunnel_id ← or_throw (get_string (at "tunnelId" j))
    hidden_port ← or_throw (get_int (at "hiddenPort" j))
    public_port ← or_throw (get_int (at "publicPort" j))
    socket_type ← or_throw (get_string (at "socketType" j))
    on_new_tunnel
        (record {
          service_id = service_id;
          tunnel_id = tunnel_id;
          hidden_port = hidden_port;
          public_port = public_port;
          socket_type = socket_type;
        })
        p

  -- Publisher::onControlRead, on the parsed message. Messages that are only logged do nothing.
  unfoldable pub on_control_read : Option Json → Publisher → Reaction
  unfolding on_new_tunnel_message
  on_control_read none p = thrown
  on_control_read (some j) p = do
    type ← or_throw (get_string (at "type" j))
    (if str_eq type "NewTunnel"
        then on_new_tunnel_message j p
        else if str_eq type "ServiceStartResult"
        then (do result ← or_throw (get_bool (at "result" j)); done (p, none))
        else done (p, none))

-- A service of the list with both ports.
pub data Serves (hidden public : ℕ) (s : Service) : List Service → Type 0 where
  first :
      {ss : List Service}
      → s.hidden_port ≡ hidden
      → s.public_port ≡ public
      → Serves hidden public s (s ∷ ss)
  later :
      {x : Service} {ss : List Service}
      → Serves hidden public s ss
      → Serves hidden public s (x ∷ ss)

some_eq : (x s : Service) → some x ≡ some s → x ≡ s
some_eq x s e = cc

pub find_service-Serves :
    (hidden public : ℕ) (s : Service) (ss : List Service)
    → find_service hidden public ss ≡ some s
    → Serves hidden public s ss
unfolding find_service
find_service-Serves hidden public s [] e = cc
find_service-Serves hidden public s (x ∷ ss) e = elim (Bool-cases (x.hidden_port == hidden)) [
  | inl h ↦ elim (Bool-cases (x.public_port == public)) [
    | inl q ↦
        subst (λ y. Serves hidden public y (x ∷ ss)) {x = x} (some_eq x s (rw (h, q) at e))
          (first (ground arith) (ground arith))
    | inr q ↦ later (find_service-Serves hidden public s ss (rw (h, q) at e))
  ]
  | inr h ↦ later (find_service-Serves hidden public s ss (rw h at e))
]

-- A tunnel is opened only on request for both ports of one service of the configuration, only with
-- the token that the authority signed for this very request, and under the tunnel's id; the
-- publisher itself does not change then.
pub on_new_tunnel-Serves :
    (services : List Service) (sign : NewTunnel → Signed) (t : NewTunnel) (p p' : Publisher)
    (n : NewSession)
    → on_new_tunnel services sign t p ≡ done (p', some n)
    → Serves t.hidden_port t.public_port n.service services
      × ((sign t).code ≡ 200)
      × ((sign t).token ≡ some n.token)
      × (n.tunnel_id ≡ t.tunnel_id)
      × (p' ≡ p)
unfolding on_new_tunnel
on_new_tunnel-Serves services sign t p p' n e =
    elim (Option-cases (find_service t.hidden_port t.public_port services)) [
      | inl f ↦ absurd (not_done (rw (f, on_new_tunnel) at e))
      | inr (service, f) ↦ elim (Bool-cases ((sign t).code == 200)) [
        | inr c ↦ absurd (not_done (rw (f, c, on_new_tunnel) at e))
        | inl c ↦ elim (Option-cases (sign t).token) [
          | inl k ↦ absurd (not_thrown (rw (f, c, k, on_new_tunnel) at e))
          | inr (token, k) ↦
              let q : ◌≡◌ {A = Reaction}
                  (done (
                    p,
                    some (record { service = service; token = token; tunnel_id = t.tunnel_id }),
                  ))
                  (done (p', some n)) =
                rw (f, c, k, on_new_tunnel) at e in
              (
                find_service-Serves t.hidden_port t.public_port n.service services (f ∙ cc),
                ground arith,
                k ∙ cc,
                cc,
                cc,
              )
        ]
      ]
    ]
  where
    not_done : {q : Publisher} → ◌≡◌ {A = Reaction} (done (q, none)) (done (p', some n)) → ⊥
    not_done h = cc

    not_thrown : ◌≡◌ {A = Reaction} thrown (done (p', some n)) → ⊥
    not_thrown h = cc

-- A request for a service that is not configured, and one that the authority does not sign, are
-- answered by one NewTunnelFailed message with the request's values and the reason.
pub on_new_tunnel-refused :
    (services : List Service) (sign : NewTunnel → Signed) (t : NewTunnel) (p : Publisher)
    → (find_service t.hidden_port t.public_port services ≡ none
        → on_new_tunnel services sign t p
          ≡ done (send_queued (failure t "Unknown service") p, none))
      × ((s : Service)
          → find_service t.hidden_port t.public_port services ≡ some s
          → (sign t).code ≢ 200
          → on_new_tunnel services sign t p
            ≡ done (send_queued (failure t "Failed to sign tunnel request") p, none))
unfolding on_new_tunnel
on_new_tunnel-refused services sign t p =
    ((λ f. rw (f, on_new_tunnel) refl), (λ s f c. rw (f, code_test c, on_new_tunnel) refl))
  where
    code_test : (sign t).code ≢ 200 → ((sign t).code == 200) ≡ false
    code_test c = ground arith
