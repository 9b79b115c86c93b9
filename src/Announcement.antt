-- ===== src/Announcement.antt =====
-- The handshake: what publisherpp/src/publisherpp/publisher.cpp sends on a new connection, with the
-- printer of publisherpp/include/publisherpp/service.hpp, and what the subscriber of "Handshake" in
-- brokerpp/src/brokerpp/publisher/publisher.cpp makes of it, with the reader of
-- brokerpp/include/brokerpp/publisher/service_info.hpp.
pub mod RoundTrip
use Prim.Native.String.{◌++◌ as str_append}
use tunnel_drill.Prelude.{
  ℕ, suc, ◌%◌, ◌^◌, Bool, true, false, not, ◌||◌, List, [], ◌∷◌, Option, none, some, String,
  if◌then◌else◌, ◌==◌, take,
}
use tunnel_drill.Json.{
  Json, Items, null, string, number, array, object, nil, cons, member, end, find, contains, at,
  get_string, get_int, get_string, get_unsigned_short, json_of_int, json_of_name, name_of, field,
}
use tunnel_drill.Tunnel.{ServiceInfo}
use tunnel_drill.Broker.{Publisher, Start, add_services}
use tunnel_drill.ControlSession.{ControlSession, write_json, respond_with_error}
use tunnel_drill.PublisherClient.Control.{Service}

-- to_json of a Service of the publisher.
abbrev pub json_of_service : Service → Json
json_of_service s = object (
    member "name" (json_of_name s.name) (
      member "publicPort" (json_of_int s.public_port) (
        member "hiddenHost" (string s.hidden_host)
          (member "hiddenPort" (json_of_int s.hidden_port) end))))

-- to_json of a shared pointer to a Service.
abbrev pub json_of_pointer : Option Service → Json
json_of_pointer none = null
json_of_pointer (some s) = json_of_service s

-- The publisher's pointers to its services are never null.
abbrev pub items_of : List Service → Items
items_of [] = nil
items_of (s ∷ ss) = cons (json_of_pointer (some s)) (items_of ss)

-- from_json of a Service of the publisher; `none` is an exception, here and below.
unfoldable pub service_from_json : Json → Option Service
service_from_json j = elim (field name_of "name" j) [
  | none ↦ none
  | some name ↦ elim (field get_int "publicPort" j) [
    | none ↦ none
    | some public ↦ elim (field get_string "hiddenHost" j) [
      | none ↦ none
      | some host ↦ elim (field get_int "hiddenPort" j) [
        | none ↦ none
        | some hidden ↦
            some (record {
              name = name;
              public_port = public;
              hidden_host = host;
              hidden_port = hidden;
            })
      ]
    ]
  ]
]

-- The message of `connectToBroker`.
abbrev pub handshake : String → List Service → Json
handshake identity services = object (
    member "type" (string "Handshake")
      (member "identity" (string identity) (member "services" (array (items_of services)) end)))

-- from_json of a ServiceInfo, which reads the fields in their order; `none` is an exception.
abbrev pub service_info_of : Json → Option ServiceInfo
service_info_of j = elim (field name_of "name" j) [
  | none ↦ none
  | some name ↦ elim (field get_unsigned_short "publicPort" j) [
    | none ↦ none
    | some public ↦ elim (field get_unsigned_short "hiddenPort" j) [
      | none ↦ none
      | some hidden ↦ some (record { name = name; public_port = public; hidden_port = hidden })
    ]
  ]
]

abbrev pub infos_of : Items → Option (List ServiceInfo)
infos_of nil = some []
infos_of (cons j js) = elim (service_info_of j) [
  | none ↦ none
  | some info ↦ elim (infos_of js) [ none ↦ none | some infos ↦ some (info ∷ infos) ]
]

-- get<std::vector<ServiceInfo>>()
abbrev pub services_of : Json → Option (List ServiceInfo)
services_of (array js) = infos_of js
services_of _ = none

-- The services with what the world answers to the first, the second, and so on.
abbrev pub numbered : ℕ → (ℕ → Start) → List ServiceInfo → List (Start × ServiceInfo)
numbered n start [] = []
numbered n start (info ∷ infos) = (start n, info) ∷ numbered (suc n) start infos

-- What the world answers to the services of a handshake in turn, and how many of them `addService`
-- has returned for when it throws, if it does.
pub record Additions : Type 0 where
  pub start : ℕ → Start
  pub throws_at : Option ℕ

-- Whether the publisher's current control session is the one with this number.
abbrev pub is_current : ℕ → Publisher → Bool
is_current own p = elim p.control_session [ none ↦ false | some current ↦ current == own ]

module _ (dump : Json → List ℕ) where
  pub write_all : List Json → ControlSession → ControlSession
  write_all [] s = s
  write_all (j ∷ js) s = write_all js (write_json dump j s)

  -- What the callback returns, the publisher and the session that subscribed. `what` is the text of
  -- an exception.
  pub record Answered : Type 0 where
    pub result : Bool
    pub publisher : Publisher
    pub session : ControlSession

  abbrev pub added : Publisher × List Json → ControlSession → Answered
  added (p, out) s = record { result = true; publisher = p; session = write_all out s }

  abbrev pub refused : String → String → ControlSession → ControlSession
  refused what ref s =
      respond_with_error dump ref (str_append "Exception during handshake parsing: " what) s

  -- The services are added in turn, until one throws, which keeps those before it. Each result goes
  -- to the publisher's current control session, so to this one only if it is the current one; what
  -- another session is written is not followed.
  abbrev pub announced_to :
      Option ℕ
      → Bool
      → String
      → List (Start × ServiceInfo)
      → String
      → Publisher
      → ControlSession
      → Answered
  announced_to none current what l ref p s = added (add_services current l p) s
  announced_to (some k) current what l ref p s =
      let a : Answered = added (add_services current (take k l) p) s in
      record a { result = false; session = refused what ref a.session }

  -- The subscriber of "Handshake" in Publisher::setCurrentControlSession; `publisher` says whether
  -- its weak pointer to the publisher can be locked, and `control` is the number of the session
  -- that subscribed, if the pointer to that can.
  pub on_handshake :
      Bool → Option ℕ → String → Additions → Json → String → Publisher → ControlSession → Answered
  unfolding write_all
  on_handshake publisher none what world j ref p s = record {
    result = true;
    publisher = p;
    session = s;
  }
  on_handshake publisher (some own) what world j ref p s =
      if not publisher
      then record { result = true; publisher = p; session = s }
      else if not (contains "services" j)
      then record {
        result = false;
        publisher = p;
        session = respond_with_error dump ref "Services missing on handshake." s;
      }
      else elim (services_of (at "services" j)) [
        | none ↦ record { result = false; publisher = p; session = refused what ref s }
        | some infos ↦
            announced_to world.throws_at (is_current own p) what (numbered 0 world.start infos) ref
              p s
      ]
