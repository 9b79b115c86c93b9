-- ===== src/ControlSession.antt =====
-- brokerpp/src/brokerpp/control/control_session.cpp: what a control session reads and writes.
-- `json::parse`, `json::dump` and the dispatcher's callbacks are arguments.
pub mod Queue
pub mod Streams
pub mod Keeps
mod Examples
use tunnel_drill.Prelude.{
  ℕ, suc, ◌+◌, Bool, true, false, List, [], ◌∷◌, ◌++◌, Option, none, some, String, if◌then◌else◌,
}
use tunnel_drill.Json.{Json, Members, object, member, end, string, number, contains, at, get_string}
use tunnel_drill.Parser.{
  StreamParser, empty, Popped, nothing, message, parse_error, feed, pop_message,
}
use tunnel_drill.Tunnel.{ServiceInfo}

-- ControlSession::Implementation. `sent` are the payloads given to `ws->send`, oldest first;
-- `in_flight` counts the sends that have not completed; `ended` says that `endSelf` was called.
pub record ControlSession : Type 0 where
  pub identity : String
  pub text_parser : StreamParser
  pub pending_messages : List (List ℕ)
  pub write_in_progress : Bool
  pub sent : List (List ℕ)
  pub in_flight : ℕ
  pub ended : Bool

-- ControlSession's constructor.
pub constructed : ControlSession
constructed = record {
  identity = "";
  text_parser = empty;
  pending_messages = [];
  write_in_progress = false;
  sent = [];
  in_flight = 0;
  ended = false;
}

write_front : List (List ℕ) → ControlSession → ControlSession
write_front [] s = record s { write_in_progress = false }
write_front (msg ∷ rest) s = record s {
  pending_messages = rest;
  write_in_progress = true;
  sent = s.sent ++ (msg ∷ []);
  in_flight = suc s.in_flight;
}

-- ControlSession::writeOnce
pub write_once : ControlSession → ControlSession
unfolding write_front
write_once s = write_front s.pending_messages s

-- ControlSession::writeJson, after `dump`.
pub write_payload : List ℕ → ControlSession → ControlSession
unfolding write_once
write_payload msg s =
    let s' : ControlSession = record s { pending_messages = s.pending_messages ++ (msg ∷ []) } in
    if s.write_in_progress then s' else write_once s'

-- The handlers of a send; `n` sends are still in flight behind it.
pub on_sent : ℕ → ControlSession → ControlSession
unfolding write_once
on_sent n s = write_once (record s { in_flight = n })

pub on_send_failed : ℕ → ControlSession → ControlSession
on_send_failed n s = record s { in_flight = n; ended = true }

-- The handler of a read that failed; what it logs depends on the error, and that it ends does not.
abbrev pub on_read_failed : ControlSession → ControlSession
on_read_failed s = record s { ended = true }

-- A JSON object with the given members.
abbrev pub pair : String → Json → Members → Members
pair k v ms = member k v ms

-- The message of `informAboutConnection`.
abbrev pub new_tunnel_message : ServiceInfo → String → String → Json
new_tunnel_message info service_id tunnel_id = object (
    pair "type" (string "NewTunnel") (
      pair "serviceId" (string service_id) (
        pair "tunnelId" (string tunnel_id) (
          pair "publicPort" (number info.public_port)
            (pair "hiddenPort" (number info.hidden_port) (pair "socketType" (string "tcp") end))))))

-- How the read handler ends: it reads again, it does not, or an exception leaves it, after the
-- scope guard has started the next read.
pub data Reading : Type 0 where
  again stopped escaped : Reading

module _ (dump : Json → List ℕ) where
  unfoldable pub write_json : Json → ControlSession → ControlSession
  unfolding write_payload
  write_json j s = write_payload (dump j) s

  -- ControlSession::respondWithError
  pub respond_with_error : String → String → ControlSession → ControlSession
  unfolding write_json
  respond_with_error ref msg = write_json (
      object
        (pair "type" (string "Error") (pair "ref" (string ref) (pair "error" (string msg) end))))

  -- ControlSession::respond; `none` is the exception of a "type" that is no string.
  unfoldable pub respond : String → Json → ControlSession → Option ControlSession
  unfolding write_json
  respond ref j s =
      elim (if contains "type" j then get_string (at "type" j) else some "GenericResponse") [
        | none ↦ none
        | some type ↦ some (
            write_json
              (object (pair "type" (string type) (pair "ref" (string ref) (pair "payload" j end))))
              s)
      ]

  -- ControlSession::informAboutConnection, for the service that `getService` found, if any.
  unfoldable pub inform_about_connection :
      Option ServiceInfo → String → String → ControlSession → ControlSession
  unfolding write_json
  inform_about_connection none service_id tunnel_id s = s
  inform_about_connection (some info) service_id tunnel_id s =
      write_json (new_tunnel_message info service_id tunnel_id) s

  module _ (parse : List ℕ → Option Json) where
    -- The dispatcher's callbacks: whether they threw, and after them the session and what else they
    -- change.
    module _ {E : Type 0}
        (dispatch : Json → String → E → ControlSession → Bool × E × ControlSession) where
      abbrev pub dispatched : Bool × E × ControlSession → E × ControlSession × Reading
      dispatched (true, e, s) = (e, record s { ended = true }, stopped)
      dispatched (false, e, s) = (e, s, again)

      abbrev pub ref_of : Json → Option String
      ref_of j = if contains "ref" j then get_string (at "ref" j) else some ""

      on_message : Json → E → ControlSession → E × ControlSession × Reading
      unfolding respond_with_error
      on_message j e s = elim (ref_of j) [
        | none ↦ (e, s, escaped)
        | some ref ↦
            if contains "type" j
            then (elim (get_string (at "type" j)) [
              | none ↦ (e, s, escaped)
              | some type ↦ dispatched (dispatch j ref e s)
            ])
            else (e, respond_with_error ref "Type missing in message." s, again)
      ]

      abbrev popped : Popped Json × StreamParser → E → ControlSession → E × ControlSession × Reading
      popped (nothing, p) e s = (e, record s { text_parser = p }, again)
      popped (message j, p) e s = on_message j e (record s { text_parser = p })
      popped (parse_error, p) e s = (e, record s { text_parser = p }, escaped)

      -- ControlSession::onRead
      pub on_read : Bool → List ℕ → E → ControlSession → E × ControlSession × Reading
      unfolding on_message
      on_read is_binary text e s =
          if is_binary
          then (e, s, again)
          else popped (pop_message parse (feed text s.text_parser)) e s
