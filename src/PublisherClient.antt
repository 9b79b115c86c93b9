-- ===== src/PublisherClient.antt =====
-- publisherpp/src/publisherpp/publisher.cpp: the publisher's connection to the broker, with its
-- retries, its timers and its send queue. What the network answers is an argument of the handlers.
pub mod Backoff
pub mod Stall
pub mod Control
mod Examples
use tunnel_drill.Prelude.{
  ℕ, suc, ◌*◌, ◌≡◌, Bool, true, false, List, [], ◌∷◌, ◌++◌, Option, none, some, ltb, ◌==◌,
  if◌then◌else◌,
}
use tunnel_drill.Json.{Json, object, member, end, string}

-- The fields of the class that change, with what the websocket and the timers have been asked:
-- `sent` are the payloads given to `ws_->send`, oldest first, `in_flight` counts the sends that
-- have not completed, `waits` are the delays of the reconnect timer's waits so far, oldest first,
-- and `wait_pending`, `alive_pending`, `connect_pending` and `reads` say what has not completed.
pub record Publisher : Type 0 where
  pub operations : List Json
  pub send_in_progress : Bool
  pub sent : List Json
  pub in_flight : ℕ
  pub reconnect_time : ℕ
  pub is_reconnecting : Bool
  pub waits : List ℕ
  pub wait_pending : Bool
  pub alive_pending : Bool
  pub connect_pending : Bool
  pub reads : ℕ

-- Publisher::Publisher
pub init : Publisher
init = record {
  operations = [];
  send_in_progress = false;
  sent = [];
  in_flight = 0;
  reconnect_time = 1;
  is_reconnecting = false;
  waits = [];
  wait_pending = false;
  alive_pending = false;
  connect_pending = false;
  reads = 0;
}

send_front : List Json → Publisher → Publisher
send_front [] p = record p { send_in_progress = false }
send_front (op ∷ rest) p = record p {
  operations = rest;
  send_in_progress = true;
  sent = p.sent ++ (op ∷ []);
  in_flight = suc p.in_flight;
}

-- Publisher::sendOnceFromQueue
pub send_once_from_queue : Publisher → Publisher
unfolding send_front
send_once_from_queue p = send_front p.operations p

-- Publisher::sendQueued
pub send_queued : Json → Publisher → Publisher
unfolding send_once_from_queue
send_queued j p =
    let p' : Publisher = record p { operations = p.operations ++ (j ∷ []) } in
    if p.send_in_progress then p' else send_once_from_queue p'

-- Publisher::stopAliveTimer
abbrev pub stop_alive_timer : Publisher → Publisher
stop_alive_timer p = record p { alive_pending = false }

-- reconnectTime_ *= 2, and 60 seconds at most.
abbrev pub doubled : ℕ → ℕ
doubled t = if ltb 60 (t * 2) then 60 else t * 2

-- Publisher::retryConnect
pub retry_connect : Publisher → Publisher
retry_connect p = if p.is_reconnecting then stop_alive_timer p else record (stop_alive_timer p) {
  is_reconnecting = true;
  waits = p.waits ++ (p.reconnect_time ∷ []);
  wait_pending = true;
  reconnect_time = doubled p.reconnect_time;
}

-- The answer of the authority: curl's result, and the HTTP status.
pub record Response : Type 0 where
  pub result : ℕ
  pub code : ℕ

-- Publisher::connectToBroker, up to the connect that it begins.
abbrev pub connect_to_broker : Publisher → Publisher
connect_to_broker p = record p { connect_pending = true }

-- Publisher::authenticate
pub authenticate : Response → Publisher → Publisher
unfolding retry_connect
authenticate r p =
    if r.result == 0
    then (if r.code == 200 then connect_to_broker p else retry_connect p)
    else retry_connect p

-- The handler of the reconnect timer, where the wait was not cancelled.
pub on_wait_over : Response → Publisher → Publisher
unfolding authenticate
on_wait_over r p = authenticate r (record p { wait_pending = false; is_reconnecting = false })

abbrev pub ping : Json
ping = object (member "type" (string "Ping") (member "ref" (string "Ping") end))

-- The handler of the connect: timers, reading, and the handshake message.
pub on_connected : Json → Publisher → Publisher
unfolding send_queued
on_connected handshake p = send_queued handshake (record p {
  connect_pending = false;
  alive_pending = true;
  reconnect_time = 1;
  reads = suc p.reads;
})

pub on_connect_failed : Publisher → Publisher
unfolding retry_connect
on_connect_failed p = retry_connect (record p { connect_pending = false })

-- The handler of the alive timer, where the wait was not cancelled.
pub on_alive : Publisher → Publisher
unfolding send_queued
on_alive p = record (send_queued ping p) { alive_pending = true }

-- The handlers of a send; `n` sends are still in flight behind it.
pub on_sent : ℕ → Publisher → Publisher
unfolding send_once_from_queue
on_sent n p = send_once_from_queue (record p { in_flight = n })

pub on_send_failed : ℕ → Publisher → Publisher
unfolding retry_connect
on_send_failed n p = retry_connect (record p { in_flight = n })

-- The failure of a read.
pub on_read_failed : ℕ → Publisher → Publisher
unfolding retry_connect
on_read_failed n p = retry_connect (record p { reads = n })

-- What can happen to the publisher. `handshake` is the message that it sends on each connection;
-- `says` is what handling a message of the broker sends.
pub data Step (handshake : Json) : Publisher → Publisher → Type 0 where
  wait_over : (p : Publisher) (r : Response) → Step handshake p (on_wait_over r p)
  connected : (p : Publisher) → Step handshake p (on_connected handshake p)
  connect_failed : (p : Publisher) → Step handshake p (on_connect_failed p)
  alive : (p : Publisher) → Step handshake p (on_alive p)
  says : (p : Publisher) (j : Json) → Step handshake p (send_queued j p)
  sent_one : (p : Publisher) (n : ℕ) → p.in_flight ≡ suc n → Step handshake p (on_sent n p)
  send_failed :
      (p : Publisher) (n : ℕ) → p.in_flight ≡ suc n → Step handshake p (on_send_failed n p)
  read_failed : (p : Publisher) (n : ℕ) → p.reads ≡ suc n → Step handshake p (on_read_failed n p)

pub data Reach (handshake : Json) (p : Publisher) : Publisher → Type 0 where
  here : Reach handshake p p
  next : {q r : Publisher} → Reach handshake p q → Step handshake q r → Reach handshake p r
