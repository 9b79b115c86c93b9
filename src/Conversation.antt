-- ===== src/Conversation.antt =====
-- The subscribers that Publisher::setCurrentControlSession of
-- brokerpp/src/brokerpp/publisher/publisher.cpp puts on a control session, and the read handler of
-- control_session.cpp with them, through the dispatcher. The text of an exception, the answers to
-- the services that are started, and whether the callbacks' weak pointers can be locked are
-- arguments.
pub mod Keeps
pub mod Messages
mod Examples
use tunnel_drill.Prelude.{
  is_some, ℕ, zero, suc, ◌%◌, Bool, true, false, not, ◌||◌, List, [], ◌∷◌, ◌++◌, Option, none, some,
  String, ◌==◌, if◌then◌else◌, Outcome, done,
}
use tunnel_drill.Json.{Json, object, member, end, string}
use tunnel_drill.Dispatcher.{
  Subscribers, subscribe, Called, goes_on, stops, raises, Ending, through, stopped, raised,
  Dispatched, dispatch,
}
use tunnel_drill.Broker.{Publisher, Start}
use tunnel_drill.ControlSession.{ControlSession, respond, on_read, Reading}
use tunnel_drill.Announcement.{Answered, on_handshake, Additions}

-- What a message may change besides the control session: the publisher, the counter that the "Ping"
-- callback owns, the dispatcher, and the subscriptions that the session holds, under their numbers.
pub record Wiring : Type 0 where
  pub publisher : Publisher
  pub ping_counter : ℕ
  pub table : Subscribers
  pub subscriptions : List ℕ

-- Whether the weak pointer to a subscription can be locked.
abbrev pub held : List ℕ → ℕ → Bool
held [] n = false
held (m ∷ ms) n = m == n || held ms n

-- ControlSession::subscribe; `place` is where the dispatcher's table puts the entry.
abbrev pub subscribed : ℕ → String → ℕ → Wiring → Wiring
subscribed place type n w = record w {
  table = subscribe place type n w.table;
  subscriptions = w.subscriptions ++ (n ∷ []);
}

-- Publisher::setCurrentControlSession, for the session that could be locked, if it could. Its two
-- callbacks have the numbers 0 and 1.
pub set_current_control_session : ℕ → ℕ → Option ℕ → Wiring → Wiring
set_current_control_session first second none w = w
set_current_control_session first second (some session) w = subscribed second "Ping" 1 (
    subscribed first "Handshake" 0 (record w {
      publisher = record w.publisher { control_session = some session };
      ping_counter = 0;
    }))

-- ++pingCounter, and back to 0 after a thousand.
abbrev pub counted : ℕ → ℕ
counted n = if suc n % 1000 == 0 then 0 else suc n

abbrev pub pong : Json
pong = object (member "type" (string "Pong") end)

abbrev pub Talk : Type 0
Talk = Wiring × ControlSession

module _ (dump : Json → List ℕ) (publisher : Bool) (control : Option ℕ) (what : String)
    (world : Additions) where
  -- The callback returns true behind `respond`, unless that throws.
  abbrev responded : Option ControlSession → Talk → Called Talk
  responded none (w, s) = raises (w, s)
  responded (some s') (w, s) = goes_on (w, s')

  -- The callback of "Ping".
  pub on_ping : String → Talk → Called Talk
  on_ping ref (w, s) =
      let w' : Wiring = record w { ping_counter = counted w.ping_counter } in
      if not publisher || not (is_some control)
      then goes_on (w', s)
      else responded (respond dump ref pong s) (w', s)

  abbrev answered : Answered dump → Wiring → Called Talk
  answered a w =
      if a.result
      then goes_on (record w { publisher = a.publisher }, a.session)
      else stops (record w { publisher = a.publisher }, a.session)

  -- The callbacks under their numbers.
  pub invoke : ℕ → Json → String → Talk → Called Talk
  unfolding on_ping
  invoke zero j ref (w, s) =
      answered (on_handshake dump publisher control what world j ref w.publisher s) w
  invoke (suc n) j ref t = on_ping ref t

  abbrev pub threw : Ending → Bool
  threw through = false
  threw stopped = false
  threw raised = true

  -- The read handler calls `onJson` for messages with a type that is a string only; for these,
  -- `dispatch` itself does not end in the second way.
  abbrev pub finished :
      Wiring → ControlSession → Outcome (Dispatched Talk) → Bool × Wiring × ControlSession
  finished w s (done d) = (threw d.ending, record d.state.0 { table = d.table }, d.state.1)
  finished w s _ = (true, w, s)

  -- ControlSession::onJson: whether an exception left it, and what it leaves.
  pub on_json : Json → String → Wiring → ControlSession → Bool × Wiring × ControlSession
  unfolding invoke
  on_json j ref w s = finished w s (dispatch (held w.subscriptions) invoke j ref w.table (w, s))

  -- ControlSession::onRead with these subscribers.
  pub on_text :
      (List ℕ → Option Json)
      → Bool
      → List ℕ
      → Wiring
      → ControlSession
      → Wiring × ControlSession × Reading
  unfolding on_json
  on_text parse is_binary text w s = on_read dump parse on_json is_binary text w s
