-- ===== src/Conversation/Keeps.antt =====
-- The subscribers of a control session, message after message.
use tunnel_drill.Prelude.{
  is_some, ℕ, zero, suc, ◌<◌, ◌≡◌, refl, ap, ◌∙◌, Bool, not, ◌||◌, List, [], ◌∷◌, Option, none,
  some, String, arith, Bool-cases, inl, inr, Outcome, done,
}
use tunnel_drill.Json.{Json}
use tunnel_drill.Dispatcher.{Subscribers, subscribe, Called, Dispatched}
use tunnel_drill.Dispatcher.Laws.{selected, state_of, dispatch-keeps}
use tunnel_drill.Broker.{Publisher}
use tunnel_drill.ControlSession.{ControlSession, respond}
use tunnel_drill.ControlSession.Keeps.{on_read-keeps}
use tunnel_drill.Announcement.{Answered, on_handshake, Additions}
use tunnel_drill.Conversation.{
  Wiring, held, set_current_control_session, counted, Talk, pong, responded, answered, on_ping,
  invoke, finished, on_json, on_text,
}

-- Each of the two types reaches its callback, and the counter is below a thousand.
pub record IsWired (w : Wiring) : Type 0 where
  pub handshakes : selected (held w.subscriptions) "Handshake" w.table ≡ 0 ∷ []
  pub pings : selected (held w.subscriptions) "Ping" w.table ≡ 1 ∷ []
  pub counter : w.ping_counter < 1000

counted_lem : (n : ℕ) → n < 1000 → counted n < 1000
counted_lem n h = ground arith

abbrev pub unwired : Publisher → Wiring
unwired p = record { publisher = p; ping_counter = 0; table = []; subscriptions = [] }

abbrev selects : String → Wiring → List ℕ
selects type w = selected (held w.subscriptions) type w.table

abbrev begun : ℕ → ℕ → Publisher → Wiring
begun first second p = record {
  publisher = p;
  ping_counter = 0;
  table = subscribe second "Ping" 1 (subscribe first "Handshake" 0 []);
  subscriptions = 0 ∷ 1 ∷ [];
}

begun-selects :
    (first second : ℕ) (p : Publisher)
    → (selects "Handshake" (begun first second p) ≡ 0 ∷ [])
      × (selects "Ping" (begun first second p) ≡ 1 ∷ [])
unfolding selected subscribe
begun-selects zero zero p = (refl, refl)
begun-selects zero (suc zero) p = (refl, refl)
begun-selects zero (suc (suc second)) p = (refl, refl)
begun-selects (suc first) zero p = (refl, refl)
begun-selects (suc first) (suc zero) p = (refl, refl)
begun-selects (suc first) (suc (suc second)) p = (refl, refl)

-- A new session is wired, wherever the table puts the entries.
pub set_current_control_session-IsWired :
    (first second session : ℕ) (p : Publisher)
    → IsWired (set_current_control_session first second (some session) (unwired p))
unfolding set_current_control_session
set_current_control_session-IsWired first second session p =
    let both = begun-selects first second (record p { control_session = some session }) in
    record { handshakes = both.0; pings = both.1; counter = omega arith }

-- What a callback may not touch, and what it keeps within its bound.
record IsKept (table : Subscribers) (subscriptions : List ℕ) (x : Talk) : Type 0 where
  same_table : x.0.table ≡ table
  same_subscriptions : x.0.subscriptions ≡ subscriptions
  bound : x.0.ping_counter < 1000

module _ (dump : Json → List ℕ) (publisher : Bool) (control : Option ℕ) (what : String)
    (world : Additions) (table : Subscribers) (subscriptions : List ℕ) where
  abbrev KeptBy : Called Talk → Type 0
  KeptBy c = IsKept table subscriptions (state_of c)

  responded-IsKept :
      (o : Option ControlSession) (x : Talk)
      → IsKept table subscriptions x
      → KeptBy (responded dump publisher control what world o x)
  responded-IsKept none (w, s) k = k
  responded-IsKept (some s') (w, s) k = record {
    same_table = k.same_table;
    same_subscriptions = k.same_subscriptions;
    bound = k.bound;
  }

  answered-IsKept :
      (a : Answered dump) (w : Wiring) (s : ControlSession)
      → IsKept table subscriptions (w, s)
      → KeptBy (answered dump publisher control what world a w)
  answered-IsKept a w s k = elim (Bool-cases a.result) [
    | inl h ↦ rw h (record {
      same_table = k.same_table;
      same_subscriptions = k.same_subscriptions;
      bound = k.bound;
    })
    | inr h ↦ rw h (record {
      same_table = k.same_table;
      same_subscriptions = k.same_subscriptions;
      bound = k.bound;
    })
  ]

  on_ping-IsKept :
      (ref : String) (x : Talk)
      → IsKept table subscriptions x
      → KeptBy (on_ping dump publisher control what world ref x)
  unfolding on_ping
  on_ping-IsKept ref (w, s) k = elim (Bool-cases (not publisher || not (is_some control))) [
    | inl h ↦ rw h (moved s)
    | inr h ↦ rw h (responded-IsKept (respond dump ref pong s) _ (moved s))
  ]
    where
      moved :
          (s : ControlSession)
          → IsKept table subscriptions (record w { ping_counter = counted w.ping_counter }, s)
      moved s = record {
        same_table = k.same_table;
        same_subscriptions = k.same_subscriptions;
        bound = counted_lem w.ping_counter k.bound;
      }

  invoke-IsKept :
      (n : ℕ) (j : Json) (ref : String) (x : Talk)
      → IsKept table subscriptions x
      → KeptBy (invoke dump publisher control what world n j ref x)
  unfolding invoke
  invoke-IsKept zero j ref (w, s) k =
      answered-IsKept (on_handshake dump publisher control what world j ref w.publisher s) w s k
  invoke-IsKept (suc n) j ref x k = on_ping-IsKept ref x k

module _ (dump : Json → List ℕ) (publisher : Bool) (control : Option ℕ) (what : String)
    (world : Additions) where
  finished-IsWired :
      (o : Outcome (Dispatched Talk)) (w : Wiring) (s : ControlSession)
      → IsWired w
      → ((d : Dispatched Talk)
          → o ≡ done d
          → IsKept w.table w.subscriptions d.state
            × ((other : String)
                → selected (held w.subscriptions) other d.table
                  ≡ selected (held w.subscriptions) other w.table))
      → IsWired (finished dump publisher control what world w s o).1
  finished-IsWired (done d) w s v h =
      let (k, e) = h d refl in
      record {
        handshakes =
            ap (λ l. selected (held l) "Handshake" d.table) k.same_subscriptions
            ∙ e "Handshake"
            ∙ v.handshakes;
        pings =
            ap (λ l. selected (held l) "Ping" d.table) k.same_subscriptions ∙ e "Ping" ∙ v.pings;
        counter = k.bound;
      }
  finished-IsWired Outcome.out_of_fuel w s v h = v
  finished-IsWired Outcome.undefined w s v h = v
  finished-IsWired Outcome.thrown w s v h = v

  on_json-IsWired :
      (j : Json) (ref : String) (w : Wiring) (s : ControlSession)
      → IsWired w
      → IsWired (on_json dump publisher control what world j ref w s).1
  unfolding on_json
  on_json-IsWired j ref w s v = finished-IsWired _ w s v (
      dispatch-keeps (IsKept w.table w.subscriptions) (held w.subscriptions)
        (invoke dump publisher control what world) j ref w.table (w, s)
        (λ n x k.
          invoke-IsKept dump publisher control what world w.table w.subscriptions n j ref x k)
        (record { same_table = refl; same_subscriptions = refl; bound = v.counter }))

  -- Whatever text or binary message is read, in whatever state of the session, whatever the
  -- callbacks answer: handshakes and pings that come later still reach their callbacks, each one
  -- once, and the counter of pings stays below a thousand.
  pub on_text-IsWired :
      (parse : List ℕ → Option Json) (is_binary : Bool) (text : List ℕ) (w : Wiring)
      (s : ControlSession)
      → IsWired w
      → IsWired (on_text dump publisher control what world parse is_binary text w s).0
  unfolding on_text
  on_text-IsWired parse is_binary text w s v =
      on_read-keeps dump parse (on_json dump publisher control what world) IsWired on_json-IsWired
        is_binary text w s v
