-- ===== src/Conversation/Messages.antt =====
-- The two messages that a publisher sends, from the text that is read to what the broker makes of
-- it.
use tunnel_drill.Prelude.{
  none, ℕ, suc, ◌<◌, ◌%◌, arith, ◌≡◌, refl, ap, ◌∙◌, Bool, true, false, List, [], ◌∷◌, map, Option,
  some, String, All, done,
}
use tunnel_drill.Json.{Json, object, member, end, string, at, contains, get_string}
use tunnel_drill.Parser.Syntax.{Body, print_object, IsBody}
use tunnel_drill.Parser.RoundTrip.{fresh}
use tunnel_drill.Dispatcher.{goes_on, Ending, through, Dispatched, type_of}
use tunnel_drill.Dispatcher.Laws.{selected, run, dispatch-run}
use tunnel_drill.Broker.{add_services}
use tunnel_drill.ControlSession.{ControlSession, again, write_json, respond, dispatched, ref_of}
use tunnel_drill.ControlSession.Streams.{on_read-message}
use tunnel_drill.PublisherClient.Control.{Service}
use tunnel_drill.PublisherClient.{ping}
use tunnel_drill.Announcement.{handshake, numbered, write_all, Additions, is_current}
use tunnel_drill.Announcement.RoundTrip.{HasPorts, info_of, on_handshake-handshake}
use tunnel_drill.Conversation.{
  Wiring, held, counted, Talk, pong, on_ping, invoke, answered, threw, finished, on_json, on_text,
}
use tunnel_drill.Conversation.Keeps.{IsWired}

-- The response to a ping, as `respond` wraps it.
abbrev pub ping_response : Json
ping_response =
    object
      (member "type" (string "Pong") (member "ref" (string "Ping") (member "payload" pong end)))

counted_mod : (n : ℕ) → n < 1000 → counted n ≡ suc n % 1000
counted_mod n h = ground arith

module _ (dump : Json → List ℕ) (what : String) (world : Additions) (own : ℕ) where
  -- What a message with one subscriber comes to, if its callback returns true.
  on_json-called :
      (j : Json) (ref type : String) (n : ℕ) (w w' : Wiring) (s s' : ControlSession)
      → type_of j ≡ done type
      → selected (held w.subscriptions) type w.table ≡ n ∷ []
      → invoke dump true (some own) what world n j ref (w, s) ≡ goes_on (w', s')
      → let r = on_json dump true (some own) what world j ref w s in
        (r.0 ≡ false)
        × (r.1.publisher ≡ w'.publisher)
        × (r.1.ping_counter ≡ w'.ping_counter)
        × (r.2 ≡ s')
  unfolding on_json run
  on_json-called j ref type n w w' s s' t one c =
      let (d, e, r, k) =
        dispatch-run (held w.subscriptions) (invoke dump true (some own) what world) j ref type
          w.table (w, s) t in
      rw e (ended d (r ∙ rw (one, run, c) refl))
    where
      ended :
          (d : Dispatched Talk)
          → ◌≡◌ {A = Talk × Ending} (d.state, d.ending) ((w', s'), through)
          → let r = finished dump true (some own) what world w s (done d) in
            (r.0 ≡ false)
            × (r.1.publisher ≡ w'.publisher)
            × (r.1.ping_counter ≡ w'.ping_counter)
            × (r.2 ≡ s')
      ended d q = (
        ap (λ x. threw dump true (some own) what world (x.1)) q,
        ap (λ x. x.0.0.publisher) q,
        ap (λ x. x.0.0.ping_counter) q,
        ap (λ x. x.0.1) q,
      )

  invoke-handshake :
      (identity ref : String) (ss : List Service) (w : Wiring) (s : ControlSession)
      → All HasPorts ss
      → world.throws_at ≡ none
      → let q =
          add_services
            (is_current own w.publisher)
            (numbered 0 world.start (map info_of ss))
            w.publisher in
        invoke dump true (some own) what world 0 (handshake identity ss) ref (w, s)
        ≡ goes_on (record w { publisher = q.0 }, write_all dump q.1 s)
  unfolding invoke
  invoke-handshake identity ref ss w s h q =
      ap (λ a. answered dump true (some own) what world a w)
        (on_handshake-handshake dump what identity ref world own ss w.publisher s h q)

  type_of-handshake :
      (identity : String) (ss : List Service) → type_of (handshake identity ss) ≡ done "Handshake"
  unfolding type_of
  type_of-handshake identity ss = refl

  type_of-ping : type_of ping ≡ done "Ping"
  unfolding type_of
  type_of-ping = refl

  invoke-ping :
      (w : Wiring) (s : ControlSession)
      → invoke dump true (some own) what world 1 ping "Ping" (w, s)
        ≡ goes_on
            (record w { ping_counter = counted w.ping_counter }, write_json dump ping_response s)
  unfolding invoke on_ping respond
  invoke-ping w s = refl

  dispatched-again :
      (parse : List ℕ → Option Json) (r : Bool × Wiring × ControlSession)
      → r.0 ≡ false
      → dispatched dump parse (on_json dump true (some own) what world) r ≡ (r.1, r.2, again)
  dispatched-again parse (false, w, s) e = refl
  dispatched-again parse (true, w, s) e = absurd (cc e)

  -- The text of a message with one subscriber, whose callback returns true.
  on_text-called :
      (parse : List ℕ → Option Json) (b : Body) (j : Json) (ref type : String) (n : ℕ)
      (w w' : Wiring) (s s' : ControlSession)
      → IsBody b
      → s.text_parser ≡ fresh []
      → parse (print_object b) ≡ some j
      → ref_of dump parse (on_json dump true (some own) what world) j ≡ some ref
      → contains "type" j ≡ true
      → get_string (at "type" j) ≡ some type
      → type_of j ≡ done type
      → selected (held w.subscriptions) type w.table ≡ n ∷ []
      → invoke dump true (some own) what world n j ref (w, record s { text_parser = fresh [] })
        ≡ goes_on (w', s')
      → let r = on_text dump true (some own) what world parse false (print_object b) w s in
        (r.0.publisher ≡ w'.publisher)
        × (r.0.ping_counter ≡ w'.ping_counter)
        × (r.1 ≡ s')
        × (r.2 ≡ again)
  unfolding on_text
  on_text-called parse b j ref type n w w' s s' hb k read r c t u one called =
      let (quiet, p, q, x) =
        on_json-called j ref type n w w' (record s { text_parser = fresh [] }) s' u one called in
      rw
        (on_read-message dump parse (on_json dump true (some own) what world) b j ref type w s hb k
            read r c t
          ∙ dispatched-again parse
              (on_json dump true (some own) what world j ref w
                (record s { text_parser = fresh [] }))
              quiet)
        (p, q, x, refl)

  module _ (parse : List ℕ → Option Json) (b : Body) (w : Wiring) (s : ControlSession)
      (v : IsWired w) (hb : IsBody b) (k : s.text_parser ≡ fresh []) where
    -- Let the parser of a wired session hold nothing, and let the text be one object, which
    -- json::parse reads as the handshake of a publisher, whose services' ports are ints. If the
    -- callback's pointers can be locked and `addService` does not throw, the broker adds exactly
    -- these services in their order, with their names and the lower 16 bits of their ports, counts
    -- no ping and reads on. It writes the result of each addition on the session if this is the
    -- publisher's current control session, and nothing on it otherwise.
    pub on_text-handshake :
        (identity : String) (ss : List Service)
        → parse (print_object b) ≡ some (handshake identity ss)
        → All HasPorts ss
        → world.throws_at ≡ none
        → let r = on_text dump true (some own) what world parse false (print_object b) w s in
          let q =
            add_services
              (is_current own w.publisher)
              (numbered 0 world.start (map info_of ss))
              w.publisher in
          (r.0.publisher ≡ q.0)
          × (r.0.ping_counter ≡ w.ping_counter)
          × (r.1 ≡ write_all dump q.1 (record s { text_parser = fresh [] }))
          × (r.2 ≡ again)
    on_text-handshake identity ss read ports quiet =
        on_text-called parse b (handshake identity ss) "" "Handshake" 0 w _ s _ hb k read refl refl
          refl (type_of-handshake identity ss) v.handshakes
          (invoke-handshake identity "" ss w (record s { text_parser = fresh [] }) ports quiet)

    -- On such a session, and for the publisher's ping in the place of its handshake, the broker
    -- counts one ping more, or starts again from 0 behind 999, leaves the publisher as it is,
    -- writes one response with the ping's ref, and reads on.
    pub on_text-ping :
        parse (print_object b) ≡ some ping
        → let r = on_text dump true (some own) what world parse false (print_object b) w s in
          (r.0.publisher ≡ w.publisher)
          × (r.0.ping_counter ≡ suc w.ping_counter % 1000)
          × (r.1 ≡ write_json dump ping_response (record s { text_parser = fresh [] }))
          × (r.2 ≡ again)
    on_text-ping read =
        let (p, q, x, g) =
          on_text-called parse b ping "Ping" "Ping" 1 w _ s _ hb k read refl refl refl type_of-ping
            v.pings (invoke-ping w (record s { text_parser = fresh [] })) in
        (p, q ∙ counted_mod w.ping_counter v.counter, x, g)
