-- ===== src/Conversation/Examples.antt =====
-- The messages of a publisher with one service, on a session that has just been wired.
use tunnel_drill.Prelude.{
  none, ℕ, ◌≡◌, ◌%◌, suc, true, false, List, [], ◌∷◌, map, Option, some, arith, refl,
}
use tunnel_drill.Json.{Json}
use tunnel_drill.Parser.{empty}
use tunnel_drill.Parser.Syntax.{end, print_object}
use tunnel_drill.Parser.RoundTrip.{fresh}
use tunnel_drill.Broker.{Publisher, add_services}
use tunnel_drill.ControlSession.{ControlSession, again, write_json}
use tunnel_drill.PublisherClient.{ping}
use tunnel_drill.PublisherClient.Control.{Service}
use tunnel_drill.Announcement.{Additions, handshake, numbered, write_all}
use tunnel_drill.Announcement.RoundTrip.{info_of}
use tunnel_drill.Conversation.{Wiring, set_current_control_session, on_text}
use tunnel_drill.Conversation.Keeps.{
  IsWired, unwired, set_current_control_session-IsWired, on_text-IsWired,
}
use tunnel_drill.Conversation.Messages.{ping_response, on_text-handshake, on_text-ping}

abbrev web : Service
web = record { name = some "web"; public_port = 80; hidden_host = "localhost"; hidden_port = 8080 }

abbrev ann : Publisher
ann = record { identity = "ann"; services = []; control_session = some 1 }

abbrev wired : Wiring
wired = set_current_control_session 0 1 (some 1) (unwired ann)

wired-IsWired : IsWired wired
wired-IsWired = set_current_control_session-IsWired 0 1 1 ann

abbrev opened : ControlSession
opened = record {
  identity = "ann";
  text_parser = empty;
  pending_messages = [];
  write_in_progress = false;
  sent = [];
  in_flight = 0;
  ended = false;
}

abbrev dump_nothing : Json → List ℕ
dump_nothing j = []

abbrev starts : Additions
starts = record { start = λ n. record { id = "s"; succeeds = true }; throws_at = none }

abbrev parse_handshake : List ℕ → Option Json
parse_handshake text = some (handshake "ann" (web ∷ []))

abbrev parse_ping : List ℕ → Option Json
parse_ping text = some ping

on_text-IsWired_example :
    IsWired
      (on_text dump_nothing true
        (some 1)
        ""
        starts
        parse_ping
        false
        (print_object end)
        wired
        opened).0
on_text-IsWired_example =
    on_text-IsWired dump_nothing true (some 1) "" starts parse_ping false (print_object end) wired
      opened wired-IsWired

on_text-handshake_example :
    let r =
      on_text dump_nothing true
        (some 1)
        ""
        starts
        parse_handshake
        false
        (print_object end)
        wired
        opened in
    let q = add_services true (numbered 0 starts.start (map info_of (web ∷ []))) wired.publisher in
    (r.0.publisher ≡ q.0)
    × (r.0.ping_counter ≡ wired.ping_counter)
    × (r.1 ≡ write_all dump_nothing q.1 (record opened { text_parser = fresh [] }))
    × (r.2 ≡ again)
unfolding set_current_control_session
on_text-handshake_example =
    on_text-handshake dump_nothing "" starts 1 parse_handshake end wired opened wired-IsWired tt
      refl "ann" (web ∷ []) refl ((omega arith, omega arith), tt) refl

on_text-ping_example :
    let r =
      on_text dump_nothing true
        (some 1)
        ""
        starts
        parse_ping
        false
        (print_object end)
        wired
        opened in
    (r.0.publisher ≡ wired.publisher)
    × (r.0.ping_counter ≡ suc wired.ping_counter % 1000)
    × (r.1 ≡ write_json dump_nothing ping_response (record opened { text_parser = fresh [] }))
    × (r.2 ≡ again)
on_text-ping_example =
    on_text-ping dump_nothing "" starts 1 parse_ping end wired opened wired-IsWired tt refl refl
