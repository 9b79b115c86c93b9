-- ===== src/ControlSession/Examples.antt =====
-- The theorems on control sessions at a concrete session.
use tunnel_drill.Prelude.{
  ℕ, suc, ◌≤◌, ◌≡◌, ◌≢◌, refl, Bool, false, List, [], ◌∷◌, ◌++◌, Option, some, String, arith,
}
use tunnel_drill.Json.{Json, null}
use tunnel_drill.Parser.{empty, parsed}
use tunnel_drill.Parser.Scan.{pop_message-open_curly}
use tunnel_drill.Parser.Syntax.{end, print_object}
use tunnel_drill.Parser.RoundTrip.{fresh}
use tunnel_drill.ControlSession.{ControlSession, write_payload, on_sent, again, popped, on_read}
use tunnel_drill.ControlSession.Queue.{here, next, writes, completes, Run-in_order}
use tunnel_drill.ControlSession.Streams.{on_read-split, on_read-first}

abbrev opened : ControlSession
opened = record {
  identity = "ann";
  text_parser = empty;
  pending_messages = [];
  write_in_progress = false;
  sent = [];
  in_flight = 0;
  ended = false;
}

abbrev dump_nothing : Json → List ℕ
dump_nothing j = []

abbrev parse_null : List ℕ → Option Json
parse_null text = some null

abbrev ignore : Json → String → ℕ → ControlSession → Bool × ℕ × ControlSession
ignore j ref calls s = (false, suc calls, s)

-- Two messages are written, and the first one is sent.
abbrev after_two : ControlSession
after_two = on_sent 0 (write_payload (2 ∷ []) (write_payload (1 ∷ []) opened))

Run-in_order_example :
    (after_two.sent ++ after_two.pending_messages ≡ (1 ∷ []) ∷ (2 ∷ []) ∷ [])
    × (after_two.in_flight ≤ 1)
    × (after_two.ended ≡ false → after_two.pending_messages ≢ [] → after_two.in_flight ≡ 1)
unfolding write_payload
Run-in_order_example =
    Run-in_order
      (record { no_pending = refl; no_progress = refl; no_sent = refl; no_flight = refl })
      (next
        (next (next here (writes opened (1 ∷ [])))
          (writes (write_payload (1 ∷ []) opened) (2 ∷ [])))
        (completes (write_payload (2 ∷ []) (write_payload (1 ∷ []) opened)) 0 refl))

on_read-split_example :
    ((on_read dump_nothing parse_null ignore false (b'{' ∷ []) 0 opened).2 ≡ again)
    × (on_read dump_nothing parse_null ignore false
          (b'}' ∷ [])
          (on_read dump_nothing parse_null ignore false (b'{' ∷ []) 0 opened).0
          (on_read dump_nothing parse_null ignore false (b'{' ∷ []) 0 opened).1
        ≡ on_read dump_nothing parse_null ignore false (b'{' ∷ b'}' ∷ []) 0 opened)
on_read-split_example =
    on_read-split dump_nothing parse_null ignore (b'{' ∷ []) (b'}' ∷ []) 0 opened
      (record { within = omega arith }) (pop_message-open_curly parse_null)

on_read-first_example :
    on_read dump_nothing parse_null ignore false
      ((b' ' ∷ []) ++ (print_object end ++ (b'{' ∷ b'}' ∷ [])))
      0
      opened
    ≡ popped dump_nothing parse_null ignore
        (parsed parse_null (print_object end), fresh (b'{' ∷ b'}' ∷ []))
        0
        opened
on_read-first_example =
    on_read-first dump_nothing parse_null ignore (b' ' ∷ []) end (b'{' ∷ b'}' ∷ []) 0 opened
      (refl, tt) tt refl
