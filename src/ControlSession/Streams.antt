-- ===== src/ControlSession/Streams.antt =====
-- The read handler on text that arrives in pieces, or in one piece with more than one message.
use tunnel_drill.Prelude.{
  ℕ, ◌≡◌, refl, sym, ap, ◌∙◌, Bool, true, false, List, [], ◌++◌, append-nil, Option, some, String,
}
use tunnel_drill.Json.{Json, contains, at, get_string}
use tunnel_drill.Parser.{
  StreamParser, Popped, nothing, message, parse_error, parsed, feed, pop_message,
}
use tunnel_drill.Parser.Scan.{IsValid, feed-IsValid, feed-feed, feed-empty, pop_message-resume}
use tunnel_drill.Parser.Syntax.{Body, print_object, IsBody}
use tunnel_drill.Parser.RoundTrip.{IsBlank, fresh, pop_message-print}
use tunnel_drill.ControlSession.{
  ControlSession, again, dispatched, ref_of, on_message, popped, on_read,
}

module _ {E : Type 0} (dump : Json → List ℕ) (parse : List ℕ → Option Json)
    (dispatch : Json → String → E → ControlSession → Bool × E × ControlSession) where
  popped-nothing :
      (r : Popped Json × StreamParser) (e : E) (s : ControlSession)
      → r.0 ≡ nothing
      → popped dump parse dispatch r e s ≡ (e, record s { text_parser = r.1 }, again)
  popped-nothing (nothing, p) e s h = refl
  popped-nothing (message j, p) e s h = cc
  popped-nothing (parse_error, p) e s h = cc

  -- The parser that the session had is not looked at.
  popped-parser :
      (r : Popped Json × StreamParser) (e : E) (s : ControlSession) (p : StreamParser)
      → popped dump parse dispatch r e (record s { text_parser = p })
        ≡ popped dump parse dispatch r e s
  popped-parser (nothing, q) e s p = refl
  popped-parser (message j, q) e s p = refl
  popped-parser (parse_error, q) e s p = refl

  -- Text that completes no object is kept, if the memoised offset was within the buffer: the
  -- handler only reads on, and with the next text it does what it would have done with both texts
  -- at once.
  pub on_read-split :
      (a b : List ℕ) (e : E) (s : ControlSession)
      → IsValid s.text_parser
      → (pop_message parse (feed a s.text_parser)).0 ≡ nothing
      → let r = on_read dump parse dispatch false a e s in
        (r.2 ≡ again)
        × (on_read dump parse dispatch false b r.0 r.1
            ≡ on_read dump parse dispatch false (a ++ b) e s)
  unfolding on_read
  on_read-split a b e s v h = (
    ap (λ x. x.2) first,
    ap (λ x. on_read dump parse dispatch false b (x.0) (x.1)) first
        ∙ popped-parser (pop_message parse (feed b p)) e s p
        ∙ ap (λ r. popped dump parse dispatch r e s) resumed,
  )
    where
      p : StreamParser
      p = (pop_message parse (feed a s.text_parser)).1

      first :
          popped dump parse dispatch (pop_message parse (feed a s.text_parser)) e s
          ≡ (e, record s { text_parser = p }, again)
      first = popped-nothing (pop_message parse (feed a s.text_parser)) e s h

      resumed : pop_message parse (feed b p) ≡ pop_message parse (feed (a ++ b) s.text_parser)
      resumed =
          pop_message-resume parse (feed a s.text_parser) b (feed-IsValid a s.text_parser v) h
          ∙ ap (pop_message parse) (feed-feed a b s.text_parser)

  -- Of a text with more than one object, on a parser that holds nothing, the handler deals with the
  -- first object and keeps the rest: it does what it would have done with the first object alone,
  -- but for the text `ys` that stays in the buffer until the next read.
  pub on_read-first :
      (ws : List ℕ) (b : Body) (ys : List ℕ) (e : E) (s : ControlSession)
      → IsBlank ws
      → IsBody b
      → s.text_parser ≡ fresh []
      → on_read dump parse dispatch false (ws ++ (print_object b ++ ys)) e s
        ≡ popped dump parse dispatch (parsed parse (print_object b), fresh ys) e s
  unfolding on_read
  on_read-first ws b ys e s hw hb k =
      ap (λ r. popped dump parse dispatch r e s)
        (ap (λ p. pop_message parse (feed (ws ++ (print_object b ++ ys)) p)) k
          ∙ feed-fresh
          ∙ pop_message-print parse ws b ys hw hb)
    where
      feed-fresh :
          pop_message parse (feed (ws ++ (print_object b ++ ys)) (fresh []))
          ≡ pop_message parse (fresh (ws ++ (print_object b ++ ys)))
      feed-fresh = ap (pop_message parse) (feed-empty (ws ++ (print_object b ++ ys)))

  -- A text of one object that is a message reaches the dispatcher, and the parser holds nothing
  -- then.
  pub on_read-message :
      (b : Body) (j : Json) (ref type : String) (e : E) (s : ControlSession)
      → IsBody b
      → s.text_parser ≡ fresh []
      → parse (print_object b) ≡ some j
      → ref_of dump parse dispatch j ≡ some ref
      → contains "type" j ≡ true
      → get_string (at "type" j) ≡ some type
      → on_read dump parse dispatch false (print_object b) e s
        ≡ dispatched dump parse dispatch (dispatch j ref e (record s { text_parser = fresh [] }))
  unfolding on_message parsed
  on_read-message b j ref type e s hb k read r c t =
      ap (λ text. on_read dump parse dispatch false text e s) (sym (append-nil (print_object b)))
      ∙ on_read-first [] b [] e s tt hb k
      ∙ rw one_object (simp (on_message, r, c, t))
    where
      one_object : parsed parse (print_object b) ≡ message j
      one_object = rw (parsed, read) refl
