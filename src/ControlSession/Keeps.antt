-- ===== src/ControlSession/Keeps.antt =====
-- What the callbacks of the dispatcher keep, the read handler keeps.
use tunnel_drill.Prelude.{
  ℕ, Bool, true, false, List, Option, String, Bool-cases, Option-cases, inl, inr,
}
use tunnel_drill.Json.{Json, contains, at, get_string}
use tunnel_drill.Parser.{StreamParser, Popped, nothing, message, parse_error, feed, pop_message}
use tunnel_drill.ControlSession.{ControlSession, dispatched, ref_of, on_message, popped, on_read}

module _ {E : Type 0} (dump : Json → List ℕ) (parse : List ℕ → Option Json)
    (dispatch : Json → String → E → ControlSession → Bool × E × ControlSession) (P : E → Type 0)
    (keeps : (j : Json) (ref : String) (e : E) (s : ControlSession)
      → P e
      → P (dispatch j ref e s).1) where
  dispatched-keeps :
      (r : Bool × E × ControlSession) → P r.1 → P (dispatched dump parse dispatch r).0
  dispatched-keeps (true, e, s) p = p
  dispatched-keeps (false, e, s) p = p

  on_message-keeps :
      (j : Json) (e : E) (s : ControlSession) → P e → P (on_message dump parse dispatch j e s).0
  unfolding on_message
  on_message-keeps j e s p = elim (Option-cases (ref_of dump parse dispatch j)) [
    | inl h ↦ simp (on_message, h) p
    | inr (ref, h) ↦ elim (Bool-cases (contains "type" j)) [
      | inr c ↦ simp (on_message, h, c) p
      | inl c ↦ elim (Option-cases (get_string (at "type" j))) [
        | inl t ↦ simp (on_message, h, c, t) p
        | inr (type, t) ↦
            simp (on_message, h, c, t) (dispatched-keeps (dispatch j ref e s) (keeps j ref e s p))
      ]
    ]
  ]

  popped-keeps :
      (r : Popped Json × StreamParser) (e : E) (s : ControlSession)
      → P e
      → P (popped dump parse dispatch r e s).0
  popped-keeps (nothing, q) e s p = p
  popped-keeps (message j, q) e s p = on_message-keeps j e (record s { text_parser = q }) p
  popped-keeps (parse_error, q) e s p = p

  pub on_read-keeps :
      (is_binary : Bool) (text : List ℕ) (e : E) (s : ControlSession)
      → P e
      → P (on_read dump parse dispatch is_binary text e s).0
  unfolding on_read
  on_read-keeps true text e s p = p
  on_read-keeps false text e s p = popped-keeps (pop_message parse (feed text s.text_parser)) e s p
