-- ===== src/Parser/RoundTrip.antt =====
-- StreamParser::popMessage on streams of well-formed objects, and on a stray closing brace.
use tunnel_drill.Prelude.{
  ℕ, zero, suc, ◌+◌, ◌≡◌, refl, sym, ap, ◌∙◌, true, false, List, [], ◌∷◌, ◌++◌, map, append_assoc,
  Option, arith, length, length-append, take-append_self, drop-append_self, All,
}
use tunnel_drill.Parser.{
  StreamParser, initial, is_space, skip_spaces, find_complete_object_end, consume_object, Popped,
  parsed, pop_on, pop_message,
}
use tunnel_drill.Parser.Syntax.{Body, print, print_object, IsBody, scan-print_object}

skip_spaces-append :
    (ws : List ℕ) (c : ℕ) (cs : List ℕ)
    → All (λ c. is_space c ≡ true) ws
    → is_space c ≡ false
    → skip_spaces (ws ++ (c ∷ cs)) ≡ c ∷ cs
unfolding skip_spaces
skip_spaces-append [] c cs h e = ground arith
skip_spaces-append (w ∷ ws) c cs h e = rw h.0 (skip_spaces-append ws c cs h.1 e)

abbrev pub IsBlank : List ℕ → Type 0
IsBlank ws = All (λ c. is_space c ≡ true) ws

-- A parser that has nothing memoised.
abbrev pub fresh : List ℕ → StreamParser
fresh text = record { buffer = text; find_state = initial }

consume_object-print :
    (ws : List ℕ) (b : Body) (ys : List ℕ) (n : ℕ)
    → IsBlank ws
    → n ≡ length (ws ++ print_object b)
    → consume_object n (fresh (ws ++ (print_object b ++ ys))) ≡ (print_object b, fresh ys)
unfolding consume_object
consume_object-print ws b ys n h e =
    rw
      (
        e,
        sym (append_assoc ws (print_object b) ys),
        take-append_self (ws ++ print_object b) ys,
        drop-append_self (ws ++ print_object b) ys,
        skip_spaces-append ws b'{' (print b ++ (b'}' ∷ [])) h refl,
      )
      refl

-- Documents of a stream: the blanks before an object, and the object.
abbrev pub Document : Type 0
Document = List ℕ × Body

abbrev pub stream : List Document → List ℕ
stream [] = []
stream ((ws, b) ∷ ds) = ws ++ (print_object b ++ stream ds)

abbrev pub IsDocument : Document → Type 0
IsDocument (ws, b) = IsBlank ws × IsBody b

module _ {ℓ} {J : Type ℓ} (parse : List ℕ → Option J) where
  -- From a fresh parser whose buffer is blanks, the text of one well-formed object and any further
  -- text `ys`, `popMessage` hands exactly that object's text to `json::parse`, and leaves a fresh
  -- parser with `ys` in its buffer.
  pub pop_message-print :
      (ws : List ℕ) (b : Body) (ys : List ℕ)
      → IsBlank ws
      → IsBody b
      → pop_message parse (fresh (ws ++ (print_object b ++ ys)))
        ≡ (parsed parse (print_object b), fresh ys)
  unfolding pop_message find_complete_object_end
  pop_message-print ws b ys hw hb =
      ap (λ r. pop_on parse r p) (scan-print_object ws b ys hw hb)
      ∙ unfold pop_on in
        ap (λ r. (parsed parse (r.0), r.1))
          (consume_object-print ws b ys (suc o) hw
            (omega (arith, length-append ws (print_object b), length-append (print b) (b'}' ∷ []))))
    where
      p : StreamParser
      p = fresh (ws ++ (print_object b ++ ys))

      o : ℕ
      o = length ws + suc (length (print b))

  -- As many pops as there are documents, with what is left.
  pub pops : ℕ → StreamParser → List (Popped J) × StreamParser
  pops zero p = ([], p)
  pops (suc n) p = let (r, p') = pop_message parse p in let (rs, q) = pops n p' in (r ∷ rs, q)

  -- A stream of well-formed objects, with blanks between them, is cut into exactly these objects,
  -- in order and one to a call of `popMessage`, and nothing of it is left.
  pub pops-stream :
      (ds : List Document)
      → All IsDocument ds
      → pops (length ds) (fresh (stream ds))
        ≡ (map (λ d. parsed parse (print_object (d.1))) ds, fresh [])
  unfolding pops
  pops-stream [] h = refl
  pops-stream ((ws, b) ∷ ds) h =
      rw (pop_message-print ws b (stream ds) h.0.0 h.0.1, pops-stream ds h.1) refl
