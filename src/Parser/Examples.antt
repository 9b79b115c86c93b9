-- ===== src/Parser/Examples.antt =====
-- The theorems on the stream parser at concrete texts.
use tunnel_drill.Prelude.{ℕ, ◌≡◌, refl, List, [], ◌∷◌, map, length, Option, some, arith}
use tunnel_drill.Parser.{
  StreamParser, feed, parsed, pop_message, find_complete_object_end, scan_char,
}
use tunnel_drill.Parser.Scan.{pop_message-resume}
use tunnel_drill.Parser.Syntax.{end, quoted, object, escaped, print_object}
use tunnel_drill.Parser.RoundTrip.{fresh, Document, stream, pops, pops-stream}

-- A `json::parse` that takes every text for its length.
abbrev parse_length : List ℕ → Option ℕ
parse_length text = some (length text)

-- {{"\}"}} and, behind a blank, {}
abbrev two_documents : List Document
two_documents = ([], object (quoted (escaped b'}' ∷ []) end) end) ∷ (b' ' ∷ [], end) ∷ []

pops-stream_example :
    pops parse_length 2 (fresh (stream two_documents))
    ≡ (map (λ d. parsed parse_length (print_object (d.1))) two_documents, fresh [])
pops-stream_example =
    pops-stream parse_length two_documents ((tt, (((tt, tt), tt), tt)), (((refl, tt), tt), tt))

abbrev half : StreamParser
half = fresh (b'{' ∷ b'"' ∷ [])

pop_message-resume_example :
    pop_message parse_length (feed (b'"' ∷ b'}' ∷ []) (pop_message parse_length half).1)
    ≡ pop_message parse_length (feed (b'"' ∷ b'}' ∷ []) half)
unfolding pop_message find_complete_object_end scan_char
pop_message-resume_example =
    pop_message-resume parse_length half (b'"' ∷ b'}' ∷ []) (record { within = omega arith }) refl
