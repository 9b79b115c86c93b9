-- ===== src/Parser.antt =====
-- brokerpp/src/brokerpp/control/stream_parser.cpp: the parser that cuts the text of a control
-- connection into complete JSON objects. The buffer is a list of bytes; `json::parse` is an
-- argument.
pub mod Scan
pub mod Syntax
pub mod RoundTrip
mod Examples
use tunnel_drill.Prelude.{
  ℕ, zero, suc, ◌+◌, Bool, true, false, not, ◌&&◌, ◌||◌, List, [], ◌∷◌, ◌++◌, Option, none, some, ℤ,
  pos, incr, decr, is_zero, leb, ◌==◌, if◌then◌else◌, take, drop,
}

-- StreamParser::FindMemoizer. The counter is an int in the code, which differs past 2 ^ 31 braces.
pub record FindMemoizer : Type 0 where
  pub curly_count : ℤ
  pub escape : Bool
  pub inside_string : Bool
  pub offset : ℕ

abbrev pub initial : FindMemoizer
initial = record { curly_count = pos 0; escape = false; inside_string = false; offset = 0 }

pub record StreamParser : Type 0 where
  pub buffer : List ℕ
  pub find_state : FindMemoizer

abbrev pub empty : StreamParser
empty = record { buffer = []; find_state = initial }

pub feed : List ℕ → StreamParser → StreamParser
feed text p = record p { buffer = p.buffer ++ text }

-- `found m`: the object ends at `m.offset`. `exhausted m`: the buffer ends first.
pub data Search : Type 0 where
  found : FindMemoizer → Search
  exhausted : FindMemoizer → Search

-- The end of the loop's body and `++m_offset`: only a backslash leaves `m_escape` set.
abbrev advance : ℕ → FindMemoizer → FindMemoizer
advance c m = record m {
  escape = if not (c == b'\\') && m.escape then false else m.escape;
  offset = suc m.offset;
}

close_curly : FindMemoizer → Search
close_curly m =
    let m' : FindMemoizer = record m { curly_count = decr m.curly_count } in
    if is_zero m'.curly_count then found m' else exhausted (advance b'}' m')

-- One round of the loop in `findCompleteObjectEnd`.
pub scan_char : FindMemoizer → ℕ → Search
unfolding close_curly
scan_char m c =
    if (c == b'{') && not m.inside_string
    then exhausted (advance c (record m { curly_count = incr m.curly_count }))
    else if (c == b'}') && not m.inside_string
    then close_curly m
    else if (c == b'"') && not m.escape
    then exhausted (advance c (record m { inside_string = not m.inside_string }))
    else if c == b'\\'
    then exhausted (advance c (record m { escape = not m.escape }))
    else exhausted (advance c m)

-- The loop from `m_offset` on, over the part of the buffer that is not yet read.
pub scan : FindMemoizer → List ℕ → Search
scan m [] = exhausted m
scan m (c ∷ cs) = elim (scan_char m c) [ found m' ↦ found m' | exhausted m' ↦ scan m' cs ]

pub find_complete_object_end : StreamParser → Search
unfolding scan
find_complete_object_end p = scan p.find_state (drop p.find_state.offset p.buffer)

-- std::isspace in the C locale.
abbrev pub is_space : ℕ → Bool
is_space c = (c == b' ') || (leb 9 c && leb c 13)

pub skip_spaces : List ℕ → List ℕ
skip_spaces [] = []
skip_spaces (c ∷ cs) = let rest = skip_spaces cs in if is_space c then rest else c ∷ cs

-- The object's text up to `end`, and the parser that is left.
pub consume_object : ℕ → StreamParser → List ℕ × StreamParser
consume_object end p =
    (skip_spaces (take end p.buffer), record p { buffer = drop end p.buffer; find_state = initial })

-- What `popMessage` returns: nothing, the message, or the exception of `json::parse`.
pub data Popped {ℓ} (J : Type ℓ) : Type ℓ where
  nothing : Popped J
  message : J → Popped J
  parse_error : Popped J

module _ {ℓ} {J : Type ℓ} (parse : List ℕ → Option J) where
  unfoldable pub parsed : List ℕ → Popped J
  parsed text = elim (parse text) [ none ↦ parse_error | some j ↦ message j ]

  pop_on : Search → StreamParser → Popped J × StreamParser
  unfolding parsed consume_object
  pop_on (exhausted m) p = (nothing, record p { find_state = m })
  pop_on (found m) p =
      let (text, rest) = consume_object (suc m.offset) (record p { find_state = m }) in
      (parsed text, rest)

  pub pop_message : StreamParser → Popped J × StreamParser
  unfolding pop_on
  pop_message p = pop_on (find_complete_object_end p) p
