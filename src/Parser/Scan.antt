-- ===== src/Parser/Scan.antt =====
-- StreamParser::findCompleteObjectEnd: the memoised state makes the scan resumable.
use tunnel_drill.Prelude.{
  ℕ, suc, ◌+◌, ◌≤◌, ◌≡◌, refl, ◌≢◌, subst, sym, ap, ◌∙◌, List, [], ◌∷◌, ◌++◌, append_assoc, Option,
  arith, length, length-append, drop, drop-append_of_le, drop-append_self, length-drop,
}
use tunnel_drill.Parser.{
  FindMemoizer, StreamParser, Search, found, exhausted, initial, scan_char, scan, feed,
  find_complete_object_end, parsed, pop_on, pop_message, nothing,
}

-- The search never stops beyond the buffer.
pub record IsValid (p : StreamParser) : Type 0 where
  pub within : p.find_state.offset ≤ length p.buffer

-- A scan of `xs ++ ys` is a scan of `xs`, resumed at `ys` where `xs` holds no end.
abbrev pub resume : Search → List ℕ → Search
resume (found m) ys = found m
resume (exhausted m) ys = scan m ys

pub scan-append : (m : FindMemoizer) (xs ys : List ℕ) → scan m (xs ++ ys) ≡ resume (scan m xs) ys
unfolding scan
scan-append m [] ys = refl
scan-append m (c ∷ cs) ys = go (scan_char m c) (λ m'. scan-append m' cs ys)
  where
    go :
        (r : Search)
        → ((m' : FindMemoizer) → scan m' (cs ++ ys) ≡ resume (scan m' cs) ys)
        → (elim r [ found m' ↦ found m' | exhausted m' ↦ scan m' (cs ++ ys) ])
          ≡ resume (elim r [ found m' ↦ found m' | exhausted m' ↦ scan m' cs ]) ys
    go (found m') h = refl
    go (exhausted m') h = h m'

-- A property of the state before the character `c` and the outcome at it.
abbrev Outcome {ℓ} : (FindMemoizer → Type ℓ) → (FindMemoizer → Type ℓ) → Search → Type ℓ
Outcome F E (found m) = F m
Outcome F E (exhausted m) = E m

-- A round keeps the place at which the object ends, and otherwise goes on by one character.
scan_char-offset :
    (m : FindMemoizer) (c : ℕ)
    → Outcome (λ m'. m'.offset ≡ m.offset) (λ m'. m'.offset ≡ suc m.offset) (scan_char m c)
unfolding scan_char
scan_char-offset m c = ground arith

pub scan-offset :
    (m : FindMemoizer) (xs : List ℕ)
    → Outcome
        (λ m'. suc m'.offset ≤ m.offset + length xs)
        (λ m'. m'.offset ≡ m.offset + length xs)
        (scan m xs)
unfolding scan
scan-offset m [] = omega arith
scan-offset m (c ∷ cs) = go (scan_char m c) (scan_char-offset m c) (λ m'. scan-offset m' cs)
  where
    go :
        (r : Search)
        → Outcome (λ m'. m'.offset ≡ m.offset) (λ m'. m'.offset ≡ suc m.offset) r
        → ((m' : FindMemoizer)
            → Outcome
                (λ m''. suc m''.offset ≤ m'.offset + length cs)
                (λ m''. m''.offset ≡ m'.offset + length cs)
                (scan m' cs))
        → Outcome
            (λ m'. suc m'.offset ≤ m.offset + suc (length cs))
            (λ m'. m'.offset ≡ m.offset + suc (length cs))
            (elim r [ found m' ↦ found m' | exhausted m' ↦ scan m' cs ])
    go (found m') e h = omega arith
    go (exhausted m') e h = shift (scan m' cs) (h m')
      where
        shift :
            (r : Search)
            → Outcome
                (λ m''. suc m''.offset ≤ m'.offset + length cs)
                (λ m''. m''.offset ≡ m'.offset + length cs)
                r
            → Outcome
                (λ m''. suc m''.offset ≤ m.offset + suc (length cs))
                (λ m''. m''.offset ≡ m.offset + suc (length cs))
                r
        shift (found m'') k = omega arith
        shift (exhausted m'') k = omega arith

pub feed-IsValid : (text : List ℕ) (p : StreamParser) → IsValid p → IsValid (feed text p)
unfolding feed
feed-IsValid text p v = omega (arith, v.within, length-append p.buffer text)

-- What is left of the buffer, seen from the memoised offset.
unread : StreamParser → List ℕ
unread p = drop p.find_state.offset p.buffer

module _ {ℓ} {J : Type ℓ} (parse : List ℕ → Option J) where
  pop_on-IsValid :
      (r : Search) (p : StreamParser)
      → Outcome (λ m. suc m.offset ≤ length p.buffer) (λ m. m.offset ≡ length p.buffer) r
      → IsValid (pop_on parse r p).1
  unfolding pop_on
  pop_on-IsValid (found m) p h = omega arith
  pop_on-IsValid (exhausted m) p h = omega arith

  -- A pop keeps the memoised offset within the buffer: if it was there before, it is there after.
  pub pop_message-IsValid : (p : StreamParser) → IsValid p → IsValid (pop_message parse p).1
  unfolding pop_message find_complete_object_end
  pop_message-IsValid p v =
      pop_on-IsValid r p (bound r (scan-offset p.find_state (drop p.find_state.offset p.buffer)))
    where
      r : Search
      r = find_complete_object_end p

      bound :
          (r : Search)
          → Outcome
              (λ m. suc m.offset ≤ p.find_state.offset + length (drop p.find_state.offset p.buffer))
              (λ m. m.offset ≡ p.find_state.offset + length (drop p.find_state.offset p.buffer))
              r
          → Outcome (λ m. suc m.offset ≤ length p.buffer) (λ m. m.offset ≡ length p.buffer) r
      bound (found m) h = omega (arith, v.within, length-drop p.find_state.offset p.buffer)
      bound (exhausted m) h = omega (arith, v.within, length-drop p.find_state.offset p.buffer)

  -- The result depends on the buffer and on what the search finds.
  pop_on-buffer :
      (r : Search) (p q : StreamParser) → p.buffer ≡ q.buffer → pop_on parse r p ≡ pop_on parse r q
  unfolding pop_on
  pop_on-buffer (found m) p q e = rw e refl
  pop_on-buffer (exhausted m) p q e = rw e refl

  parsed-ne-nothing : (text : List ℕ) → parsed parse text ≢ nothing
  unfolding parsed
  parsed-ne-nothing text = ground arith

  pop_on-buffer-search :
      {r r' : Search} (p q : StreamParser)
      → r ≡ r'
      → p.buffer ≡ q.buffer
      → pop_on parse r p ≡ pop_on parse r' q
  pop_on-buffer-search {r} p q e h = rw (← e) (pop_on-buffer r p q h)

  resume_exhausted :
      (p : StreamParser) (b : List ℕ) (r : Search)
      → IsValid p
      → find_complete_object_end p ≡ r
      → (pop_on parse r p).0 ≡ nothing
      → pop_message parse (feed b (pop_on parse r p).1) ≡ pop_message parse (feed b p)
  unfolding pop_on pop_message find_complete_object_end feed
  resume_exhausted p b (found m) v e h = absurd (parsed-ne-nothing _ h)
  resume_exhausted p b (exhausted m) v e h = pop_on-buffer-search _ _ same refl
    where
      o : ℕ
      o = p.find_state.offset

      reached : m.offset ≡ length p.buffer
      reached =
          let exact : m.offset ≡ o + length (drop o p.buffer) =
            subst
              (Outcome (λ m'. suc m'.offset ≤ o + length (drop o p.buffer))
                (λ m'. m'.offset ≡ o + length (drop o p.buffer)))
              e (scan-offset p.find_state (drop o p.buffer)) in
          omega (arith, v.within, length-drop o p.buffer)

      rest : drop m.offset (p.buffer ++ b) ≡ b
      rest = rw reached (drop-append_self p.buffer b)

      same : scan m (drop m.offset (p.buffer ++ b)) ≡ scan p.find_state (drop o (p.buffer ++ b))
      same =
          ap (scan m) rest
          ∙ sym (
              ap (scan p.find_state) (drop-append_of_le o p.buffer b v.within)
              ∙ scan-append p.find_state (drop o p.buffer) b
              ∙ ap (λ r. resume r b) e)

  -- A pop that finds no complete object, on a parser whose memoised offset is within the buffer,
  -- changes nothing that a later pop can show: whatever text `b` comes next, the pop after it has
  -- the result and leaves the parser of one that was never preceded by the unsuccessful pop.
  pub pop_message-resume :
      (p : StreamParser) (b : List ℕ)
      → IsValid p
      → (pop_message parse p).0 ≡ nothing
      → pop_message parse (feed b (pop_message parse p).1) ≡ pop_message parse (feed b p)
  unfolding pop_message
  pop_message-resume p b v h = resume_exhausted p b (find_complete_object_end p) v refl h

pub feed-feed : (a b : List ℕ) (p : StreamParser) → feed b (feed a p) ≡ feed (a ++ b) p
unfolding feed
feed-feed a b p = ap (λ (t : List ℕ). record p { buffer = t }) (append_assoc p.buffer a b)

pub feed-empty :
    (a : List ℕ)
    → feed a (record { buffer = []; find_state = initial })
      ≡ record { buffer = a; find_state = initial }
unfolding feed
feed-empty a = refl

-- An opening brace alone is no message yet.
pub pop_message-open_curly {ℓ} :
    {J : Type ℓ} (parse : List ℕ → Option J)
    → (pop_message parse (feed (b'{' ∷ []) (record { buffer = []; find_state = initial }))).0
      ≡ nothing
unfolding pop_message find_complete_object_end scan_char feed
pop_message-open_curly parse = refl
