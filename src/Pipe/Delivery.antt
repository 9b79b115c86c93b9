-- ===== src/Pipe/Delivery.antt =====
-- Partial writes: the bytes of a chunk reach the other side in order, none twice and none left out.
use tunnel_drill.Prelude.{
  ℕ, ◌≤◌, ◌≡◌, refl, sym, ap, ◌∙◌, Bool, List, [], ◌∷◌, ◌++◌, length, take, drop, take-append-drop,
  append-nil, append_assoc, arith, Bool-cases, inl, inr,
}
use tunnel_drill.Pipe.{
  State, Write, Reaction, idle, kill, send, receive, Locks, on_read, on_written, answer,
}
use tunnel_drill.Pipe.Writes.{
  InChunk, Pending, Attempt, gave_up, nobody, sent, write-Attempt, Next, through, again,
  on_written-Next,
}

-- What the socket took is a front part of what was sent, and all of it if the pipe reads again.
record Front (buffer : List ℕ) (size : ℕ) (bytes : List ℕ) (result : List ℕ × Reaction)
    : Type 0 where
  left : List ℕ
  split : bytes ≡ result.0 ++ left
  complete : result.1 ≡ receive → result.0 ≡ bytes
  pending : Pending buffer size result.1

answer-idle :
    (l : Locks) (buffer : List ℕ) (as' : List (ℕ × Bool)) → answer l buffer idle as' ≡ ([], idle)
unfolding answer
answer-idle l buffer [] = refl
answer-idle l buffer (a ∷ as') = refl

answer-kill :
    (l : Locks) (buffer : List ℕ) (as' : List (ℕ × Bool)) → answer l buffer kill as' ≡ ([], kill)
unfolding answer
answer-kill l buffer [] = refl
answer-kill l buffer (a ∷ as') = refl

answer-receive :
    (l : Locks) (buffer : List ℕ) (as' : List (ℕ × Bool))
    → answer l buffer receive as' ≡ ([], receive)
unfolding answer
answer-receive l buffer [] = refl
answer-receive l buffer (a ∷ as') = refl

answer-Front :
    (l : Locks) (buffer : List ℕ) (size : ℕ) (bytes : List ℕ) (w : Write) (as' : List (ℕ × Bool))
    → InChunk buffer size bytes w
    → Front buffer size bytes (answer l buffer (send bytes w) as')
unfolding answer
answer-Front l buffer size bytes w [] c = record {
  left = bytes;
  split = refl;
  complete = λ e. cc;
  pending = c;
}
answer-Front l buffer size bytes w ((written, ec) ∷ rest) c =
    go (on_written l buffer w written ec) (on_written-Next l buffer size bytes w c written ec)
      (λ b v. answer-Front l buffer size b v rest)
  where
    stop :
        (r : Reaction) (bs : List (ℕ × Bool))
        → (r ≡ receive → take written bytes ≡ bytes)
        → Pending buffer size r
        → answer l buffer r bs ≡ ([], r)
        → Front buffer size bytes
            (take written bytes ++ (answer l buffer r bs).0, (answer l buffer r bs).1)
    stop r bs h p e = rw e (record {
      left = drop written bytes;
      split = sym (
          ap (λ b. b ++ drop written bytes) (append-nil (take written bytes))
          ∙ take-append-drop written bytes);
      complete = λ q. append-nil (take written bytes) ∙ h q;
      pending = p;
    })

    go :
        (r : Reaction)
        → Next buffer size bytes written r
        → ((b : List ℕ) (v : Write)
            → InChunk buffer size b v
            → Front buffer size b (answer l buffer (send b v) rest))
        → Front buffer size bytes
            (take written bytes ++ (answer l buffer r rest).0, (answer l buffer r rest).1)
    go idle n ih = stop idle rest (λ e. cc) tt (answer-idle l buffer rest)
    go kill n ih = stop kill rest (λ e. cc) tt (answer-kill l buffer rest)
    go receive (through t) ih = stop receive rest (λ e. t) tt (answer-receive l buffer rest)
    go (send b v) (again _ _ c' e) ih =
        let f : Front buffer size b (answer l buffer (send b v) rest) = ih b v c' in
        record {
          left = f.left;
          split =
              sym (take-append-drop written bytes)
              ∙ ap (◌++◌ (take written bytes)) (sym e ∙ f.split)
              ∙ sym (append_assoc (take written bytes) _ f.left);
          complete = λ q.
              ap (◌++◌ (take written bytes)) (f.complete q ∙ e) ∙ take-append-drop written bytes;
          pending = f.pending;
        }

-- The first write of a chunk, or none.
module _ (l : Locks) (s : State) (size : ℕ) (h : size ≤ length s.buffer)
    (answers : List (ℕ × Bool)) where
  abbrev Delivers : Reaction → Type 0
  Delivers r =
      ((left : List ℕ) × (take size s.buffer ≡ (answer l s.buffer r answers).0 ++ left))
      × ((answer l s.buffer r answers).1 ≡ receive
          → (answer l s.buffer r answers).0 ≡ take size s.buffer)
      × Pending s.buffer size (answer l s.buffer r answers).1

  Attempt-Delivers :
      (w : Write) {r : Reaction}
      → w.offset ≡ 0
      → w.expected ≡ size
      → Attempt s.buffer w r
      → Delivers r
  Attempt-Delivers w o e gave_up =
      rw (answer-kill l s.buffer answers) ((take size s.buffer, refl), (λ q. cc), tt)
  Attempt-Delivers w o e nobody =
      rw (answer-idle l s.buffer answers) ((take size s.buffer, refl), (λ q. cc), tt)
  Attempt-Delivers w o e (sent f) =
      ((front.left, sym same ∙ front.split), (λ q. front.complete q ∙ same), front.pending)
    where
      same : take w.expected (drop w.offset s.buffer) ≡ take size s.buffer
      same =
          ap (λ (n : ℕ). take n (drop w.offset s.buffer)) e
          ∙ ap (λ (n : ℕ). take size (drop n s.buffer)) o

      front :
          Front s.buffer size
            (take w.expected (drop w.offset s.buffer))
            (answer l s.buffer (send (take w.expected (drop w.offset s.buffer)) w) answers)
      front =
          answer-Front l s.buffer size _ w answers
            (record { slice = refl; within = omega arith; fits = h; few = f })

  on_read-Delivers : (ec : Bool) → Delivers (on_read l size ec s).1
  unfolding on_read
  on_read-Delivers ec = elim (Bool-cases l.operation) [
    | inr p ↦ simp p nothing
    | inl p ↦ elim (Bool-cases l.original) [
      | inr q ↦ simp (p, q) nothing
      | inl q ↦
          simp (p, q) (Attempt-Delivers first refl refl (write-Attempt s.buffer l.other first))
    ]
  ]
    where
      first : Write
      first = record { expected = size; close = ec; offset = 0; retries = 0 }

      nothing : Delivers idle
      nothing = rw (answer-idle l s.buffer answers) ((take size s.buffer, refl), (λ q. cc), tt)

-- One chunk, from the completed read of `size` bytes on, which fit the buffer: whatever the sockets
-- answer, the other side is given a front part of the chunk, in order and without repetition; the
-- next read begins only when the chunk was delivered whole; and a write that is still pending is a
-- slice of the chunk that ends where the chunk ends, after at most ten retries.
pub on_read-delivers :
    (l : Locks) (size : ℕ) (ec : Bool) (s : State) (answers : List (ℕ × Bool))
    → size ≤ length s.buffer
    → let r = answer l s.buffer (on_read l size ec s).1 answers in
      ((left : List ℕ) × (take size s.buffer ≡ r.0 ++ left))
      × (r.1 ≡ receive → r.0 ≡ take size s.buffer)
      × Pending s.buffer size r.1
on_read-delivers l size ec s answers h = on_read-Delivers l s size h answers ec
