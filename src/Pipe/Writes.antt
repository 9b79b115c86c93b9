-- ===== src/Pipe/Writes.antt =====
-- One write of a chunk: what it sends, and what its completion leaves to be done.
use tunnel_drill.Prelude.{
  ℕ, ◌+◌, ◌-◌, ◌≤◌, ◌≡◌, refl, sym, ap, ◌∙◌, Bool, ◌||◌, List, ltb, ◌==◌, length, take, drop,
  take_of_length-le, length-take-le, drop-take, drop-drop, arith, Bool-cases, inl, inr,
}
use tunnel_drill.Pipe.{Write, Reaction, idle, kill, send, receive, write, read, Locks, on_written}

-- The write in progress lies within the chunk of `size` bytes at the front of the buffer.
pub record InChunk (buffer : List ℕ) (size : ℕ) (bytes : List ℕ) (w : Write) : Type 0 where
  pub slice : bytes ≡ take w.expected (drop w.offset buffer)
  pub within : w.offset + w.expected ≡ size
  pub fits : size ≤ length buffer
  pub few : w.retries ≤ 10

abbrev pub Pending : List ℕ → ℕ → Reaction → Type 0
Pending buffer size (send bytes w) = InChunk buffer size bytes w
Pending buffer size _ = Unit

-- What `write` does: it gives up, finds nobody, or sends the slice.
pub data Attempt (buffer : List ℕ) (w : Write) : Reaction → Type 0 where
  gave_up : Attempt buffer w kill
  nobody : Attempt buffer w idle
  sent : w.retries ≤ 10 → Attempt buffer w (send (take w.expected (drop w.offset buffer)) w)

pub write-Attempt :
    (buffer : List ℕ) (other : Bool) (w : Write) → Attempt buffer w (write buffer other w)
unfolding write
write-Attempt buffer other w = elim (Bool-cases (ltb 10 w.retries)) [
  | inl r ↦ simp r gave_up
  | inr r ↦ elim (Bool-cases (ltb (length buffer) w.expected || (w.expected == 0))) [
    | inl x ↦ simp (r, x) gave_up
    | inr x ↦ elim (Bool-cases other) [
      | inl o ↦ simp (r, x, o) (sent (ground arith))
      | inr o ↦ simp (r, x, o) nobody
    ]
  ]
]

-- What a completed write leaves to be done: the pipe stops short, the chunk is through, or the part
-- that the socket did not take is sent again.
pub data Next (buffer : List ℕ) (size : ℕ) (bytes : List ℕ) (written : ℕ) : Reaction → Type 0 where
  stopped : Next buffer size bytes written idle
  killed : Next buffer size bytes written kill
  through : take written bytes ≡ bytes → Next buffer size bytes written receive
  again :
      (bytes' : List ℕ) (w' : Write)
      → InChunk buffer size bytes' w'
      → bytes' ≡ drop written bytes
      → Next buffer size bytes written (send bytes' w')

module _ (l : Locks) (buffer : List ℕ) (size : ℕ) (bytes : List ℕ) (w : Write)
    (c : InChunk buffer size bytes w) (written : ℕ) where
  remainder :
      written ≤ w.expected
      → take (w.expected - written) (drop (w.offset + written) buffer) ≡ drop written bytes
  remainder h =
      ap (take (w.expected - written)) (sym (drop-drop written w.offset buffer))
      ∙ sym (drop-take written (w.expected - written) (drop w.offset buffer))
      ∙ ap (λ (n : ℕ). drop written (take n (drop w.offset buffer))) (omega arith)
      ∙ ap (drop written) (sym c.slice)

  whole : written ≡ w.expected → take written bytes ≡ bytes
  whole h =
      take_of_length-le written bytes
        (omega (arith, ap length c.slice, length-take-le w.expected (drop w.offset buffer)))

  Attempt-Next :
      (w' : Write) {r : Reaction}
      → Attempt buffer w' r
      → w'.offset + w'.expected ≡ size
      → take w'.expected (drop w'.offset buffer) ≡ drop written bytes
      → Next buffer size bytes written r
  Attempt-Next w' gave_up h e = killed
  Attempt-Next w' nobody h e = stopped
  Attempt-Next w' (sent f) h e =
      again _ w' (record { slice = refl; within = h; fits = c.fits; few = f }) e

  pub on_written-Next :
      (ec : Bool) → Next buffer size bytes written (on_written l buffer w written ec)
  unfolding on_written read
  on_written-Next ec = elim (Bool-cases l.operation) [
    | inr o ↦ simp o stopped
    | inl o ↦ elim (Bool-cases (ltb w.expected written)) [
      | inl x ↦ simp (o, x) killed
      | inr x ↦ elim (Bool-cases (w.expected == written)) [
        | inr d ↦
            simp (o, x, d)
              (Attempt-Next _ (write-Attempt buffer l.other _) (ground (arith, c.within))
                (remainder (ground arith)))
        | inl d ↦ elim (Bool-cases (ec || w.close)) [
          | inl k ↦ simp (o, x, d, k) killed
          | inr k ↦ elim (Bool-cases l.original) [
            | inl g ↦ simp (o, x, d, k, g) (through (whole (ground arith)))
            | inr g ↦ simp (o, x, d, k, g) stopped
          ]
        ]
      ]
    ]
  ]
