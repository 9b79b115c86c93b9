-- ===== src/Pipe.antt =====
-- sharedpp/include/sharedpp/pipe_operation.hpp: one direction of a tunnel, as the calls and the
-- completion handlers of its two sides. Whether a side's weak pointer can be locked, and what the
-- sockets answer, are arguments.
pub mod Writes
pub mod Delivery
mod Examples
use tunnel_drill.Prelude.{
  ℕ, zero, suc, ◌+◌, ◌-◌, ◌%◌, ◌^◌, Bool, true, false, not, ◌||◌, List, [], ◌∷◌, ◌++◌, ltb, ◌==◌,
  length, take, drop, if◌then◌else◌,
}

-- PipeOperation::State; the total is a boost uint128_t, which wraps.
pub record State : Type 0 where
  pub buffer : List ℕ
  pub total_transfer : ℕ

-- The captures of the write handler.
pub record Write : Type 0 where
  pub expected : ℕ
  pub close : Bool
  pub offset : ℕ
  pub retries : ℕ

pub data Reaction : Type 0 where
  -- the handler returns and the pipe is left as it is
  idle : Reaction
  -- both sides that can be locked are closed
  kill : Reaction
  -- async_write of these bytes to the other side
  send : List ℕ → Write → Reaction
  -- async_read_some from the original side
  receive : Reaction

-- PipeOperation::write; `other` says that the other side can be locked.
pub write : List ℕ → Bool → Write → Reaction
write buffer other w =
    if ltb 10 w.retries
    then kill
    else if ltb (length buffer) w.expected || (w.expected == 0)
    then kill
    else if not other
    then idle
    else send (take w.expected (drop w.offset buffer)) w

-- PipeOperation::read
pub read : Bool → Reaction
read original = if original then receive else idle

-- The sides that can be locked, and whether the operation itself still can be.
pub record Locks : Type 0 where
  pub operation : Bool
  pub original : Bool
  pub other : Bool

-- The handler of the read: `size` bytes, and the error code's truth.
pub on_read : Locks → ℕ → Bool → State → State × Reaction
unfolding write
on_read l size ec s =
    if not l.operation
    then (s, idle)
    else let s' : State = record s { total_transfer = (s.total_transfer + size) % 2 ^ 128 } in
      if not l.original then (s', idle) else (
        s',
        write s.buffer l.other (record { expected = size; close = ec; offset = 0; retries = 0 }),
      )

-- The handler of the write.
pub on_written : Locks → List ℕ → Write → ℕ → Bool → Reaction
unfolding write read
on_written l buffer w written ec =
    if not l.operation
    then idle
    else if ltb w.expected written
    then kill
    else if not (w.expected == written)
    then write buffer l.other (record w {
      expected = w.expected - written;
      offset = w.offset + written;
      retries = w.retries + 1;
    })
    else if ec || w.close
    then kill
    else read l.original

-- A socket's answers to the writes of one chunk, in order: how many bytes it took, and the error
-- code's truth. The result is what it took, and what the pipe does next.
pub answer : Locks → List ℕ → Reaction → List (ℕ × Bool) → List ℕ × Reaction
unfolding on_written
answer l buffer r [] = ([], r)
answer l buffer (send bytes w) ((written, ec) ∷ rest) =
    let (taken, last) = answer l buffer (on_written l buffer w written ec) rest in
    (take written bytes ++ taken, last)
answer l buffer r (a ∷ rest) = ([], r)
