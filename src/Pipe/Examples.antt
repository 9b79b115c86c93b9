-- ===== src/Pipe/Examples.antt =====
-- The theorem on a chunk at a chunk that goes out in two writes.
use tunnel_drill.Prelude.{ℕ, ◌≡◌, true, false, List, [], ◌∷◌, ◌++◌, take, arith}
use tunnel_drill.Pipe.{State, Locks, receive, on_read, answer}
use tunnel_drill.Pipe.Writes.{Pending}
use tunnel_drill.Pipe.Delivery.{on_read-delivers}

abbrev all_locked : Locks
all_locked = record { operation = true; original = true; other = true }

abbrev three_bytes : State
three_bytes = record { buffer = 71 ∷ 69 ∷ 84 ∷ 0 ∷ []; total_transfer = 0 }

on_read-delivers_example :
    let r =
      answer all_locked three_bytes.buffer
        (on_read all_locked 3 false three_bytes).1
        ((2, false) ∷ (1, false) ∷ []) in
    ((left : List ℕ) × (take 3 three_bytes.buffer ≡ r.0 ++ left))
    × (r.1 ≡ receive → r.0 ≡ take 3 three_bytes.buffer)
    × Pending three_bytes.buffer 3 r.1
on_read-delivers_example =
    on_read-delivers all_locked 3 false three_bytes ((2, false) ∷ (1, false) ∷ []) (omega arith)
