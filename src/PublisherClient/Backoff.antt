-- ===== src/PublisherClient/Backoff.antt =====
-- Reconnecting: one timer at a time, and delays that double up to a minute.
use tunnel_drill.Prelude.{
  ℕ, zero, suc, ◌^◌, ◌≤◌, ◌≡◌, refl, ap, ◌∙◌, true, false, List, [], ◌∷◌, ◌++◌, arith, Bool-cases,
  inl, inr, min, ◌≢◌,
}
use mathlib.Core.Path.{ap₂}
use native.Mathlib.Nat.{pow-suc}
use tunnel_drill.Json.{Json}
use tunnel_drill.PublisherClient.{
  Publisher, init, send_queued, send_once_from_queue, send_front, retry_connect, authenticate,
  on_wait_over, on_connected, on_connect_failed, on_alive, on_sent, on_send_failed, on_read_failed,
  Response, Step, wait_over, connected, connect_failed, alive, says, sent_one, send_failed,
  read_failed, Reach, here, next, ping, doubled,
}

-- The delay is between a second and a minute, and a wait is pending exactly while the publisher
-- says that it reconnects.
pub record IsPaced (p : Publisher) : Type 0 where
  pub least : 1 ≤ p.reconnect_time
  pub most : p.reconnect_time ≤ 60
  pub one_timer : p.wait_pending ≡ p.is_reconnecting

retry_connect-IsPaced : (p : Publisher) → IsPaced p → IsPaced (retry_connect p)
unfolding retry_connect
retry_connect-IsPaced p v = ground arith

authenticate-IsPaced : (r : Response) (p : Publisher) → IsPaced p → IsPaced (authenticate r p)
unfolding authenticate
authenticate-IsPaced r p v = ground (arith, retry_connect-IsPaced p v)

send_front-IsPaced : (l : List Json) (p : Publisher) → IsPaced p → IsPaced (send_front l p)
unfolding send_front
send_front-IsPaced [] p v = record { least = v.least; most = v.most; one_timer = v.one_timer }
send_front-IsPaced (op ∷ l) p v = record { least = v.least; most = v.most; one_timer = v.one_timer }

send_queued-IsPaced : (j : Json) (p : Publisher) → IsPaced p → IsPaced (send_queued j p)
unfolding send_queued send_once_from_queue
send_queued-IsPaced j p v = elim (Bool-cases p.send_in_progress) [
  | inl b ↦ simp b (record { least = v.least; most = v.most; one_timer = v.one_timer })
  | inr b ↦ simp b (
      send_front-IsPaced (p.operations ++ (j ∷ []))
        (record p { operations = p.operations ++ (j ∷ []); send_in_progress = false })
        (record { least = v.least; most = v.most; one_timer = v.one_timer }))
]

init-IsPaced : IsPaced init
unfolding init
init-IsPaced = record { least = omega arith; most = omega arith; one_timer = refl }

Step-IsPaced : {handshake : Json} {p q : Publisher} → Step handshake p q → IsPaced p → IsPaced q
unfolding on_wait_over on_connected on_connect_failed on_alive on_sent send_once_from_queue
    on_send_failed on_read_failed
Step-IsPaced (wait_over p r) v =
    authenticate-IsPaced r (record p { wait_pending = false; is_reconnecting = false })
      (record { least = v.least; most = v.most; one_timer = refl })
Step-IsPaced {handshake} (connected p) v =
    send_queued-IsPaced handshake
      (record p {
        connect_pending = false;
        alive_pending = true;
        reconnect_time = 1;
        reads = suc p.reads;
      })
      (record { least = omega arith; most = omega arith; one_timer = v.one_timer })
Step-IsPaced (connect_failed p) v =
    retry_connect-IsPaced (record p { connect_pending = false })
      (record { least = v.least; most = v.most; one_timer = v.one_timer })
Step-IsPaced (alive p) v =
    let t : IsPaced (send_queued ping p) = send_queued-IsPaced ping p v in
    record { least = t.least; most = t.most; one_timer = t.one_timer }
Step-IsPaced (says p j) v = send_queued-IsPaced j p v
Step-IsPaced (sent_one p n e) v =
    send_front-IsPaced p.operations (record p { in_flight = n })
      (record { least = v.least; most = v.most; one_timer = v.one_timer })
Step-IsPaced (send_failed p n e) v =
    retry_connect-IsPaced (record p { in_flight = n })
      (record { least = v.least; most = v.most; one_timer = v.one_timer })
Step-IsPaced (read_failed p n e) v =
    retry_connect-IsPaced (record p { reads = n })
      (record { least = v.least; most = v.most; one_timer = v.one_timer })

-- In every reachable state the next delay is between 1 and 60 seconds, and a wait on the reconnect
-- timer is pending exactly when `isReconnecting_` is set.
pub Reach-IsPaced : {handshake : Json} {p : Publisher} → Reach handshake init p → IsPaced p
Reach-IsPaced here = init-IsPaced
Reach-IsPaced (next r st) = Step-IsPaced st (Reach-IsPaced r)

-- Rounds of a wait that ends in a failed authentication.
pub fail_rounds : ℕ → Response → Publisher → Publisher
fail_rounds zero r p = p
fail_rounds (suc n) r p = on_wait_over r (fail_rounds n r p)

-- 1, 2, 4, … doubled up to a minute: the delays of the first `n` waits.
pub delays : ℕ → List ℕ
delays zero = []
delays (suc n) = delays n ++ (min (2 ^ n) 60 ∷ [])

abbrev Waiting : ℕ → Publisher → Type 0
Waiting n p =
    (p.waits ≡ delays n) × (p.reconnect_time ≡ min (2 ^ n) 60) × (p.is_reconnecting ≡ true)

double_min : (n : ℕ) → doubled (min (2 ^ n) 60) ≡ min (2 ^ suc n) 60
double_min n = ground (arith, pow-suc 2 n)

authenticate_refused :
    (r : Response) (p : Publisher) → r.code ≢ 200 → authenticate r p ≡ retry_connect p
unfolding authenticate
authenticate_refused r p bad = ground arith

retry_connect-Waiting :
    (n : ℕ) (p : Publisher)
    → p.is_reconnecting ≡ false
    → p.waits ≡ delays n
    → p.reconnect_time ≡ min (2 ^ n) 60
    → Waiting (suc n) (retry_connect p)
unfolding retry_connect delays
retry_connect-Waiting n p f e t =
    simp f (ap₂ (λ l (d : ℕ). l ++ (d ∷ [])) e t, ap doubled t ∙ double_min n, refl)

on_wait_over-Waiting :
    (r : Response) (n : ℕ) (p : Publisher)
    → r.code ≢ 200
    → Waiting n p
    → Waiting (suc n) (on_wait_over r p)
unfolding on_wait_over
on_wait_over-Waiting r n p bad w =
    rw (authenticate_refused r p' bad) (retry_connect-Waiting n p' refl w.0 w.1)
  where
    p' : Publisher
    p' = record p { wait_pending = false; is_reconnecting = false }

first : (r : Response) → r.code ≢ 200 → Waiting 1 (authenticate r init)
unfolding init delays
first r bad = rw (authenticate_refused r init bad) (retry_connect-Waiting 0 init refl refl refl)

fail_rounds-Waiting :
    (r : Response) (n : ℕ) (p : Publisher)
    → r.code ≢ 200
    → Waiting 1 p
    → Waiting (suc n) (fail_rounds n r p)
unfolding fail_rounds
fail_rounds-Waiting r zero p bad w = w
fail_rounds-Waiting r (suc n) p bad w =
    on_wait_over-Waiting r (suc n) (fail_rounds n r p) bad (fail_rounds-Waiting r n p bad w)

-- Against an authority that keeps refusing, the publisher waits 1, 2, 4, 8, 16, 32, 60, 60, …
-- seconds: after the first attempt and `n` rounds of a wait and another attempt it has made the
-- waits `delays (n + 1)`, and it is waiting again.
pub fail_rounds-delays :
    (r : Response) (n : ℕ)
    → r.code ≢ 200
    → let p = fail_rounds n r (authenticate r init) in
      (p.waits ≡ delays (suc n)) × (p.is_reconnecting ≡ true)
fail_rounds-delays r n bad =
    let w = fail_rounds-Waiting r n (authenticate r init) bad (first r bad) in (w.0, w.2)
