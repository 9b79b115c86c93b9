-- ===== src/PublisherClient/Stall.antt =====
-- A send that fails leaves `sendInProgress_` set, and nothing ever clears it again.
use tunnel_drill.Prelude.{suc, ◌≡◌, refl, true, false, List, arith}
use tunnel_drill.Json.{Json}
use tunnel_drill.PublisherClient.{
  Publisher, send_queued, retry_connect, authenticate, on_wait_over, on_connected,
  on_connect_failed, on_alive, on_sent, on_send_failed, on_read_failed, Response, Step, wait_over,
  connected, connect_failed, alive, says, sent_one, send_failed, read_failed, Reach, here, next,
  ping,
}

-- A send is said to be in progress, and none is.
pub record IsStalled (p : Publisher) (sent : List Json) : Type 0 where
  pub flag : p.send_in_progress ≡ true
  pub nothing : p.in_flight ≡ 0
  pub sent_same : p.sent ≡ sent

send_queued-IsStalled :
    (j : Json) (p : Publisher) {sent : List Json}
    → IsStalled p sent
    → IsStalled (send_queued j p) sent
unfolding send_queued
send_queued-IsStalled j p s =
    simp s.flag (record { flag = refl; nothing = s.nothing; sent_same = s.sent_same })

retry_connect-IsStalled :
    (p : Publisher) {sent : List Json} → IsStalled p sent → IsStalled (retry_connect p) sent
unfolding retry_connect
retry_connect-IsStalled p s = ground arith

authenticate-IsStalled :
    (r : Response) (p : Publisher) {sent : List Json}
    → IsStalled p sent
    → IsStalled (authenticate r p) sent
unfolding authenticate
authenticate-IsStalled r p s = ground (arith, retry_connect-IsStalled p s)

Step-IsStalled :
    {handshake : Json} {p q : Publisher} {sent : List Json}
    → Step handshake p q
    → IsStalled p sent
    → IsStalled q sent
unfolding on_wait_over on_connected on_connect_failed on_alive on_sent on_send_failed on_read_failed
Step-IsStalled (wait_over p r) s =
    authenticate-IsStalled r (record p { wait_pending = false; is_reconnecting = false })
      (record { flag = s.flag; nothing = s.nothing; sent_same = s.sent_same })
Step-IsStalled {handshake} (connected p) s =
    send_queued-IsStalled handshake
      (record p {
        connect_pending = false;
        alive_pending = true;
        reconnect_time = 1;
        reads = suc p.reads;
      })
      (record { flag = s.flag; nothing = s.nothing; sent_same = s.sent_same })
Step-IsStalled (connect_failed p) s =
    retry_connect-IsStalled (record p { connect_pending = false })
      (record { flag = s.flag; nothing = s.nothing; sent_same = s.sent_same })
Step-IsStalled (alive p) s =
    let t : IsStalled (send_queued ping p) _ = send_queued-IsStalled ping p s in
    record { flag = t.flag; nothing = t.nothing; sent_same = t.sent_same }
Step-IsStalled (says p j) s = send_queued-IsStalled j p s
Step-IsStalled (sent_one p n e) s = absurd (omega (arith, s.nothing))
Step-IsStalled (send_failed p n e) s = absurd (omega (arith, s.nothing))
Step-IsStalled (read_failed p n e) s =
    retry_connect-IsStalled (record p { reads = n })
      (record { flag = s.flag; nothing = s.nothing; sent_same = s.sent_same })

Reach-IsStalled :
    {handshake : Json} {p q : Publisher} {sent : List Json}
    → Reach handshake p q
    → IsStalled p sent
    → IsStalled q sent
Reach-IsStalled here s = s
Reach-IsStalled (next r st) s = Step-IsStalled st (Reach-IsStalled r s)

send_failed-IsStalled :
    (p : Publisher) → p.send_in_progress ≡ true → IsStalled (on_send_failed 0 p) p.sent
unfolding on_send_failed
send_failed-IsStalled p e =
    retry_connect-IsStalled (record p { in_flight = 0 })
      (record { flag = e; nothing = refl; sent_same = refl })

-- When the send that is in progress fails, and no other is in flight, the publisher sends nothing
-- any more: whatever happens then, reconnects that succeed included, the websocket is given no
-- further payload, be it the handshake, a ping or an answer.
pub on_send_failed-stalls :
    {handshake : Json} {q : Publisher} (p : Publisher)
    → p.send_in_progress ≡ true
    → Reach handshake (on_send_failed 0 p) q
    → q.sent ≡ p.sent
on_send_failed-stalls p e r = (Reach-IsStalled r (send_failed-IsStalled p e)).sent_same
