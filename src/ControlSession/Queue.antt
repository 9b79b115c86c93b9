-- ===== src/ControlSession/Queue.antt =====
-- The write queue of a control session: every message goes out once, in order, one at a time.
use tunnel_drill.Prelude.{
  ℕ, suc, ◌≤◌, ◌≡◌, refl, sym, ap, ◌∙◌, Bool, true, false, List, [], ◌∷◌, ◌++◌, append-nil,
  append_assoc, arith, ◌≢◌, inl, inr, Bool-cases,
}
use tunnel_drill.ControlSession.{
  ControlSession, constructed, write_front, write_once, write_payload, on_sent, on_send_failed,
}

-- What happens to the queue: a message is written, or the send in flight completes or fails.
pub data Step : ControlSession → ControlSession → List (List ℕ) → Type 0 where
  writes : (s : ControlSession) (msg : List ℕ) → Step s (write_payload msg s) (msg ∷ [])
  completes : (s : ControlSession) (n : ℕ) → s.in_flight ≡ suc n → Step s (on_sent n s) []
  fails : (s : ControlSession) (n : ℕ) → s.in_flight ≡ suc n → Step s (on_send_failed n s) []

-- A history with the messages that were written in it, oldest first.
pub data Run (s : ControlSession) : ControlSession → List (List ℕ) → Type 0 where
  here : Run s s []
  next :
      {t u : ControlSession} {written msgs : List (List ℕ)}
      → Run s t written
      → Step t u msgs
      → Run s u (written ++ msgs)

-- `written` are all messages so far. While the session has not ended, a send is in flight exactly
-- when one is said to be in progress, and nothing waits otherwise.
pub record IsOrdered (s : ControlSession) (written : List (List ℕ)) : Type 0 where
  pub order : s.sent ++ s.pending_messages ≡ written
  pub single : s.in_flight ≤ 1
  pub idle : s.write_in_progress ≡ false → (s.pending_messages ≡ []) × (s.in_flight ≡ 0)
  pub busy : s.write_in_progress ≡ true → s.ended ≡ false → s.in_flight ≡ 1

write_front-IsOrdered :
    (q : List (List ℕ)) (s : ControlSession) (written : List (List ℕ))
    → s.pending_messages ≡ q
    → s.sent ++ q ≡ written
    → s.in_flight ≡ 0
    → IsOrdered (write_front q s) written
unfolding write_front
write_front-IsOrdered [] s written p e z = record {
  order = ap (◌++◌ s.sent) p ∙ e;
  single = omega arith;
  idle = λ _. (p, z);
  busy = λ h _. cc;
}
write_front-IsOrdered (msg ∷ rest) s written p e z = record {
  order = append_assoc s.sent (msg ∷ []) rest ∙ e;
  single = omega arith;
  idle = λ h. cc;
  busy = λ _ _. ap suc z;
}

write_payload-IsOrdered :
    (s : ControlSession) (msg : List ℕ) (written : List (List ℕ))
    → IsOrdered s written
    → IsOrdered (write_payload msg s) (written ++ (msg ∷ []))
unfolding write_payload write_once
write_payload-IsOrdered s msg written o = elim (Bool-cases s.write_in_progress) [
  | inl b ↦
      simp b
        (record { order = longer; single = o.single; idle = λ h. cc; busy = λ _ h. o.busy b h })
  | inr b ↦ simp b (
      write_front-IsOrdered (s.pending_messages ++ (msg ∷ []))
        (record s {
          pending_messages = s.pending_messages ++ (msg ∷ []);
          write_in_progress = false;
        })
        (written ++ (msg ∷ [])) refl longer ((o.idle b).1))
]
  where
    longer : s.sent ++ (s.pending_messages ++ (msg ∷ [])) ≡ written ++ (msg ∷ [])
    longer =
        sym (append_assoc s.sent s.pending_messages (msg ∷ [])) ∙ ap (λ l. l ++ (msg ∷ [])) o.order

Step-IsOrdered :
    {s t : ControlSession} {msgs written : List (List ℕ)}
    → Step s t msgs
    → IsOrdered s written
    → IsOrdered t (written ++ msgs)
unfolding write_payload write_once on_sent on_send_failed
Step-IsOrdered {written = written} (writes s msg) o = write_payload-IsOrdered s msg written o
Step-IsOrdered {written = written} (completes s n e) o =
    write_front-IsOrdered s.pending_messages (record s { in_flight = n }) (written ++ []) refl
      (o.order ∙ sym (append-nil written)) (omega (arith, o.single))
Step-IsOrdered {written = written} (fails s n e) o = record {
  order = o.order ∙ sym (append-nil written);
  single = omega (arith, o.single);
  idle = λ h. absurd (omega (arith, (o.idle h).1));
  busy = λ _ h. cc;
}

Run-IsOrdered :
    {s t : ControlSession} {written : List (List ℕ)}
    → IsOrdered s []
    → Run s t written
    → IsOrdered t written
Run-IsOrdered o here = o
Run-IsOrdered o (next r st) = Step-IsOrdered st (Run-IsOrdered o r)

true-ne-false : ◌≢◌ {A = Bool} true false
true-ne-false = λ h. cc

-- A session before its first message.
pub record IsFresh (s : ControlSession) : Type 0 where
  pub no_pending : s.pending_messages ≡ []
  pub no_progress : s.write_in_progress ≡ false
  pub no_sent : s.sent ≡ []
  pub no_flight : s.in_flight ≡ 0

pub constructed-IsFresh : IsFresh constructed
unfolding constructed
constructed-IsFresh = record {
  no_pending = refl;
  no_progress = refl;
  no_sent = refl;
  no_flight = refl;
}

-- In every history of a fresh session the messages go out in the order in which they were written,
-- none twice and none left out (what was sent, followed by what is pending, is what was written);
-- at most one send is in flight; and as long as the session has not ended, one is in flight
-- whenever a message is pending.
pub Run-in_order :
    {s t : ControlSession} {written : List (List ℕ)}
    → IsFresh s
    → Run s t written
    → (t.sent ++ t.pending_messages ≡ written)
      × (t.in_flight ≤ 1)
      × (t.ended ≡ false → t.pending_messages ≢ [] → t.in_flight ≡ 1)
Run-in_order {t = t} {written = written} f r = (o.order, o.single, served)
  where
    start : {s : ControlSession} → IsFresh s → IsOrdered s []
    start {s} g = record {
      order = rw (g.no_sent, g.no_pending) refl;
      single = omega (arith, g.no_flight);
      idle = λ _. (g.no_pending, g.no_flight);
      busy = λ h _. absurd (true-ne-false (sym h ∙ g.no_progress));
    }

    o : IsOrdered t written
    o = Run-IsOrdered (start f) r

    served : t.ended ≡ false → t.pending_messages ≢ [] → t.in_flight ≡ 1
    served e p = elim (Bool-cases t.write_in_progress) [
      | inl b ↦ o.busy b e
      | inr b ↦ absurd (p (o.idle b).0)
    ]
