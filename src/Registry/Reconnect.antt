-- ===== src/Registry/Reconnect.antt =====
-- What becomes of a publisher's control session when the publisher connects, leaves, and connects
-- again.
use tunnel_drill.Prelude.{
  ℕ, ◌≡◌, refl, ap, ◌∙◌, true, List, [], Option, none, some, String, eq_refl, ◌==◌, arith,
}
use tunnel_drill.Prelude.Dict.{lookup, insert, erase, lookup-insert, lookup-erase}
use tunnel_drill.Broker.{Publisher, detach_control_session}
use tunnel_drill.Registry.{
  Registry, new_publisher, obtain_publisher, with_publisher, setup, destroy_session, upgraded,
  end_self, current_session, replaced, lock_if, pointer_of,
}

-- The publisher of an identity, made on the fly if there is none.
abbrev pub publisher_at : Option Publisher → String → Publisher
publisher_at none identity = new_publisher identity
publisher_at (some p) identity = p

abbrev pub publisher : String → Registry → Publisher
publisher identity r = publisher_at (lookup identity r.publishers) identity

obtain_publisher-publisher :
    (identity : String) (r : Registry) → (obtain_publisher identity r).0 ≡ publisher identity r
unfolding obtain_publisher
obtain_publisher-publisher identity r = ground arith

nat_refl : (n : ℕ) → (n == n) ≡ true
nat_refl n = ground arith

lookup-insert_self :
    {V : Type 0} (k : String) (v : V) (m : List (String × V)) → lookup k (insert k v m) ≡ some v
lookup-insert_self k v m = rw (lookup-insert k k v m, eq_refl k) refl

lookup-with_publisher :
    (identity : String) (f : Publisher → Publisher) (r : Registry)
    → lookup identity (with_publisher identity f r).publishers ≡ some (f (publisher identity r))
unfolding with_publisher
lookup-with_publisher identity f r =
    lookup-insert_self identity _ _ ∙ ap (λ p. some (f p)) (obtain_publisher-publisher identity r)

sessions-with_publisher :
    (identity : String) (f : Publisher → Publisher) (r : Registry)
    → (with_publisher identity f r).control_sessions ≡ r.control_sessions
unfolding with_publisher obtain_publisher
sessions-with_publisher identity f r = ground arith

abbrev attached : ℕ → Publisher → Publisher
attached n p = record p { control_session = some n }

-- The state between `setup` and the end of the write to the table.
abbrev stored : String → ℕ → Registry → Registry
stored identity n r = record (setup identity n r) {
  control_sessions = insert identity n (setup identity n r).control_sessions;
}

sessions-setup :
    (identity : String) (n : ℕ) (r : Registry)
    → (setup identity n r).control_sessions ≡ r.control_sessions
unfolding setup
sessions-setup identity n r = sessions-with_publisher identity (attached n) r

lookup-setup :
    (identity : String) (n : ℕ) (r : Registry)
    → lookup identity (setup identity n r).publishers ≡ some (attached n (publisher identity r))
unfolding setup
lookup-setup identity n r = lookup-with_publisher identity (attached n) r

-- A publisher that connects while the table has no session of its identity is reachable through the
-- new session, and keeps the services that it had.
pub upgraded-first :
    (identity : String) (n : ℕ) (r : Registry)
    → lookup identity r.control_sessions ≡ none
    → (current_session identity (upgraded identity n r) ≡ some n)
      × ((publisher identity (upgraded identity n r)).services ≡ (publisher identity r).services)
unfolding upgraded current_session
upgraded-first identity n r e =
    simp (sessions-setup identity n r, e, lookup-setup identity n r, lookup-insert_self, nat_refl n)
      (refl, refl)

lookup-destroy_session :
    (identity : String) (r : Registry)
    → lookup identity (destroy_session identity r).publishers
      ≡ some (detach_control_session true (publisher identity r))
unfolding destroy_session
lookup-destroy_session identity r = lookup-with_publisher identity (detach_control_session true) r

sessions-destroy_session :
    (identity : String) (r : Registry)
    → (destroy_session identity r).control_sessions ≡ r.control_sessions
unfolding destroy_session
sessions-destroy_session identity r =
    sessions-with_publisher identity (detach_control_session true) r

detach_lem :
    (p : Publisher)
    → ((detach_control_session true p).services ≡ [])
      × ((detach_control_session true p).control_session ≡ none)
unfolding detach_control_session
detach_lem p = (refl, refl)

detached-lock_if : {o : Option ℕ} (held : Option ℕ) → o ≡ none → lock_if o held ≡ none
detached-lock_if held e = rw e refl

upgraded-destroys :
    (identity : String) (n old : ℕ) (r : Registry)
    → lookup identity r.control_sessions ≡ some old
    → upgraded identity n r ≡ destroy_session identity (stored identity n r)
unfolding upgraded
upgraded-destroys identity n old r e =
    ap (λ o. replaced o identity (stored identity n r))
      (ap (lookup identity) (sessions-setup identity n r) ∙ e)

-- A publisher that connects while the table still has a session of its identity loses the new
-- session and all its services at once: the old session is destroyed by the write to the table,
-- after the new one was set up. The table then holds the new session, and nobody finds it.
pub upgraded-detaches :
    (identity : String) (n old : ℕ) (r : Registry)
    → lookup identity r.control_sessions ≡ some old
    → (lookup identity (upgraded identity n r).control_sessions ≡ some n)
      × ((publisher identity (upgraded identity n r)).services ≡ [])
      × (current_session identity (upgraded identity n r) ≡ none)
unfolding current_session
upgraded-detaches identity n old r e = rw (upgraded-destroys identity n old r e) (
  kept,
  ap (λ o. (publisher_at o identity).services) gone ∙ (detach_lem (publisher identity s)).0,
  ap (λ o. lock_if (pointer_of o) (lookup identity (destroy_session identity s).control_sessions))
        gone
      ∙ detached-lock_if _ (detach_lem (publisher identity s)).1,
)
  where
    s : Registry
    s = stored identity n r

    gone :
        lookup identity (destroy_session identity s).publishers
        ≡ some (detach_control_session true (publisher identity s))
    gone = lookup-destroy_session identity s

    kept : lookup identity (destroy_session identity s).control_sessions ≡ some n
    kept =
        ap (lookup identity) (sessions-destroy_session identity s) ∙ lookup-insert_self identity n _

lookup-erase_self :
    (identity : String) (r : Registry) → lookup identity (erase identity r.control_sessions) ≡ none
lookup-erase_self identity r =
    rw (lookup-erase identity identity r.control_sessions, eq_refl identity) refl

lookup-end_self :
    (identity : String) (r : Registry)
    → lookup identity (end_self identity r).control_sessions ≡ none
unfolding end_self destroy_session
lookup-end_self identity r = go (lookup identity r.control_sessions)
  where
    s : Registry
    s = record r { control_sessions = erase identity r.control_sessions }

    go : (o : Option ℕ) → lookup identity (replaced o identity s).control_sessions ≡ none
    go none = lookup-erase_self identity r
    go (some old) =
        ap (lookup identity) (sessions-with_publisher identity (detach_control_session true) s)
        ∙ lookup-erase_self identity r

-- If the session that the table has, if any, ends before the publisher connects again, the
-- publisher is reachable through its new session.
pub upgraded-end_self :
    (identity : String) (n : ℕ) (r : Registry)
    → current_session identity (upgraded identity n (end_self identity r)) ≡ some n
upgraded-end_self identity n r =
    (upgraded-first identity n (end_self identity r) (lookup-end_self identity r)).0
