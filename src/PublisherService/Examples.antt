-- ===== src/PublisherService/Examples.antt =====
-- The publisher's service at concrete states.
use tunnel_drill.Prelude.{
  ℕ, ◌≡◌, refl, Bool, Bool-cases, inl, inr, eq_iff, subst, str_eq, true, false, List, [], ◌∷◌,
  Option, none, some, String, Returns, arith, ◌==◌, if◌then◌else◌,
}
use tunnel_drill.Prelude.Dict.{lookup, insert}
use tunnel_drill.Json.{object, member, end, string}
use tunnel_drill.Tunnel as Broker
use tunnel_drill.Tunnel.Data.{unjoined, blank}
use tunnel_drill.Tunnel.Link.{connect_tunnels}
use tunnel_drill.Tunnel.Peek.{PublisherToken, received, modify, cleared, on_peek}
use tunnel_drill.PublisherService.{SessionPair, Service, put, pipe}
use tunnel_drill.PublisherService.Close.{close, close_pipe}
use tunnel_drill.PublisherService.Close.Tidy.{IsTidy, IsJoined, tunnel_of}
use tunnel_drill.PublisherService.Close.Keeps.{same_pair}
use tunnel_drill.PublisherService.Close.Ends.{IsOver, close_pipe-IsOver}
use tunnel_drill.PublisherService.Create.{
  Network, opened, on_token_written, new_session, hold, prefixed,
}
use tunnel_drill.PublisherService.Create.Connects.{
  session_over-opened, create_session-opened, up, written_over-up, joined_pair, IsUp,
  on_token_written-IsUp,
}
use tunnel_drill.PublisherService.Create.Accepted.{create_session-accepted}
use tunnel_drill.PublisherService.Reach.{Reach, here, next, creates, comes_up, Reach-IsTidy}
use tunnel_drill.PublisherService.Data.{web, idle, busy}

-- A table of one joined pair is tidy.
only-IsTidy :
    (key : String) (p : SessionPair) (s : Service)
    → s.sessions ≡ (key, p) ∷ []
    → IsJoined key p s
    → IsTidy s
unfolding lookup
only-IsTidy key p s e own = record {
  joined = λ k q l. elim (Bool-cases (str_eq key k)) [
    | inl h ↦
        subst (λ x. IsJoined x q s) ((eq_iff key k).0 h)
          (subst (λ x. IsJoined key x s) (same_pair p q (rw (e, h) at l)) own)
    | inr h ↦ absurd (not_there q (rw (e, h) at l))
  ];
}
  where
    not_there : (q : SessionPair) → ◌≡◌ {A = Option SessionPair} none (some q) → ⊥
    not_there q l = cc

busy-IsTidy : IsTidy busy
unfolding lookup
busy-IsTidy = only-IsTidy "t" (joined_pair "i" "o") busy refl (record {
  piped = record { inward_joined = refl; outward_joined = refl };
  inward_key = refl;
  outward_key = refl;
  alive = refl;
})

close_pipe-IsOver_example :
    Returns
      (IsOver "t" (joined_pair "i" "o") busy)
      (close_pipe (close 2) (some (pipe "i" "o")) busy)
    × Returns
        (IsOver "t" (joined_pair "i" "o") busy)
        (close_pipe (close 2) (some (pipe "o" "i")) busy)
unfolding lookup
close_pipe-IsOver_example = close_pipe-IsOver 0 "t" (joined_pair "i" "o") busy busy-IsTidy refl

-- A second tunnel, "u", whose first session is "v".
abbrev second : Service
second = hold "v" (put "v" (new_session "u") busy)

second-IsTidy : IsTidy second
unfolding lookup insert
second-IsTidy = only-IsTidy "t" (joined_pair "i" "o") second refl (record {
  piped = record { inward_joined = refl; outward_joined = refl };
  inward_key = refl;
  outward_key = refl;
  alive = refl;
})

-- The broker and the hidden host answer on their ports.
abbrev answers : Network
answers host port = if port == web.public_port then opened "o" else opened "w"

on_token_written-IsUp_example :
    Returns (IsUp "u" "w" "v" second) (on_token_written 2 false answers "u" "v" second)
unfolding lookup insert
on_token_written-IsUp_example =
    on_token_written-IsUp 2 "u" "w" "v" second second-IsTidy refl refl refl answers refl

abbrev token : PublisherToken
token = record { identity = "pub"; claims = object (member "tunnelId" (string "c") end) }

abbrev zeros : List ℕ
zeros = 0 ∷ 0 ∷ 0 ∷ 0 ∷ 0 ∷ 0 ∷ 0 ∷ 0 ∷ 0 ∷ 0 ∷ 0 ∷ 0 ∷ 0 ∷ 0 ∷ 0 ∷ 0 ∷ 0 ∷ 0 ∷ 0 ∷ 0 ∷ []

abbrev is_x : List ℕ → Bool
is_x (c ∷ []) = c == 120
is_x text = false

abbrev accept_x : List ℕ → Option PublisherToken
accept_x text = if is_x text then some token else none

-- A session of the broker with an empty peek buffer of twenty bytes.
abbrev waits : Broker.Service
waits = Broker.put "p" (record blank { peek_buffer = zeros }) unjoined

create_session-accepted_example :
    on_peek accept_x 3 "p"
      (record { error = false; bytes = prefixed (120 ∷ []); control = some "pub" })
      waits
    ≡ connect_tunnels 3 "c" "p"
        (modify (cleared true) "p" (modify (received (prefixed (120 ∷ []))) "p" waits))
unfolding lookup insert
create_session-accepted_example =
    create_session-accepted accept_x (120 ∷ []) "c" "broker" answers
      (record { session = "o"; bytes = prefixed (120 ∷ []) }) idle
      (hold "o" (put "o" (new_session "c") idle)) 3 "p" "c" token
      (record blank { peek_buffer = zeros }) waits
      (create_session-opened (120 ∷ []) "c" "broker" "o" answers idle refl) (omega arith)
      (omega arith) refl refl refl refl refl

-- The first tunnel of a service, step by step.
abbrev first : Service
first = hold "o" (put "o" (new_session "t") idle)

begun : Reach web first
unfolding lookup
begun =
    next here
      (creates (120 ∷ []) "t" "o" _ idle first refl (session_over-opened (120 ∷ []) "t" "o" idle))

no_entry : lookup "t" first.sessions ≡ none
unfolding lookup
no_entry = refl

for_t : tunnel_of "o" first ≡ some "t"
unfolding lookup insert
for_t = refl

no_session : lookup "i" first.store ≡ none
unfolding lookup insert
no_session = refl

Reach-IsTidy_example :
    IsTidy (up 2 "t" "i" "o" first (Reach-IsTidy begun) no_entry for_t no_session)
Reach-IsTidy_example = Reach-IsTidy (
    next begun (
      comes_up 2 "t" "i" "o" first _ no_entry for_t no_session
        (written_over-up 2 "t" "i" "o" first (Reach-IsTidy begun) no_entry for_t no_session)))
