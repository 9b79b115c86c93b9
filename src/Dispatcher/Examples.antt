-- ===== src/Dispatcher/Examples.antt =====
-- The theorems on the dispatcher at a table of three subscriptions.
use tunnel_drill.Prelude.{ℕ, ◌≡◌, refl, Bool, List, [], ◌∷◌, String, done, ◌==◌, not}
use tunnel_drill.Json.{Json, object, member, end, string}
use tunnel_drill.Dispatcher.{Subscribers, Called, goes_on, Dispatched, dispatch, type_of}
use tunnel_drill.Dispatcher.Laws.{selected, run, dispatch-run}

-- The second subscription is gone.
abbrev all_but_second : ℕ → Bool
all_but_second n = not (n == 2)

abbrev three : Subscribers
three = ("Ping", 1) ∷ ("Ping", 2) ∷ ("Handshake", 3) ∷ []

-- A callback writes down its number.
abbrev notes : ℕ → Json → String → List ℕ → Called (List ℕ)
notes n msg ref s = goes_on (n ∷ s)

abbrev ping_message : Json
ping_message = object (member "type" (string "Ping") end)

dispatch-run_example :
    (d : Dispatched (List ℕ)) × (dispatch all_but_second notes ping_message "" three [] ≡ done d)
    × ((d.state, d.ending)
        ≡ run (λ n. notes n ping_message "") (selected all_but_second "Ping" three) [])
    × ((other : String)
        → selected all_but_second other d.table ≡ selected all_but_second other three)
unfolding type_of
dispatch-run_example = dispatch-run all_but_second notes ping_message "" "Ping" three [] refl
