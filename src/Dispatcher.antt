-- ===== src/Dispatcher.antt =====
-- brokerpp/src/brokerpp/control/dispatcher.cpp and subscription.cpp: the subscribers of message
-- types. The callbacks are arguments, and so is whether the weak pointer to a subscription can be
-- locked. Subscriptions are numbered. An unordered multimap has its entries in an order of its own,
-- so the table is a list, and a new entry goes to a place that is an argument.
pub mod Laws
mod Examples
use tunnel_drill.Prelude.{
  ℕ, zero, suc, Bool, true, false, List, [], ◌∷◌, Option, none, some, String, str_eq, Outcome, done,
  undefined, thrown, ◌>>=◌,
}
use tunnel_drill.Json.{Json, object, find_member, get_string}

abbrev pub Subscribers : Type 0
Subscribers = List (String × ℕ)

-- Dispatcher::subscribe; `place` is where the container puts the entry.
unfoldable pub subscribe : ℕ → String → ℕ → Subscribers → Subscribers
subscribe zero type n table = (type, n) ∷ table
subscribe (suc place) type n [] = (type, n) ∷ []
subscribe (suc place) type n (entry ∷ rest) = entry ∷ subscribe place type n rest

-- What a callback does: it returns true or false, or throws. The state is all that callbacks
-- change.
pub data Called (S : Type 0) : Type 0 where
  goes_on stops raises : S → Called S

-- How the loop of `dispatch` ends.
pub data Ending : Type 0 where
  through stopped raised : Ending

pub record Dispatched (S : Type 0) : Type 0 where
  pub table : Subscribers
  pub state : S
  pub ending : Ending

-- const std::string type = msg["type"]; on a constant object the member must be there.
unfoldable pub type_of : Json → Outcome String
type_of (object ms) = elim (find_member "type" ms) [
  | none ↦ undefined
  | some j ↦ elim (get_string j) [ none ↦ thrown | some type ↦ done type ]
]
type_of _ = thrown

module _ {S : Type 0} (alive : ℕ → Bool) (invoke : ℕ → S → Called S) where
  abbrev pub keep : String × ℕ → Dispatched S → Dispatched S
  keep entry d = record d { table = entry ∷ d.table }

  -- The loop over `equal_range(type)`.
  pub dispatch_range : String → Subscribers → S → Dispatched S
  dispatch_range type [] s = record { table = []; state = s; ending = through }
  dispatch_range type ((t, n) ∷ rest) s = elim (str_eq t type) [
    | false ↦ keep (t, n) (dispatch_range type rest s)
    | true ↦ elim (alive n) [
      | false ↦ dispatch_range type rest s
      | true ↦ elim (invoke n s) [
        | goes_on s' ↦ keep (t, n) (dispatch_range type rest s')
        | stops s' ↦ record { table = (t, n) ∷ rest; state = s'; ending = stopped }
        | raises s' ↦ record { table = (t, n) ∷ rest; state = s'; ending = raised }
      ]
    ]
  ]

-- Dispatcher::dispatch
pub dispatch :
    {S : Type 0}
    → (ℕ → Bool)
    → (ℕ → Json → String → S → Called S)
    → Json
    → String
    → Subscribers
    → S
    → Outcome (Dispatched S)
unfolding dispatch_range type_of
dispatch alive invoke msg ref table s = do
  type ← type_of msg
  done (dispatch_range alive (λ n. invoke n msg ref) type table s)
