-- ===== src/Dispatcher/Laws.antt =====
-- Whom a message reaches, and that dispatching it loses nobody.
use tunnel_drill.Prelude.{
  ℕ, zero, suc, ◌≡◌, refl, ap, ◌∙◌, Bool, true, false, ◌&&◌, if◌then◌else◌, arith, List, [], ◌∷◌,
  ◌++◌, String, str_eq, eq_refl, done, Outcome, ◌>>=◌, subst, sym, Bool-cases, inl, inr, ◌⊎◌,
}
use tunnel_drill.Json.{Json}
use tunnel_drill.Dispatcher.{
  Subscribers, subscribe, Called, goes_on, stops, raises, Ending, through, stopped, raised,
  Dispatched, type_of, dispatch_range, dispatch,
}

-- The subscriptions of a type that are still held, in the order of the table.
unfoldable pub selected : (ℕ → Bool) → String → Subscribers → List ℕ
selected alive type [] = []
selected alive type ((t, n) ∷ rest) =
    let later = selected alive type rest in if str_eq t type && alive n then n ∷ later else later

-- Callbacks one after the other, until one returns false or throws.
unfoldable pub run : {S : Type 0} → (ℕ → S → Called S) → List ℕ → S → S × Ending
run invoke [] s = (s, through)
run invoke (n ∷ ns) s = elim (invoke n s) [
  | goes_on s' ↦ run invoke ns s'
  | stops s' ↦ (s', stopped)
  | raises s' ↦ (s', raised)
]

Called-cases :
    {S : Type 0} (c : Called S)
    → ((s : S) × (c ≡ goes_on s)) ⊎ (((s : S) × (c ≡ stops s)) ⊎ ((s : S) × (c ≡ raises s)))
Called-cases (goes_on s) = inl (s, refl)
Called-cases (stops s) = inr (inl (s, refl))
Called-cases (raises s) = inr (inr (s, refl))

module _ (alive : ℕ → Bool) where
  selected-cons :
      (other t : String) (n : ℕ) (xs ys : Subscribers)
      → selected alive other xs ≡ selected alive other ys
      → selected alive other ((t, n) ∷ xs) ≡ selected alive other ((t, n) ∷ ys)
  unfolding selected
  selected-cons other t n xs ys e =
      ap (λ (l : List ℕ). if str_eq t other && alive n then n ∷ l else l) e

  selected-dead :
      (other t : String) (n : ℕ) (xs : Subscribers)
      → alive n ≡ false
      → selected alive other xs ≡ selected alive other ((t, n) ∷ xs)
  unfolding selected
  selected-dead other t n xs a = ground arith

  abbrev Placed : String → ℕ → List ℕ → List ℕ → Type 0
  Placed type n old new =
      (before : List ℕ) × (after : List ℕ) × (old ≡ before ++ after) × (new ≡ before ++ (n ∷ after))

  Placed-later :
      (type : String) (n m : ℕ) (b : Bool) (old new : List ℕ)
      → Placed type n old new
      → Placed type n (if b then m ∷ old else old) (if b then m ∷ new else new)
  Placed-later type n m true old new (before, after, e, f) =
      (m ∷ before, after, ap (λ (l : List ℕ). m ∷ l) e, ap (λ (l : List ℕ). m ∷ l) f)
  Placed-later type n m false old new p = p

  selected-here :
      (type : String) (n : ℕ) (table : Subscribers)
      → alive n ≡ true
      → selected alive type ((type, n) ∷ table) ≡ n ∷ selected alive type table
  unfolding selected
  selected-here type n table a = rw (eq_refl type, a) refl

  subscribe-Placed :
      (place : ℕ) (type : String) (n : ℕ) (table : Subscribers)
      → alive n ≡ true
      → Placed type n
          (selected alive type table)
          (selected alive type (subscribe place type n table))
  unfolding selected subscribe
  subscribe-Placed zero type n table a =
      ([], selected alive type table, refl, selected-here type n table a)
  subscribe-Placed (suc place) type n [] a = ([], [], refl, selected-here type n [] a)
  subscribe-Placed (suc place) type n ((t, m) ∷ rest) a =
      Placed-later type n m (str_eq t type && alive m) (selected alive type rest) _
        (subscribe-Placed place type n rest a)

  selected-subscribe_other :
      (place : ℕ) (type other : String) (n : ℕ) (table : Subscribers)
      → str_eq type other ≡ false
      → selected alive other (subscribe place type n table) ≡ selected alive other table
  unfolding selected subscribe
  selected-subscribe_other zero type other n table e = rw e refl
  selected-subscribe_other (suc place) type other n [] e = rw e refl
  selected-subscribe_other (suc place) type other n ((t, m) ∷ rest) e =
      selected-cons other t m _ rest (selected-subscribe_other place type other n rest e)

module _ {S : Type 0} (alive : ℕ → Bool) (invoke : ℕ → S → Called S) where
  dispatch_range-run :
      (type : String) (table : Subscribers) (s : S)
      → let d = dispatch_range alive invoke type table s in
        (d.state, d.ending) ≡ run invoke (selected alive type table) s
  unfolding dispatch_range run selected
  dispatch_range-run type [] s = refl
  dispatch_range-run type ((t, n) ∷ rest) s = elim (Bool-cases (str_eq t type)) [
    | inr e ↦ rw (e, dispatch_range, selected) (dispatch_range-run type rest s)
    | inl e ↦ elim (Bool-cases (alive n)) [
      | inr a ↦ rw (e, a, dispatch_range, selected) (dispatch_range-run type rest s)
      | inl a ↦ elim (Called-cases (invoke n s)) [
        | inl (s', c) ↦
            rw (e, a, c, dispatch_range, selected, run) (dispatch_range-run type rest s')
        | inr (inl (s', c)) ↦ rw (e, a, c, dispatch_range, selected, run) refl
        | inr (inr (s', c)) ↦ rw (e, a, c, dispatch_range, selected, run) refl
      ]
    ]
  ]

  dispatch_range-selected :
      (type other : String) (table : Subscribers) (s : S)
      → selected alive other (dispatch_range alive invoke type table s).table
        ≡ selected alive other table
  unfolding dispatch_range
  dispatch_range-selected type other [] s = refl
  dispatch_range-selected type other ((t, n) ∷ rest) s = elim (Bool-cases (str_eq t type)) [
    | inr e ↦
        rw (e, dispatch_range)
          (selected-cons alive other t n _ rest (dispatch_range-selected type other rest s))
    | inl e ↦ elim (Bool-cases (alive n)) [
      | inr a ↦
          rw (e, a, dispatch_range)
            (dispatch_range-selected type other rest s ∙ selected-dead alive other t n rest a)
      | inl a ↦ elim (Called-cases (invoke n s)) [
        | inl (s', c) ↦
            rw (e, a, c, dispatch_range)
              (selected-cons alive other t n _ rest (dispatch_range-selected type other rest s'))
        | inr (inl (s', c)) ↦ rw (e, a, c, dispatch_range) refl
        | inr (inr (s', c)) ↦ rw (e, a, c, dispatch_range) refl
      ]
    ]
  ]

-- A message whose type is a string reaches the subscriptions of this type that are still held
-- (which ones these are does not change meanwhile), in the order of the table and one after the
-- other, until one of them returns false or throws; the state and the way the loop ends are those
-- of calling them so. The table that is left reaches, for any type, whom it reached before.
pub dispatch-run :
    {S : Type 0} (alive : ℕ → Bool) (invoke : ℕ → Json → String → S → Called S) (msg : Json)
    (ref type : String) (table : Subscribers) (s : S)
    → type_of msg ≡ done type
    → (d : Dispatched S) × (dispatch alive invoke msg ref table s ≡ done d)
      × ((d.state, d.ending) ≡ run (λ n. invoke n msg ref) (selected alive type table) s)
      × ((other : String) → selected alive other d.table ≡ selected alive other table)
unfolding dispatch
dispatch-run alive invoke msg ref type table s e = (
  dispatch_range alive (λ n. invoke n msg ref) type table s,
  rw (e, dispatch) refl,
  dispatch_range-run alive (λ n. invoke n msg ref) type table s,
  λ other. dispatch_range-selected alive (λ n. invoke n msg ref) type other table s,
)

-- Wherever the container puts a new subscription, it is reached by the messages of its type besides
-- those that were reached before, whose order stays; other types are reached as before.
pub selected-subscribe :
    (alive : ℕ → Bool) (place : ℕ) (type : String) (n : ℕ) (table : Subscribers)
    → alive n ≡ true
    → ((before : List ℕ) × (after : List ℕ) × (selected alive type table ≡ before ++ after)
        × (selected alive type (subscribe place type n table) ≡ before ++ (n ∷ after)))
      × ((other : String)
          → str_eq type other ≡ false
          → selected alive other (subscribe place type n table) ≡ selected alive other table)
selected-subscribe alive place type n table a = (
  subscribe-Placed alive place type n table a,
  λ other e. selected-subscribe_other alive place type other n table e,
)

abbrev pub state_of : {S : Type 0} → Called S → S
state_of (goes_on s) = s
state_of (stops s) = s
state_of (raises s) = s

module _ {S : Type 0} (P : S → Type 0) where
  run-keeps :
      (invoke : ℕ → S → Called S)
      → ((n : ℕ) (s : S) → P s → P (state_of (invoke n s)))
      → (ns : List ℕ) (s : S) → P s
      → P (run invoke ns s).0
  unfolding run
  run-keeps invoke keeps [] s p = p
  run-keeps invoke keeps (n ∷ ns) s p = elim (Called-cases (invoke n s)) [
    | inl (s', c) ↦ rw (c, run) (run-keeps invoke keeps ns s' (left s' (ap state_of c)))
    | inr (inl (s', c)) ↦ rw (c, run) (left s' (ap state_of c))
    | inr (inr (s', c)) ↦ rw (c, run) (left s' (ap state_of c))
  ]
    where
      left : (s' : S) → state_of (invoke n s) ≡ s' → P s'
      left s' c = subst P c (keeps n s p)

  same : (x y : Dispatched S) → ◌≡◌ {A = Outcome (Dispatched S)} (done x) (done y) → x ≡ y
  same x y e = cc

  -- What every callback keeps, a message keeps, and the table reaches whom it reached.
  pub dispatch-keeps :
      (alive : ℕ → Bool) (invoke : ℕ → Json → String → S → Called S) (msg : Json) (ref : String)
      (table : Subscribers) (s : S)
      → ((n : ℕ) (x : S) → P x → P (state_of (invoke n msg ref x)))
      → P s
      → (d : Dispatched S) → dispatch alive invoke msg ref table s ≡ done d
      → P d.state × ((other : String) → selected alive other d.table ≡ selected alive other table)
  unfolding dispatch
  dispatch-keeps alive invoke msg ref table s keeps p d h = go (type_of msg) h
    where
      ran : (type : String) → P (dispatch_range alive (λ n. invoke n msg ref) type table s).state
      ran type =
          subst P
            (sym (ap (λ x. x.0) (dispatch_range-run alive (λ n. invoke n msg ref) type table s)))
            (run-keeps (λ n. invoke n msg ref) keeps (selected alive type table) s p)

      go :
          (o : Outcome String)
          → (o >>= λ type. done (dispatch_range alive (λ n. invoke n msg ref) type table s))
            ≡ done d
          → P d.state
            × ((other : String) → selected alive other d.table ≡ selected alive other table)
      go (done type) e =
          subst
            (λ x.
              P (Dispatched.state x)
              × ((other : String)
                  → selected alive other (Dispatched.table x) ≡ selected alive other table))
            (same _ d e)
            (
              ran type,
              λ other. dispatch_range-selected alive (λ n. invoke n msg ref) type other table s,
            )
      go Outcome.out_of_fuel e = absurd (cc e)
      go Outcome.undefined e = absurd (cc e)
      go Outcome.thrown e = absurd (cc e)
