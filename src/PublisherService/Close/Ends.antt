-- ===== src/PublisherService/Close/Ends.antt =====
-- The end of a tunnel: a pipe that gives up closes both sides, and the pair leaves the table.
use tunnel_drill.Prelude.{
  ℕ, suc, ◌≡◌, refl, sym, ap, ◌∙◌, true, false, ◌||◌, List, [], ◌∷◌, none, some, String, str_eq,
  eq_iff, eq_refl, arith, Bool-cases, Option-cases, inl, inr, Returns, Returns-bind, Returns-mono,
  subst,
}
use tunnel_drill.Prelude.Dict.{lookup}
use tunnel_drill.PublisherService.{SessionPair, Service, is_active, in_pairs, lockable, pipe}
use tunnel_drill.PublisherService.Close.{close, close_pipe}
use tunnel_drill.PublisherService.Close.Tidy.{IsJoined, IsTidy}
use tunnel_drill.PublisherService.Close.Keeps.{Keeps, close-Keeps, same_pair}

-- A session of a pair of the table can be locked.
pub lookup-in_pairs :
    (key : String) (p : SessionPair) (l : List (String × SessionPair))
    → lookup key l ≡ some p
    → (in_pairs p.inward l ≡ true) × (in_pairs p.outward l ≡ true)
unfolding lookup
lookup-in_pairs key p [] e = cc
lookup-in_pairs key p ((k, q) ∷ l) e = elim (Bool-cases (str_eq k key)) [
  | inl h ↦
      subst
        (λ x.
          (in_pairs (SessionPair.inward x) ((k, q) ∷ l) ≡ true)
          × (in_pairs (SessionPair.outward x) ((k, q) ∷ l) ≡ true))
        (same_pair q p (rw h at e)) here
  | inr h ↦ later (lookup-in_pairs key p l (rw h at e))
]
  where
    here : (in_pairs q.inward ((k, q) ∷ l) ≡ true) × (in_pairs q.outward ((k, q) ∷ l) ≡ true)
    here = (ground (arith, eq_refl q.inward), ground (arith, eq_refl q.outward))

    later :
        (in_pairs p.inward l ≡ true) × (in_pairs p.outward l ≡ true)
        → (in_pairs p.inward ((k, q) ∷ l) ≡ true) × (in_pairs p.outward ((k, q) ∷ l) ≡ true)
    later h = (ground (arith, h.0), ground (arith, h.1))

-- A session that is not active stays so.
Keeps-stays :
    (id j : String) (s s' : Service)
    → Keeps id s s'
    → is_active j s ≡ false
    → is_active j s' ≡ false
Keeps-stays id j s s' k e = elim (Bool-cases (str_eq id j)) [
  | inl h ↦ ap (λ i. is_active i s') (sym ((eq_iff id j).0 h)) ∙ k.itself
  | inr h ↦ k.others j h ∙ e
]

-- Both sides are closed, one after the other.
record ClosesBoth (a b : String) (s s' : Service) : Type 0 where
  tidy : IsTidy s'
  first : is_active a s' ≡ false
  second : is_active b s' ≡ false
  others : (j : String) → str_eq a j ≡ false → str_eq b j ≡ false → is_active j s' ≡ is_active j s
  fewer :
      (key : String) (p : SessionPair)
      → lookup key s'.sessions ≡ some p
      → lookup key s.sessions ≡ some p

close_pipe-ClosesBoth :
    (n : ℕ) (a b : String) (s : Service)
    → IsTidy s
    → lockable a s ≡ true
    → lockable b s ≡ true
    → Returns (ClosesBoth a b s) (close_pipe (close (suc (suc n))) (some (pipe a b)) s)
unfolding close_pipe
close_pipe-ClosesBoth n a b s v la lb =
    rw (la, lb)
      (Returns-bind (Keeps a s) (ClosesBoth a b s) (close (suc (suc n)) a s) _ (close-Keeps n a s v)
        λ s1 k.
          Returns-mono (Keeps b s1) _ (close (suc (suc n)) b s1) (close-Keeps n b s1 k.tidy) λ s2 m.
            record {
              tidy = m.tidy;
              first = Keeps-stays b a s1 s2 m k.itself;
              second = m.itself;
              others = λ j x y. m.others j y ∙ k.others j x;
              fewer = λ key p l. k.fewer key p (m.fewer key p l);
            })

-- What the end of the tunnel `key`, with the pair `p`, is to leave.
pub record IsOver (key : String) (p : SessionPair) (s s' : Service) : Type 0 where
  pub tidy : IsTidy s'
  pub inward_closed : is_active p.inward s' ≡ false
  pub outward_closed : is_active p.outward s' ≡ false
  pub gone : lookup key s'.sessions ≡ none
  pub fewer :
      (k : String) (q : SessionPair) → lookup k s'.sessions ≡ some q → lookup k s.sessions ≡ some q
  pub others :
      (j : String)
      → str_eq p.inward j ≡ false
      → str_eq p.outward j ≡ false
      → is_active j s' ≡ is_active j s

module _ (key : String) (p : SessionPair) (s s' : Service) (v : IsTidy s)
    (l : lookup key s.sessions ≡ some p) where
  gone_lem :
      IsTidy s'
      → is_active p.inward s' ≡ false
      → is_active p.outward s' ≡ false
      → ((q : SessionPair) → lookup key s'.sessions ≡ some q → lookup key s.sessions ≡ some q)
      → lookup key s'.sessions ≡ none
  gone_lem w a b fewer = elim (Option-cases (lookup key s'.sessions)) [
    | inl h ↦ h
    | inr (q, h) ↦ absurd (
        not_alive (
          subst
            (λ x.
              (is_active (SessionPair.inward x) s' || is_active (SessionPair.outward x) s') ≡ true)
            (same_pair q p (sym (fewer q h) ∙ l)) (w.joined key q h).alive))
  ]
    where
      not_alive : (is_active p.inward s' || is_active p.outward s') ≡ true → ⊥
      not_alive h = cc (rw (a, b) at h)

-- On a tidy table PipeOperation::close, of either pipe of a pair, returns, and the tunnel is over:
-- neither of its two sessions is active, its entry has left the table, the table is tidy, an entry
-- that is in it was there before, and every other session is active exactly if it was.
pub close_pipe-IsOver :
    (n : ℕ) (key : String) (p : SessionPair) (s : Service)
    → IsTidy s
    → lookup key s.sessions ≡ some p
    → Returns (IsOver key p s) (close_pipe (close (suc (suc n))) p.inward_pipe s)
      × Returns (IsOver key p s) (close_pipe (close (suc (suc n))) p.outward_pipe s)
close_pipe-IsOver n key p s v l = (
  subst (λ o. Returns (IsOver key p s) (close_pipe (close (suc (suc n))) o s))
      (sym j.piped.inward_joined)
      (Returns-mono (ClosesBoth p.inward p.outward s) (IsOver key p s) _
        (close_pipe-ClosesBoth n p.inward p.outward s v locked.0 locked.1)
        λ s' c. record {
          tidy = c.tidy;
          inward_closed = c.first;
          outward_closed = c.second;
          gone = gone_lem key p s s' v l c.tidy c.first c.second (c.fewer key);
          fewer = c.fewer;
          others = c.others;
        }),
  subst (λ o. Returns (IsOver key p s) (close_pipe (close (suc (suc n))) o s))
      (sym j.piped.outward_joined)
      (Returns-mono (ClosesBoth p.outward p.inward s) (IsOver key p s) _
        (close_pipe-ClosesBoth n p.outward p.inward s v locked.1 locked.0)
        λ s' c. record {
          tidy = c.tidy;
          inward_closed = c.second;
          outward_closed = c.first;
          gone = gone_lem key p s s' v l c.tidy c.second c.first (c.fewer key);
          fewer = c.fewer;
          others = λ i x y. c.others i y x;
        }),
)
  where
    j : IsJoined key p s
    j = v.joined key p l

    listed : (in_pairs p.inward s.sessions ≡ true) × (in_pairs p.outward s.sessions ≡ true)
    listed = lookup-in_pairs key p s.sessions l

    locked : (lockable p.inward s ≡ true) × (lockable p.outward s ≡ true)
    locked = (rw listed.0 refl, rw listed.1 refl)
