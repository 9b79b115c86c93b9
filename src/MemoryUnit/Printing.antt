-- ===== src/MemoryUnit/Printing.antt =====
-- What an amount is printed as.
use Prim.Native.String.{◌++◌ as str_append}
use native.Mathlib.Nat.{div-div-eq-div-mul, pow-suc, pow-succ', mul_assoc}
use tunnel_drill.Prelude.{
  ℕ, zero, suc, ◌+◌, ◌*◌, ◌/◌, ◌%◌, ◌^◌, ◌<◌, ◌≤◌, ◌≡◌, refl, sym, ap, ◌∙◌, true, false, List, some,
  String, ltb, arith, Bool-cases, inl, inr, ◌⊎◌, done, ◌>>=◌, Returns, Returns-bind, Returns-mono,
  bind-Returns, subst, [], ◌∷◌, length,
}
use tunnel_drill.MemoryUnit.{
  Uint128, MemoryUnit, scaled, to_string, literal, scaled_up, suffixes, suffix_at,
}

suffix_at-defined :
    (k : ℕ) (l : List String) → k < length l → (suffix : String) × (suffix_at k l ≡ done suffix)
suffix_at-defined k [] h = absurd (omega arith)
suffix_at-defined zero (s ∷ l) h = (s, refl)
suffix_at-defined (suc k) (s ∷ l) h = suffix_at-defined k l (omega arith)

module _ (u : Uint128) where
  thousand : u.value (u.of_native 1024) ≡ 1024
  thousand = u.value-of_native 1024 (omega arith)

  -- One turn of the loop.
  scaled-step :
      (left index : ℕ) (b : u.Number)
      → 1024 ≤ u.value b
      → (c : u.Number) × (scaled u (suc left) index b ≡ scaled u left (suc index) c)
        × (u.value c ≡ u.value b / 1024)
  unfolding scaled
  scaled-step left index b h = go (u.value-divide b (u.of_native 1024) (omega (arith, thousand)))
    where
      big : u.at_least b (u.of_native 1024) ≡ true
      big = u.value-at_least b (u.of_native 1024) ∙ ground (arith, thousand)

      go :
          (c : u.Number) × (u.divide b (u.of_native 1024) ≡ some c)
            × (u.value c ≡ u.value b / u.value (u.of_native 1024))
          → (c : u.Number) × (scaled u (suc left) index b ≡ scaled u left (suc index) c)
            × (u.value c ≡ u.value b / 1024)
      go (c, e, q) = (c, rw (scaled, big, e) refl, q ∙ ap (λ n. u.value b / n) thousand)

  scaled-small :
      (left index : ℕ) (b : u.Number) → u.value b < 1024 → scaled u left index b ≡ done (b, index)
  unfolding scaled
  scaled-small zero index b h = refl
  scaled-small (suc left) index b h = rw (scaled, small) refl
    where
      small : u.at_least b (u.of_native 1024) ≡ false
      small = u.value-at_least b (u.of_native 1024) ∙ ground (arith, thousand)

  product_step : (n k : ℕ) → n * 1024 ^ suc k ≡ n * 1024 ^ k * 1024
  product_step n k = ap (λ (p : ℕ). n * p) (pow-suc 1024 k) ∙ sym (mul_assoc n (1024 ^ k) 1024)

  product_pos : (n k : ℕ) → zero < n → 1 ≤ n * 1024 ^ k
  product_pos n zero z = omega arith
  product_pos n (suc k) z = omega (arith, product_step n k, product_pos n k z)

  -- A product with a power of 1024 is divided that often.
  scaled-product :
      (left k index n : ℕ) (b : u.Number)
      → u.value b ≡ n * 1024 ^ k
      → k ≤ left
      → zero < n
      → n < 1024
      → Returns (λ x. (u.value x.0 ≡ n) × (x.1 ≡ index + k)) (scaled u left index b)
  scaled-product left zero index n b e h z m =
      rw (scaled-small left index b (omega (arith, e))) (omega (arith, e), omega arith)
  scaled-product zero (suc k) index n b e h z m = absurd (omega arith)
  scaled-product (suc left) (suc k) index n b e h z m =
      let (c, step, q) =
        scaled-step left index b (omega (arith, e, product_step n k, product_pos n k z)) in
      rw step (
        Returns-mono _ _ (scaled u left (suc index) c)
          (scaled-product left k (suc index) n c (q ∙ omega (arith, e, product_step n k))
            (omega arith) z m)
          λ x r. (r.0, r.1 ∙ omega arith))

  scaled_up-product : (k n : ℕ) → zero < n → n * 1024 ^ k < 2 ^ 64 → scaled_up k n ≡ n * 1024 ^ k
  scaled_up-product zero n z h = omega arith
  scaled_up-product (suc k) n z h =
      ap (λ (p : ℕ). p * 1024 % 2 ^ 64) (scaled_up-product k n z (omega (arith, product_step n k)))
      ∙ omega (arith, product_step n k)

  -- What the loop leaves of `bytes` bytes, `m` turns later.
  pub record IsScaled (bytes left : ℕ) (n m : ℕ) : Type 0 where
    pub quotient : n ≡ bytes / 1024 ^ m
    pub within : m ≤ left
    pub small : (n < 1024) ⊎ (m ≡ left)
    pub needed : (m ≡ 0) ⊎ (1024 ^ m ≤ bytes)

  -- One turn more.
  IsScaled-turn :
      (v left n m : ℕ) → 1024 ≤ v → IsScaled (v / 1024) left n m → IsScaled v (suc left) n (suc m)
  IsScaled-turn v left n m big t = record {
    quotient =
        t.quotient
        ∙ div-div-eq-div-mul v 1024 (1024 ^ m)
        ∙ ap (λ (d : ℕ). v / d) (sym (pow-succ' 1024 m));
    within = omega (arith, t.within);
    small = elim t.small [ inl h ↦ inl h | inr h ↦ inr (ap suc h) ];
    needed = inr (elim t.needed [
      | inl h ↦ omega (arith, ap (λ (k : ℕ). 1024 ^ suc k) h)
      | inr h ↦ omega (arith, pow-succ' 1024 m)
    ]);
  }

  abbrev Leaves : ℕ → ℕ → ℕ → u.Number × ℕ → Type 0
  Leaves left index v x = (m : ℕ) × (x.1 ≡ index + m) × IsScaled v left (u.value x.0) m

  scaled-IsScaled :
      (left index : ℕ) (b : u.Number)
      → Returns (Leaves left index (u.value b)) (scaled u left index b)
  unfolding scaled
  scaled-IsScaled zero index b = (
    0,
    omega arith,
    record { quotient = omega arith; within = omega arith; small = inr refl; needed = inl refl },
  )
  scaled-IsScaled (suc left) index b = elim (Bool-cases (ltb (u.value b) 1024)) [
    | inl h ↦ rw (scaled-small (suc left) index b (ground arith)) (
      0,
      omega arith,
      record {
        quotient = omega arith;
        within = omega arith;
        small = inl (ground arith);
        needed = inl refl;
      },
    )
    | inr h ↦
        go (ground arith) (scaled-step left index b (ground arith))
          (λ c. scaled-IsScaled left (suc index) c)
  ]
    where
      go :
          1024 ≤ u.value b
          → (c : u.Number) × (scaled u (suc left) index b ≡ scaled u left (suc index) c)
            × (u.value c ≡ u.value b / 1024)
          → ((c : u.Number)
              → Returns (Leaves left (suc index) (u.value c)) (scaled u left (suc index) c))
          → Returns (Leaves (suc left) index (u.value b)) (scaled u (suc left) index b)
      go big (c, step, q) later = subst (Returns (Leaves (suc left) index (u.value b))) (sym step) (
          Returns-mono (Leaves left (suc index) (u.value c)) (Leaves (suc left) index (u.value b))
            (scaled u left (suc index) c) (later c)
            λ x (m, e, t). (
              suc m,
              e ∙ omega arith,
              IsScaled-turn (u.value b) left (u.value x.0) m big
                  (subst (λ v. IsScaled v left (u.value x.0) m) q t),
            ))

  -- An amount is printed by the loop as a number and one of the nine suffixes, whatever it is: the
  -- number is the amount divided by that power of 1024, rounded down; it is below 1024, but for the
  -- last suffix; and no smaller suffix would do.
  pub to_string-IsScaled :
      (show : ℕ → String) (m : MemoryUnit u)
      → Returns
          (λ text.
            (n : ℕ) × (k : ℕ) × (suffix : String) × (text
              ≡ str_append (show n) (str_append " " suffix))
            × (suffix_at k suffixes ≡ done suffix)
            × IsScaled (u.value m.bytes) 8 n k)
          (to_string u show m)
  unfolding to_string
  to_string-IsScaled show m =
      Returns-bind (Leaves 8 0 (u.value m.bytes)) _ (scaled u 8 0 m.bytes) _
        (scaled-IsScaled 8 0 m.bytes) λ x (k, e, t). named (u.value x.0) k x.1 (e ∙ omega arith) t
    where
      named :
          (n k i : ℕ)
          → i ≡ k
          → IsScaled (u.value m.bytes) 8 n k
          → Returns
              (λ text.
                (n : ℕ) × (k : ℕ) × (suffix : String) × (text
                  ≡ str_append (show n) (str_append " " suffix))
                × (suffix_at k suffixes ≡ done suffix)
                × IsScaled (u.value m.bytes) 8 n k)
              (suffix_at i suffixes >>= λ suffix.
                done (str_append (show n) (str_append " " suffix)))
      named n k i e t =
          let (suffix, s) = suffix_at-defined k suffixes (omega (arith, t.within)) in
          rw (ap (λ j. suffix_at j suffixes) e ∙ s) (n, k, suffix, refl, s, t)

  -- A literal from 1 to 1023 of any of the units, if it is less than 2^64 bytes, is printed as it
  -- was written: the number, a blank and the unit's suffix.
  pub to_string-literal :
      (show : ℕ → String) (k n : ℕ) (suffix : String)
      → k ≤ 6
      → zero < n
      → n < 1024
      → n * 1024 ^ k < 2 ^ 64
      → suffix_at k suffixes ≡ done suffix
      → to_string u show (literal u k n) ≡ done (str_append (show n) (str_append " " suffix))
  unfolding to_string
  to_string-literal show k n suffix few z m h e =
      bind-Returns (λ x. (u.value x.0 ≡ n) × (x.1 ≡ 0 + k))
        (scaled u 8 0 (u.of_native (scaled_up k n))) _ _
        (scaled-product 8 k 0 n (u.of_native (scaled_up k n)) amount (omega (arith, few)) z m)
        λ x r. rw (r.0, ap (λ j. suffix_at j suffixes) (r.1 ∙ omega arith) ∙ e) refl
    where
      amount : u.value (u.of_native (scaled_up k n)) ≡ n * 1024 ^ k
      amount =
          u.value-of_native (scaled_up k n) (omega (arith, scaled_up-product k n z h))
          ∙ scaled_up-product k n z h
