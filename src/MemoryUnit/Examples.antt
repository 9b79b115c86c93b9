-- ===== src/MemoryUnit/Examples.antt =====
-- Amounts of memory on numbers below 2 ^ 128, and how they are printed.
use Prim.Native.Nat.{bit_and, bit_or, bit_xor}
use Prim.Native.String.{◌++◌ as str_append}
use tunnel_drill.Prelude.{
  ℕ, ◌+◌, ◌-◌, ◌*◌, ◌/◌, ◌%◌, ◌^◌, ◌≡◌, ◌≢◌, refl, not, Option, none, some, String, ltb, ◌==◌,
  if◌then◌else◌, arith, done, Returns,
}
use tunnel_drill.MemoryUnit.{Uint128, to_string, suffix_at, suffixes}
use tunnel_drill.MemoryUnit.Printing.{IsScaled, to_string-IsScaled}

abbrev quotient : ℕ → ℕ → Option ℕ
quotient a b = if b == 0 then none else some (a / b)

quotient-some : (a b : ℕ) → b ≢ 0 → (c : ℕ) × (quotient a b ≡ some c) × (c ≡ a / b)
quotient-some a b h = (a / b, ground arith, refl)

abbrev wrapping : Uint128
wrapping = record {
  Number = ℕ;
  value = λ a. a;
  of_native = λ n. n;
  add = λ a b. (a + b) % 2 ^ 128;
  subtract = λ a b. (a + 2 ^ 128 - b) % 2 ^ 128;
  multiply = λ a b. a * b % 2 ^ 128;
  divide = quotient;
  modulo = λ a b. if b == 0 then none else some (a % b);
  bit_and = bit_and;
  bit_or = bit_or;
  bit_xor = bit_xor;
  shift_left = λ a n. a * 2 ^ n % 2 ^ 128;
  shift_right = λ a n. a / 2 ^ n;
  at_least = λ a b. not (ltb a b);
  value-of_native = λ n h. refl;
  value-at_least = λ a b. refl;
  value-divide = quotient-some;
}

abbrev show : ℕ → String
show n = if n == 5 then "5" else "?"

to_string-IsScaled_example :
    Returns
      (λ text.
        (n : ℕ) × (k : ℕ) × (suffix : String) × (text ≡ str_append (show n) (str_append " " suffix))
        × (suffix_at k suffixes ≡ done suffix)
        × IsScaled (wrapping) 6000 8 n k)
      (to_string wrapping show (record { bytes = 6000 }))
to_string-IsScaled_example = to_string-IsScaled wrapping show (record { bytes = 6000 })
