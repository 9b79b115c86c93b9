-- ===== src/MemoryUnit.antt =====
-- sharedpp/include/sharedpp/memory_unit.hpp: an amount of memory, how it is printed, and its
-- literals. boost's uint128_t is an interface; an operand of an operator is an unsigned integer of
-- the machine.
pub mod Printing
mod Examples
use Prim.Native.String.{◌++◌ as str_append}
use tunnel_drill.Prelude.{
  ℕ, zero, suc, ◌*◌, ◌/◌, ◌%◌, ◌^◌, ◌<◌, ◌≡◌, ◌≢◌, Bool, true, false, not, Option, none, some,
  String, ltb, if◌then◌else◌, Outcome, done, undefined, thrown, List, [], ◌∷◌, ◌>>=◌,
}

-- What the unit uses of the numbers: conversion from a native integer, the operators, a comparison,
-- and the value that `<<` prints. A division by zero is `none`, an exception.
pub record Uint128 : Type 1 where
  pub Number : Type 0
  pub value : Number → ℕ
  pub of_native : ℕ → Number
  pub add : Number → Number → Number
  pub subtract : Number → Number → Number
  pub multiply : Number → Number → Number
  pub divide : Number → Number → Option Number
  pub modulo : Number → Number → Option Number
  pub bit_and : Number → Number → Number
  pub bit_or : Number → Number → Number
  pub bit_xor : Number → Number → Number
  pub shift_left : Number → ℕ → Number
  pub shift_right : Number → ℕ → Number
  pub at_least : Number → Number → Bool
  pub value-of_native : (n : ℕ) → n < 2 ^ 64 → value (of_native n) ≡ n
  pub value-at_least : (a b : Number) → at_least a b ≡ not (ltb (value a) (value b))
  pub value-divide :
      (a b : Number)
      → value b ≢ 0
      → (c : Number) × (divide a b ≡ some c) × (value c ≡ value a / value b)

-- The products of the literals, over unsigned long long.
abbrev pub scaled_up : ℕ → ℕ → ℕ
scaled_up zero n = n
scaled_up (suc k) n = scaled_up k n * 1024 % 2 ^ 64

abbrev pub suffixes : List String
suffixes = "B" ∷ "KB" ∷ "MB" ∷ "GB" ∷ "TB" ∷ "PB" ∷ "EB" ∷ "ZB" ∷ "YB" ∷ []

-- suffixes[suffix_index]; outside of the array the behaviour is undefined.
abbrev pub suffix_at : ℕ → List String → Outcome String
suffix_at n [] = undefined
suffix_at zero (suffix ∷ rest) = done suffix
suffix_at (suc n) (suffix ∷ rest) = suffix_at n rest

module _ (u : Uint128) where
  -- MemoryUnit
  pub record MemoryUnit : Type 0 where
    pub bytes : u.Number

  abbrev pub checked : Option u.Number → Outcome MemoryUnit
  checked none = thrown
  checked (some b) = done (record { bytes = b })

  -- The compound assignments, in the order of the source.
  abbrev pub add_assign : ℕ → MemoryUnit → MemoryUnit
  add_assign n m = record { bytes = u.add m.bytes (u.of_native n) }

  abbrev pub subtract_assign : ℕ → MemoryUnit → MemoryUnit
  subtract_assign n m = record { bytes = u.subtract m.bytes (u.of_native n) }

  abbrev pub multiply_assign : ℕ → MemoryUnit → MemoryUnit
  multiply_assign n m = record { bytes = u.multiply m.bytes (u.of_native n) }

  abbrev pub divide_assign : ℕ → MemoryUnit → Outcome MemoryUnit
  divide_assign n m = checked (u.divide m.bytes (u.of_native n))

  abbrev pub modulo_assign : ℕ → MemoryUnit → Outcome MemoryUnit
  modulo_assign n m = checked (u.modulo m.bytes (u.of_native n))

  abbrev pub and_assign : ℕ → MemoryUnit → MemoryUnit
  and_assign n m = record { bytes = u.bit_and m.bytes (u.of_native n) }

  abbrev pub or_assign : ℕ → MemoryUnit → MemoryUnit
  or_assign n m = record { bytes = u.bit_or m.bytes (u.of_native n) }

  abbrev pub xor_assign : ℕ → MemoryUnit → MemoryUnit
  xor_assign n m = record { bytes = u.bit_xor m.bytes (u.of_native n) }

  abbrev pub shift_left_assign : ℕ → MemoryUnit → MemoryUnit
  shift_left_assign n m = record { bytes = u.shift_left m.bytes n }

  abbrev pub shift_right_assign : ℕ → MemoryUnit → MemoryUnit
  shift_right_assign n m = record { bytes = u.shift_right m.bytes n }

  -- operator=(IntegralType), which shifts as well.
  abbrev pub assign : ℕ → MemoryUnit → MemoryUnit
  assign n m = record { bytes = u.shift_right m.bytes n }

  abbrev pub divided : Option u.Number → Outcome u.Number
  divided none = thrown
  divided (some b) = done b

  -- The loop of `operator<<`: `left` more steps until the suffix is the last one.
  pub scaled : ℕ → ℕ → u.Number → Outcome (u.Number × ℕ)
  scaled zero index b = done (b, index)
  scaled (suc left) index b = elim (u.at_least b (u.of_native 1024)) [
    | false ↦ done (b, index)
    | true ↦ (do b' ← divided (u.divide b (u.of_native 1024)); scaled left (suc index) b')
  ]

  -- operator<< and toString, over a printer of numbers.
  pub to_string : (ℕ → String) → MemoryUnit → Outcome String
  unfolding scaled
  to_string show m = do
    (b, index) ← scaled 8 0 m.bytes
    suffix ← suffix_at index suffixes
    done (str_append (show (u.value b)) (str_append " " suffix))

  -- The literals.
  abbrev pub literal : ℕ → ℕ → MemoryUnit
  literal k n = record { bytes = u.of_native (scaled_up k n) }

  abbrev pub bytes_literal : ℕ → MemoryUnit
  bytes_literal = literal 0

  abbrev pub kilobytes_literal : ℕ → MemoryUnit
  kilobytes_literal = literal 1

  abbrev pub megabytes_literal : ℕ → MemoryUnit
  megabytes_literal = literal 2

  abbrev pub gigabytes_literal : ℕ → MemoryUnit
  gigabytes_literal = literal 3

  abbrev pub terabytes_literal : ℕ → MemoryUnit
  terabytes_literal = literal 4

  abbrev pub petabytes_literal : ℕ → MemoryUnit
  petabytes_literal = literal 5

  abbrev pub exabytes_literal : ℕ → MemoryUnit
  exabytes_literal = literal 6
