-- ===== src/PrintableString/Output.antt =====
-- What the printable text of some bytes looks like.
use tunnel_drill.Prelude.{
  ℕ, suc, ◌*◌, ◌/◌, ◌%◌, ◌≤◌, ◌<◌, ◌≡◌, true, not, ◌&&◌, List, [], ◌∷◌, ◌++◌, length, length-append,
  ltb, All, arith, Returns, Returns-bind, Bool-cases, inl, inr,
}
use tunnel_drill.PrintableString.{
  is_print, is_space, hex_digit, hex_escape, printable, make_printable_string,
}

-- Graphic characters only, between one and four for each byte.
pub record IsPrinted (n : ℕ) (text : List ℕ) : Type 0 where
  pub graphic : All (λ c. (32 < c) × (c < 127)) text
  pub at_least : n ≤ length text
  pub at_most : length text ≤ 4 * n

All-append : (P : ℕ → Type 0) (xs ys : List ℕ) → All P xs → All P ys → All P (xs ++ ys)
All-append P [] ys a b = b
All-append P (x ∷ xs) ys a b = (a.0, All-append P xs ys a.1 b)

hex_digit-graphic : (n : ℕ) → n < 16 → (32 < hex_digit n) × (hex_digit n < 127)
hex_digit-graphic n h = (ground arith, ground arith)

hex_escape-IsPrinted : (c : ℕ) → IsPrinted 1 (hex_escape c)
hex_escape-IsPrinted c = record {
  graphic = (
    (omega arith, omega arith),
    (
      (omega arith, omega arith),
      (
        hex_digit-graphic (c / 16 % 16) (omega arith),
        (hex_digit-graphic (c % 16) (omega arith), tt),
      ),
    ),
  );
  at_least = omega arith;
  at_most = omega arith;
}

printable-IsPrinted : (c : ℕ) → c < 128 → Returns (IsPrinted 1) (printable c)
printable-IsPrinted c h = elim (Bool-cases (is_print c && not (is_space c))) [
  | inl p ↦
      rw (ascii, p)
        (record {
          graphic = ((ground arith, ground arith), tt);
          at_least = omega arith;
          at_most = omega arith;
        })
  | inr p ↦ rw (ascii, p) (hex_escape-IsPrinted c)
]
  where
    ascii : ltb c 128 ≡ true
    ascii = ground arith

IsPrinted-append :
    (n : ℕ) (xs ys : List ℕ) → IsPrinted 1 xs → IsPrinted n ys → IsPrinted (suc n) (xs ++ ys)
IsPrinted-append n xs ys a b = record {
  graphic = All-append _ xs ys a.graphic b.graphic;
  at_least = omega (arith, length-append xs ys, a.at_least, b.at_least);
  at_most = omega (arith, length-append xs ys, a.at_most, b.at_most);
}

-- For ASCII bytes the result is there, has graphic characters only, no blank among them, and
-- between one and four for each byte.
pub make_printable_string-IsPrinted :
    (cs : List ℕ)
    → All (λ c. c < 128) cs
    → Returns (IsPrinted (length cs)) (make_printable_string cs)
unfolding make_printable_string
make_printable_string-IsPrinted [] h = record {
  graphic = tt;
  at_least = omega arith;
  at_most = omega arith;
}
make_printable_string-IsPrinted (c ∷ cs) h =
    let later = make_printable_string-IsPrinted cs h.1 in
    Returns-bind (IsPrinted 1) (IsPrinted (suc (length cs))) (printable c) _
      (printable-IsPrinted c h.0)
      λ first a.
        Returns-bind (IsPrinted (length cs)) (IsPrinted (suc (length cs)))
          (make_printable_string cs) _ later λ rest b. IsPrinted-append (length cs) first rest a b
