-- ===== src/PrintableString.antt =====
-- sharedpp/src/sharedpp/printable_string.cpp, on the bytes of the text. The locale is "C", and
-- `char` is signed, as on the platforms of the build.
pub mod Output
mod Examples
use tunnel_drill.Prelude.{
  ℕ, ◌+◌, ◌/◌, ◌%◌, Bool, true, false, not, ◌&&◌, ◌||◌, List, [], ◌∷◌, ◌++◌, ltb, ◌==◌,
  if◌then◌else◌, Outcome, done, undefined, ◌>>=◌,
}

abbrev pub is_print : ℕ → Bool
is_print c = not (ltb c 32) && ltb c 127

abbrev pub is_space : ℕ → Bool
is_space c = c == 32 || (not (ltb c 9) && ltb c 14)

-- hexDigits[n], for a nibble.
abbrev pub hex_digit : ℕ → ℕ
hex_digit n = if ltb n 10 then 48 + n else 55 + n

abbrev pub hex_escape : ℕ → List ℕ
hex_escape c = b'\\' ∷ b'x' ∷ hex_digit (c / 16 % 16) ∷ hex_digit (c % 16) ∷ []

-- One character. `isprint` is undefined on a negative value other than EOF.
abbrev pub printable : ℕ → Outcome (List ℕ)
printable c =
    if ltb c 128
    then done (if is_print c && not (is_space c) then c ∷ [] else hex_escape c)
    else if c == 255
    then done (hex_escape c)
    else undefined

-- makePrintableString
pub make_printable_string : List ℕ → Outcome (List ℕ)
make_printable_string [] = done []
make_printable_string (c ∷ cs) = do
  first ← printable c
  rest ← make_printable_string cs
  done (first ++ rest)
