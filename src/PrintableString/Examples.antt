-- ===== src/PrintableString/Examples.antt =====
-- The printable text of a letter and a line feed.
use tunnel_drill.Prelude.{ℕ, List, [], ◌∷◌, length, arith, Returns}
use tunnel_drill.PrintableString.{make_printable_string}
use tunnel_drill.PrintableString.Output.{IsPrinted, make_printable_string-IsPrinted}

abbrev line : List ℕ
line = 65 ∷ 10 ∷ []

make_printable_string-IsPrinted_example :
    Returns (IsPrinted (length line)) (make_printable_string line)
make_printable_string-IsPrinted_example =
    make_printable_string-IsPrinted line (omega arith, (omega arith, tt))
