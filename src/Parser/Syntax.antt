-- ===== src/Parser/Syntax.antt =====
-- The texts that the stream parser is meant for: JSON objects as a tree of strings, nested objects
-- and other characters, printed to bytes. The grammar says nothing of counters or of flags.
use tunnel_drill.Prelude.{
  ℕ, suc, ◌+◌, ◌≡◌, refl, ap, ◌∙◌, ◌≢◌, true, false, List, [], ◌∷◌, ◌++◌, append_assoc, arith,
  length, length-append, pos, All,
}
use tunnel_drill.Parser.{FindMemoizer, found, exhausted, initial, is_space, scan_char, scan}

-- A character of a string literal: as it stands, or behind a backslash.
pub data StringChar : Type 0 where
  raw : ℕ → StringChar
  escaped : ℕ → StringChar

-- What stands between two braces, or what follows an item there.
pub data Body : Type 0 where
  end : Body
  plain : ℕ → Body → Body
  quoted : List StringChar → Body → Body
  object : Body → Body → Body

abbrev pub print_chars : List StringChar → List ℕ
print_chars [] = []
print_chars (raw c ∷ u) = c ∷ print_chars u
print_chars (escaped c ∷ u) = b'\\' ∷ c ∷ print_chars u

abbrev pub print : Body → List ℕ
print end = []
print (plain c r) = c ∷ print r
print (quoted u r) = b'"' ∷ (print_chars u ++ (b'"' ∷ print r))
print (object b r) = b'{' ∷ (print b ++ (b'}' ∷ print r))

-- The text of a whole object.
abbrev pub print_object : Body → List ℕ
print_object b = b'{' ∷ (print b ++ (b'}' ∷ []))

abbrev pub IsRaw : StringChar → Type 0
IsRaw (raw c) = (c ≢ b'"') × (c ≢ b'\\')
IsRaw (escaped c) = Unit

abbrev pub IsPlain : ℕ → Type 0
IsPlain c = (c ≢ b'{') × (c ≢ b'}') × (c ≢ b'"') × (c ≢ b'\\')

-- Quotes, backslashes and braces stand only where the grammar has them.
abbrev pub IsBody : Body → Type 0
IsBody end = Unit
IsBody (plain c r) = IsPlain c × IsBody r
IsBody (quoted u r) = All IsRaw u × IsBody r
IsBody (object b r) = IsBody b × IsBody r

-- The search between two items, `k` braces deep, and inside a string there.
abbrev pub at : ℕ → ℕ → FindMemoizer
at k o = record { curly_count = pos k; escape = false; inside_string = false; offset = o }

abbrev in_string : ℕ → ℕ → FindMemoizer
in_string k o = record { curly_count = pos k; escape = false; inside_string = true; offset = o }

abbrev escaping : ℕ → ℕ → FindMemoizer
escaping k o = record { curly_count = pos k; escape = true; inside_string = true; offset = o }

scan_char-raw :
    (k o c : ℕ) → IsRaw (raw c) → scan_char (in_string k o) c ≡ exhausted (in_string k (suc o))
unfolding scan_char
scan_char-raw k o c h = ground arith

scan_char-escaped : (k o c : ℕ) → scan_char (escaping k o) c ≡ exhausted (in_string k (suc o))
unfolding scan_char
scan_char-escaped k o c = ground arith

scan_char-plain : (k o c : ℕ) → IsPlain c → scan_char (at k o) c ≡ exhausted (at k (suc o))
unfolding scan_char
scan_char-plain k o c h = ground arith

-- One round of the scan by what it does to a character.
scan-cons :
    (m m' : FindMemoizer) (c : ℕ) (cs : List ℕ)
    → scan_char m c ≡ exhausted m'
    → scan m (c ∷ cs) ≡ scan m' cs
unfolding scan
scan-cons m m' c cs e = rw (e, scan) refl

scan-backslash :
    (k o : ℕ) (cs : List ℕ) → scan (in_string k o) (b'\\' ∷ cs) ≡ scan (escaping k (suc o)) cs
unfolding scan scan_char
scan-backslash k o cs = refl

scan-quote_open :
    (k o : ℕ) (cs : List ℕ) → scan (at k o) (b'"' ∷ cs) ≡ scan (in_string k (suc o)) cs
unfolding scan scan_char
scan-quote_open k o cs = refl

scan-quote_close :
    (k o : ℕ) (cs : List ℕ) → scan (in_string k o) (b'"' ∷ cs) ≡ scan (at k (suc o)) cs
unfolding scan scan_char
scan-quote_close k o cs = refl

scan-curly_open : (k o : ℕ) (cs : List ℕ) → scan (at k o) (b'{' ∷ cs) ≡ scan (at (suc k) (suc o)) cs
unfolding scan scan_char
scan-curly_open k o cs = refl

scan-curly_close :
    (k o : ℕ) (cs : List ℕ) → scan (at (suc (suc k)) o) (b'}' ∷ cs) ≡ scan (at (suc k) (suc o)) cs
unfolding scan scan_char
scan-curly_close k o cs = refl

scan-curly_last : (o : ℕ) (cs : List ℕ) → scan (at 1 o) (b'}' ∷ cs) ≡ found (at 0 o)
unfolding scan scan_char
scan-curly_last o cs = refl

scan-print_chars :
    (u : List StringChar) (k o o' : ℕ) (ys : List ℕ)
    → All IsRaw u
    → o + length (print_chars u) ≡ o'
    → scan (in_string k o) (print_chars u ++ ys) ≡ scan (in_string k o') ys
scan-print_chars [] k o o' ys h e = ap (λ (x : ℕ). scan (in_string k x) ys) (omega arith)
scan-print_chars (raw c ∷ u) k o o' ys h e =
    scan-cons (in_string k o) _ c (print_chars u ++ ys) (scan_char-raw k o c h.0)
    ∙ scan-print_chars u k (suc o) o' ys h.1 (omega arith)
scan-print_chars (escaped c ∷ u) k o o' ys h e =
    scan-backslash k o (c ∷ (print_chars u ++ ys))
    ∙ scan-cons (escaping k (suc o)) _ c (print_chars u ++ ys) (scan_char-escaped k (suc o) c)
    ∙ scan-print_chars u k (suc (suc o)) o' ys h.1 (omega arith)

-- Inside an object a body is passed over, and the nesting comes back to where it was.
scan-print :
    (b : Body) (k o o' : ℕ) (ys : List ℕ)
    → IsBody b
    → o + length (print b) ≡ o'
    → scan (at (suc k) o) (print b ++ ys) ≡ scan (at (suc k) o') ys
scan-print end k o o' ys h e = ap (λ (x : ℕ). scan (at (suc k) x) ys) (omega arith)
scan-print (plain c r) k o o' ys h e =
    scan-cons (at (suc k) o) _ c (print r ++ ys) (scan_char-plain (suc k) o c h.0)
    ∙ scan-print r k (suc o) o' ys h.1 (omega arith)
scan-print (quoted u r) k o o' ys h e =
    scan-quote_open (suc k) o _
    ∙ ap (scan (in_string (suc k) (suc o))) (append_assoc (print_chars u) (b'"' ∷ print r) ys)
    ∙ scan-print_chars u (suc k) (suc o) (suc o + n) _ h.0 refl
    ∙ scan-quote_close (suc k) (suc o + n) _
    ∙ scan-print r k (suc (suc o + n)) o' ys h.1
        (omega (arith, length-append (print_chars u) (b'"' ∷ print r)))
  where
    n : ℕ
    n = length (print_chars u)
scan-print (object b r) k o o' ys h e =
    scan-curly_open (suc k) o _
    ∙ ap (scan (at (suc (suc k)) (suc o))) (append_assoc (print b) (b'}' ∷ print r) ys)
    ∙ scan-print b (suc k) (suc o) (suc o + n) _ h.0 refl
    ∙ scan-curly_close k (suc o + n) _
    ∙ scan-print r k (suc (suc o + n)) o' ys h.1
        (omega (arith, length-append (print b) (b'}' ∷ print r)))
  where
    n : ℕ
    n = length (print b)

-- Whitespace is passed over between objects.
scan-spaces :
    (ws : List ℕ) (o o' : ℕ) (ys : List ℕ)
    → All (λ c. is_space c ≡ true) ws
    → o + length ws ≡ o'
    → scan (at 0 o) (ws ++ ys) ≡ scan (at 0 o') ys
scan-spaces [] o o' ys h e = ap (λ (x : ℕ). scan (at 0 x) ys) (omega arith)
scan-spaces (c ∷ ws) o o' ys h e =
    scan-cons (at 0 o) _ c (ws ++ ys) (scan_char-plain 0 o c (space c h.0))
    ∙ scan-spaces ws (suc o) o' ys h.1 (omega arith)
  where
    space : (c : ℕ) → is_space c ≡ true → IsPlain c
    space c e = (ground arith, ground arith, ground arith, ground arith)

-- The search stops at the last brace of the first object.
pub scan-print_object :
    (ws : List ℕ) (b : Body) (ys : List ℕ)
    → All (λ c. is_space c ≡ true) ws
    → IsBody b
    → scan initial (ws ++ (print_object b ++ ys))
      ≡ found (at 0 (length ws + suc (length (print b))))
scan-print_object ws b ys hw hb =
    scan-spaces ws 0 (length ws) _ hw (omega arith)
    ∙ scan-curly_open 0 (length ws) _
    ∙ ap (scan (at 1 (suc (length ws)))) (append_assoc (print b) (b'}' ∷ []) ys)
    ∙ scan-print b 0 (suc (length ws)) o _ hb (omega arith)
    ∙ scan-curly_last o ys
  where
    o : ℕ
    o = length ws + suc (length (print b))
