-- ===== src/Json.antt =====
-- nlohmann::json values, as the program looks at them (sharedpp/include/sharedpp/json.hpp names the
-- type). Numbers are whole: the program reads and writes ports and nothing else. An `int` or an
-- `unsigned short` is kept as its 32 or 16 bits.
use tunnel_drill.Prelude.{
  ℕ, ◌-◌, ◌%◌, ◌^◌, ◌<◌, ◌≡◌, refl, ap, Bool, true, false, Option, none, some, String, str_eq, ltb,
  arith, if◌then◌else◌, Bool-cases, inl, inr,
}

mutual
  pub data Json : Type 0 where
    null : Json
    boolean : Bool → Json
    number : ℕ → Json
    -- `negative n` is -(n + 1)
    negative : ℕ → Json
    string : String → Json
    array : Items → Json
    object : Members → Json

  pub data Items : Type 0 where
    nil : Items
    cons : Json → Items → Items

  pub data Members : Type 0 where
    end : Members
    member : String → Json → Members → Members

abbrev pub find_member : String → Members → Option Json
find_member k end = none
find_member k (member j v ms) = if str_eq j k then some v else find_member k ms

-- j.find(k)
abbrev pub find : String → Json → Option Json
find k (object ms) = find_member k ms
find k _ = none

-- j.contains(k)
abbrev pub contains : String → Json → Bool
contains k j = elim (find k j) [ none ↦ false | some v ↦ true ]

-- j[k] on an object: a missing member reads as null.
abbrev pub at : String → Json → Json
at k j = elim (find k j) [ none ↦ null | some v ↦ v ]

-- get<T>(): `none` is the exception of a value of another type.
abbrev pub get_string : Json → Option String
get_string (string s) = some s
get_string _ = none

abbrev pub get_bool : Json → Option Bool
get_bool (boolean b) = some b
get_bool _ = none

-- get<int>()
pub get_int : Json → Option ℕ
get_int (number n) = some (n % 2 ^ 32)
get_int (negative n) = some (2 ^ 32 - 1 - n % 2 ^ 32)
get_int (boolean b) = some (if b then 1 else 0)
get_int _ = none

-- get<unsigned short>()
unfoldable pub get_unsigned_short : Json → Option ℕ
get_unsigned_short (number n) = some (n % 2 ^ 16)
get_unsigned_short (negative n) = some (2 ^ 16 - 1 - n % 2 ^ 16)
get_unsigned_short (boolean b) = some (if b then 1 else 0)
get_unsigned_short _ = none

-- An `int` as a JSON value.
pub json_of_int : ℕ → Json
json_of_int n = if ltb n (2 ^ 31) then number n else negative (2 ^ 32 - 1 - n)

-- to_json and from_json of an optional string.
abbrev pub json_of_name : Option String → Json
json_of_name none = null
json_of_name (some name) = string name

abbrev pub name_of : Json → Option (Option String)
name_of null = some none
name_of j = elim (get_string j) [ none ↦ none | some name ↦ some (some name) ]

-- j.at(k).get<A>()
abbrev pub field : {A : Type 0} → (Json → Option A) → String → Json → Option A
field read key j = elim (find key j) [ none ↦ none | some v ↦ read v ]

-- What a reader makes of a printed `int`.
pub get_int-json_of_int : (n : ℕ) → n < 2 ^ 32 → get_int (json_of_int n) ≡ some n
unfolding get_int json_of_int
get_int-json_of_int n h = elim (Bool-cases (ltb n (2 ^ 31))) [
  | inl l ↦ rw l (ap some (omega arith))
  | inr g ↦ rw g (ap some (back n h))
]
  where
    back : (n : ℕ) → n < 2 ^ 32 → 2 ^ 32 - 1 - (2 ^ 32 - 1 - n) % 2 ^ 32 ≡ n
    back n h = omega arith

pub get_unsigned_short-json_of_int :
    (n : ℕ) → n < 2 ^ 32 → get_unsigned_short (json_of_int n) ≡ some (n % 2 ^ 16)
unfolding get_unsigned_short json_of_int
get_unsigned_short-json_of_int n h = elim (Bool-cases (ltb n (2 ^ 31))) [
  | inl l ↦ rw l refl
  | inr g ↦ rw g (ap some (back n h))
]
  where
    back : (n : ℕ) → n < 2 ^ 32 → 2 ^ 16 - 1 - (2 ^ 32 - 1 - n) % 2 ^ 16 ≡ n % 2 ^ 16
    back n h = omega arith

pub name_of-json_of_name : (name : Option String) → name_of (json_of_name name) ≡ some name
name_of-json_of_name none = refl
name_of-json_of_name (some name) = refl

pub get_unsigned_short-number : (n : ℕ) → n < 2 ^ 16 → get_unsigned_short (number n) ≡ some n
unfolding get_unsigned_short
get_unsigned_short-number n h = ap some (small n h)
  where
    small : (n : ℕ) → n < 2 ^ 16 → n % 2 ^ 16 ≡ n
    small n h = omega arith

pub get_int-number : (n : ℕ) → n < 2 ^ 32 → get_int (number n) ≡ some n
unfolding get_int
get_int-number n h = ap some (small n h)
  where
    small : (n : ℕ) → n < 2 ^ 32 → n % 2 ^ 32 ≡ n
    small n h = omega arith
