-- ===== src/Prelude/Dict.antt =====
-- std::map and std::unordered_map with string keys, as association lists. `insert` is `m[k] = v`.
use Prim.Native.String.{String}
use mathlib.Core.Path.{◌≡◌, refl}
use mathlib.Core.Option.{Option, none, some}
use mathlib.Core.List.{List, [], ◌∷◌}
use native.Mathlib.Omega.{arith}
use text.Mathlib.Text.{◌==◌}
use text.Mathlib.TextEquality.{eq_iff}
use tunnel_drill.Prelude.Tests.{if◌then◌else◌}

module _ {ℓ} {V : Type ℓ} where
  unfoldable pub lookup : String → List (String × V) → Option V
  lookup key [] = none
  lookup key ((first, value) ∷ rest) = if first == key then some value else lookup key rest

  unfoldable pub insert : String → V → List (String × V) → List (String × V)
  insert key value [] = (key, value) ∷ []
  insert key value ((first, old) ∷ rest) =
      let kept = insert key value rest in
      if first == key then (key, value) ∷ rest else (first, old) ∷ kept

  unfoldable pub erase : String → List (String × V) → List (String × V)
  erase key [] = []
  erase key ((first, value) ∷ rest) =
      let kept = erase key rest in if first == key then kept else (first, value) ∷ kept

  pub lookup-insert :
      (written key : String) (value : V) (dict : List (String × V))
      → lookup key (insert written value dict)
        ≡ (if written == key then some value else lookup key dict)
  unfolding insert lookup
  lookup-insert written key value [] = refl
  lookup-insert written key value ((first, _) ∷ rest) = ground (
    arith,
    lookup-insert written key value rest,
    eq_iff first key,
    eq_iff first written,
    eq_iff written key,
  )

  pub lookup-erase :
      (erased key : String) (dict : List (String × V))
      → lookup key (erase erased dict) ≡ (if erased == key then none else lookup key dict)
  unfolding erase lookup
  lookup-erase erased key [] = ground arith
  lookup-erase erased key ((first, _) ∷ rest) = ground (
    arith,
    lookup-erase erased key rest,
    eq_iff first key,
    eq_iff first erased,
    eq_iff erased key,
  )

pub ruleset dict_laws = (lookup-insert, lookup-erase)
