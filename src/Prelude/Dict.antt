-- ===== src/Prelude/Dict.antt =====
-- A Python dict with numeric keys, in insertion order.
use Prim.Native.Nat.{ℕ}
use mathlib.Core.Path.{◌≡◌, refl}
use mathlib.Core.Bool.{Bool}
use mathlib.Core.Option.{Option, none, some}
use mathlib.Core.List.{List, [], ◌∷◌}
use native.Mathlib.Omega.{arith}
use awa_platform.Prelude.Tests.{◌==◌, if◌then◌else◌, is_some}

abbrev pub Dict {ℓ} : Type ℓ → Type ℓ
Dict V = List (ℕ × V)

module _ {ℓ} {V : Type ℓ} where
  -- `d.get(k)`
  unfoldable pub lookup : (key : ℕ) → Dict V → Option V
  lookup key [] = none
  lookup key ((j, v) ∷ rest) = let found = lookup key rest in if key == j then some v else found

  -- `k in d`
  abbrev pub contains : (key : ℕ) → Dict V → Bool
  contains key d = is_some (lookup key d)

  -- `del d[k]` and `d.pop(k, None)`
  unfoldable pub erase : (key : ℕ) → Dict V → Dict V
  erase key [] = []
  erase key ((j, v) ∷ rest) =
      let others = erase key rest in if key == j then others else (j, v) ∷ others

  -- `d[k] = v`
  unfoldable pub insert : (key : ℕ) (value : V) → Dict V → Dict V
  insert key value [] = (key, value) ∷ []
  insert key value ((j, v) ∷ rest) =
      let later = insert key value rest in if key == j then (key, value) ∷ rest else (j, v) ∷ later

  pub lookup-insert :
      (j k : ℕ) (v : V) (d : Dict V)
      → lookup j (insert k v d) ≡ (if j == k then some v else lookup j d)
  unfolding lookup insert
  lookup-insert j k v [] = refl
  lookup-insert j k v ((i, w) ∷ d) = ground (arith, lookup-insert j k v d)

  pub lookup-erase :
      (j k : ℕ) (d : Dict V) → lookup j (erase k d) ≡ (if j == k then none else lookup j d)
  unfolding lookup erase
  lookup-erase j k [] = ground arith
  lookup-erase j k ((i, w) ∷ d) = ground (arith, lookup-erase j k d)
