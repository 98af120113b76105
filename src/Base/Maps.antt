-- ===== src/Base/Maps.antt =====
-- `std::unordered_map` with numeric keys, as an association list.
use Prim.Native.Nat.{ℕ}
use mathlib.Core.Path.{◌≡◌, refl}
use mathlib.Core.Logic.{◌≢◌}
use mathlib.Core.List.{List, [], ◌∷◌}
use mathlib.Core.Option.{Option, none, some}
use native.Mathlib.Omega.{arith}
use morphling_c.Base.Tests.{◌==◌, if◌then◌else◌}

abbrev pub Dict {ℓ} : Type ℓ → Type ℓ
Dict V = List (ℕ × V)

-- The entries with other keys keep their places.
module _ {ℓ} {V : Type ℓ} where
  -- `find`, and `at`
  unfoldable pub lookup : ℕ → Dict V → Option V
  lookup key ((other, value) ∷ rest) = if other == key then some value else lookup key rest
  lookup key [] = none

  -- `m[key] = value`
  unfoldable pub insert : ℕ → V → Dict V → Dict V
  insert key value ((other, old) ∷ rest) =
      if other == key then (key, value) ∷ rest else (other, old) ∷ insert key value rest
  insert key value [] = (key, value) ∷ []

  pub lookup-insert :
      (key wanted : ℕ) (value : V) (table : Dict V)
      → lookup wanted (insert key value table)
        ≡ (if key == wanted then some value else lookup wanted table)
  unfolding lookup insert
  lookup-insert key wanted value [] = refl
  lookup-insert key wanted value ((other, old) ∷ rest) =
      ground (arith, lookup-insert key wanted value rest)

  pub lookup-insert_self :
      (key : ℕ) (value : V) (table : Dict V) → lookup key (insert key value table) ≡ some value
  lookup-insert_self key value table = ground (arith, lookup-insert key key value table)

  pub lookup-insert_ne :
      (key wanted : ℕ) (value : V) (table : Dict V)
      → key ≢ wanted
      → lookup wanted (insert key value table) ≡ lookup wanted table
  lookup-insert_ne key wanted value table apart =
      ground (arith, lookup-insert key wanted value table)

  -- `erase(key)`
  unfoldable pub erase : ℕ → Dict V → Dict V
  erase key ((other, value) ∷ rest) =
      if other == key then erase key rest else (other, value) ∷ erase key rest
  erase key [] = []

  pub lookup-erase_ne :
      (key wanted : ℕ) (table : Dict V)
      → key ≢ wanted
      → lookup wanted (erase key table) ≡ lookup wanted table
  unfolding lookup erase
  lookup-erase_ne key wanted [] apart = refl
  lookup-erase_ne key wanted ((other, old) ∷ rest) apart =
      ground (arith, lookup-erase_ne key wanted rest apart)
