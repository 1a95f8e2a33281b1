-- ===== src/Prelude/Dict.antt =====
-- `std::map<int, V>`: entries in the order of their keys, each key once.
use mathlib.Core.Path.{◌≡◌, refl}
use mathlib.Core.Option.{Option, none, some}
use mathlib.Core.List.{List, [], ◌∷◌}
use native.Mathlib.Omega.{arith}
use omnetpp_federate.Prelude.Tests.{if◌then◌else◌}
use omnetpp_federate.Prelude.Int.{ℤ, ltb_ℤ, eq_ℤ, eq_ℤ_iff}

abbrev pub Dict {ℓ} : Type ℓ → Type ℓ
Dict V = List (ℤ × V)

module _ {ℓ} {V : Type ℓ} where
  -- `find`
  unfoldable pub lookup : ℤ → Dict V → Option V
  lookup k [] = none
  lookup k ((j, v) ∷ m) = if eq_ℤ k j then some v else lookup k m

  -- `m[k] = v`
  unfoldable pub insert : ℤ → V → Dict V → Dict V
  insert k v [] = (k, v) ∷ []
  insert k v ((j, w) ∷ m) =
      if eq_ℤ k j
      then (k, v) ∷ m
      else (if ltb_ℤ k j then (k, v) ∷ (j, w) ∷ m else (j, w) ∷ insert k v m)

  unfoldable pub erase : ℤ → Dict V → Dict V
  erase k [] = []
  erase k ((j, v) ∷ m) = let rest = erase k m in if eq_ℤ k j then rest else (j, v) ∷ rest

  pub lookup-insert :
      (i k : ℤ) (v : V) (m : Dict V)
      → lookup i (insert k v m) ≡ (if eq_ℤ i k then some v else lookup i m)
  unfolding lookup insert
  lookup-insert i k v [] = refl
  lookup-insert i k v ((j, w) ∷ m) =
      ground (arith, eq_ℤ_iff i k, eq_ℤ_iff k j, eq_ℤ_iff i j, lookup-insert i k v m)

  pub lookup-erase :
      (i k : ℤ) (m : Dict V) → lookup i (erase k m) ≡ (if eq_ℤ i k then none else lookup i m)
  unfolding lookup erase
  lookup-erase i k [] = ground arith
  lookup-erase i k ((j, w) ∷ m) =
      ground (arith, eq_ℤ_iff i k, eq_ℤ_iff k j, eq_ℤ_iff i j, lookup-erase i k m)
