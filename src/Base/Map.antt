-- ===== src/Base/Map.antt =====
-- A `HashMap` or `DashMap` as the list of its entries, one for each key.
use mathlib.Core.Path.{◌≡◌, refl}
use mathlib.Core.Option.{Option, none, some}
use mathlib.Core.List.{List, [], ◌∷◌, map}
use native.Mathlib.Omega.{arith}
use beta.Base.Tests.{if◌then◌else◌}
use beta.Base.Eq.{Equal, ◌===◌}

abbrev pub Map {ℓ κ} : Type ℓ → Type κ → Type (ℓ ⊔ κ)
Map K V = List (K × V)

module _ {ℓ κ} {K : Type ℓ} {V : Type κ} ⦃e : Equal K⦄ where
  abbrev pub get : K → Map K V → Option V
  get k [] = none
  get k ((j, v) ∷ m) = if j === k then some v else get k m

  abbrev pub insert : K → V → Map K V → Map K V
  insert k v [] = (k, v) ∷ []
  insert k v ((j, w) ∷ m) = if j === k then (k, v) ∷ m else (j, w) ∷ insert k v m

  abbrev pub remove : K → Map K V → Map K V
  remove k [] = []
  remove k ((j, v) ∷ m) = if j === k then remove k m else (j, v) ∷ remove k m

  -- A write through a lock of the value at a key; nothing happens where the key is missing.
  abbrev pub adjust : K → (V → V) → Map K V → Map K V
  adjust k f [] = []
  adjust k f ((j, v) ∷ m) = if j === k then (j, f v) ∷ adjust k f m else (j, v) ∷ adjust k f m

  abbrev pub keys : Map K V → List K
  keys = map λ entry. entry.0

  pub get-insert :
      (k j : K) (v : V) (m : Map K V) → get j (insert k v m) ≡ (if k === j then some v else get j m)
  get-insert k j v [] = refl
  get-insert k j v ((i, w) ∷ m) =
      ground (arith, e.test_iff k j, e.test_iff i k, e.test_iff i j, get-insert k j v m)

  pub get-remove :
      (k j : K) (m : Map K V) → get j (remove k m) ≡ (if k === j then none else get j m)
  get-remove k j [] = ground arith
  get-remove k j ((i, w) ∷ m) =
      ground (arith, e.test_iff k j, e.test_iff i k, e.test_iff i j, get-remove k j m)

  pub get-adjust :
      (k j : K) (f : V → V) (m : Map K V)
      → get j (adjust k f m)
        ≡ (if k === j then elim (get j m) [ none ↦ none | some v ↦ some (f v) ] else get j m)
  get-adjust k j f [] = ground arith
  get-adjust k j f ((i, w) ∷ m) =
      ground (arith, e.test_iff k j, e.test_iff i k, e.test_iff i j, get-adjust k j f m)

  pub get-adjust_self :
      (k : K) (f : V → V) (v : V) (m : Map K V)
      → get k m ≡ some v
      → get k (adjust k f m) ≡ some (f v)
  get-adjust_self k f v m h = ground (arith, get-adjust k k f m, e.test_iff k k)
