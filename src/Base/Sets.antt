-- ===== src/Base/Sets.antt =====
-- Finite sets and maps of numbers in ascending order: `BTreeSet<usize>`, `BTreeMap<usize, V>`.
use Prim.Native.Nat.{ℕ}
use mathlib.Core.Path.{◌≡◌, refl}
use mathlib.Core.Bool.{Bool, false, ◌||◌}
use mathlib.Core.List.{List, [], ◌∷◌}
use mathlib.Core.Option.{Option, none, some}
use native.Mathlib.Omega.{arith}
use iemmixer.Base.Tests.{ltb, ◌==◌, if◌then◌else◌}

abbrev pub member : ℕ → List ℕ → Bool
member k [] = false
member k (x ∷ xs) = k == x || member k xs

-- `BTreeSet::insert`, in ascending order.
abbrev pub set_insert : ℕ → List ℕ → List ℕ
set_insert k [] = k ∷ []
set_insert k (x ∷ xs) =
    let rest = set_insert k xs in
    if k == x then x ∷ xs else if ltb k x then k ∷ x ∷ xs else x ∷ rest

pub member-set_insert :
    (k j : ℕ) (xs : List ℕ) → member k (set_insert j xs) ≡ (k == j || member k xs)
member-set_insert k j [] = refl
member-set_insert k j (x ∷ xs) = ground (arith, member-set_insert k j xs)

module _ {ℓ} {V : Type ℓ} where
  abbrev pub map_get : ℕ → List (ℕ × V) → Option V
  map_get k [] = none
  map_get k ((j, v) ∷ m) = if k == j then some v else map_get k m

  -- `BTreeMap::insert`, in ascending order of the keys.
  abbrev pub map_insert : ℕ → V → List (ℕ × V) → List (ℕ × V)
  map_insert k v [] = (k, v) ∷ []
  map_insert k v ((j, w) ∷ m) =
      let rest = map_insert k v m in
      if k == j then (k, v) ∷ m else if ltb k j then (k, v) ∷ (j, w) ∷ m else (j, w) ∷ rest

  abbrev pub map_remove : ℕ → List (ℕ × V) → List (ℕ × V)
  map_remove k [] = []
  map_remove k ((j, w) ∷ m) = let rest = map_remove k m in if k == j then rest else (j, w) ∷ rest

  pub map_get-insert :
      (k j : ℕ) (v : V) (m : List (ℕ × V))
      → map_get k (map_insert j v m) ≡ (if k == j then some v else map_get k m)
  map_get-insert k j v [] = refl
  map_get-insert k j v ((i, w) ∷ m) = ground (arith, map_get-insert k j v m)

  pub map_get-remove :
      (k j : ℕ) (m : List (ℕ × V))
      → map_get k (map_remove j m) ≡ (if k == j then none else map_get k m)
  map_get-remove k j [] = ground arith
  map_get-remove k j ((i, w) ∷ m) = ground (arith, map_get-remove k j m)
