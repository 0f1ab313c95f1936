-- ===== src/Base/Maps.antt =====
-- Maps keyed by texts: `BTreeMap<Id, V>`, `HashMap<Id, V>`. An insert replaces the value of a key
-- that is there and else goes to the end.
use Prim.Native.String.{String}
use text.Mathlib.Text.{◌==◌ as str_eq}
use text.Mathlib.TextEquality.{eq_iff}
use mathlib.Core.Path.{◌≡◌, refl}
use mathlib.Core.Logic.{inl, inr}
use mathlib.Core.Bool.{Bool, true, false, ◌||◌}
use mathlib.Core.List.{List, [], ◌∷◌, map}
use mathlib.Core.Option.{Option, none, some}
use native.Mathlib.Omega.{arith}
use iemmixer.Base.Tests.{if◌then◌else◌, Bool-cases}
use iemmixer.Base.Results.{Given}

abbrev pub same : String → String → Bool
same a b = str_eq a b

pub same_iff : (a b : String) → (same a b ≡ true → a ≡ b) × (a ≡ b → same a b ≡ true)
same_iff a b = eq_iff a b

abbrev pub contains : List String → String → Bool
contains [] k = false
contains (x ∷ xs) k = same x k || contains xs k

module _ {ℓ} {V : Type ℓ} where
  abbrev pub lookup : String → List (String × V) → Option V
  lookup k [] = none
  lookup k ((j, v) ∷ m) = if same j k then some v else lookup k m

  abbrev pub insert : String → V → List (String × V) → List (String × V)
  insert k v [] = (k, v) ∷ []
  insert k v ((j, w) ∷ m) =
      let rest = insert k v m in if same j k then (k, v) ∷ m else (j, w) ∷ rest

  abbrev pub remove : String → List (String × V) → List (String × V)
  remove k [] = []
  remove k ((j, w) ∷ m) = let rest = remove k m in if same j k then rest else (j, w) ∷ rest

  -- `collect` into a map: the pairs in turn, a later one replacing an earlier one of its key.
  abbrev pub collect : List (String × V) → List (String × V) → List (String × V)
  collect m [] = m
  collect m ((k, v) ∷ r) = collect (insert k v m) r

  pub lookup-insert :
      (k j : String) (v : V) (m : List (String × V))
      → lookup j (insert k v m) ≡ (if same k j then some v else lookup j m)
  lookup-insert k j v [] = refl
  lookup-insert k j v ((i, w) ∷ m) =
      ground (arith, same_iff k j, same_iff i k, same_iff i j, lookup-insert k j v m)

  pub lookup-remove :
      (k j : String) (m : List (String × V))
      → lookup j (remove k m) ≡ (if same k j then none else lookup j m)
  lookup-remove k j [] = ground arith
  lookup-remove k j ((i, w) ∷ m) =
      ground (arith, same_iff k j, same_iff i k, same_iff i j, lookup-remove k j m)

  -- Every value of the map satisfies the predicate.
  abbrev pub Values {κ} : (V → Type κ) → List (String × V) → Type κ
  Values P [] = Unit
  Values P ((k, v) ∷ m) = P v × Values P m

  pub lookup-Given {κ} :
      (P : V → Type κ) (k : String) (m : List (String × V)) → Values P m → Given P (lookup k m)
  lookup-Given P k [] h = tt
  lookup-Given P k ((j, w) ∷ m) h = elim (Bool-cases (same j k)) [
    | inl hit ↦ rw hit h.0
    | inr miss ↦ rw miss (lookup-Given P k m h.1)
  ]

  pub insert-Values {κ} :
      (P : V → Type κ) (k : String) (v : V) (m : List (String × V))
      → P v
      → Values P m
      → Values P (insert k v m)
  insert-Values P k v [] p h = (p, h)
  insert-Values P k v ((j, w) ∷ m) p h = elim (Bool-cases (same j k)) [
    | inl hit ↦ rw hit (p, h.1)
    | inr miss ↦ rw miss (h.0, insert-Values P k v m p h.1)
  ]

  pub Values-mono {κ μ} :
      (P : V → Type κ) (Q : V → Type μ) (m : List (String × V))
      → ((v : V) → P v → Q v)
      → Values P m
      → Values Q m
  Values-mono P Q [] f h = tt
  Values-mono P Q ((k, v) ∷ m) f h = (f v h.0, Values-mono P Q m f h.1)

  pub collect-Values {κ} :
      (P : V → Type κ) (m r : List (String × V)) → Values P m → Values P r → Values P (collect m r)
  collect-Values P m [] h g = h
  collect-Values P m ((k, v) ∷ r) h g =
      collect-Values P (insert k v m) r (insert-Values P k v m g.0 h) g.1

  pub map-Values {κ ν} :
      {A : Type ν} (P : V → Type κ) (key : A → String) (f : A → V) (xs : List A)
      → ((a : A) → P (f a))
      → Values P (map (λ a. (key a, f a)) xs)
  map-Values P key f [] h = tt
  map-Values P key f (x ∷ xs) h = (h x, map-Values P key f xs h)
