-- ===== src/Base/Keyed.antt =====
-- Maps with keys of any type that has a Boolean equality: `HashMap<K, V>`. An insert replaces the
-- entry of a key or appends one.
use Prim.Native.Nat.{ℕ, suc, ◌≤◌, ◌<◌}
use mathlib.Core.Path.{◌≡◌, refl}
use mathlib.Core.Logic.{inl, inr}
use mathlib.Core.Bool.{Bool, true, false}
use mathlib.Core.Option.{Option, none, some}
use mathlib.Core.List.{List, [], ◌∷◌}
use native.Mathlib.Omega.{arith}
use iemmixer.Base.Tests.{if◌then◌else◌, Bool-cases}
use iemmixer.Base.Lists.{length, All}
use iemmixer.Base.Results.{is_some, Given}

-- The first least entry of a map that is not empty: `Iterator::min_by_key`.
abbrev pub least {ℓ} : {A : Type ℓ} → (A → A → Bool) → A → List A → A
least le x [] = x
least le x (y ∷ ys) = let z = least le y ys in if le x z then x else z

pub if_either {ℓ κ} :
    {A : Type ℓ} (P : A → Type κ) (b : Bool) (x y : A) → P x → P y → P (if b then x else y)
if_either P true x y p q = p
if_either P false x y p q = q

module _ {ℓ κ} {K : Type ℓ} {V : Type κ} (eq : K → K → Bool) where
  abbrev pub get_by : K → List (K × V) → Option V
  get_by k [] = none
  get_by k ((j, v) ∷ m) = if eq k j then some v else get_by k m

  abbrev pub insert_by : K → V → List (K × V) → List (K × V)
  insert_by k v [] = (k, v) ∷ []
  insert_by k v ((j, w) ∷ m) =
      let rest = insert_by k v m in if eq k j then (k, v) ∷ m else (j, w) ∷ rest

  abbrev pub remove_by : K → List (K × V) → List (K × V)
  remove_by k [] = []
  remove_by k ((j, w) ∷ m) = let rest = remove_by k m in if eq k j then rest else (j, w) ∷ rest

  -- The removal of the least entry.
  abbrev pub evict_by : (K × V → K × V → Bool) → List (K × V) → List (K × V)
  evict_by le [] = []
  evict_by le (x ∷ m) = remove_by (least le x m).0 (x ∷ m)

  pub length-insert_by :
      (k : K) (v : V) (m : List (K × V))
      → length (insert_by k v m) ≡ (if is_some (get_by k m) then length m else suc (length m))
  length-insert_by k v [] = refl
  length-insert_by k v ((j, w) ∷ m) = ground (arith, length-insert_by k v m)

  pub length-remove_by : (k : K) (m : List (K × V)) → length (remove_by k m) ≤ length m
  length-remove_by k [] = omega arith
  length-remove_by k ((j, w) ∷ m) = ground (arith, length-remove_by k m)

  pub All-insert_by {μ} :
      (P : V → Type μ) (k : K) (v : V) (m : List (K × V))
      → P v
      → All (λ e. P e.1) m
      → All (λ e. P e.1) (insert_by k v m)
  All-insert_by P k v [] p h = (p, tt)
  All-insert_by P k v ((j, w) ∷ m) p h = elim (Bool-cases (eq k j)) [
    | inl e ↦ rw e (p, h.1)
    | inr e ↦ rw e (h.0, All-insert_by P k v m p h.1)
  ]

  pub All-remove_by {μ} :
      (P : V → Type μ) (k : K) (m : List (K × V))
      → All (λ e. P e.1) m
      → All (λ e. P e.1) (remove_by k m)
  All-remove_by P k [] h = tt
  All-remove_by P k ((j, w) ∷ m) h = elim (Bool-cases (eq k j)) [
    | inl e ↦ rw e (All-remove_by P k m h.1)
    | inr e ↦ rw e (h.0, All-remove_by P k m h.1)
  ]

  pub All-evict_by {μ} :
      (P : V → Type μ) (le : K × V → K × V → Bool) (m : List (K × V))
      → All (λ e. P e.1) m
      → All (λ e. P e.1) (evict_by le m)
  All-evict_by P le [] h = h
  All-evict_by P le (x ∷ m) h = All-remove_by P (least le x m).0 (x ∷ m) h

  pub get_by-Given {μ} :
      (P : V → Type μ) (k : K) (m : List (K × V)) → All (λ e. P e.1) m → Given P (get_by k m)
  get_by-Given P k [] h = tt
  get_by-Given P k ((j, w) ∷ m) h = elim (Bool-cases (eq k j)) [
    | inl e ↦ rw e h.0
    | inr e ↦ rw e (get_by-Given P k m h.1)
  ]

  module _ (eq_refl : (k : K) → eq k k ≡ true) where
    pub get_by-insert_by : (k : K) (v : V) (m : List (K × V)) → get_by k (insert_by k v m) ≡ some v
    get_by-insert_by k v [] = rw (eq_refl k) refl
    get_by-insert_by k v ((j, w) ∷ m) = elim (Bool-cases (eq k j)) [
      | inl e ↦ rw e (rw (eq_refl k) refl)
      | inr e ↦ rw e (rw e (get_by-insert_by k v m))
    ]

    length-remove_by_lt :
        (k : K) (m : List (K × V)) → is_some (get_by k m) ≡ true → length (remove_by k m) < length m
    length-remove_by_lt k [] h = cc
    length-remove_by_lt k ((j, w) ∷ m) h = elim (Bool-cases (eq k j)) [
      | inl e ↦ rw e (ground (arith, length-remove_by k m))
      | inr e ↦ rw e (ground (arith, length-remove_by_lt k m (rw e at h)))
    ]

    present_later :
        (k : K) (x : K × V) (m : List (K × V))
        → is_some (get_by k m) ≡ true
        → is_some (get_by k (x ∷ m)) ≡ true
    present_later k x m h = ground arith

    least-present :
        (le : K × V → K × V → Bool) (x : K × V) (m : List (K × V))
        → is_some (get_by (least le x m).0 (x ∷ m)) ≡ true
    least-present le x [] = rw (eq_refl x.0) refl
    least-present le x (y ∷ ys) =
        if_either (λ z. is_some (get_by z.0 (x ∷ y ∷ ys)) ≡ true) (le x (least le y ys)) x
          (least le y ys) (rw (eq_refl x.0) refl)
          (present_later (least le y ys).0 x (y ∷ ys) (least-present le y ys))

    -- An eviction makes room for one entry.
    pub length-evict_by :
        (le : K × V → K × V → Bool) (m : List (K × V)) (n : ℕ)
        → length m ≤ suc n
        → length (evict_by le m) ≤ n
    length-evict_by le [] n h = omega arith
    length-evict_by le (x ∷ m) n h =
        omega (arith, h, length-remove_by_lt (least le x m).0 (x ∷ m) (least-present le x m))
