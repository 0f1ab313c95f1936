-- ===== src/Base/Places.antt =====
-- Lists of numbers without a repeat, and facts of each element with its place.
use Prim.Native.Nat.{ℕ, zero, suc, ◌+◌}
use mathlib.Core.Path.{◌≡◌, refl, sym, subst, ◌∙◌}
use mathlib.Core.Bool.{true, false, ◌||◌}
use mathlib.Core.List.{List, [], ◌∷◌, ◌++◌}
use mathlib.Core.Logic.{inl, inr}
use mathlib.Core.Option.{some, some-injective}
use native.Mathlib.Omega.{arith}
use iemmixer.Base.Tests.{◌==◌, ==_iff, Bool-cases}
use iemmixer.Base.Lists.{All, length, get_elem?}
use iemmixer.Base.Sets.{member}
use iemmixer.Base.Updates.{update}

abbrev pub Distinct : List ℕ → Type 0
Distinct [] = Unit
Distinct (x ∷ xs) = (member x xs ≡ false) × Distinct xs

pub member-append : (k : ℕ) (xs ys : List ℕ) → member k (xs ++ ys) ≡ (member k xs || member k ys)
member-append k [] ys = refl
member-append k (x ∷ xs) ys = ground (arith, member-append k xs ys)

-- Two lists without a repeat and without a common element.
pub Distinct-append :
    (xs ys : List ℕ)
    → Distinct xs
    → Distinct ys
    → ((k : ℕ) → member k ys ≡ true → member k xs ≡ false)
    → Distinct (xs ++ ys)
Distinct-append [] ys h g a = g
Distinct-append (x ∷ xs) ys h g a = (
  elim (Bool-cases (member x ys)) [
    | inl e ↦ absurd (ground (arith, a x e))
    | inr e ↦ member-append x xs ys ∙ ground (arith, e, h.0)
  ],
  Distinct-append xs ys h.1 g (λ k m. ground (arith, a k m)),
)

pub member-All {κ} : (P : ℕ → Type κ) (k : ℕ) (xs : List ℕ) → All P xs → member k xs ≡ true → P k
member-All P k [] h e = absurd cc
member-All P k (x ∷ xs) h e = elim (Bool-cases (k == x)) [
  | inl q ↦ subst P (sym ((==_iff k x).0 q)) h.0
  | inr q ↦ member-All P k xs h.1 (ground (arith, e, q))
]

module _ {ℓ κ} {A : Type ℓ} (P : ℕ → A → Type κ) where
  -- The relation between each element and its place, counted from `k`.
  abbrev pub AllFrom : ℕ → List A → Type κ
  AllFrom k [] = Unit
  AllFrom k (x ∷ xs) = P k x × AllFrom (suc k) xs

  pub AllFrom-append :
      (k n : ℕ) (xs : List A) (x : A)
      → AllFrom k xs
      → n ≡ k + length xs
      → P n x
      → AllFrom k (xs ++ x ∷ [])
  AllFrom-append k n [] x h e p = (subst (λ j. P j x) (e ∙ omega arith) p, tt)
  AllFrom-append k n (y ∷ xs) x h e p =
      (h.0, AllFrom-append (suc k) n xs x h.1 (omega (arith, e)) p)

  pub AllFrom-get :
      (k n i : ℕ) (xs : List A) (x : A) → AllFrom k xs → get_elem? xs i ≡ some x → n ≡ k + i → P n x
  AllFrom-get k n i [] x h e q = absurd cc
  AllFrom-get k n zero (y ∷ xs) x h e q =
      subst (λ j. P j x) (sym (q ∙ omega arith)) (subst (P k) (some-injective _ _ e) h.0)
  AllFrom-get k n (suc i) (y ∷ xs) x h e q = AllFrom-get (suc k) n i xs x h.1 e (omega (arith, q))

  -- A change of one element that keeps the relation.
  pub AllFrom-update :
      (k i : ℕ) (xs : List A) (f : A → A)
      → AllFrom k xs
      → ((x : A) → P (k + i) x → P (k + i) (f x))
      → AllFrom k (update xs i f)
  AllFrom-update k i [] f h g = tt
  AllFrom-update k zero (x ∷ xs) f h g =
      (subst (λ j. P j (f x)) (omega arith) (g x (subst (λ j. P j x) (omega arith) h.0)), h.1)
  AllFrom-update k (suc i) (x ∷ xs) f h g = (
    h.0,
    AllFrom-update (suc k) i xs f h.1
        (λ x p. subst (λ j. P j (f x)) (omega arith) (g x (subst (λ j. P j x) (omega arith) p))),
  )
