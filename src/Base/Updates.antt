-- ===== src/Base/Updates.antt =====
-- A change of one element in place, `if let Some(x) = xs.get_mut(i)`, and lists mapped with their
-- indices, `iter().enumerate().map(..)`.
use Prim.Native.Nat.{ℕ, zero, suc, ◌+◌}
use mathlib.Core.Path.{◌≡◌, refl, sym, ap, subst, ◌∙◌}
use mathlib.Core.List.{List, [], ◌∷◌, ◌++◌}
use mathlib.Core.Option.{some, some-injective}
use native.Mathlib.Omega.{arith}
use iemmixer.Base.Lists.{length, get_elem?, set}

module _ {ℓ} {A : Type ℓ} where
  -- Out of bounds nothing changes.
  abbrev pub update : List A → ℕ → (A → A) → List A
  update [] i f = []
  update (x ∷ xs) zero f = f x ∷ xs
  update (x ∷ xs) (suc i) f = x ∷ update xs i f

  pub update-update :
      (xs : List A) (i : ℕ) (f g : A → A) → update (update xs i f) i g ≡ update xs i (λ x. g (f x))
  update-update [] i f g = refl
  update-update (x ∷ xs) zero f g = refl
  update-update (x ∷ xs) (suc i) f g = ap (λ ys. x ∷ ys) (update-update xs i f g)

  pub update-append :
      (xs ys : List A) (y : A) (f : A → A)
      → update (xs ++ (y ∷ ys)) (length xs) f ≡ xs ++ (f y ∷ ys)
  update-append [] ys y f = refl
  update-append (x ∷ xs) ys y f = ap (λ zs. x ∷ zs) (update-append xs ys y f)

  pub set-append : (xs ys : List A) (y v : A) → set (xs ++ (y ∷ ys)) (length xs) v ≡ xs ++ (v ∷ ys)
  set-append [] ys y v = refl
  set-append (x ∷ xs) ys y v = ap (λ zs. x ∷ zs) (set-append xs ys y v)

  pub get-append : (xs ys : List A) (y : A) → get_elem? (xs ++ (y ∷ ys)) (length xs) ≡ some y
  get-append [] ys y = refl
  get-append (x ∷ xs) ys y = get-append xs ys y

  pub set-set : (xs : List A) (i : ℕ) (v w : A) → set (set xs i v) i w ≡ set xs i w
  set-set [] i v w = refl
  set-set (x ∷ xs) zero v w = refl
  set-set (x ∷ xs) (suc i) v w = ap (λ ys. x ∷ ys) (set-set xs i v w)

  pub set_get : (xs : List A) (i : ℕ) (v : A) → get_elem? xs i ≡ some v → set xs i v ≡ xs
  set_get [] i v h = refl
  set_get (x ∷ xs) zero v h = ap (λ y. y ∷ xs) (sym (some-injective _ _ h))
  set_get (x ∷ xs) (suc i) v h = ap (λ ys. x ∷ ys) (set_get xs i v h)

module _ {ℓ κ} {A : Type ℓ} {B : Type κ} where
  abbrev pub map_from : (ℕ → A → B) → ℕ → List A → List B
  map_from f n [] = []
  map_from f n (x ∷ xs) = f n x ∷ map_from f (suc n) xs

  pub length-map_from : (f : ℕ → A → B) (n : ℕ) (xs : List A) → length (map_from f n xs) ≡ length xs
  length-map_from f n [] = refl
  length-map_from f n (x ∷ xs) = ap suc (length-map_from f (suc n) xs)

  pub map_from-append :
      (f : ℕ → A → B) (n : ℕ) (xs ys : List A)
      → map_from f n (xs ++ ys) ≡ map_from f n xs ++ map_from f (n + length xs) ys
  map_from-append f n [] ys = ap (λ k. map_from f k ys) (omega arith)
  map_from-append f n (x ∷ xs) ys =
      ap (λ zs. f n x ∷ zs)
        (map_from-append f (suc n) xs ys
          ∙ ap (λ k. map_from f (suc n) xs ++ map_from f k ys) (omega arith))

  -- A write seen through the map.
  pub map_from-set :
      (f : ℕ → A → B) (g : B → B) (n i j : ℕ) (xs : List A) (x y : A)
      → get_elem? xs i ≡ some x
      → j ≡ n + i
      → g (f j x) ≡ f j y
      → update (map_from f n xs) i g ≡ map_from f n (set xs i y)
  map_from-set f g n i j [] x y h q e = cc
  map_from-set f g n zero j (z ∷ xs) x y h q e =
      let q' : j ≡ n = omega arith in
      ap (λ b. b ∷ map_from f (suc n) xs)
        (ap (λ z. g (f n z)) (some-injective _ _ h) ∙ subst (λ j. g (f j x) ≡ f j y) q' e)
  map_from-set f g n (suc i) j (z ∷ xs) x y h q e =
      ap (λ bs. f n z ∷ bs) (map_from-set f g (suc n) i j xs x y h (omega arith) e)
