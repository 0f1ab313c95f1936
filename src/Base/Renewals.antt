-- ===== src/Base/Renewals.antt =====
-- A list renewed element by element in place, `for (k, x) in xs.enumerate() { .. ys[k] .. }`.
use Prim.Native.Nat.{ℕ, zero, suc, ◌+◌, ◌≤◌}
use mathlib.Core.Path.{◌≡◌, refl, sym, ap, subst, ◌∙◌}
use mathlib.Core.Logic.{◌≢◌}
use mathlib.Core.List.{List, [], ◌∷◌}
use mathlib.Core.Option.{some, some-injective}
use native.Mathlib.Omega.{arith}
use iemmixer.Base.Lists.{length, get_elem?, set}
use iemmixer.Base.Updates.{update, map_from}

module _ {ℓ} {A : Type ℓ} where
  pub update_id : (xs : List A) (i : ℕ) → update xs i (λ x. x) ≡ xs
  update_id [] i = refl
  update_id (x ∷ xs) zero = refl
  update_id (x ∷ xs) (suc i) = ap (λ ys. x ∷ ys) (update_id xs i)

  pub update_fun :
      (xs : List A) (i : ℕ) (f g : A → A) → ((x : A) → f x ≡ g x) → update xs i f ≡ update xs i g
  update_fun xs i f g h = ap (update xs i) (λ j x. h x j)

module _ {ℓ κ} {A : Type ℓ} {B : Type κ} where
  -- Element `i + n` of `ys` renewed from element `n` of `xs`, whose index the source counts as
  -- `k + n`.
  abbrev pub renew : (ℕ → A → B → B) → ℕ → ℕ → List A → List B → List B
  renew g k i [] ys = ys
  renew g k i (x ∷ xs) ys = renew g (suc k) (suc i) xs (update ys i (g k x))

  renew_cons :
      (g : ℕ → A → B → B) (k i : ℕ) (xs : List A) (y : B) (ys : List B)
      → renew g k (suc i) xs (y ∷ ys) ≡ y ∷ renew g k i xs ys
  renew_cons g k i [] y ys = refl
  renew_cons g k i (x ∷ xs) y ys = renew_cons g (suc k) (suc i) xs y (update ys i (g k x))

  renew_all :
      (g : ℕ → A → B → B) (f : ℕ → A → B) (k : ℕ) (xs : List A) (ys : List B)
      → length ys ≡ length xs
      → ((n : ℕ) (x : A) (y : B)
          → get_elem? xs n ≡ some x
          → get_elem? ys n ≡ some y
          → g (k + n) x y ≡ f (k + n) x)
      → renew g k 0 xs ys ≡ map_from f k xs
  renew_all g f k [] [] e h = refl
  renew_all g f k [] (y ∷ ys) e h = absurd (omega (arith, e))
  renew_all g f k (x ∷ xs) [] e h = absurd (omega (arith, e))
  renew_all g f k (x ∷ xs) (y ∷ ys) e h =
      renew_cons g (suc k) 0 xs (g k x y) ys
      ∙ ap (λ b. b ∷ renew g (suc k) 0 xs ys)
          (subst (λ j. g j x y ≡ f j x) (omega arith) (h 0 x y refl refl))
      ∙ ap (λ zs. f k x ∷ zs)
          (renew_all g f (suc k) xs ys (omega (arith, e))
            (λ n x' y' p q. subst (λ j. g j x' y' ≡ f j x') (omega arith) (h (suc n) x' y' p q)))

  -- Every element is renewed to what it should be.
  pub renew_lem :
      (g : ℕ → A → B → B) (f : ℕ → A → B) (xs : List A) (ys : List B)
      → length ys ≡ length xs
      → ((n : ℕ) (x : A) (y : B)
          → get_elem? xs n ≡ some x
          → get_elem? ys n ≡ some y
          → g n x y ≡ f n x)
      → renew g 0 0 xs ys ≡ map_from f 0 xs
  renew_lem g f xs ys e h =
      renew_all g f 0 xs ys e
        (λ n x y p q. subst (λ j. g j x y ≡ f j x) (omega arith) (h n x y p q))

  pub get-map_from :
      (f : ℕ → A → B) (k n : ℕ) (xs : List A) (y : B)
      → get_elem? (map_from f k xs) n ≡ some y
      → (x : A) × (get_elem? xs n ≡ some x) × (y ≡ f (k + n) x)
  get-map_from f k n [] y h = absurd cc
  get-map_from f k zero (x ∷ xs) y h =
      (x, refl, sym (some-injective _ _ h) ∙ ap (λ j. f j x) (omega arith))
  get-map_from f k (suc n) (x ∷ xs) y h =
      let (x', p, q) = get-map_from f (suc k) n xs y h in
      (x', p, q ∙ ap (λ j. f j x') (omega arith))

  map_from-fun :
      (f f' : ℕ → A → B) (k : ℕ) (xs : List A)
      → ((n : ℕ) (x : A) → k ≤ n → f n x ≡ f' n x)
      → map_from f k xs ≡ map_from f' k xs
  map_from-fun f f' k [] h = refl
  map_from-fun f f' k (x ∷ xs) h =
      ap (λ b. b ∷ map_from f (suc k) xs) (h k x (omega arith))
      ∙ ap (λ bs. f' k x ∷ bs) (map_from-fun f f' (suc k) xs (λ n x b. h n x (omega (arith, b))))

  -- One element changes, and what the others map to does not.
  pub map_from-update :
      (f f' : ℕ → A → B) (g : B → B) (k i j : ℕ) (xs : List A)
      → j ≡ k + i
      → ((n : ℕ) (x : A) → n ≢ j → f n x ≡ f' n x)
      → ((x : A) → get_elem? xs i ≡ some x → g (f j x) ≡ f' j x)
      → update (map_from f k xs) i g ≡ map_from f' k xs
  map_from-update f f' g k i j [] q h e = refl
  map_from-update f f' g k zero j (x ∷ xs) q h e =
      let here : j ≡ k = omega (arith, q) in
      ap (λ b. b ∷ map_from f (suc k) xs) (subst (λ j. g (f j x) ≡ f' j x) here (e x refl))
      ∙ ap (λ bs. f' k x ∷ bs) (map_from-fun f f' (suc k) xs (λ n x b. h n x (omega (arith, b, q))))
  map_from-update f f' g k (suc i) j (x ∷ xs) q h e =
      ap (λ b. b ∷ update (map_from f (suc k) xs) i g) (h k x (omega (arith, q)))
      ∙ ap (λ bs. f' k x ∷ bs) (map_from-update f f' g (suc k) i j xs (omega (arith, q)) h e)

module _ {ℓ κ} {A : Type ℓ} {B : Type κ} where
  -- A write seen through a map that does not look at the place; out of bounds nothing changes.
  pub map_from-set_any :
      (f : A → B) (n i : ℕ) (xs : List A) (y : A)
      → update (map_from (λ _. f) n xs) i (λ _. f y) ≡ map_from (λ _. f) n (set xs i y)
  map_from-set_any f n i [] y = refl
  map_from-set_any f n zero (x ∷ xs) y = refl
  map_from-set_any f n (suc i) (x ∷ xs) y = ap (λ bs. f x ∷ bs) (map_from-set_any f (suc n) i xs y)
