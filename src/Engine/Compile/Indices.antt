-- ===== src/Engine/Compile/Indices.antt =====
-- The indices of the elements that a test holds of ascend, each once
-- (crates/iem-engine/src/topology.rs, the filters that make `order`).
use iemmixer.Base.{
  ℕ, zero, suc, ◌+◌, ◌<◌, ◌≡◌, refl, ap, ◌∙◌, inl, inr, Bool, true, some, List, [], ◌∷◌, ◌++◌,
  arith, Bool-cases, get_elem?, member, Distinct, ==_iff, ◌==◌,
}
use mathlib.Core.Option.{some-injective}
use iemmixer.Engine.Compile.{indices}

-- `a` stands somewhere before `b`.
pub record Before (xs : List ℕ) (a b : ℕ) : Type 0 where
  pub front : List ℕ
  pub back : List ℕ
  pub split : xs ≡ front ++ back
  pub first : member a front ≡ true
  pub second : member b back ≡ true

Before-cons : (x : ℕ) (xs : List ℕ) (a b : ℕ) → Before xs a b → Before (x ∷ xs) a b
Before-cons x xs a b h = record {
  front = x ∷ h.front;
  back = h.back;
  split = ap (λ ys. x ∷ ys) h.split;
  first = ground (arith, h.first);
  second = h.second;
}

pub Before-append_right : (xs ys : List ℕ) (a b : ℕ) → Before ys a b → Before (xs ++ ys) a b
Before-append_right [] ys a b h = h
Before-append_right (x ∷ xs) ys a b h =
    Before-cons x (xs ++ ys) a b (Before-append_right xs ys a b h)

module _ {A : Type 0} (p : A → Bool) where
  pub member-indices :
      (k n i : ℕ) (xs : List A) (x : A)
      → get_elem? xs i ≡ some x
      → p x ≡ true
      → n ≡ k + i
      → member n (indices p k xs) ≡ true
  member-indices k n i [] x e h q = absurd cc
  member-indices k n zero (y ∷ xs) x e h q =
      let b : p y ≡ true = ap p (some-injective _ _ e) ∙ h in rw b (ground (arith, q))
  member-indices k n (suc i) (y ∷ xs) x e h q =
      let r = member-indices (suc k) n i xs x e h (omega (arith, q)) in
      elim (Bool-cases (p y)) [ inl b ↦ rw b (ground (arith, r)) | inr b ↦ rw b r ]

  pub indices-member :
      (k n : ℕ) (xs : List A)
      → member n (indices p k xs) ≡ true
      → (i : ℕ) × (x : A) × (get_elem? xs i ≡ some x) × (p x ≡ true) × (n ≡ k + i)
  indices-member k n [] h = absurd cc
  indices-member k n (y ∷ xs) h = elim (Bool-cases (p y)) [
    | inr b ↦
        let (i, x, e, q, r) = indices-member (suc k) n xs (rw b at h) in
        (suc i, x, e, q, omega (arith, r))
    | inl b ↦ elim (Bool-cases (n == k)) [
      | inl s ↦ (0, y, refl, b, (==_iff n k).0 s ∙ omega arith)
      | inr s ↦
          let h' : member n (k ∷ indices p (suc k) xs) ≡ true = rw b at h in
          let (i, x, e, q, r) = indices-member (suc k) n xs (ground (arith, h', s)) in
          (suc i, x, e, q, omega (arith, r))
    ]
  ]

  pub indices-Distinct : (k : ℕ) (xs : List A) → Distinct (indices p k xs)
  indices-Distinct k [] = tt
  indices-Distinct k (x ∷ xs) = elim (Bool-cases (p x)) [
    | inr b ↦ rw b (indices-Distinct (suc k) xs)
    | inl b ↦ rw b (
      elim (Bool-cases (member k (indices p (suc k) xs))) [
        | inl m ↦ let (i, y, e, q, r) = indices-member (suc k) k xs m in absurd (omega (arith, r))
        | inr m ↦ m
      ],
      indices-Distinct (suc k) xs,
    )
  ]

  -- The indices ascend.
  pub indices-Before :
      (k a b i j : ℕ) (xs : List A) (x y : A)
      → get_elem? xs i ≡ some x
      → p x ≡ true
      → get_elem? xs j ≡ some y
      → p y ≡ true
      → i < j
      → a ≡ k + i
      → b ≡ k + j
      → Before (indices p k xs) a b
  indices-Before k a b i j [] x y e h f g l q r = absurd cc
  indices-Before k a b i zero (z ∷ xs) x y e h f g l q r = absurd (omega (arith, l))
  indices-Before k a b zero (suc j) (z ∷ xs) x y e h f g l q r =
      let c : p z ≡ true = ap p (some-injective _ _ e) ∙ h in
      rw c (record {
        front = k ∷ [];
        back = indices p (suc k) xs;
        split = refl;
        first = ground (arith, q);
        second = member-indices (suc k) b j xs y f g (omega (arith, r));
      })
  indices-Before k a b (suc i) (suc j) (z ∷ xs) x y e h f g l q r =
      let t =
        indices-Before (suc k) a b i j xs x y e h f g (omega (arith, l)) (omega (arith, q))
          (omega (arith, r)) in
      elim (Bool-cases (p z)) [
        | inl c ↦ rw c (Before-cons k (indices p (suc k) xs) a b t)
        | inr c ↦ rw c t
      ]
