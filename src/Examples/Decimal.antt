-- ===== src/Examples/Decimal.antt =====
-- A concrete `f64`: decimals and a value that is not finite, which stands for NaN and the
-- infinities. Powers of ten and quotients are rounded down.
use iemmixer.Base.{
  ℕ, ◌+◌, ◌*◌, ◌/◌, ◌^◌, Bool, true, false, not, ◌&&◌, ◌≡◌, refl, if◌then◌else◌, leb, ◌==◌,
  Bool-cases, inl, inr, arith,
}
use iemmixer.Float.{Float, FloatLaws}

-- m / 10^k, its opposite, or no number.
pub data Decimal : Type 0 where
  nan : Decimal
  plus : ℕ → ℕ → Decimal
  minus : ℕ → ℕ → Decimal

abbrev pub neg : Decimal → Decimal
neg nan = nan
neg (plus m k) = minus m k
neg (minus m k) = plus m k

abbrev pub is_finite : Decimal → Bool
is_finite nan = false
is_finite _ = true

abbrev pub le : Decimal → Decimal → Bool
le (plus m k) (plus n j) = leb (m * 10 ^ j) (n * 10 ^ k)
le (plus m k) (minus n j) = (m == 0) && (n == 0)
le (minus m k) (plus n j) = true
le (minus m k) (minus n j) = leb (n * 10 ^ k) (m * 10 ^ j)
le _ _ = false

abbrev pub lt : Decimal → Decimal → Bool
lt nan _ = false
lt _ nan = false
lt x y = not (le y x)

-- Two decimals are equal when they are written alike.
abbrev pub eq : Decimal → Decimal → Bool
eq (plus m k) (plus n j) = (m == n) && (k == j)
eq (minus m k) (minus n j) = (m == n) && (k == j)
eq _ _ = false

abbrev pub clamp : Decimal → Decimal → Decimal → Decimal
clamp x lo hi = if lt x lo then lo else if lt hi x then hi else x

abbrev pub mul : Decimal → Decimal → Decimal
mul (plus m k) (plus n j) = plus (m * n) (k + j)
mul (plus m k) (minus n j) = minus (m * n) (k + j)
mul (minus m k) (plus n j) = minus (m * n) (k + j)
mul (minus m k) (minus n j) = plus (m * n) (k + j)
mul _ _ = nan

-- Six more digits than the dividend has.
abbrev quotient : ℕ → ℕ → ℕ
quotient m n = m * 1000000 / n

abbrev pub div : Decimal → Decimal → Decimal
div (plus m k) (plus n j) = plus (quotient (m * 10 ^ j) n) (k + 6)
div (minus m k) (plus n j) = minus (quotient (m * 10 ^ j) n) (k + 6)
div (plus m k) (minus n j) = minus (quotient (m * 10 ^ j) n) (k + 6)
div (minus m k) (minus n j) = plus (quotient (m * 10 ^ j) n) (k + 6)
div _ _ = nan

abbrev pub exp10 : Decimal → Decimal
exp10 nan = nan
exp10 (plus m k) = plus (10 ^ (m / 10 ^ k)) 0
exp10 (minus m k) = plus 1 (m / 10 ^ k)

abbrev pub round_u64 : Decimal → ℕ
round_u64 (plus m k) = (m + 10 ^ k / 2) / 10 ^ k
round_u64 _ = 0

instance abbrev pub decimal_float : Float Decimal
decimal_float = record {
  lit = plus;
  neg = neg;
  is_finite = is_finite;
  clamp = clamp;
  le = le;
  lt = lt;
  eq = eq;
  mul = mul;
  div = div;
  exp10 = exp10;
  round_u64 = round_u64;
  from_u32 = λ n. plus n 0;
}

le_refl : (x : Decimal) → is_finite x ≡ true → le x x ≡ true
le_refl nan h = cc
le_refl (plus m k) h = ground arith
le_refl (minus m k) h = ground arith

le_finite : (x y : Decimal) → le x y ≡ true → (is_finite x ≡ true) × (is_finite y ≡ true)
le_finite nan y h = cc
le_finite x nan h = ground arith
le_finite x y h = ground arith

lt_le : (x y : Decimal) → is_finite x ≡ true → is_finite y ≡ true → lt x y ≡ false → le y x ≡ true
lt_le nan y f g h = cc
lt_le x nan f g h = ground arith
lt_le x y f g h = ground arith

clamp_above_lem :
    (v lo hi : Decimal) → is_finite v ≡ true → le lo hi ≡ true → le lo (clamp v lo hi) ≡ true
clamp_above_lem v lo hi f h =
    let (a, b) = le_finite lo hi h in
    elim (Bool-cases (lt v lo)) [
      | inl e ↦ rw e (le_refl lo a)
      | inr e ↦ elim (Bool-cases (lt hi v)) [
        | inl d ↦ rw e (rw d h)
        | inr d ↦ rw e (rw d (lt_le v lo f a e))
      ]
    ]

clamp_below_lem :
    (v lo hi : Decimal) → is_finite v ≡ true → le lo hi ≡ true → le (clamp v lo hi) hi ≡ true
clamp_below_lem v lo hi f h =
    let (a, b) = le_finite lo hi h in
    elim (Bool-cases (lt v lo)) [
      | inl e ↦ rw e h
      | inr e ↦ elim (Bool-cases (lt hi v)) [
        | inl d ↦ rw e (rw d (le_refl hi b))
        | inr d ↦ rw e (rw d (lt_le hi v b f d))
      ]
    ]

neg_finite : (x : Decimal) → is_finite x ≡ true → is_finite (neg x) ≡ true
neg_finite nan h = h
neg_finite (plus m k) h = refl
neg_finite (minus m k) h = refl

eq_sound_lem : (x y : Decimal) → eq x y ≡ true → x ≡ y
eq_sound_lem nan y h = cc
eq_sound_lem x nan h = ground arith
eq_sound_lem x y h = ground arith

above_lit_lem : (m k : ℕ) (x : Decimal) → le (plus m k) x ≡ true → le (plus 0 0) x ≡ true
above_lit_lem m k nan h = cc
above_lit_lem m k (plus n j) h = ground arith
above_lit_lem m k (minus n j) h = ground arith

exp10_nonneg_lem :
    (x : Decimal) → is_finite x ≡ true → le (plus 0 0) (exp10 (div x (plus 20 0))) ≡ true
exp10_nonneg_lem nan h = cc
exp10_nonneg_lem (plus n j) h = ground arith
exp10_nonneg_lem (minus n j) h = ground arith

exp10_finite_lem :
    (x : Decimal) (m k : ℕ)
    → is_finite x ≡ true
    → le x (plus m k) ≡ true
    → leb m (1000 * 10 ^ k) ≡ true
    → is_finite (exp10 (div x (plus 20 0))) ≡ true
exp10_finite_lem nan m k f h b = cc
exp10_finite_lem (plus n j) m k f h b = refl
exp10_finite_lem (minus n j) m k f h b = refl

pub decimal_laws : FloatLaws Decimal
decimal_laws = record {
  finite_lit = λ m k h. refl;
  finite_neg = neg_finite;
  finite_clamp = λ v lo hi f g h. ground arith;
  clamp_above = clamp_above_lem;
  clamp_below = clamp_below_lem;
  lit_le = λ m k n j h. h;
  neg_lit_le = λ m k n j h. h;
  neg_lit_le_lit = λ m k n j. refl;
  eq_sound = eq_sound_lem;
  above_lit = above_lit_lem;
  zero_le_lit = λ m k. ground arith;
  exp10_nonneg = exp10_nonneg_lem;
  exp10_finite = exp10_finite_lem;
}
