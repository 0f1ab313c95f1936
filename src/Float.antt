-- ===== src/Float.antt =====
-- What the engine uses of `f64`, as an interface: the operations it calls, and in `FloatLaws` the
-- documented facts of IEEE 754 and of decimal literals that its range checks rest on.
use iemmixer.Base.{ℕ, ◌*◌, ◌^◌, ◌<◌, ◌≡◌, Bool, true, leb}

pub record Float (F : Type 0) : Type 0 where
  -- The literal m / 10^k, and the negation that a minus sign is.
  pub lit : ℕ → ℕ → F
  pub neg : F → F
  pub is_finite : F → Bool
  pub clamp : F → F → F → F
  pub le : F → F → Bool
  pub lt : F → F → Bool
  pub eq : F → F → Bool
  pub mul : F → F → F
  pub div : F → F → F
  -- `10f64.powf(x)`.
  pub exp10 : F → F
  -- `x.round() as u64`.
  pub round_u64 : F → ℕ
  -- `f64::from(n)`.
  pub from_u32 : ℕ → F

-- A literal of at most 30 digits is finite; literals keep the order of the decimals they name.
pub record FloatLaws (F : Type 0) ⦃fl : Float F⦄ : Type 0 where
  pub finite_lit : (m k : ℕ) → m < 10 ^ 30 → fl.is_finite (fl.lit m k) ≡ true
  pub finite_neg : (x : F) → fl.is_finite x ≡ true → fl.is_finite (fl.neg x) ≡ true
  pub finite_clamp :
      (v lo hi : F)
      → fl.is_finite v ≡ true
      → fl.is_finite lo ≡ true
      → fl.is_finite hi ≡ true
      → fl.is_finite (fl.clamp v lo hi) ≡ true
  pub clamp_above :
      (v lo hi : F)
      → fl.is_finite v ≡ true
      → fl.le lo hi ≡ true
      → fl.le lo (fl.clamp v lo hi) ≡ true
  pub clamp_below :
      (v lo hi : F)
      → fl.is_finite v ≡ true
      → fl.le lo hi ≡ true
      → fl.le (fl.clamp v lo hi) hi ≡ true
  pub lit_le :
      (m k n j : ℕ) → leb (m * 10 ^ j) (n * 10 ^ k) ≡ true → fl.le (fl.lit m k) (fl.lit n j) ≡ true
  pub neg_lit_le :
      (m k n j : ℕ)
      → leb (n * 10 ^ k) (m * 10 ^ j) ≡ true
      → fl.le (fl.neg (fl.lit m k)) (fl.neg (fl.lit n j)) ≡ true
  pub neg_lit_le_lit : (m k n j : ℕ) → fl.le (fl.neg (fl.lit m k)) (fl.lit n j) ≡ true
  -- Equal numbers are one value of the model, which does not tell the two zeros apart.
  pub eq_sound : (x y : F) → fl.eq x y ≡ true → x ≡ y
  pub above_lit : (m k : ℕ) (x : F) → fl.le (fl.lit m k) x ≡ true → fl.le (fl.lit 0 0) x ≡ true
  pub zero_le_lit : (m k : ℕ) → fl.le (fl.lit 0 0) (fl.lit m k) ≡ true
  -- A power of ten is not negative, and it is finite where its exponent is not large.
  pub exp10_nonneg :
      (x : F)
      → fl.is_finite x ≡ true
      → fl.le (fl.lit 0 0) (fl.exp10 (fl.div x (fl.lit 20 0))) ≡ true
  pub exp10_finite :
      (x : F) (m k : ℕ)
      → fl.is_finite x ≡ true
      → fl.le x (fl.lit m k) ≡ true
      → leb m (1000 * 10 ^ k) ≡ true
      → fl.is_finite (fl.exp10 (fl.div x (fl.lit 20 0))) ≡ true
