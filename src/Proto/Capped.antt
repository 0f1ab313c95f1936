-- ===== src/Proto/Capped.antt =====
-- What the caps of crates/iem-engine-proto/src/shape.rs establish: every number of a shaped value
-- is finite and in its range.
pub mod Shape
use iemmixer.Base.{
  ℕ, ◌*◌, ◌^◌, ◌<◌, leb, ◌≡◌, refl, true, some, Values, arith, Option-cases, inl, inr,
}
use iemmixer.Float.{Float, FloatLaws}
use iemmixer.Proto.State.{
  BandKind, high_pass, low_shelf, peak, high_shelf, EqBand, Eq, InputState, Level, MixGroup, MixOut,
  Mix, MixState, zero_f, db_off, off, default_eq, default_input, default_level, default_group,
  default_out,
}
use iemmixer.Proto.Shape.{
  Range, trim_range, fader_range, pan_range, eq_freq_range, eq_gain_range, eq_bw_range, limit_range,
  cap, fix, cap_band, cap_eq, cap_input, cap_level, cap_group, cap_out,
}

module _ {F : Type 0} ⦃fl : Float F⦄ where
  -- `x` is finite and in the range.
  pub record InRange (r : Range F) (x : F) : Type 0 where
    pub finite : fl.is_finite x ≡ true
    pub above : fl.le r.lo x ≡ true
    pub below : fl.le x r.hi ≡ true

  -- The ends are finite and in order.
  pub record IsRange (r : Range F) : Type 0 where
    pub finite_lo : fl.is_finite r.lo ≡ true
    pub finite_hi : fl.is_finite r.hi ≡ true
    pub ordered : fl.le r.lo r.hi ≡ true

  abbrev pub BandCapped : EqBand F → Type 0
  BandCapped b =
      InRange eq_freq_range b.freq_hz
      × InRange eq_gain_range b.gain_db
      × InRange eq_bw_range b.bw_oct

  pub record EqCapped (e : Eq F) : Type 0 where
    pub gain : InRange eq_gain_range e.gain_db
    pub c0 : BandCapped e.bands.b0
    pub c1 : BandCapped e.bands.b1
    pub c2 : BandCapped e.bands.b2
    pub c3 : BandCapped e.bands.b3
    pub c4 : BandCapped e.bands.b4

  pub record InputCapped (s : InputState F) : Type 0 where
    pub trim : InRange trim_range s.trim_db
    pub eq : EqCapped s.eq

  pub record LevelCapped (s : Level F) : Type 0 where
    pub gain : InRange fader_range s.gain_db
    pub pan : InRange pan_range s.pan

  pub record GroupCapped (s : MixGroup F) : Type 0 where
    pub gain : InRange fader_range s.gain_db
    pub eq : EqCapped s.eq

  pub record OutCapped (s : MixOut F) : Type 0 where
    pub volume : InRange fader_range s.volume_db
    pub eq : EqCapped s.eq
    pub limit : InRange limit_range s.limiter.limit_db

  pub record MixCapped (x : Mix F) : Type 0 where
    pub out : OutCapped x.out
    pub inputs : Values LevelCapped x.inputs
    pub groups : Values GroupCapped x.groups
    pub mixes : Values LevelCapped x.mixes

  pub record StateCapped (s : MixState F) : Type 0 where
    pub inputs : Values InputCapped s.inputs
    pub mixes : Values MixCapped s.mixes

module _ {F : Type 0} ⦃fl : Float F⦄ (laws : FloatLaws F) where
  -- The ranges of the protocol, and that the defaults lie in them.
  pub trim_IsRange : IsRange {F = F} trim_range
  trim_IsRange = record {
    finite_lo = laws.finite_neg _ (laws.finite_lit 150 0 (omega arith));
    finite_hi = laws.finite_lit 24 0 (omega arith);
    ordered = laws.neg_lit_le_lit 150 0 24 0;
  }

  pub fader_IsRange : IsRange {F = F} fader_range
  fader_IsRange = record {
    finite_lo = laws.finite_neg _ (laws.finite_lit 150 0 (omega arith));
    finite_hi = laws.finite_lit 12 0 (omega arith);
    ordered = laws.neg_lit_le_lit 150 0 12 0;
  }

  pub pan_IsRange : IsRange {F = F} pan_range
  pan_IsRange = record {
    finite_lo = laws.finite_neg _ (laws.finite_lit 1 0 (omega arith));
    finite_hi = laws.finite_lit 1 0 (omega arith);
    ordered = laws.neg_lit_le_lit 1 0 1 0;
  }

  eq_freq_IsRange : IsRange {F = F} eq_freq_range
  eq_freq_IsRange = record {
    finite_lo = laws.finite_lit 20 0 (omega arith);
    finite_hi = laws.finite_lit 24000 0 (omega arith);
    ordered = laws.lit_le 20 0 24000 0 refl;
  }

  eq_gain_IsRange : IsRange {F = F} eq_gain_range
  eq_gain_IsRange = record {
    finite_lo = laws.finite_neg _ (laws.finite_lit 150 0 (omega arith));
    finite_hi = laws.finite_lit 12041199826559248 15 (omega arith);
    ordered = laws.neg_lit_le_lit 150 0 12041199826559248 15;
  }

  eq_bw_IsRange : IsRange {F = F} eq_bw_range
  eq_bw_IsRange = record {
    finite_lo = laws.finite_lit 1 2 (omega arith);
    finite_hi = laws.finite_lit 4 0 (omega arith);
    ordered = laws.lit_le 1 2 4 0 refl;
  }

  pub limit_IsRange : IsRange {F = F} limit_range
  limit_IsRange = record {
    finite_lo = laws.finite_neg _ (laws.finite_lit 6 0 (omega arith));
    finite_hi = laws.finite_lit 0 0 (omega arith);
    ordered = laws.neg_lit_le_lit 6 0 0 0;
  }

  -- A clamped number is in the range.
  pub cap-InRange : (r : Range F) (v w : F) → IsRange r → cap v r ≡ some w → InRange r w
  unfolding cap
  cap-InRange r v w g e = ground (
    arith,
    laws.finite_clamp v r.lo r.hi,
    laws.clamp_above v r.lo r.hi,
    laws.clamp_below v r.lo r.hi,
  )

  fix-InRange : (r : Range F) (v d : F) → IsRange r → InRange r d → InRange r (fix v r d)
  unfolding fix
  fix-InRange r v d g h = elim (Option-cases (cap v r)) [
    | inl e ↦ rw (e, fix) h
    | inr (w, e) ↦ rw (e, fix) (cap-InRange r v w g e)
  ]

  -- A literal inside a range.
  lit-InRange :
      (r : Range F) (m k : ℕ)
      → m < 10 ^ 30
      → fl.le r.lo (fl.lit m k) ≡ true
      → fl.le (fl.lit m k) r.hi ≡ true
      → InRange r (fl.lit m k)
  lit-InRange r m k h above below = record {
    finite = laws.finite_lit m k h;
    above = above;
    below = below;
  }

  freq-InRange :
      (m k : ℕ)
      → m < 10 ^ 30
      → leb (20 * 10 ^ k) (m * 10 ^ 0) ≡ true
      → leb (m * 10 ^ 0) (24000 * 10 ^ k) ≡ true
      → InRange eq_freq_range (fl.lit m k)
  freq-InRange m k h above below =
      lit-InRange eq_freq_range m k h (laws.lit_le 20 0 m k above) (laws.lit_le m k 24000 0 below)

  bw-InRange :
      (m : ℕ)
      → m < 10 ^ 30
      → leb (1 * 10 ^ 0) (m * 10 ^ 2) ≡ true
      → leb (m * 10 ^ 0) (4 * 10 ^ 0) ≡ true
      → InRange eq_bw_range (fl.lit m 0)
  bw-InRange m h above below =
      lit-InRange eq_bw_range m 0 h (laws.lit_le 1 2 m 0 above) (laws.lit_le m 0 4 0 below)

  zero-InRange : (m k n : ℕ) → InRange (record { lo = fl.neg (fl.lit m 0); hi = fl.lit n k }) zero_f
  zero-InRange m k n = record {
    finite = laws.finite_lit 0 0 (omega arith);
    above = laws.neg_lit_le_lit m 0 0 0;
    below = laws.lit_le 0 0 n k (ground arith);
  }

  off-BandCapped :
      (kind : BandKind) (f k b : ℕ)
      → InRange eq_freq_range (fl.lit f k)
      → InRange eq_bw_range (fl.lit b 0)
      → BandCapped (off kind (fl.lit f k) (fl.lit b 0))
  off-BandCapped kind f k b h g = (h, zero-InRange 150 15 12041199826559248, g)

  pub default_eq-EqCapped : EqCapped {F = F} default_eq
  default_eq-EqCapped = record {
    gain = zero-InRange 150 15 12041199826559248;
    c0 =
        off-BandCapped high_pass 8020834168547682 14 2
          (freq-InRange 8020834168547682 14 (omega arith) refl refl)
          (bw-InRange 2 (omega arith) refl refl);
    c1 =
        off-BandCapped low_shelf 2003077623397404 13 2
          (freq-InRange 2003077623397404 13 (omega arith) refl refl)
          (bw-InRange 2 (omega arith) refl refl);
    c2 =
        off-BandCapped peak 8019398157380639 13 1
          (freq-InRange 8019398157380639 13 (omega arith) refl refl)
          (bw-InRange 1 (omega arith) refl refl);
    c3 =
        off-BandCapped peak 29962342070275295 13 1
          (freq-InRange 29962342070275295 13 (omega arith) refl refl)
          (bw-InRange 1 (omega arith) refl refl);
    c4 =
        off-BandCapped high_shelf 8016061124722856 12 2
          (freq-InRange 8016061124722856 12 (omega arith) refl refl)
          (bw-InRange 2 (omega arith) refl refl);
  }

  pub default_input-InputCapped : InputCapped {F = F} default_input
  default_input-InputCapped = record { trim = zero-InRange 150 0 24; eq = default_eq-EqCapped }

  off-InRange : (n k : ℕ) → InRange (record { lo = db_off; hi = fl.lit n k }) db_off
  off-InRange n k = record {
    finite = laws.finite_neg _ (laws.finite_lit 150 0 (omega arith));
    above = laws.neg_lit_le 150 0 150 0 refl;
    below = laws.neg_lit_le_lit 150 0 n k;
  }

  limit_lo-InRange : InRange limit_range (fl.neg (fl.lit 6 0))
  limit_lo-InRange = record {
    finite = laws.finite_neg _ (laws.finite_lit 6 0 (omega arith));
    above = laws.neg_lit_le 6 0 6 0 refl;
    below = laws.neg_lit_le_lit 6 0 0 0;
  }

  pub default_level-LevelCapped : LevelCapped {F = F} default_level
  default_level-LevelCapped = record { gain = off-InRange 12 0; pan = zero-InRange 1 0 1 }

  pub default_group-GroupCapped : GroupCapped {F = F} default_group
  default_group-GroupCapped = record { gain = zero-InRange 150 0 12; eq = default_eq-EqCapped }

  pub default_out-OutCapped : OutCapped {F = F} default_out
  default_out-OutCapped = record {
    volume = zero-InRange 150 0 12;
    eq = default_eq-EqCapped;
    limit = limit_lo-InRange;
  }

  cap_band-BandCapped : (b : EqBand F) → BandCapped (cap_band b)
  unfolding cap_band
  cap_band-BandCapped b = (
    fix-InRange eq_freq_range b.freq_hz _ eq_freq_IsRange
        (freq-InRange 1000 0 (omega arith) refl refl),
    fix-InRange eq_gain_range b.gain_db _ eq_gain_IsRange (zero-InRange 150 15 12041199826559248),
    fix-InRange eq_bw_range b.bw_oct _ eq_bw_IsRange (bw-InRange 1 (omega arith) refl refl),
  )

  pub cap_eq-EqCapped : (e : Eq F) → EqCapped (cap_eq e)
  unfolding cap_eq
  cap_eq-EqCapped e = record {
    gain =
        fix-InRange eq_gain_range e.gain_db _ eq_gain_IsRange
          (zero-InRange 150 15 12041199826559248);
    c0 = cap_band-BandCapped e.bands.b0;
    c1 = cap_band-BandCapped e.bands.b1;
    c2 = cap_band-BandCapped e.bands.b2;
    c3 = cap_band-BandCapped e.bands.b3;
    c4 = cap_band-BandCapped e.bands.b4;
  }

  pub cap_input-InputCapped : (s : InputState F) → InputCapped (cap_input s)
  unfolding cap_input
  cap_input-InputCapped s = record {
    trim = fix-InRange trim_range s.trim_db _ trim_IsRange (zero-InRange 150 0 24);
    eq = cap_eq-EqCapped s.eq;
  }

  pub cap_level-LevelCapped : (s : Level F) → LevelCapped (cap_level s)
  unfolding cap_level
  cap_level-LevelCapped s = record {
    gain = fix-InRange fader_range s.gain_db _ fader_IsRange (off-InRange 12 0);
    pan = fix-InRange pan_range s.pan _ pan_IsRange (zero-InRange 1 0 1);
  }

  pub cap_group-GroupCapped : (s : MixGroup F) → GroupCapped (cap_group s)
  unfolding cap_group
  cap_group-GroupCapped s = record {
    gain = fix-InRange fader_range s.gain_db _ fader_IsRange (zero-InRange 150 0 12);
    eq = cap_eq-EqCapped s.eq;
  }

  pub cap_out-OutCapped : (s : MixOut F) → OutCapped (cap_out s)
  unfolding cap_out
  cap_out-OutCapped s = record {
    volume = fix-InRange fader_range s.volume_db _ fader_IsRange (zero-InRange 150 0 12);
    eq = cap_eq-EqCapped s.eq;
    limit = fix-InRange limit_range s.limiter.limit_db _ limit_IsRange limit_lo-InRange;
  }
