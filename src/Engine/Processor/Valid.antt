-- ===== src/Engine/Processor/Valid.antt =====
-- A capped EQ is one that an equalizer takes: the caps (crates/iem-engine-proto/src/shape.rs)
-- against the DSP's own test (crates/iem-dsp/src/eq.rs, `is_valid`).
use iemmixer.Base.{ℕ, Bool-cases, inl, inr, ◌≡◌, refl, true, arith}
use iemmixer.Float.{Float, FloatLaws}
use iemmixer.Proto.State.{EqBand, Eq, db_to_lin, db_off}
use iemmixer.Proto.Shape.{eq_gain_range}
use iemmixer.Proto.Capped.{InRange, BandCapped, EqCapped}
use iemmixer.Engine.Rt.{eq_params, band_params}
use iemmixer.Engine.Dsp.{band_is_valid, valid_number}
use iemmixer.Engine.Processor.Mirror.{EqValid}

module _ {F : Type 0} ⦃fl : Float F⦄ (laws : FloatLaws F) where
  gain_valid : (x : F) → InRange eq_gain_range x → valid_number (db_to_lin x) ≡ true
  unfolding db_to_lin
  gain_valid x h = elim (Bool-cases (fl.lt db_off x)) [
    | inl e ↦
        rw
          (
            e,
            db_to_lin,
            laws.exp10_finite x 12041199826559248 15 h.finite h.below refl,
            laws.exp10_nonneg x h.finite,
          )
          refl
    | inr e ↦ rw (e, db_to_lin, laws.finite_lit 0 0 (omega arith), laws.zero_le_lit 0 0) refl
  ]

  above_valid :
      (x : F) (m k : ℕ)
      → fl.is_finite x ≡ true
      → fl.le (fl.lit m k) x ≡ true
      → valid_number x ≡ true
  above_valid x m k f h = rw (f, laws.above_lit m k x h) refl

  band_valid : (b : EqBand F) → BandCapped b → band_is_valid (band_params b) ≡ true
  unfolding band_is_valid
  band_valid b (f, g, w) =
      rw
        (
          above_valid b.freq_hz 20 0 f.finite f.above,
          gain_valid b.gain_db g,
          above_valid b.bw_oct 1 2 w.finite w.above,
        )
        refl

  pub EqCapped-EqValid : (e : Eq F) → EqCapped e → EqValid (eq_params e)
  unfolding eq_params
  EqCapped-EqValid e h = record {
    b0 = band_valid e.bands.b0 h.c0;
    b1 = band_valid e.bands.b1 h.c1;
    b2 = band_valid e.bands.b2 h.c2;
    b3 = band_valid e.bands.b3 h.c3;
    b4 = band_valid e.bands.b4 h.c4;
    global = gain_valid e.gain_db h.gain;
  }
