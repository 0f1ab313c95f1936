-- ===== src/Engine/Dsp.antt =====
-- What the processor's smoothed values move to (crates/iem-dsp/src/ramp.rs, pan.rs, eq.rs): the
-- targets, without the samples on the way.
use iemmixer.Base.{Bool, false, ◌&&◌, if◌then◌else◌}
use iemmixer.Float.{Float}
use iemmixer.Proto.State.{Five}
use iemmixer.Engine.Rt.{DspKind, high_pass, low_shelf, peak, high_shelf, Band, EqParams}

-- A gain pair (`StereoGain`): the values that its three ramps' targets are computed from.
pub record Gain (F : Type 0) : Type 0 where
  pub vol : F
  pub muted : Bool
  pub pan : F

module _ {F : Type 0} ⦃fl : Float F⦄ where
  -- `Ramp::set`: a target that is equal to the old one is left alone.
  unfoldable pub retarget : F → F → F
  retarget old new = if fl.eq new old then old else new

  -- `if on { 1.0 } else { 0.0 }`.
  abbrev pub switch : Bool → F
  switch on = if on then fl.lit 1 0 else fl.lit 0 0

  abbrev pub valid_number : F → Bool
  valid_number x = fl.is_finite x && fl.le (fl.lit 0 0) x

  unfoldable pub band_is_valid : Band F → Bool
  band_is_valid b = valid_number b.freq_hz && (valid_number b.gain_lin && valid_number b.bw_oct)

  abbrev flat : DspKind → F → F → Band F
  flat kind freq bw = record {
    kind = kind;
    enabled = false;
    freq_hz = freq;
    gain_lin = fl.lit 1 0;
    bw_oct = bw;
  }

  -- ReaEQ's standard layout, every band off and flat.
  unfoldable pub standard_flat : EqParams F
  standard_flat = record {
    bands = record {
      b0 = flat high_pass (fl.lit 8020834168547682 14) (fl.lit 2 0);
      b1 = flat low_shelf (fl.lit 2003077623397404 13) (fl.lit 2 0);
      b2 = flat peak (fl.lit 8019398157380639 13) (fl.lit 1 0);
      b3 = flat peak (fl.lit 29962342070275295 13) (fl.lit 1 0);
      b4 = flat high_shelf (fl.lit 8016061124722856 12) (fl.lit 2 0);
    };
    global_gain = fl.lit 1 0;
  }

  abbrev pub valid_or : Band F → Band F → Band F
  valid_or old new = if band_is_valid new then new else old

  abbrev pub valid_or_five : Five (Band F) → Five (Band F) → Five (Band F)
  valid_or_five old new = record {
    b0 = valid_or old.b0 new.b0;
    b1 = valid_or old.b1 new.b1;
    b2 = valid_or old.b2 new.b2;
    b3 = valid_or old.b3 new.b3;
    b4 = valid_or old.b4 new.b4;
  }

  -- `Equalizer::new` and `Equalizer::set`: a band or a gain that is not valid is not taken.
  unfoldable pub eq_new : EqParams F → EqParams F
  unfolding standard_flat band_is_valid
  eq_new p = record {
    bands = valid_or_five standard_flat.bands p.bands;
    global_gain = if valid_number p.global_gain then p.global_gain else fl.lit 1 0;
  }

  unfoldable pub eq_set : EqParams F → EqParams F → EqParams F
  unfolding retarget band_is_valid
  eq_set old p = record {
    bands = valid_or_five old.bands p.bands;
    global_gain =
        if valid_number p.global_gain
        then retarget old.global_gain p.global_gain
        else old.global_gain;
  }
