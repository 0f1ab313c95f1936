-- ===== src/Proto/Equality/Sound.antt =====
-- Equal values of the mix state are one value (the derived equality of
-- crates/iem-engine-proto/src/state.rs).
use iemmixer.Base.{Bool, true, false, ◌&&◌, ◌≡◌, refl, arith}
use iemmixer.Float.{Float, FloatLaws}
use iemmixer.Proto.State.{
  BandKind, high_pass, low_shelf, peak, high_shelf, EqBand, Eq, Limiter, InputState,
}
use iemmixer.Proto.Equality.{bool_eq, kind_eq, band_eq, eq_eq, limiter_eq, input_eq}

pub bool_eq_sound : (a b : Bool) → bool_eq a b ≡ true → a ≡ b
bool_eq_sound true b h = ground (arith, h)
bool_eq_sound false b h = ground (arith, h)

kind_eq_sound : (a b : BandKind) → kind_eq a b ≡ true → a ≡ b
unfolding kind_eq
kind_eq_sound high_pass b h = ground (arith, h)
kind_eq_sound low_shelf b h = ground (arith, h)
kind_eq_sound peak b h = ground (arith, h)
kind_eq_sound high_shelf b h = ground (arith, h)

pub both : (a b : Bool) → (a && b) ≡ true → (a ≡ true) × (b ≡ true)
both true b h = (refl, h)
both false b h = cc

module _ {F : Type 0} ⦃fl : Float F⦄ (laws : FloatLaws F) where
  band_eq_sound : (a b : EqBand F) → band_eq a b ≡ true → a ≡ b
  unfolding band_eq
  band_eq_sound a b h =
      let (k, h1) = both (kind_eq a.kind b.kind) _ h in
      let (e, h2) = both (bool_eq a.enabled b.enabled) _ h1 in
      let (f, h3) = both (fl.eq a.freq_hz b.freq_hz) _ h2 in
      let (g, w) = both (fl.eq a.gain_db b.gain_db) _ h3 in
      λ i. record {
        kind = kind_eq_sound a.kind b.kind k i;
        enabled = bool_eq_sound a.enabled b.enabled e i;
        freq_hz = laws.eq_sound a.freq_hz b.freq_hz f i;
        gain_db = laws.eq_sound a.gain_db b.gain_db g i;
        bw_oct = laws.eq_sound a.bw_oct b.bw_oct w i;
      }

  pub eq_eq_sound : (a b : Eq F) → eq_eq a b ≡ true → a ≡ b
  unfolding eq_eq
  eq_eq_sound a b h =
      let (g, h1) = both (fl.eq a.gain_db b.gain_db) _ h in
      let (p0, h2) = both (band_eq a.bands.b0 b.bands.b0) _ h1 in
      let (p1, h3) = both (band_eq a.bands.b1 b.bands.b1) _ h2 in
      let (p2, h4) = both (band_eq a.bands.b2 b.bands.b2) _ h3 in
      let (p3, p4) = both (band_eq a.bands.b3 b.bands.b3) _ h4 in
      λ i. record {
        gain_db = laws.eq_sound a.gain_db b.gain_db g i;
        bands = record {
          b0 = band_eq_sound a.bands.b0 b.bands.b0 p0 i;
          b1 = band_eq_sound a.bands.b1 b.bands.b1 p1 i;
          b2 = band_eq_sound a.bands.b2 b.bands.b2 p2 i;
          b3 = band_eq_sound a.bands.b3 b.bands.b3 p3 i;
          b4 = band_eq_sound a.bands.b4 b.bands.b4 p4 i;
        };
      }

  pub limiter_eq_sound : (a b : Limiter F) → limiter_eq a b ≡ true → a ≡ b
  unfolding limiter_eq
  limiter_eq_sound a b h =
      let (e, l) = both (bool_eq a.enabled b.enabled) _ h in
      λ i. record {
        enabled = bool_eq_sound a.enabled b.enabled e i;
        limit_db = laws.eq_sound a.limit_db b.limit_db l i;
      }

  pub input_eq_sound : (a b : InputState F) → input_eq a b ≡ true → a ≡ b
  unfolding input_eq
  input_eq_sound a b h =
      let (t, h1) = both (fl.eq a.trim_db b.trim_db) _ h in
      let (p, h2) = both (bool_eq a.processing b.processing) _ h1 in
      let (m, e) = both (bool_eq a.muted b.muted) _ h2 in
      λ i. record {
        trim_db = laws.eq_sound a.trim_db b.trim_db t i;
        processing = bool_eq_sound a.processing b.processing p i;
        muted = bool_eq_sound a.muted b.muted m i;
        eq = eq_eq_sound a.eq b.eq e i;
      }
