-- ===== src/Proto/Equality.antt =====
-- The derived equality of the mix state (`#[derive(PartialEq)]` in
-- crates/iem-engine-proto/src/state.rs): field by field, numbers by the equality of `f64`.
pub mod Sound
use iemmixer.Base.{Bool, true, false, ◌&&◌}
use iemmixer.Float.{Float}
use iemmixer.Proto.State.{
  BandKind, high_pass, low_shelf, peak, high_shelf, EqBand, Eq, Limiter, InputState, Level,
  MixGroup, MixOut,
}

abbrev pub bool_eq : Bool → Bool → Bool
bool_eq true b = b
bool_eq false true = false
bool_eq false false = true

unfoldable pub kind_eq : BandKind → BandKind → Bool
kind_eq high_pass high_pass = true
kind_eq low_shelf low_shelf = true
kind_eq peak peak = true
kind_eq high_shelf high_shelf = true
kind_eq _ _ = false

module _ {F : Type 0} ⦃fl : Float F⦄ where
  unfoldable pub band_eq : EqBand F → EqBand F → Bool
  band_eq a b =
      kind_eq a.kind b.kind
      && (bool_eq a.enabled b.enabled
          && (fl.eq a.freq_hz b.freq_hz && (fl.eq a.gain_db b.gain_db && fl.eq a.bw_oct b.bw_oct)))

  unfoldable pub eq_eq : Eq F → Eq F → Bool
  eq_eq a b =
      fl.eq a.gain_db b.gain_db
      && (band_eq a.bands.b0 b.bands.b0
          && (band_eq a.bands.b1 b.bands.b1
              && (band_eq a.bands.b2 b.bands.b2
                  && (band_eq a.bands.b3 b.bands.b3 && band_eq a.bands.b4 b.bands.b4))))

  unfoldable pub limiter_eq : Limiter F → Limiter F → Bool
  limiter_eq a b = bool_eq a.enabled b.enabled && fl.eq a.limit_db b.limit_db

  unfoldable pub input_eq : InputState F → InputState F → Bool
  input_eq a b =
      fl.eq a.trim_db b.trim_db
      && (bool_eq a.processing b.processing && (bool_eq a.muted b.muted && eq_eq a.eq b.eq))

  unfoldable pub level_eq : Level F → Level F → Bool
  level_eq a b = fl.eq a.gain_db b.gain_db && (fl.eq a.pan b.pan && bool_eq a.muted b.muted)

  unfoldable pub group_eq : MixGroup F → MixGroup F → Bool
  group_eq a b = fl.eq a.gain_db b.gain_db && (bool_eq a.muted b.muted && eq_eq a.eq b.eq)

  unfoldable pub out_eq : MixOut F → MixOut F → Bool
  out_eq a b =
      fl.eq a.volume_db b.volume_db
      && (bool_eq a.muted b.muted && (eq_eq a.eq b.eq && limiter_eq a.limiter b.limiter))
