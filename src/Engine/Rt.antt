-- ===== src/Engine/Rt.antt =====
-- Commands to the real-time thread (crates/iem-engine/src/cmd.rs) and the DSP parameters that they
-- carry (params.rs). `u16` indices saturate as `ix` (core.rs) does.
use iemmixer.Base.{ℕ, Bool, Option, List, leb, if◌then◌else◌}
use iemmixer.Float.{Float}
use iemmixer.Proto.State.{BandKind, Five, map_five, EqBand, Eq, InputState, db_to_lin}

pub data DspKind : Type 0 where
  high_pass low_shelf peak high_shelf : DspKind

pub record Band (F : Type 0) : Type 0 where
  pub kind : DspKind
  pub enabled : Bool
  pub freq_hz : F
  pub gain_lin : F
  pub bw_oct : F

pub record EqParams (F : Type 0) : Type 0 where
  pub bands : Five (Band F)
  pub global_gain : F

pub record InputParams (F : Type 0) : Type 0 where
  pub trim : F
  pub muted : Bool
  pub processing : Bool

pub data RtOp (F : Type 0) : Type 0 where
  nop : RtOp F
  input : ℕ → InputParams F → RtOp F
  input_eq : ℕ → EqParams F → RtOp F
  mix_out : ℕ → F → Bool → RtOp F
  mix_eq : ℕ → EqParams F → RtOp F
  limiter : ℕ → Bool → F → RtOp F
  reset_limiter : ℕ → RtOp F
  level : ℕ → ℕ → F → F → Bool → RtOp F
  group : ℕ → ℕ → F → Bool → RtOp F
  group_eq : ℕ → ℕ → EqParams F → RtOp F
  listen : ℕ → Option ℕ → RtOp F
  test_signal : ℕ → F → F → ℕ → RtOp F
  hil_test_signal : ℕ → F → F → ℕ → List Bool → Bool → RtOp F
  stop_test_signal : RtOp F
  fade_out : RtOp F
  panic : RtOp F
  arm : RtOp F

unfoldable pub dsp_kind : BandKind → DspKind
dsp_kind BandKind.high_pass = DspKind.high_pass
dsp_kind BandKind.low_shelf = DspKind.low_shelf
dsp_kind BandKind.peak = DspKind.peak
dsp_kind BandKind.high_shelf = DspKind.high_shelf

-- `u16::try_from(i).unwrap_or(u16::MAX)`.
unfoldable pub ix : ℕ → ℕ
ix i = if leb i 65535 then i else 65535

module _ {F : Type 0} ⦃fl : Float F⦄ where
  abbrev pub band_params : EqBand F → Band F
  band_params b = record {
    kind = dsp_kind b.kind;
    enabled = b.enabled;
    freq_hz = b.freq_hz;
    gain_lin = db_to_lin b.gain_db;
    bw_oct = b.bw_oct;
  }

  unfoldable pub eq_params : Eq F → EqParams F
  eq_params e = record { bands = map_five band_params e.bands; global_gain = db_to_lin e.gain_db }

  unfoldable pub input_params : InputState F → InputParams F
  input_params s = record { trim = db_to_lin s.trim_db; muted = s.muted; processing = s.processing }
