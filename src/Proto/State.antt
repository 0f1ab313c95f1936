-- ===== src/Proto/State.antt =====
-- The mix state the engine owns (crates/iem-engine-proto/src/state.rs, ids.rs). `F` is `f64`.
-- A `BTreeMap` by id is an association list.
use Prim.Native.String.{String}
use iemmixer.Base.{Bool, true, false, ◌&&◌, Option, List, if◌then◌else◌}
use iemmixer.Float.{Float}

abbrev pub InputId : Type 0
InputId = String

abbrev pub GroupId : Type 0
GroupId = String

abbrev pub MixId : Type 0
MixId = String

-- What a level in a mix reads.
pub data Source : Type 0 where
  input : InputId → Source
  mix : MixId → Source

-- Whose EQ a command addresses.
pub data EqTarget : Type 0 where
  input : InputId → EqTarget
  mix : MixId → EqTarget
  group : MixId → GroupId → EqTarget

pub data BandKind : Type 0 where
  high_pass low_shelf peak high_shelf : BandKind

-- An array of five.
pub record Five (A : Type 0) : Type 0 where
  pub b0 : A
  pub b1 : A
  pub b2 : A
  pub b3 : A
  pub b4 : A

module _ {A B : Type 0} where
  abbrev pub map_five : (A → B) → Five A → Five B
  map_five f a = record { b0 = f a.b0; b1 = f a.b1; b2 = f a.b2; b3 = f a.b3; b4 = f a.b4 }

abbrev pub all_five : {A : Type 0} → (A → Bool) → Five A → Bool
all_five p a = p a.b0 && (p a.b1 && (p a.b2 && (p a.b3 && p a.b4)))

pub record EqBand (F : Type 0) : Type 0 where
  pub kind : BandKind
  pub enabled : Bool
  pub freq_hz : F
  pub gain_db : F
  pub bw_oct : F

-- A five-band EQ with its global gain.
pub record Eq (F : Type 0) : Type 0 where
  pub gain_db : F
  pub bands : Five (EqBand F)

pub record Limiter (F : Type 0) : Type 0 where
  pub enabled : Bool
  pub limit_db : F

pub record InputState (F : Type 0) : Type 0 where
  pub trim_db : F
  pub processing : Bool
  pub muted : Bool
  pub eq : Eq F

pub record Level (F : Type 0) : Type 0 where
  pub gain_db : F
  pub pan : F
  pub muted : Bool

pub record MixGroup (F : Type 0) : Type 0 where
  pub gain_db : F
  pub muted : Bool
  pub eq : Eq F

pub record MixOut (F : Type 0) : Type 0 where
  pub volume_db : F
  pub muted : Bool
  pub eq : Eq F
  pub limiter : Limiter F

pub record Mix (F : Type 0) : Type 0 where
  pub out : MixOut F
  pub inputs : List (InputId × Level F)
  pub groups : List (GroupId × MixGroup F)
  pub mixes : List (MixId × Level F)

pub record MixState (F : Type 0) : Type 0 where
  pub inputs : List (InputId × InputState F)
  pub mixes : List (MixId × Mix F)

pub record Solo : Type 0 where
  pub mix : MixId
  pub sources : List Source

pub record TestSignal (F : Type 0) : Type 0 where
  pub input : InputId
  pub hz : F
  pub dbfs : F
  pub ttl_s : F

pub record Transient (F : Type 0) : Type 0 where
  pub solo : List Solo
  pub listen : List (Option MixId)
  pub test_signal : Option (TestSignal F)

module _ {F : Type 0} ⦃fl : Float F⦄ where
  abbrev pub db_off : F
  db_off = fl.neg (fl.lit 150 0)

  abbrev pub zero_f : F
  zero_f = fl.lit 0 0

  -- Linear gain of `db`; at or below `db_off` (and for NaN) exactly 0.
  unfoldable pub db_to_lin : F → F
  db_to_lin db = if fl.lt db_off db then fl.exp10 (fl.div db (fl.lit 20 0)) else zero_f

  abbrev pub default_eq_band : EqBand F
  default_eq_band = record {
    kind = peak;
    enabled = false;
    freq_hz = fl.lit 1000 0;
    gain_db = zero_f;
    bw_oct = fl.lit 1 0;
  }

  abbrev pub off : BandKind → F → F → EqBand F
  off kind freq bw = record {
    kind = kind;
    enabled = false;
    freq_hz = freq;
    gain_db = zero_f;
    bw_oct = bw;
  }

  -- ReaEQ's standard flat layout.
  abbrev pub default_eq : Eq F
  default_eq = record {
    gain_db = zero_f;
    bands = record {
      b0 = off high_pass (fl.lit 8020834168547682 14) (fl.lit 2 0);
      b1 = off low_shelf (fl.lit 2003077623397404 13) (fl.lit 2 0);
      b2 = off peak (fl.lit 8019398157380639 13) (fl.lit 1 0);
      b3 = off peak (fl.lit 29962342070275295 13) (fl.lit 1 0);
      b4 = off high_shelf (fl.lit 8016061124722856 12) (fl.lit 2 0);
    };
  }

  abbrev pub default_limiter : Limiter F
  default_limiter = record { enabled = true; limit_db = fl.neg (fl.lit 6 0) }

  abbrev pub default_input : InputState F
  default_input = record { trim_db = zero_f; processing = true; muted = false; eq = default_eq }

  abbrev pub default_level : Level F
  default_level = record { gain_db = db_off; pan = zero_f; muted = false }

  abbrev pub default_group : MixGroup F
  default_group = record { gain_db = zero_f; muted = false; eq = default_eq }

  abbrev pub default_out : MixOut F
  default_out = record {
    volume_db = zero_f;
    muted = false;
    eq = default_eq;
    limiter = default_limiter;
  }
