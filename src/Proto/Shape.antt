-- ===== src/Proto/Shape.antt =====
-- The caps and the shaping of a state by a topology (crates/iem-engine-proto/src/shape.rs), with
-- the topology as the protocol describes it (msg/engine.rs). What `reconcile` drops is named by a
-- data type in place of a text.
use Prim.Native.String.{String}
use iemmixer.Base.{
  ℕ, Bool, ◌&&◌, ◌||◌, Option, none, some, List, [], ◌∷◌, ◌++◌, map, if◌then◌else◌, unwrap_or,
  map_option, bind_option, contains, lookup, insert, collect,
}
use iemmixer.Float.{Float}
use iemmixer.Proto.State.{
  InputId, GroupId, MixId, EqBand, Eq, InputState, Level, MixGroup, MixOut, Mix, MixState, map_five,
  all_five, db_off, zero_f, default_eq_band, default_input, default_level, default_group,
  default_out,
}

-- An inclusive range.
pub record Range (F : Type 0) : Type 0 where
  pub lo : F
  pub hi : F

module _ {F : Type 0} ⦃fl : Float F⦄ where
  abbrev pub trim_range : Range F
  trim_range = record { lo = db_off; hi = fl.lit 24 0 }

  abbrev pub fader_range : Range F
  fader_range = record { lo = db_off; hi = fl.lit 12 0 }

  abbrev pub pan_range : Range F
  pan_range = record { lo = fl.neg (fl.lit 1 0); hi = fl.lit 1 0 }

  abbrev pub eq_freq_range : Range F
  eq_freq_range = record { lo = fl.lit 20 0; hi = fl.lit 24000 0 }

  abbrev pub eq_gain_range : Range F
  eq_gain_range = record { lo = db_off; hi = fl.lit 12041199826559248 15 }

  abbrev pub eq_bw_range : Range F
  eq_bw_range = record { lo = fl.lit 1 2; hi = fl.lit 4 0 }

  abbrev pub limit_range : Range F
  limit_range = record { lo = fl.neg (fl.lit 6 0); hi = fl.lit 0 0 }

  -- `v` clamped into `r`; `none` when `v` is not finite.
  unfoldable pub cap : F → Range F → Option F
  cap v r = if fl.is_finite v then some (fl.clamp v r.lo r.hi) else none

  unfoldable pub fix : F → Range F → F → F
  unfolding cap
  fix v r default = unwrap_or (cap v r) default

  -- Every EQ value finite.
  unfoldable pub eq_is_finite : Eq F → Bool
  eq_is_finite e =
      fl.is_finite e.gain_db
      && all_five (λ b. fl.is_finite b.freq_hz && (fl.is_finite b.gain_db && fl.is_finite b.bw_oct))
          e.bands

  unfoldable pub cap_band : EqBand F → EqBand F
  cap_band b = record b {
    freq_hz = fix b.freq_hz eq_freq_range default_eq_band.freq_hz;
    gain_db = fix b.gain_db eq_gain_range default_eq_band.gain_db;
    bw_oct = fix b.bw_oct eq_bw_range default_eq_band.bw_oct;
  }

  unfoldable pub cap_eq : Eq F → Eq F
  unfolding cap_band
  cap_eq e = record {
    gain_db = fix e.gain_db eq_gain_range zero_f;
    bands = map_five cap_band e.bands;
  }

  unfoldable pub cap_input : InputState F → InputState F
  cap_input s = record s { trim_db = fix s.trim_db trim_range zero_f; eq = cap_eq s.eq }

  unfoldable pub cap_level : Level F → Level F
  cap_level s = record s {
    gain_db = fix s.gain_db fader_range db_off;
    pan = fix s.pan pan_range zero_f;
  }

  unfoldable pub cap_group : MixGroup F → MixGroup F
  cap_group s = record s { gain_db = fix s.gain_db fader_range zero_f; eq = cap_eq s.eq }

  unfoldable pub cap_out : MixOut F → MixOut F
  cap_out s = record s {
    volume_db = fix s.volume_db fader_range zero_f;
    eq = cap_eq s.eq;
    limiter = record s.limiter { limit_db = fix s.limiter.limit_db limit_range limit_range.lo };
  }

pub record InputInfo : Type 0 where
  pub id : InputId
  pub channels : ℕ
  pub talkback : Bool
  pub group : Option GroupId

pub record GroupInfo : Type 0 where
  pub id : GroupId
  pub inputs : List InputId

pub record MixInfo : Type 0 where
  pub id : MixId
  pub channels : ℕ
  pub mixes : List MixId
  pub peers : List MixId

pub record TopologyInfo : Type 0 where
  pub hash : String
  pub sample_rate : ℕ
  pub engineer : MixId
  pub inputs : List InputInfo
  pub groups : List GroupInfo
  pub mixes : List MixInfo

-- What a state holds and the topology does not have.
pub data Dropped : Type 0 where
  input : InputId → Dropped
  mix_input : MixId → InputId → Dropped
  mix_group : MixId → GroupId → Dropped
  mix_hearing : MixId → MixId → Dropped
  mix : MixId → Dropped

-- The keys of a map that `known` does not hold, each named.
abbrev pub unknown_keys {ℓ} :
    {V : Type ℓ} → (String → Bool) → (String → Dropped) → List (String × V) → List Dropped
unknown_keys known name [] = []
unknown_keys known name ((k, v) ∷ m) =
    let rest = unknown_keys known name m in if known k then rest else name k ∷ rest

abbrev pub known_input : TopologyInfo → InputId → Bool
known_input topo = contains (map (λ i. i.id) topo.inputs)

abbrev pub known_group : TopologyInfo → GroupId → Bool
known_group topo = contains (map (λ g. g.id) topo.groups)

abbrev pub known_mix : TopologyInfo → MixId → Bool
known_mix topo = contains (map (λ m. m.id) topo.mixes)

-- Whether a mix hears another, whole or as a peer.
abbrev pub hears : MixInfo → MixId → Bool
hears node id = contains node.mixes id || contains node.peers id

module _ {F : Type 0} ⦃fl : Float F⦄ where
  -- One mix of the shaped state.
  unfoldable pub shape_mix : TopologyInfo → MixInfo → Option (Mix F) → Mix F
  shape_mix topo node given = record {
    out = unwrap_or (map_option (λ x. cap_out x.out) given) default_out;
    inputs = collect [] (
        map
          (λ i. (
            i.id,
            unwrap_or (map_option cap_level (bind_option given (λ x. lookup i.id x.inputs)))
                default_level,
          ))
          topo.inputs);
    groups = collect [] (
        map
          (λ g. (
            g.id,
            unwrap_or (map_option cap_group (bind_option given (λ x. lookup g.id x.groups)))
                default_group,
          ))
          topo.groups);
    mixes = collect [] (
        map
          (λ h. (
            h,
            unwrap_or (map_option cap_level (bind_option given (λ x. lookup h x.mixes)))
                default_level,
          ))
          (node.mixes ++ node.peers));
  }

  -- What one mix of the given state holds that the topology does not have.
  unfoldable pub dropped_of_mix : TopologyInfo → MixInfo → Option (Mix F) → List Dropped
  dropped_of_mix topo node none = []
  dropped_of_mix topo node (some x) =
      unknown_keys (known_input topo) (Dropped.mix_input node.id) x.inputs
      ++ (unknown_keys (known_group topo) (Dropped.mix_group node.id) x.groups
          ++ unknown_keys (hears node) (Dropped.mix_hearing node.id) x.mixes)

  -- The loop over the topology's mixes.
  unfoldable pub shape_mixes :
      TopologyInfo
      → List (MixId × Mix F)
      → List MixInfo
      → List (MixId × Mix F)
      → List Dropped
      → List (MixId × Mix F) × List Dropped
  shape_mixes topo given [] mixes dropped = (mixes, dropped)
  shape_mixes topo given (node ∷ nodes) mixes dropped =
      shape_mixes topo given nodes
        (insert node.id (shape_mix topo node (lookup node.id given)) mixes)
        (dropped ++ dropped_of_mix topo node (lookup node.id given))

  -- `state` shaped by `topo`, and what the topology does not have.
  unfoldable pub reconcile : TopologyInfo → MixState F → MixState F × List Dropped
  reconcile topo state =
      let inputs = collect [] (
        map (λ n. (n.id, unwrap_or (map_option cap_input (lookup n.id state.inputs)) default_input))
          topo.inputs) in
      let (mixes, dropped) =
        shape_mixes topo state.mixes topo.mixes []
          (unknown_keys (known_input topo) Dropped.input state.inputs) in
      (
        record { inputs = inputs; mixes = mixes },
        dropped ++ unknown_keys (known_mix topo) Dropped.mix state.mixes,
      )
