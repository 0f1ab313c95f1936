-- ===== src/Engine/Processor/Mirror.antt =====
-- The targets that a core stands for, and how one write of the core moves them
-- (crates/iem-engine/src/rt.rs, core.rs).
use iemmixer.Base.{
  ℕ, ◌<◌, ◌≡◌, refl, sym, ap, inl, inr, true, not, ◌&&◌, ◌||◌, none, some, List, arith,
  if◌then◌else◌, get_elem?, update, map_from, map_from-set, map_option, map_get, Bool-cases,
}
use iemmixer.Float.{Float, FloatLaws}
use iemmixer.Proto.State.{InputState, Level, MixGroup, MixOut, db_to_lin}
use iemmixer.Engine.Topology.{Topology}
use iemmixer.Engine.Rt.{EqParams, ix, eq_params}
use iemmixer.Engine.Dsp.{Gain, retarget, switch, eq_set, band_is_valid}
use iemmixer.Engine.Processor.{InputTarget, OutTarget, GroupTarget, MixTarget, Targets, has_shadow}
use iemmixer.Engine.Core.{Core, MixRec, silenced, put_mix}

pub ix_small : (i : ℕ) → i < 65536 → ix i ≡ i
unfolding ix
ix_small i h = ground arith

module _ {F : Type 0} ⦃fl : Float F⦄ where
  abbrev pub input_target : InputState F → InputTarget F
  input_target s = record {
    trim = db_to_lin s.trim_db;
    gate = switch (not s.muted);
    proc_mix = switch s.processing;
    eq = eq_params s.eq;
  }

  abbrev pub out_target : MixOut F → OutTarget F
  out_target o = record {
    eq = eq_params o.eq;
    limiter = record { enabled = o.limiter.enabled; limit_db = o.limiter.limit_db };
    fader = record { vol = db_to_lin o.volume_db; muted = o.muted; pan = fl.lit 0 0 };
  }

  abbrev pub group_target : MixGroup F → GroupTarget F
  group_target g = record {
    eq = eq_params g.eq;
    fader = record { vol = db_to_lin g.gain_db; muted = g.muted; pan = fl.lit 0 0 };
  }

  -- A level of mix `m` with what its solo silences.
  abbrev pub level_target : List (ℕ × List ℕ) → ℕ → ℕ → Level F → Gain F
  level_target solo m k l = record {
    vol = db_to_lin l.gain_db;
    muted = l.muted || silenced k (map_get m solo);
    pan = l.pan;
  }

  abbrev pub mix_target : Topology → List (ℕ × List ℕ) → ℕ → MixRec F → MixTarget F
  mix_target topo solo m rec = record {
    out = out_target rec.out;
    shadow = if has_shadow topo m then some (out_target rec.out) else none;
    levels = map_from (level_target solo m) 0 rec.levels;
    groups = map_from (λ _. group_target) 0 rec.groups;
  }

  -- The targets of a processor that holds what the core does.
  abbrev pub targets : Core F → Targets F
  targets c = record {
    inputs = map_from (λ _. input_target) 0 c.s.inputs;
    mixes = map_from (mix_target c.topo c.solo) 0 c.s.mixes;
    listen = map_from (λ _. map_option ix) 0 c.listen;
  }

  -- Every band of an EQ, and its gain, is one that an equalizer takes.
  pub record EqValid (p : EqParams F) : Type 0 where
    pub b0 : band_is_valid p.bands.b0 ≡ true
    pub b1 : band_is_valid p.bands.b1 ≡ true
    pub b2 : band_is_valid p.bands.b2 ≡ true
    pub b3 : band_is_valid p.bands.b3 ≡ true
    pub b4 : band_is_valid p.bands.b4 ≡ true
    pub global : (fl.is_finite p.global_gain && fl.le (fl.lit 0 0) p.global_gain) ≡ true

module _ {F : Type 0} ⦃fl : Float F⦄ (laws : FloatLaws F) where
  pub retarget_lem : (old new : F) → retarget old new ≡ new
  unfolding retarget
  retarget_lem old new = elim (Bool-cases (fl.eq new old)) [
    | inl e ↦ rw e (sym (laws.eq_sound new old e))
    | inr e ↦ rw e refl
  ]

  pub eq_set_lem : (old p : EqParams F) → EqValid p → eq_set old p ≡ p
  unfolding eq_set
  eq_set_lem old p v =
      rw
        (eq_set, v.b0, v.b1, v.b2, v.b3, v.b4, v.global, retarget_lem old.global_gain p.global_gain)
        refl

  -- One write of mix `m`, seen by the processor.
  pub mix_written :
      (c : Core F) (m : ℕ) (r r' : MixRec F) (g : MixTarget F → MixTarget F)
      → get_elem? c.s.mixes m ≡ some r
      → g (mix_target c.topo c.solo m r) ≡ mix_target c.topo c.solo m r'
      → record (targets c) { mixes = update (targets c).mixes m g } ≡ targets (put_mix c m r')
  mix_written c m r r' g e h =
      ap (λ (ms : List (MixTarget F)). record (targets c) { mixes = ms })
        (map_from-set (mix_target c.topo c.solo) g 0 m m c.s.mixes r r' e (omega arith) h)
