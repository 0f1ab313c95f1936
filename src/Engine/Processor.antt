-- ===== src/Engine/Processor.antt =====
-- The real-time processor's targets (crates/iem-engine/src/rt.rs): what every gain, EQ and limiter
-- moves to, the listen taps, and the command that changes them (`Processor::with_hil`,
-- `Processor::apply`). The samples on the way, the test signal, the fades and the meters are left
-- out: the commands that touch only these change no target.
use iemmixer.Base.{
  ℕ, Bool, true, false, not, Option, none, some, List, [], ◌∷◌, map, if◌then◌else◌, update,
  map_from, map_option, bind_option, get_elem?, unwrap_or, set,
}
use iemmixer.Float.{Float}
use iemmixer.Proto.State.{InputState, Level, MixGroup, MixOut, MixState, db_to_lin}
use iemmixer.Engine.Topology.{Topology, MixNode}
use iemmixer.Engine.Rt.{RtOp, EqParams, InputParams, eq_params, input_params}
use iemmixer.Engine.Dsp.{Gain, retarget, switch, eq_new, eq_set}
use iemmixer.Engine.Core.{MixRec, reconcile}
pub mod Mirror
pub mod Writes
pub mod Entities
pub mod Valid
pub mod Rows
pub mod Laid
pub mod Solos
pub mod Commands
pub mod Sync
pub mod Start
pub mod Requests

-- `InputRt`: its trim, its mute gate, its dry and wet mix, its EQ.
pub record InputTarget (F : Type 0) : Type 0 where
  pub trim : F
  pub gate : F
  pub proc_mix : F
  pub eq : EqParams F

-- `MixLimiter`: on or off, and the limit that it was last given, at once or over a ramp.
pub record LimiterTarget (F : Type 0) : Type 0 where
  pub enabled : Bool
  pub limit_db : F

-- The output chain of a mix, or of its shadow (`ShadowRt`).
pub record OutTarget (F : Type 0) : Type 0 where
  pub eq : EqParams F
  pub limiter : LimiterTarget F
  pub fader : Gain F

pub record GroupTarget (F : Type 0) : Type 0 where
  pub eq : EqParams F
  pub fader : Gain F

pub record MixTarget (F : Type 0) : Type 0 where
  pub out : OutTarget F
  pub shadow : Option (OutTarget F)
  pub levels : List (Gain F)
  pub groups : List (GroupTarget F)

pub record Targets (F : Type 0) : Type 0 where
  pub inputs : List (InputTarget F)
  pub mixes : List (MixTarget F)
  pub listen : List (Option ℕ)

abbrev pub has_shadow : Topology → ℕ → Bool
has_shadow topo m =
    unwrap_or (map_option (λ (n : MixNode). n.shadow) (get_elem? topo.mixes m)) false

module _ {F : Type 0} where
  -- A change of a mix's own output chain and of its shadow's.
  abbrev pub with_out : (OutTarget F → OutTarget F) → MixTarget F → MixTarget F
  with_out f n = record n { out = f n.out; shadow = map_option f n.shadow }

module _ {F : Type 0} ⦃fl : Float F⦄ where
  -- The parts of a new processor (`Processor::with_hil`).
  abbrev pub start_input : InputState F → InputTarget F
  start_input s =
      let p = input_params s in
      record {
        trim = p.trim;
        gate = switch (not p.muted);
        proc_mix = switch p.processing;
        eq = eq_new (eq_params s.eq);
      }

  abbrev pub start_out : MixOut F → OutTarget F
  start_out o = record {
    eq = eq_new (eq_params o.eq);
    limiter = record { enabled = o.limiter.enabled; limit_db = o.limiter.limit_db };
    fader = record { vol = db_to_lin o.volume_db; muted = o.muted; pan = fl.lit 0 0 };
  }

  abbrev pub start_group : MixGroup F → GroupTarget F
  start_group g = record {
    eq = eq_new (eq_params g.eq);
    fader = record { vol = db_to_lin g.gain_db; muted = g.muted; pan = fl.lit 0 0 };
  }

  abbrev pub start_level : Level F → Gain F
  start_level l = record { vol = db_to_lin l.gain_db; muted = l.muted; pan = l.pan }

  abbrev pub start_mix : Topology → ℕ → MixRec F → MixTarget F
  start_mix topo m rec = record {
    out = start_out rec.out;
    shadow = if has_shadow topo m then some (start_out rec.out) else none;
    levels = map start_level rec.levels;
    groups = map start_group rec.groups;
  }

  -- `Processor::with_hil`.
  unfoldable pub start : Topology → MixState F → Targets F
  start topo state =
      let r = (reconcile topo state).0 in
      record {
        inputs = map start_input r.inputs;
        mixes = map_from (start_mix topo) 0 r.mixes;
        listen = none ∷ none ∷ [];
      }

  -- The restart from fully dry depends on the samples: it moves no target of a valid EQ.
  abbrev pub set_input_target : InputParams F → InputTarget F → InputTarget F
  set_input_target p n = record n {
    trim = retarget n.trim p.trim;
    gate = retarget n.gate (switch (not p.muted));
    proc_mix = retarget n.proc_mix (switch p.processing);
  }

  -- `MixLimiter::set`: a lower limit at once, a higher one over a ramp.
  abbrev pub set_limiter_target : Bool → F → OutTarget F → OutTarget F
  set_limiter_target enabled limit_db o = record o {
    limiter = record { enabled = enabled; limit_db = limit_db };
  }

  abbrev pub set_fader : F → Bool → OutTarget F → OutTarget F
  set_fader volume muted o = record o {
    fader = record { vol = volume; muted = muted; pan = fl.lit 0 0 };
  }

  abbrev pub set_eq_target : EqParams F → OutTarget F → OutTarget F
  set_eq_target eq o = record o { eq = eq_set o.eq eq }

  -- What a command of `Processor::apply` moves. The injected fault is no move: see `perform`.
  unfoldable pub step : RtOp F → Targets F → Targets F
  unfolding eq_set
  step (RtOp.input i p) t = record t { inputs = update t.inputs i (set_input_target p) }
  step (RtOp.input_eq i eq) t = record t {
    inputs = update t.inputs i (λ n. record n { eq = eq_set n.eq eq });
  }
  step (RtOp.mix_out m volume muted) t = record t {
    mixes = update t.mixes m (with_out (set_fader volume muted));
  }
  step (RtOp.mix_eq m eq) t = record t { mixes = update t.mixes m (with_out (set_eq_target eq)) }
  step (RtOp.limiter m enabled limit_db) t = record t {
    mixes = update t.mixes m (with_out (set_limiter_target enabled limit_db));
  }
  step (RtOp.level m k gain pan muted) t = record t {
    mixes = update t.mixes m (λ n. record n {
      levels = update n.levels k (λ _. record { vol = gain; muted = muted; pan = pan });
    });
  }
  step (RtOp.group m g gain muted) t = record t {
    mixes = update t.mixes m (λ n. record n {
      groups =
          update n.groups g
            (λ s. record s { fader = record { vol = gain; muted = muted; pan = fl.lit 0 0 } });
    });
  }
  step (RtOp.group_eq m g eq) t = record t {
    mixes =
        update t.mixes m
          (λ n. record n { groups = update n.groups g (λ s. record s { eq = eq_set s.eq eq }) });
  }
  step (RtOp.listen slot mix) t = record t { listen = update t.listen slot (λ _. mix) }
  step op t = t

  -- The moves of commands, in turn.
  abbrev pub steps : List (RtOp F) → Targets F → Targets F
  steps [] t = t
  steps (op ∷ ops) t = steps ops (step op t)

  -- `Processor::apply`: the injected fault panics, and the processor is not called again.
  unfoldable pub perform : RtOp F → Targets F → Option (Targets F)
  unfolding step
  perform RtOp.panic t = none
  perform op t = some (step op t)

  -- The commands of a group, in turn (`Processor::apply_due`), up to a panic.
  unfoldable pub perform_all : List (RtOp F) → Targets F → Option (Targets F)
  unfolding perform
  perform_all [] t = some t
  perform_all (op ∷ ops) t = bind_option (perform op t) (perform_all ops)
