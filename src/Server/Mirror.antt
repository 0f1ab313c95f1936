-- ===== src/Server/Mirror.antt =====
-- The server's copy of the engine's state (crates/iem-server/src/engine/mirror.rs). The maps are
-- association lists; `BTreeMap::entry(k).or_default()` is `entry`.
pub mod Rows
pub mod Levels
pub mod Follows
pub mod Solos
pub mod Tells
pub mod Requests
pub mod Timers
pub mod Acts
pub mod History
pub mod Runs
pub mod Genuine
pub mod Sites
pub mod Served
use Prim.Native.String.{String}
use iemmixer.Base.{
  ℕ, suc, ◌+◌, Bool, true, false, not, ◌||◌, Option, none, some, List, [], ◌∷◌, ◌++◌, leb, ◌==◌,
  if◌then◌else◌, find, keep, unwrap_or, map_option, bind_option, lookup, insert, same,
}
use iemmixer.Float.{Float}
use iemmixer.Proto.State.{
  InputId, GroupId, MixId, Source, InputState, Level, MixGroup, MixOut, Mix, MixState, Solo,
  Transient, default_input, default_level, default_group, default_out,
}
use iemmixer.Proto.Shape.{TopologyInfo}
use iemmixer.Proto.Msg.{Change}
use iemmixer.Proto.EngineMsg.{Hello, EngineMsg}
use iemmixer.Engine.Core.{is_nil, mix_level}

pub record Mirror (F : Type 0) : Type 0 where
  pub hello : Option Hello
  pub topology : Option TopologyInfo
  pub state : MixState F
  pub transient : Transient F
  pub rev : ℕ
  pub synced : Bool

pub data MirrorEvent (F : Type 0) : Type 0 where
  topology : MirrorEvent F
  reset : MirrorEvent F
  changed : Option ℕ → List (Change F) → MirrorEvent F
  resync : MirrorEvent F

-- The soloed sources of `mix` in a list of solos.
abbrev pub soloed : MixId → List Solo → List Source
soloed mix solos =
    unwrap_or (map_option (λ (s : Solo). s.sources) (find (λ s. same s.mix mix) solos)) []

module _ {F : Type 0} where
  unfoldable pub disconnected : Mirror F → Mirror F
  disconnected m = record m { synced = false }

  unfoldable pub solo : Mirror F → MixId → List Source
  solo m mix = soloed mix m.transient.solo

module _ {F : Type 0} ⦃fl : Float F⦄ where
  abbrev pub default_mix : Mix F
  default_mix = record { out = default_out; inputs = []; groups = []; mixes = [] }

  -- `entry(mix).or_default()`, changed in place.
  abbrev pub entry : MixId → (Mix F → Mix F) → Mirror F → Mirror F
  entry mix f m = record m {
    state = record (m.state) {
      mixes = insert mix (f (unwrap_or (lookup mix m.state.mixes) default_mix)) m.state.mixes;
    };
  }

  abbrev pub put_level : Source → Level F → Mix F → Mix F
  put_level (Source.input id) level mix = record mix { inputs = insert id level mix.inputs }
  put_level (Source.mix id) level mix = record mix { mixes = insert id level mix.mixes }

  unfoldable pub change : Change F → Mirror F → Mirror F
  change (Change.input id s) m = record m {
    state = record (m.state) { inputs = insert id s m.state.inputs };
  }
  change (Change.mix_out mix out) m = entry mix (λ x. record x { out = out }) m
  change (Change.level mix source level) m = entry mix (put_level source level) m
  change (Change.group mix group s) m =
      entry mix (λ x. record x { groups = insert group s x.groups }) m
  change (Change.solo mix sources) m =
      let kept = keep (λ (s : Solo). not (same s.mix mix)) m.transient.solo in
      record m {
        transient = record (m.transient) {
          solo =
              if is_nil sources
              then kept
              else kept ++ (record { mix = mix; sources = sources } ∷ []);
        };
      }
  change (Change.listen listen) m = record m {
    transient = record (m.transient) { listen = listen };
  }
  change (Change.test_signal signal) m = record m {
    transient = record (m.transient) { test_signal = signal };
  }
  change (Change.limiter_stats_reset mix) m = m

  unfoldable pub change_all : List (Change F) → Mirror F → Mirror F
  unfolding change
  change_all [] m = m
  change_all (c ∷ cs) m = change_all cs (change c m)

  -- A delta for a mirror that is synced: an old one is dropped, one that skips a revision asks for
  -- the state again.
  unfoldable pub apply_delta :
      ℕ → Option ℕ → List (Change F) → Mirror F → Mirror F × Option (MirrorEvent F)
  apply_delta rev origin changes m =
      if not m.synced || leb rev m.rev
      then (m, none)
      else if rev == m.rev + 1
      then (record (change_all changes m) { rev = rev }, some (MirrorEvent.changed origin changes))
      else (record m { synced = false }, some MirrorEvent.resync)

  unfoldable pub apply : EngineMsg F → Mirror F → Mirror F × Option (MirrorEvent F)
  unfolding apply_delta
  apply (EngineMsg.hello h) m = (record m { hello = some h }, none)
  apply (EngineMsg.topology t) m = (record m { topology = some t }, some MirrorEvent.topology)
  apply (EngineMsg.state rev state transient) m = (
    record m { state = state; transient = transient; rev = rev; synced = true },
    some MirrorEvent.reset,
  )
  apply (EngineMsg.delta rev origin changes) m = apply_delta rev origin changes m
  apply _ m = (m, none)

  unfoldable pub level : Mirror F → MixId → Source → Level F
  level m mix source =
      unwrap_or (bind_option (lookup mix m.state.mixes) (λ x. mix_level x source)) default_level

  unfoldable pub group : Mirror F → MixId → GroupId → MixGroup F
  group m mix id =
      unwrap_or (bind_option (lookup mix m.state.mixes) (λ x. lookup id x.groups)) default_group

  unfoldable pub out : Mirror F → MixId → MixOut F
  out m mix = unwrap_or (map_option (λ x. x.out) (lookup mix m.state.mixes)) default_out

  unfoldable pub input : Mirror F → InputId → InputState F
  input m id = unwrap_or (lookup id m.state.inputs) default_input
