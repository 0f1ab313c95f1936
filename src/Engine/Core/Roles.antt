-- ===== src/Engine/Core/Roles.antt =====
-- What the commands that a role may send can do (crates/iem-engine-proto/src/msg/cmd.rs,
-- crates/iem-engine/src/control/requests.rs).
use iemmixer.Base.{◌≡◌, true, arith}
use iemmixer.Float.{Float}
use iemmixer.Proto.Msg.{Cmd, is_read_only, is_supervisor, supervisor_may}
use iemmixer.Engine.Core.Defs.{Core, finish}
use iemmixer.Engine.Core.Commands.{start_test, one}
use iemmixer.Engine.Core.Apply.{batchable, apply}

module _ {F : Type 0} ⦃fl : Float F⦄ where
  -- The mix: its state, its solos and its listen taps.
  pub record SameMix (c c' : Core F) : Type 0 where
    pub state : c'.s ≡ c.s
    pub solo : c'.solo ≡ c.solo
    pub listen : c'.listen ≡ c.listen

  -- A command that a supervisor may send never changes the mix.
  pub supervisor_keeps_mix :
      (cmd : Cmd F) (c : Core F) → supervisor_may cmd ≡ true → SameMix c (apply cmd c).0
  unfolding apply finish one supervisor_may start_test
  supervisor_keeps_mix Cmd.ping c h = ground arith
  supervisor_keeps_mix cmd c h = ground arith

  -- A command that an observer may send changes nothing at all.
  pub observer_changes_nothing :
      (cmd : Cmd F) (c : Core F) → is_read_only cmd ≡ true → (apply cmd c).0 ≡ c
  unfolding apply finish one is_read_only
  observer_changes_nothing Cmd.ping c h = ground arith
  observer_changes_nothing cmd c h = ground arith

  -- No command that may stand in a batch is one that only the supervisor sends.
  pub batchable_supervisor : (cmd : Cmd F) → batchable cmd ≡ true → is_supervisor cmd ≡ true → ⊥
  unfolding batchable is_supervisor
  batchable_supervisor Cmd.ping h g = cc
  batchable_supervisor cmd h g = ground arith
