-- ===== src/Proto/Msg.antt =====
-- The commands a client sends (crates/iem-engine-proto/src/msg/cmd.rs), its role (msg/client.rs), and the changes and errors
-- the engine answers with (msg/engine.rs). A `Vec<Cmd>` is the second type of the block. The text
-- of an error is left out.
use iemmixer.Base.{ℕ, Bool, true, false, ◌||◌, Option, List}
use iemmixer.Proto.State.{
  InputId, GroupId, MixId, Source, EqTarget, Eq, InputState, Level, MixGroup, MixOut, MixState,
  TestSignal,
}

mutual
  pub data Cmd (F : Type 0) : Type 0 where
    set_input : InputId → Option F → Option Bool → Option Bool → Cmd F
    set_mix : MixId → Option F → Option Bool → Cmd F
    set_level : MixId → Source → Option F → Option F → Option Bool → Cmd F
    set_group : MixId → GroupId → Option F → Option Bool → Cmd F
    set_eq : EqTarget → Eq F → Cmd F
    set_limiter : MixId → Option Bool → Option F → Cmd F
    reset_limiter_stats : MixId → Cmd F
    set_solo : MixId → List Source → Cmd F
    start_listen : MixId → Cmd F
    stop_listen : MixId → Cmd F
    start_test_signal : InputId → F → F → F → Cmd F
    stop_test_signal : Cmd F
    batch : Cmds F → Cmd F
    import_state : MixState F → Cmd F
    get_state : Cmd F
    get_topology : Cmd F
    save_now : Cmd F
    shutdown : Cmd F
    inject_fault : Cmd F
    ping : Cmd F
    arm : Cmd F
    hil_test_signal : InputId → F → F → F → List ℕ → Bool → Cmd F

  pub data Cmds (F : Type 0) : Type 0 where
    nil : Cmds F
    cons : Cmd F → Cmds F → Cmds F

pub data Role : Type 0 where
  control observe supervisor : Role

pub data ErrCode : Type 0 where
  bad_request unsupported unknown_id bad_value forbidden no_source not_controller too_large
        not_supervisor :
      ErrCode

pub record CmdError : Type 0 where
  pub code : ErrCode

pub data Change (F : Type 0) : Type 0 where
  input : InputId → InputState F → Change F
  mix_out : MixId → MixOut F → Change F
  level : MixId → Source → Level F → Change F
  group : MixId → GroupId → MixGroup F → Change F
  solo : MixId → List Source → Change F
  listen : List (Option MixId) → Change F
  test_signal : Option (TestSignal F) → Change F
  limiter_stats_reset : MixId → Change F

module _ {F : Type 0} where
  -- Commands an observer connection may send.
  unfoldable pub is_read_only : Cmd F → Bool
  is_read_only get_state = true
  is_read_only get_topology = true
  is_read_only ping = true
  is_read_only _ = false

  -- Commands only the supervisor may send.
  unfoldable pub is_supervisor : Cmd F → Bool
  is_supervisor arm = true
  is_supervisor (hil_test_signal _ _ _ _ _ _) = true
  is_supervisor inject_fault = true
  is_supervisor _ = false

  abbrev also_supervisor : Cmd F → Bool
  also_supervisor shutdown = true
  also_supervisor save_now = true
  also_supervisor (start_test_signal _ _ _ _) = true
  also_supervisor stop_test_signal = true
  also_supervisor _ = false

  -- Commands a supervisor connection may send.
  unfoldable pub supervisor_may : Cmd F → Bool
  unfolding is_read_only is_supervisor
  supervisor_may c = is_read_only c || (is_supervisor c || also_supervisor c)
