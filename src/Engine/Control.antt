-- ===== src/Engine/Control.antt =====
-- The checks of a request by its connection's role (crates/iem-engine/src/control/requests.rs,
-- `Control::frame`, from the role to the core's answer). A connection has no role before its hello.
use iemmixer.Base.{Bool, true, false, not, Option, none, some, ok, if◌then◌else◌}
use iemmixer.Float.{Float}
use iemmixer.Proto.Msg.{
  Cmd, ErrCode, Role, control, observe, supervisor, bad_request, not_controller, not_supervisor,
  is_read_only, is_supervisor, supervisor_may,
}
use iemmixer.Engine.Core.{Outcome, M, failure, lift, apply}
pub mod Admission
pub mod Broadcasts
pub mod Loop

-- The error that refuses a command from this role, if any.
unfoldable pub refusal : {F : Type 0} → Option Role → Cmd F → Option ErrCode
refusal none cmd = some bad_request
refusal (some observe) cmd = if is_read_only cmd then none else some not_controller
refusal (some supervisor) cmd = if supervisor_may cmd then none else some not_controller
refusal (some control) cmd = if is_supervisor cmd then some not_supervisor else none

unfoldable pub request : {F : Type 0} ⦃fl : Float F⦄ → Option Role → Cmd F → M F (Outcome F)
unfolding refusal
request role cmd = elim (refusal role cmd) [ some code ↦ lift (failure code) | none ↦ apply cmd ]
