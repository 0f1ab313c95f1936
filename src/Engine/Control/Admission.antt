-- ===== src/Engine/Control/Admission.antt =====
-- Who may change what (crates/iem-engine/src/control/requests.rs).
use iemmixer.Base.{◌≡◌, ◌≢◌, refl, Option, none, some, Bool-cases, inl, inr}
use iemmixer.Float.{Float}
use iemmixer.Proto.Msg.{Cmd, is_read_only, supervisor_may}
use iemmixer.Engine.Core.{Core}
use iemmixer.Engine.Core.Roles.{SameMix, supervisor_keeps_mix, observer_changes_nothing}
use iemmixer.Proto.Msg.{Role, control, observe, supervisor}
use iemmixer.Engine.Control.{refusal, request}

module _ {F : Type 0} ⦃fl : Float F⦄ where
  same_mix : (c d : Core F) → d ≡ c → SameMix c d
  same_mix c d e = rw e (record { state = refl; solo = refl; listen = refl })

  -- Only a connection that said hello as the controller changes the mix state, the solos or the
  -- listen taps, whatever the others send.
  pub only_controller_changes_mix :
      (role : Option Role) (cmd : Cmd F) (c : Core F)
      → role ≢ some control
      → SameMix c (request role cmd c).0
  unfolding request refusal
  only_controller_changes_mix none cmd c h = same_mix c c refl
  only_controller_changes_mix (some control) cmd c h = absurd (h refl)
  only_controller_changes_mix (some observe) cmd c h = elim (Bool-cases (is_read_only cmd)) [
    | inl e ↦ rw (e, request, refusal) (same_mix c _ (observer_changes_nothing cmd c e))
    | inr e ↦ rw (e, request, refusal) (same_mix c c refl)
  ]
  only_controller_changes_mix (some supervisor) cmd c h = elim (Bool-cases (supervisor_may cmd)) [
    | inl e ↦ rw (e, request, refusal) (supervisor_keeps_mix cmd c e)
    | inr e ↦ rw (e, request, refusal) (same_mix c c refl)
  ]
