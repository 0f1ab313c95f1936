-- ===== src/Examples/Tests.antt =====
-- The theorems applied to the example site.
use iemmixer.Base.{List, [], ◌∷◌, ok, ℕ, Bool, true, false}
use iemmixer.Base.{◌≡◌, refl, err, some, none, true, false, [], ◌∷◌, ok}
use iemmixer.Proto.Msg.{Cmd, nil, cons, bad_request, is_read_only, is_supervisor, supervisor_may}
use iemmixer.Proto.Shape.{cap}
use iemmixer.Engine.Topology.{mix_index, levels}
use iemmixer.Engine.Rt.{eq_params}
use iemmixer.Engine.Core.{
  Outcome, apply, no_effect, batch, batch_ops, batchable, one, mix_at, with_hil, new, capped_or,
  set_out, out_op, finish, reconcile, lay_mixes, lay_mix, changed, start_listen,
}
use iemmixer.Engine.Core.Atomic.{apply_error_unchanged}
use iemmixer.Engine.Core.Revision.{apply_revision, Told}
use iemmixer.Engine.Core.Roles.{SameMix, supervisor_keeps_mix, observer_changes_nothing}
use iemmixer.Engine.Core.Capped.{CoreCapped, new-CoreCapped, apply-CoreCapped}
use iemmixer.Base.{not, ◌&&◌, ◌==◌, if◌then◌else◌, ◌<◌}
use iemmixer.Proto.State.{Source}
use iemmixer.Engine.Topology.{slot, source, heard_position, input_index}
use iemmixer.Engine.Topology.Slots.{slot-source}
use iemmixer.Engine.Core.{Partial, set_solo, solo_slots, put_solo, solo_out, changed, no_change}
use iemmixer.Engine.Core.Solo.{SolosHeld, apply-SolosHeld, set_solo_silences, named}
use iemmixer.Engine.Core.Taps.{TapsHeld, apply-TapsHeld, new-TapsHeld}
use iemmixer.Base.{◌≢◌}
use iemmixer.Proto.Msg.{observe, control}
use iemmixer.Engine.Control.{request}
use iemmixer.Engine.Control.Admission.{only_controller_changes_mix}
use iemmixer.Examples.Decimal.{Decimal, plus, minus, decimal_float, decimal_laws}
use iemmixer.Examples.Site.{site, core, empty_state}

-- A batch whose second operation may not stand in a batch.
abbrev half_bad : Cmd Decimal
half_bad = Cmd.batch (cons (Cmd.set_mix "drums" (some (plus 5 0)) none) (cons Cmd.ping nil))

apply_error_unchanged_example : (apply half_bad core).0 ≡ core
unfolding apply batch batch_ops batchable one mix_at mix_index with_hil new capped_or cap set_out
    out_op finish reconcile lay_mixes lay_mix levels eq_params
apply_error_unchanged_example =
    apply_error_unchanged half_bad core (record { code = bad_request }) refl

-- A fader far above the range.
abbrev loud : Cmd Decimal
loud = Cmd.set_mix "drums" (some (plus 500 0)) none

apply-CoreCapped_example : CoreCapped (apply loud core).0
apply-CoreCapped_example = apply-CoreCapped decimal_laws loud core (
    new-CoreCapped decimal_laws site empty_state 7
      (record { test_signal = true; fault_injection = false }) (20 ∷ 21 ∷ []))

-- The engineer's tap.
abbrev tap : Cmd Decimal
tap = Cmd.start_listen "engineer"

-- The tap's answer as the engine computes it.
abbrev answer : Cmd Decimal → Outcome Decimal
answer cmd = elim (apply cmd core).1 [
  | ok o ↦ o
  | err e ↦ record { rev = 0; changes = []; rt = []; effect = no_effect }
]

apply_revision_example : Told core (apply tap core).0 (answer tap)
unfolding apply one mix_at mix_index with_hil new finish changed start_listen
apply_revision_example = apply_revision tap core (answer tap) refl

abbrev tone : Cmd Decimal
tone = Cmd.start_test_signal "vox" (plus 440 0) (minus 30 0) (plus 2 0)

supervisor_keeps_mix_example : SameMix core (apply tone core).0
unfolding supervisor_may is_read_only is_supervisor
supervisor_keeps_mix_example = supervisor_keeps_mix tone core refl

observer_changes_nothing_example : (apply Cmd.get_state core).0 ≡ core
unfolding is_read_only
observer_changes_nothing_example = observer_changes_nothing Cmd.get_state core refl

-- Two spare card channels.
abbrev spares : List ℕ
spares = 20 ∷ 21 ∷ []

-- The second of two spare outputs.
abbrev second : List Bool
second = false ∷ true ∷ false ∷ false ∷ false ∷ false ∷ false ∷ false ∷ []

-- The slot of the other mix among the engineer's levels.
slot-source_example : (source site 0 2 ≡ some (Source.mix "drums")) × (2 < levels site 0)
unfolding slot heard_position mix_index
slot-source_example = slot-source site 0 (Source.mix "drums") 2 refl

core-SolosHeld : SolosHeld core
unfolding with_hil new
core-SolosHeld = record { held = tt }

-- A solo of the keys in the drummer's mix.
abbrev keys_only : List Source
keys_only = Source.input "keys" ∷ []

apply-SolosHeld_example : SolosHeld (apply (Cmd.set_solo "drums" keys_only) core).0
apply-SolosHeld_example = apply-SolosHeld (Cmd.set_solo "drums" keys_only) core core-SolosHeld

abbrev soloed : Partial Decimal
soloed = elim (set_solo "drums" keys_only core).1 [ ok p ↦ p | err e ↦ no_change ]

set_solo_silences_example :
    solo_out (set_solo "drums" keys_only core).0 1 0
    ≡ (if 1 == 1 then true && not (named site 1 0 keys_only) else solo_out core 1 0)
unfolding set_solo mix_at mix_index solo_slots slot input_index with_hil new put_solo changed
set_solo_silences_example =
    set_solo_silences "drums" keys_only core 1 soloed core-SolosHeld refl refl 1 0

apply-TapsHeld_example : TapsHeld (apply tap core).0
apply-TapsHeld_example = apply-TapsHeld tap core (
    new-TapsHeld site empty_state 7 (record { test_signal = true; fault_injection = false })
      (20 ∷ 21 ∷ []))

-- An observer that tries to mute the drummer's mix.
abbrev mute : Cmd Decimal
mute = Cmd.set_mix "drums" none (some true)

observer_differs : some observe ≢ some control
observer_differs e = cc

only_controller_changes_mix_example : SameMix core (request (some observe) mute core).0
only_controller_changes_mix_example =
    only_controller_changes_mix (some observe) mute core observer_differs
