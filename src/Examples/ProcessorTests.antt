-- ===== src/Examples/ProcessorTests.antt =====
-- The processor's theorems and those of the frames, applied to the example core and to a stream in
-- pieces.
use iemmixer.Base.{ℕ, zero, suc, ◌≡◌, ◌≤◌, refl, arith, true, false, none, some, List, [], ◌∷◌, err}
use iemmixer.Proto.Msg.{Cmd}
use iemmixer.Proto.State.{Source}
use iemmixer.Proto.Frame.{
  Event, closed, piece, interrupted, too_large, io, unexpected_eof, write_frame, to_le_bytes,
  read_frame, read_head, fill,
}
use iemmixer.Proto.Frame.Filling.{bytes, Filled}
use iemmixer.Proto.Frame.Reading.{
  read_frames, read_frames_all, read_frame-write_frame, read_frame_oversize, read_frame_cut,
}
use iemmixer.Engine.Topology.{levels}
use iemmixer.Engine.Core.{Core, Flags, apply, one, need_fault_injection, finish, with_hil, new}
use iemmixer.Engine.Core.Capped.{CoreCapped, new-CoreCapped}
use iemmixer.Engine.Processor.{start, perform, perform_all}
use iemmixer.Engine.Core.Faults.{sent}
use iemmixer.Engine.Processor.Mirror.{targets}
use iemmixer.Engine.Processor.Laid.{Small, Laid, new-Laid}
use iemmixer.Engine.Processor.Start.{start_mirrors}
use iemmixer.Engine.Processor.Requests.{run, apply_mirrors, history_mirrors}
use iemmixer.Examples.Decimal.{Decimal, plus, decimal_float, decimal_laws}
use iemmixer.Examples.Site.{site, core, empty_state}

abbrev both_flags : Flags
both_flags = record { test_signal = true; fault_injection = false }

small_levels : (m : ℕ) → levels site m ≤ 65536
unfolding levels
small_levels zero = omega arith
small_levels (suc zero) = omega arith
small_levels (suc (suc m)) = omega arith

site-Small : Small site
site-Small = record {
  inputs = omega arith;
  groups = omega arith;
  mixes = omega arith;
  levels = small_levels;
}

abbrev spares : List ℕ
spares = 20 ∷ 21 ∷ []

core-Laid : Laid core
core-Laid = new-Laid site empty_state 7 both_flags spares

core-CoreCapped : CoreCapped core
core-CoreCapped = new-CoreCapped decimal_laws site empty_state 7 both_flags spares

abbrev solo_keys : Cmd Decimal
solo_keys = Cmd.set_solo "drums" (Source.input "keys" ∷ [])

abbrev volume : Cmd Decimal
volume = Cmd.set_mix "drums" (some (plus 5 0)) none

history_mirrors_example :
    perform_all (run (volume ∷ solo_keys ∷ []) core).1 (start site empty_state)
    ≡ some (targets (run (volume ∷ solo_keys ∷ []) core).0)
history_mirrors_example =
    history_mirrors decimal_laws site empty_state 7 both_flags spares (volume ∷ solo_keys ∷ [])
      site-Small

-- The injected fault ends the processor where the engine allows it.
abbrev faulty_core : Core Decimal
faulty_core = new site empty_state 7 (record { test_signal = true; fault_injection = true })

fault_test : perform_all (sent (apply Cmd.inject_fault faulty_core).1) (targets faulty_core) ≡ none
unfolding new perform_all perform apply one need_fault_injection finish
fault_test = refl

apply_mirrors_example :
    perform_all (sent (apply solo_keys core).1) (targets core)
    ≡ some (targets (apply solo_keys core).0)
unfolding with_hil new
apply_mirrors_example =
    apply_mirrors decimal_laws solo_keys core core-Laid site-Small core-CoreCapped

start_mirrors_example : start site empty_state ≡ targets core
start_mirrors_example = start_mirrors decimal_laws site empty_state 7 both_flags spares

-- A frame of two bytes and the beginning of another, in three pieces with an interruption.
abbrev wire : List ℕ
wire = 2 ∷ 0 ∷ 0 ∷ 0 ∷ 123 ∷ 125 ∷ []

abbrev stream : List Event
stream = piece (2 ∷ []) ∷ interrupted ∷ piece (0 ∷ 0 ∷ 0 ∷ 123 ∷ []) ∷ piece (125 ∷ 9 ∷ []) ∷ []

read_frame-write_frame_example : Filled (read_frame stream) (123 ∷ 125 ∷ []) (9 ∷ [])
unfolding write_frame to_le_bytes
read_frame-write_frame_example =
    read_frame-write_frame (123 ∷ 125 ∷ []) wire (9 ∷ []) stream
      (omega arith, (omega arith, (omega arith, tt))) refl refl

abbrev huge : List Event
huge = piece (1 ∷ 0 ∷ 16 ∷ []) ∷ piece (0 ∷ 5 ∷ []) ∷ []

read_frame_oversize_example :
    ((read_frame huge).0 ≡ err (too_large 1048577)) × (bytes (read_frame huge).1 ≡ 5 ∷ [])
unfolding to_le_bytes
read_frame_oversize_example =
    read_frame_oversize huge 1048577 (5 ∷ []) (omega arith, (omega arith, tt)) refl (omega arith)
      (omega arith)

abbrev torn : List Event
torn = piece (2 ∷ 0 ∷ []) ∷ piece (0 ∷ 0 ∷ 123 ∷ []) ∷ []

read_frame_cut_example : (read_frame torn).0 ≡ err (io unexpected_eof)
unfolding write_frame to_le_bytes
read_frame_cut_example =
    read_frame_cut (123 ∷ 125 ∷ []) wire (125 ∷ []) torn (omega arith, (omega arith, tt)) refl refl
      (omega arith)

-- A stream that is interrupted and ends with no byte of a frame.
no_frame_test : (read_frame (interrupted ∷ [])).0 ≡ err closed
unfolding read_frame read_head fill
no_frame_test = refl

-- Two frames in pieces that do not end where they do.
abbrev two_frames : List Event
two_frames =
    piece (2 ∷ 0 ∷ [])
    ∷ interrupted
    ∷ piece (0 ∷ 0 ∷ 123 ∷ 125 ∷ 1 ∷ [])
    ∷ piece (0 ∷ 0 ∷ 0 ∷ 48 ∷ [])
    ∷ []

read_frames_all_example : read_frames 2 two_frames ≡ ((123 ∷ 125 ∷ []) ∷ (48 ∷ []) ∷ [], err closed)
unfolding to_le_bytes
read_frames_all_example =
    read_frames_all ((123 ∷ 125 ∷ []) ∷ (48 ∷ []) ∷ []) two_frames (omega arith, (omega arith, tt))
      (omega arith, (omega arith, (omega arith, tt))) refl
