-- ===== src/Lib.antt =====
-- Verification of iemmixer's monitor mixer.
--
-- The engine (crates/iem-engine) mixes in-ear monitors. Its control core owns the mix state: every
-- number a musician sets, the solos, the listen taps and the test signal. Requests reach the core
-- one at a time; each answers with the changes to broadcast and the commands for the real-time
-- thread. The protocol crate (crates/iem-engine-proto) has the state, the commands and the caps that
-- both sides use. The web server (crates/iem-server) stands between the musicians' browsers and the
-- engine; its login guard decides who may try a PIN, and when.
--
-- Files:
--   Base, Float: shared lists, results and maps; the interface of `f64`.
--   Proto.State, Proto.Msg, Proto.EngineMsg, Proto.Equality, Proto.Shape:
--     crates/iem-engine-proto/src/state.rs and ids.rs, msg/cmd.rs and msg/client.rs, msg/engine.rs
--     and msg/status.rs, the derived equality, shape.rs. Proto.Capped has the
--     ranges as predicates. Proto.Ids and Proto.Frame: ids.rs, the rule of an id, and frame.rs, the
--     frames of the control pipe.
--   Engine.Topology: crates/iem-engine/src/topology.rs, the compiled topology and its lookups.
--   Engine.Site, Engine.Compile: the site of crates/iem-engine/src/site.rs and `compile` of
--     topology.rs. Compile.Strips has the ids, the inputs, the groups and the mixes, Compile.Whole
--     the peers, what each mix carries, the shadows, the render order and the whole; the other
--     children prove, part by part.
--   Engine.Rt: the commands of crates/iem-engine/src/cmd.rs with the conversions of params.rs.
--   Engine.Core: crates/iem-engine/src/core.rs, core/state.rs (Core.State) and core/commands.rs
--     (Core.Commands). Core.Defs is the core with its readers, Core.Setters the writes of one
--     entity (`set_input`, `set_out`, `set_level`, `set_group`, `set_solo`, the taps), Core.Apply the
--     requests (`apply`, `batch`, `clear_solos`, `end_test_signal`). Core.Cases and Core.Rules are
--     the case rules and the induction over the commands; Core.Steps carries an invariant over a
--     request; Core.Faults says which requests make the real-time thread panic; Core.Atomic, Capped,
--     Revision, Roles, Solo, Taps and Hil prove.
--   Engine.Dsp, Engine.Processor: what the real-time thread's smoothed values move to
--     (crates/iem-dsp/src/ramp.rs, pan.rs and eq.rs; crates/iem-engine/src/rt.rs). `start` is
--     `Processor::with_hil`, `perform` is `Processor::apply` and ends in `none` where it panics, `step`
--     what the other commands move. Processor.Mirror says what a core's state
--     is as targets; Writes, Entities, Rows, Sync and Solos follow the commands of one write, of one
--     entity, of a row and of a full sync; Commands and Requests carry it to every request.
--   Engine.Control: the checks of a request by role, crates/iem-engine/src/control/requests.rs.
--     Control.Broadcasts has what the engine broadcasts of a request or a timer, where a message that
--     does not encode goes to nobody; Control.Loop the
--     loop's state, its writes and its save schedule (control.rs, control/connections.rs,
--     persist.rs), Loop.Handlers its handlers and timers. Loop.Kept carries a property over
--     replies, broadcasts and saves; Seats, Hellos and Handled prove the order of the connections,
--     Authority who changes the mix, Saving when a save is due.
--   Server.LoginGuard: crates/iem-server/src/login_guard.rs, the budgets of failed logins (`check`,
--     `record_failure`, `record_success`), on a clock of nanoseconds.
--   Server.SoloJanitor: crates/iem-server/src/solo.rs, the end of a solo whose pages have left.
--     SoloJanitor.Pages sets it against the pages that opened and closed.
--   Server.Mirror: crates/iem-server/src/engine/mirror.rs, the server's copy of the engine's state.
--     Rows, Levels, Follows and Solos show a write of one entity on both sides; Tells, Requests,
--     Timers and Acts carry it to every request and timer; History and Runs to a run; Genuine to
--     messages in any order; Sites and Served state it from the site's file on.
--   Examples: a concrete number type, a small site, and the theorems applied to them.
--
-- How the code is modelled. A method that changes the core takes it and returns it, with its
-- result; a method that may fail returns the core with the error too. A `BTreeMap` by id is an
-- association list, where an insert replaces the entry of a key or appends one. The index maps of
-- a topology give an id's position, since `compile` refuses an id that is given twice. `f64` is a
-- type with the operations that the code calls (`Float`) and the facts of IEEE 754 that the range
-- checks rest on (`FloatLaws`); equal numbers are one value, so that the two zeros are not told
-- apart. A reader's stream is the list of what its calls return: pieces, interruptions and
-- failures, then the end of file. A handler of the control loop reads the clock once; the writes
-- to connections, the ring of the real-time thread and the saves answer by a record, `Outside`;
-- whether a message encodes into a frame is a parameter, since its JSON is not modelled.
-- The hash of a topology is a parameter of `compile`. Indices into the real-time thread saturate
-- at 65535 and the revision wraps at 2^64, as in the code. The loops over lists are structural
-- recursion, so no fuel is used.
--
-- Not modelled: the texts of the core's errors (an error is its code), JSON, audio, threads, pipes
-- and devices; the files of a save; the reading of the site file; the meters and the status in a
-- tick of the control loop and the end of a run; what the engine does once the real-time thread has
-- panicked, which ends it; the sample loop of the real-time thread, its test signal, its fades and
-- its meters; the rest of the web server, and the client.
pub mod Base
pub mod Float
pub mod Proto
pub mod Engine
pub mod Server
pub mod Examples
