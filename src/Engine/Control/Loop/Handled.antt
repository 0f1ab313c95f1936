-- ===== src/Engine/Control/Loop/Handled.antt =====
-- Whatever the control loop is sent and whenever its timers run, its connections stay in order
-- (crates/iem-engine/src/control.rs, `handle` and `tick`).
use iemmixer.Base.{
  ℕ, ◌≡◌, refl, ap, inl, inr, Bool, true, false, Option, none, List, [], ◌∷◌, arith, leb, length,
  is_some, map_get, map_get-insert, Result, ok, err, Bool-cases, Option-cases,
}
use iemmixer.Float.{Float}
use iemmixer.Proto.Msg.{Role, Cmd, CmdError}
use iemmixer.Proto.EngineMsg.{Alarm}
use iemmixer.Engine.Core.{Core, Outcome, apply, clear_solos, end_test_signal}
use iemmixer.Engine.Control.{refusal}
use iemmixer.Engine.Control.Loop.{
  Outside, Control, ClientMsg, unreadable, hello, asks, CtlMsg, connected, frame, closed, max_conns,
  save_due, no_save,
}
use iemmixer.Engine.Control.Loop.Handlers.{
  answered, on_request, on_message, on_frame, handle, own_outcome, grace_over, solo_timer,
  test_timer, save_timer, timers,
}
use iemmixer.Engine.Control.Loop.Kept.{
  reply-Kept, publish-Kept, run_effect-Kept, note-Kept, do_save-Kept,
}
use iemmixer.Engine.Control.Loop.Seats.{Seated, Seated-Kept, drop_peer-Seated, length-map_insert}
use iemmixer.Engine.Control.Loop.Hellos.{on_hello-Seated}

-- What comes to the loop, and when.
pub data Happening (F : Type 0) : Type 0 where
  message : ℕ → CtlMsg F → Happening F
  tick : ℕ → Happening F

module _ {F : Type 0} where
  -- `Control::new`.
  unfoldable pub start : Core F → List Alarm → ℕ → ℕ → Bool → Control F
  start core alarms solo_grace block hold = record {
    core = core;
    schedule = no_save;
    pending = [];
    ring = [];
    peers = [];
    controller = none;
    controller_lost = none;
    supervisor = none;
    held = hold;
    test_deadline = none;
    alarms = alarms;
    solo_grace = solo_grace;
    block = block;
    shutdown = false;
    delivered = [];
    writes = 0;
    flushes = 0;
    tries = 0;
  }

module _ {F : Type 0} ⦃fl : Float F⦄ (o : Outside F) where
  unfoldable pub happen : Happening F → Control F → Control F
  happen (message now msg) s = handle o now msg s
  happen (tick now) s = timers o now s

  unfoldable pub run : List (Happening F) → Control F → Control F
  unfolding happen
  run [] s = s
  run (h ∷ hs) s = run hs (happen h s)

  module _ (now : ℕ) where
    answered-Seated :
        (id request : ℕ) (origin : Option ℕ) (cmd : Cmd F)
        (r : Core F × Result CmdError (Outcome F)) (s : Control F)
        → Seated s
        → Seated (answered o now id request origin cmd r s)
    answered-Seated id request origin cmd (c, err e) s h =
        reply-Kept Seated Seated-Kept o now id request _ (record s { core = c }) h
    answered-Seated id request origin cmd (c, ok out) s h =
        run_effect-Kept Seated Seated-Kept o now id out.effect _ (
          publish-Kept Seated Seated-Kept o now out origin _ (
            reply-Kept Seated Seated-Kept o now id request none _
              (note-Kept Seated Seated-Kept o now cmd (record s { core = c }) h)))

    on_message-Seated :
        (id : ℕ) (role : Option Role) (msg : ClientMsg F) (s : Control F)
        → is_some (map_get id s.peers) ≡ true
        → Seated s
        → Seated (on_message o now id role msg s)
    unfolding on_request
    on_message-Seated id role (unreadable request error) s t h =
        reply-Kept Seated Seated-Kept o now id _ _ s h
    on_message-Seated id role (hello proto claimed) s t h =
        on_hello-Seated o now id proto claimed s t h
    on_message-Seated id role (asks request origin cmd) s t h =
        elim (Option-cases (refusal role cmd)) [
          | inr (code, e) ↦
              rw (e, on_request) (reply-Kept Seated Seated-Kept o now id request _ s h)
          | inl e ↦
              rw (e, on_request) (answered-Seated id request origin cmd (apply cmd s.core) s h)
        ]

    handle-Seated : (msg : CtlMsg F) (s : Control F) → Seated s → Seated (handle o now msg s)
    unfolding handle on_frame
    handle-Seated (connected id) s h = elim (Bool-cases (leb max_conns (length s.peers))) [
      | inl e ↦ rw e h
      | inr e ↦ rw e (record {
        few = ground (arith, e, length-map_insert id none s.peers);
        controls = λ k q. h.controls k (ground (arith, q, map_get-insert k id none s.peers));
        supervises = λ k q. h.supervises k (ground (arith, q, map_get-insert k id none s.peers));
        there = λ k q. ground (arith, h.there k q, map_get-insert k id none s.peers);
        grace = h.grace;
      })
    ]
    handle-Seated (closed id) s h = drop_peer-Seated now id s h
    handle-Seated (frame id msg) s h = elim (Option-cases (map_get id s.peers)) [
      | inl e ↦ rw (e, on_frame) h
      | inr (role, e) ↦ rw (e, on_frame) (on_message-Seated id role msg s (ap is_some e) h)
    ]

    own_outcome-Seated :
        (r : Core F × Result CmdError (Outcome F)) (s : Control F)
        → Seated s
        → Seated (own_outcome o now r s)
    own_outcome-Seated (c, err e) s h = h
    own_outcome-Seated (c, ok out) s h =
        publish-Kept Seated Seated-Kept o now out none (record s { core = c }) h

    solo_timer-Seated : (s : Control F) → Seated s → Seated (solo_timer o now s)
    unfolding solo_timer
    solo_timer-Seated s h = elim (Bool-cases (grace_over o now s)) [
      | inr e ↦ rw e h
      | inl e ↦ rw e (
          own_outcome-Seated (clear_solos s.core) (record s { controller_lost = none })
            (record {
              few = h.few;
              controls = h.controls;
              supervises = h.supervises;
              there = h.there;
              grace = λ q. refl;
            }))
    ]

    test_timer-Seated : (s : Control F) → Seated s → Seated (test_timer o now s)
    unfolding test_timer
    test_timer-Seated s h = elim (Option-cases s.test_deadline) [
      | inl e ↦ rw (e, test_timer) h
      | inr (deadline, e) ↦ elim (Bool-cases (leb deadline now)) [
        | inr b ↦ rw (e, test_timer, b) h
        | inl b ↦
            rw (e, test_timer, b)
              (own_outcome-Seated (end_test_signal s.core) (record s { test_deadline = none }) h)
      ]
    ]

    save_timer-Seated : (s : Control F) → Seated s → Seated (save_timer o now s)
    unfolding save_timer
    save_timer-Seated s h = elim (Bool-cases (save_due now s.schedule)) [
      | inl e ↦ rw e (do_save-Kept Seated Seated-Kept o now s h)
      | inr e ↦ rw e h
    ]

  happen-Seated : (h : Happening F) (s : Control F) → Seated s → Seated (happen h s)
  unfolding happen timers
  happen-Seated (message now msg) s i = handle-Seated now msg s i
  happen-Seated (tick now) s i =
      save_timer-Seated now _ (test_timer-Seated now _ (solo_timer-Seated now s i))

  pub run-Seated : (hs : List (Happening F)) (s : Control F) → Seated s → Seated (run hs s)
  unfolding run
  run-Seated [] s i = i
  run-Seated (h ∷ hs) s i = run-Seated hs (happen h s) (happen-Seated h s i)

  -- Whatever a new loop is sent, in whatever order, whichever writes fail, and whenever its timers
  -- run: at most eight connections are open, at most one has the control role, which is then the
  -- controller, at most one the supervisor's, the controller is connected, and the solo grace runs
  -- only while there is none.
  pub loop-Seated :
      (core : Core F) (alarms : List Alarm) (solo_grace block : ℕ) (hold : Bool)
      (hs : List (Happening F))
      → Seated (run hs (start core alarms solo_grace block hold))
  unfolding start
  loop-Seated core alarms solo_grace block hold hs =
      run-Seated hs (start core alarms solo_grace block hold) (record {
        few = omega arith;
        controls = λ k q. cc;
        supervises = λ k q. cc;
        there = λ k q. cc;
        grace = λ q. refl;
      })
