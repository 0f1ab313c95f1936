-- ===== src/Engine/Control/Loop/Kept.antt =====
-- What the loop's replies, broadcasts and saves keep (crates/iem-engine/src/control/): a property that
-- a dropped peer and what is only written down do not touch.
use Prim.Native.String.{String}
use iemmixer.Base.{
  ℕ, suc, inl, inr, Bool, true, false, Option, none, some, List, [], ◌∷◌, map_get, Result-cases,
  Bool-cases, Option-cases,
}
use iemmixer.Float.{Float}
use iemmixer.Proto.Msg.{Role, Cmd}
use iemmixer.Proto.EngineMsg.{ErrorBody, AlarmCode, state_fallback, Alarm, EngineMsg}
use iemmixer.Engine.Topology.{info}
use iemmixer.Engine.Rt.{RtOp}
use iemmixer.Engine.Core.{
  Core, Outcome, Effect, no_effect, send_state, send_topology, save, shutdown, imported, is_nil,
}
use iemmixer.Engine.Control.Broadcasts.{state_msg}
use iemmixer.Engine.Control.Loop.{
  Outside, Control, Committed, SaveSchedule, greeted, drop_peer, flush_rt, write, send, write_all,
  broadcast, reply, raise_alarm, send_alarms,
}
use iemmixer.Engine.Control.Loop.Handlers.{
  saved, do_save, publish, run_effect, note, hello_msg, welcome, supersede,
}

-- The property stands a dropped peer, and what the loop only writes down.
pub record Kept {F : Type 0} (P : Control F → Type 0) : Type 0 where
  pub dropped : (now id : ℕ) (s : Control F) → P s → P (drop_peer now id s)
  pub wrote :
      (s : Control F) (n : ℕ) (out : List (ℕ × EngineMsg F))
      → P s
      → P (record s { writes = n; delivered = out })
  pub alarmed : (s : Control F) (alarms : List Alarm) → P s → P (record s { alarms = alarms })
  pub scheduled :
      (s : Control F) (schedule : SaveSchedule) (n : ℕ)
      → P s
      → P (record s { schedule = schedule; tries = n })
  pub queued :
      (s : Control F) (pending ring : List (List (RtOp F))) (n : ℕ)
      → P s
      → P (record s { pending = pending; ring = ring; flushes = n })
  pub stopping : (s : Control F) (b : Bool) → P s → P (record s { shutdown = b })
  pub noted :
      (s : Control F) (deadline : Option ℕ) (held : Bool)
      → P s
      → P (record s { test_deadline = deadline; held = held })

-- A property of the core and the connections only: a dropped peer is all that can touch it.
pub parts-Kept :
    {F : Type 0} (Q : Core F → List (ℕ × Option Role) → Option ℕ → Option ℕ → Option ℕ → Type 0)
    → ((now id : ℕ) (s : Control F)
        → Q s.core s.peers s.controller s.controller_lost s.supervisor
        → let t : Control F = drop_peer now id s in
          Q t.core t.peers t.controller t.controller_lost t.supervisor)
    → Kept {F = F} (λ s. Q s.core s.peers s.controller s.controller_lost s.supervisor)
parts-Kept Q dropped = record {
  dropped = dropped;
  wrote = λ s n out h. h;
  alarmed = λ s alarms h. h;
  scheduled = λ s schedule n h. h;
  queued = λ s pending ring n h. h;
  stopping = λ s b h. h;
  noted = λ s deadline held h. h;
}

module _ {F : Type 0} (P : Control F → Type 0) (k : Kept P) (o : Outside F) (now : ℕ) where
  write-Kept : (id : ℕ) (msg : EngineMsg F) (s : Control F) → P s → P (write o now id msg s)
  unfolding write
  write-Kept id msg s h = elim (Option-cases (map_get id s.peers)) [
    | inl e ↦ rw (e, write) h
    | inr (role, e) ↦ elim (Bool-cases (o.breaks id s.writes)) [
      | inl b ↦
          rw (e, b, write)
            (k.dropped now id (record s { writes = suc s.writes }) (k.wrote s _ s.delivered h))
      | inr b ↦ rw (e, b, write) (k.wrote s _ _ h)
    ]
  ]

  pub send-Kept : (id : ℕ) (msg : EngineMsg F) (s : Control F) → P s → P (send o now id msg s)
  unfolding send
  send-Kept id msg s h = elim (Bool-cases (o.encodes msg)) [
    | inl e ↦ rw e (write-Kept id msg s h)
    | inr e ↦ rw e h
  ]

  write_all-Kept :
      (ids : List ℕ) (msg : EngineMsg F) (s : Control F) → P s → P (write_all o now ids msg s)
  unfolding write_all
  write_all-Kept [] msg s h = h
  write_all-Kept (id ∷ ids) msg s h =
      write_all-Kept ids msg (write o now id msg s) (write-Kept id msg s h)

  pub broadcast-Kept : (msg : EngineMsg F) (s : Control F) → P s → P (broadcast o now msg s)
  unfolding broadcast
  broadcast-Kept msg s h = elim (Bool-cases (o.encodes msg)) [
    | inl e ↦ rw e (write_all-Kept (greeted s.peers) msg s h)
    | inr e ↦ rw e h
  ]

  pub reply-Kept :
      (id request : ℕ) (error : Option ErrorBody) (s : Control F)
      → P s
      → P (reply o now id request error s)
  unfolding reply
  reply-Kept id request error s h = send-Kept id _ s h

  raise_alarm-Kept :
      (code : AlarmCode) (detail : String) (s : Control F)
      → P s
      → P (raise_alarm o now code detail s)
  unfolding raise_alarm
  raise_alarm-Kept code detail s h = broadcast-Kept _ _ (k.alarmed s _ h)

  send_alarms-Kept :
      (id : ℕ) (alarms : List Alarm) (s : Control F) → P s → P (send_alarms o now id alarms s)
  unfolding send_alarms
  send_alarms-Kept id [] s h = h
  send_alarms-Kept id (a ∷ rest) s h = send_alarms-Kept id rest _ (send-Kept id _ s h)

  module _ ⦃fl : Float F⦄ where
    pub supersede-Kept : (old : Option ℕ) (s : Control F) → P s → P (supersede o now old s)
    unfolding supersede
    supersede-Kept none s h = h
    supersede-Kept (some old) s h = k.dropped now old _ (send-Kept old EngineMsg.superseded s h)

    pub welcome-Kept :
        (id proto : ℕ) (role : Role) (s : Control F) → P s → P (welcome o now id proto role s)
    unfolding welcome
    welcome-Kept id proto role s h =
        let s1 : Control F = send o now id (hello_msg o now proto role s) s in
        let s2 : Control F = send o now id (EngineMsg.topology (info s1.core.topo)) s1 in
        let s3 : Control F = send o now id (state_msg s2.core) s2 in
        let h1 : P s1 = send-Kept id (hello_msg o now proto role s) s h in
        let h2 : P s2 = send-Kept id (EngineMsg.topology (info s1.core.topo)) s1 h1 in
        send_alarms-Kept id s3.alarms s3 (send-Kept id (state_msg s2.core) s2 h2)

    saved-Kept : (committed : Committed) (s : Control F) → P s → P (saved o now committed s)
    saved-Kept committed s h = elim (Option-cases committed.orphaned) [
      | inl e ↦ rw (e, saved) (broadcast-Kept _ s h)
      | inr (aside, e) ↦
          rw (e, saved) (broadcast-Kept _ _ (raise_alarm-Kept state_fallback aside s h))
    ]

    pub do_save-Kept : (s : Control F) → P s → P (do_save o now s)
    unfolding do_save
    do_save-Kept s h = elim (Result-cases (o.saves s.tries)) [
      | inl (committed, e) ↦ rw (e, do_save) (saved-Kept committed _ (k.scheduled s _ _ h))
      | inr (x, e) ↦ rw (e, do_save) (raise_alarm-Kept _ x _ (k.scheduled s _ _ h))
    ]

    pub publish-Kept :
        (out : Outcome F) (origin : Option ℕ) (s : Control F) → P s → P (publish o now out origin s)
    unfolding publish flush_rt
    publish-Kept out origin s h = elim (Bool-cases (is_nil out.changes)) [
      | inl e ↦ rw e (k.queued s _ _ _ h)
      | inr e ↦ rw e (broadcast-Kept _ _ (k.scheduled _ _ s.tries (k.queued s _ _ _ h)))
    ]

    pub run_effect-Kept : (id : ℕ) (e : Effect) (s : Control F) → P s → P (run_effect o now id e s)
    unfolding run_effect
    run_effect-Kept id no_effect s h = h
    run_effect-Kept id send_state s h = send-Kept id _ s h
    run_effect-Kept id send_topology s h = send-Kept id _ s h
    run_effect-Kept id save s h = do_save-Kept s h
    run_effect-Kept id shutdown s h = k.stopping s true h
    run_effect-Kept id imported s h = k.scheduled _ _ _ (broadcast-Kept _ s h)

    pub note-Kept : (cmd : Cmd F) (s : Control F) → P s → P (note o now cmd s)
    unfolding note
    note-Kept (Cmd.start_test_signal _ _ _ _) s h = k.noted s _ s.held h
    note-Kept (Cmd.hil_test_signal _ _ _ _ _ _) s h = k.noted s _ s.held h
    note-Kept Cmd.stop_test_signal s h = k.noted s none s.held h
    note-Kept Cmd.arm s h = k.noted s s.test_deadline false h
    note-Kept _ s h = h
