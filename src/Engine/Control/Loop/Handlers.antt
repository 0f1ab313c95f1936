-- ===== src/Engine/Control/Loop/Handlers.antt =====
-- The handlers of the control loop (crates/iem-engine/src/control/connections.rs, `hello`;
-- control/requests.rs; control/saving.rs; control.rs, `handle` and the timers at the end of `tick`).
use iemmixer.Base.{
  ℕ, suc, ◌+◌, ◌-◌, Bool, true, false, Option, none, some, ◌++◌, if◌then◌else◌, leb, length,
  map_option, unwrap_or, map_get, map_insert, Result, ok, err,
}
use iemmixer.Float.{Float}
use iemmixer.Proto.State.{TestSignal}
use iemmixer.Proto.Msg.{Role, control, observe, supervisor, Cmd, CmdError, unsupported}
use iemmixer.Proto.EngineMsg.{state_fallback, save_failed, EngineMsg}
use iemmixer.Engine.Topology.{info, sample_rate}
use iemmixer.Engine.Core.{
  Core, Outcome, Effect, no_effect, send_state, send_topology, save, shutdown, imported, apply,
  transient, is_nil, clear_solos, end_test_signal, max_cmds_per_block,
}
use iemmixer.Engine.Control.{refusal}
use iemmixer.Engine.Control.Broadcasts.{state_msg}
use iemmixer.Engine.Control.Loop.{
  Outside, Control, ClientMsg, unreadable, hello, asks, CtlMsg, connected, frame, closed, Committed,
  max_conns, proto_version, no_save, changed, save_due, negotiate, set_role, other_than, chunks,
  drop_peer, flush_rt, send, broadcast, reply, raise_alarm, send_alarms,
}

module _ {F : Type 0} ⦃fl : Float F⦄ (o : Outside F) (now : ℕ) where
  abbrev pub saved : Committed → Control F → Control F
  saved committed s =
      let s' : Control F = elim (committed.orphaned) [
        | none ↦ s
        | some aside ↦ raise_alarm o now state_fallback aside s
      ] in
      broadcast o now (EngineMsg.saved s'.core.rev committed.generation) s'

  unfoldable pub do_save : Control F → Control F
  unfolding raise_alarm broadcast
  do_save s =
      let s' : Control F = record s { schedule = no_save; tries = suc s.tries } in
      elim (o.saves s.tries) [
        | ok committed ↦ saved committed s'
        | err e ↦ raise_alarm o now save_failed e s'
      ]

  -- Queues an outcome's commands and broadcasts its changes.
  unfoldable pub publish : Outcome F → Option ℕ → Control F → Control F
  unfolding flush_rt changed broadcast
  publish out origin s =
      let queued : Control F =
        flush_rt o
          (record s { pending = s.pending ++ chunks (length out.rt) max_cmds_per_block out.rt }) in
      if is_nil out.changes
      then queued
      else broadcast o now (EngineMsg.delta out.rev origin out.changes)
          (record queued { schedule = changed now queued.schedule })

  unfoldable pub run_effect : ℕ → Effect → Control F → Control F
  unfolding do_save send broadcast changed
  run_effect id no_effect s = s
  run_effect id send_state s = send o now id (state_msg s.core) s
  run_effect id send_topology s = send o now id (EngineMsg.topology (info s.core.topo)) s
  run_effect id save s = do_save s
  run_effect id shutdown s = record s { shutdown = true }
  run_effect id imported s =
      let s' : Control F = broadcast o now (state_msg s.core) s in
      record s' { schedule = changed now s'.schedule }

  -- What a command that went through does to the loop itself.
  unfoldable pub note : Cmd F → Control F → Control F
  note (Cmd.start_test_signal _ _ _ _) s = record s {
    test_deadline =
        map_option (λ (t : TestSignal F). now + o.ttl t.ttl_s) ((transient s.core).test_signal);
  }
  note (Cmd.hil_test_signal _ _ _ _ _ _) s = record s {
    test_deadline =
        map_option (λ (t : TestSignal F). now + o.ttl t.ttl_s) ((transient s.core).test_signal);
  }
  note Cmd.stop_test_signal s = record s { test_deadline = none }
  note Cmd.arm s = record s { held = false }
  note _ s = s

  -- The core's answer to a request.
  abbrev pub answered :
      ℕ → ℕ → Option ℕ → Cmd F → Core F × Result CmdError (Outcome F) → Control F → Control F
  answered id request origin cmd (c, err e) s =
      reply o now id request (some (record { code = e.code; msg = o.text e.code }))
        (record s { core = c })
  answered id request origin cmd (c, ok out) s =
      run_effect id out.effect
        (publish out origin (reply o now id request none (note cmd (record s { core = c }))))

  unfoldable pub on_request : ℕ → Option Role → ℕ → Option ℕ → Cmd F → Control F → Control F
  unfolding reply note publish run_effect
  on_request id role request origin cmd s = elim (refusal role cmd) [
    | some code ↦ reply o now id request (some (record { code = code; msg = o.text code })) s
    | none ↦ answered id request origin cmd (apply cmd s.core) s
  ]

  -- A new connection of a role takes the place of the old one.
  unfoldable pub supersede : Option ℕ → Control F → Control F
  unfolding send drop_peer
  supersede none s = s
  supersede (some old) s = drop_peer now old (send o now old EngineMsg.superseded s)

  abbrev pub take_control : ℕ → Role → Control F → Control F
  take_control id control s = record (supersede (other_than s.controller id) s) {
    controller = some id;
    controller_lost = none;
  }
  take_control id observe s = s
  take_control id supervisor s = s

  abbrev pub take_supervision : ℕ → Role → Control F → Control F
  take_supervision id supervisor s = record (supersede (other_than s.supervisor id) s) {
    supervisor = some id;
  }
  take_supervision id observe s = s
  take_supervision id control s = s

  abbrev pub hello_msg : ℕ → Role → Control F → EngineMsg F
  hello_msg proto role s = EngineMsg.hello (record {
    proto = proto;
    engine_build = o.build;
    topology_hash = s.core.topo.hash;
    state_rev = s.core.rev;
    sample_rate = sample_rate;
    block = s.block;
    role = role;
  })

  -- What a new peer is sent.
  unfoldable pub welcome : ℕ → ℕ → Role → Control F → Control F
  unfolding send send_alarms
  welcome id proto role s =
      let s1 : Control F = send o now id (hello_msg proto role s) s in
      let s2 : Control F = send o now id (EngineMsg.topology (info s1.core.topo)) s1 in
      let s3 : Control F = send o now id (state_msg s2.core) s2 in send_alarms o now id s3.alarms s3

  abbrev pub greet : ℕ → ℕ → Role → Control F → Control F
  greet id proto role s = elim (map_get id s.peers) [
    | none ↦ s
    | some old ↦ welcome id proto role (record s { peers = set_role id role s.peers })
  ]

  unfoldable pub on_hello : ℕ → ℕ → Role → Control F → Control F
  unfolding supersede welcome reply drop_peer negotiate
  on_hello id proto role s = elim (negotiate proto_version proto) [
    | none ↦
        drop_peer now id
          (reply o now id 0 (some (record { code = unsupported; msg = o.text unsupported })) s)
    | some spoken ↦ greet id spoken role (take_supervision id role (take_control id role s))
  ]

  abbrev pub on_message : ℕ → Option Role → ClientMsg F → Control F → Control F
  on_message id role (unreadable request error) s =
      reply o now id (unwrap_or request 0) (some error) s
  on_message id role (hello proto claimed) s = on_hello id proto claimed s
  on_message id role (asks request origin cmd) s = on_request id role request origin cmd s

  unfoldable pub on_frame : ℕ → ClientMsg F → Control F → Control F
  unfolding on_hello on_request reply
  on_frame id msg s = elim (map_get id s.peers) [ none ↦ s | some role ↦ on_message id role msg s ]

  unfoldable pub handle : CtlMsg F → Control F → Control F
  unfolding on_frame drop_peer
  handle (connected id) s =
      if leb max_conns (length s.peers) then s else record s { peers = map_insert id none s.peers }
  handle (closed id) s = drop_peer now id s
  handle (frame id msg) s = on_frame id msg s

  abbrev pub grace_over : Control F → Bool
  grace_over s = elim (s.controller) [
    | some id ↦ false
    | none ↦ elim (s.controller_lost) [ none ↦ false | some lost ↦ leb s.solo_grace (now - lost) ]
  ]

  -- An outcome that no request asked for.
  abbrev pub own_outcome : Core F × Result CmdError (Outcome F) → Control F → Control F
  own_outcome (c, err e) s = s
  own_outcome (c, ok out) s = publish out none (record s { core = c })

  unfoldable pub solo_timer : Control F → Control F
  unfolding publish
  solo_timer s =
      if grace_over s
      then own_outcome (clear_solos s.core) (record s { controller_lost = none })
      else s

  unfoldable pub test_timer : Control F → Control F
  unfolding publish
  test_timer s = elim (s.test_deadline) [
    | none ↦ s
    | some deadline ↦
        if leb deadline now
        then own_outcome (end_test_signal s.core) (record s { test_deadline = none })
        else s
  ]

  unfoldable pub save_timer : Control F → Control F
  unfolding do_save save_due
  save_timer s = if save_due now s.schedule then do_save s else s

  -- The end of a tick.
  unfoldable pub timers : Control F → Control F
  unfolding solo_timer test_timer save_timer
  timers s = save_timer (test_timer (solo_timer s))
