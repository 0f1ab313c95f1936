-- ===== src/Engine/Core/Commands.antt =====
-- One command (crates/iem-engine/src/core/commands.rs): its checks and caps in their order, the
-- entity that it sets and its commands to the real-time thread.
use iemmixer.Base.{
  ℕ, Bool, true, false, ◌&&◌, Option, none, some, List, [], ◌∷◌, if◌then◌else◌, get_elem?, Result,
  ok, unwrap_or, is_some,
}
use iemmixer.Float.{Float}
use iemmixer.Proto.State.{InputId, EqTarget, Eq, MixState, TestSignal, db_to_lin, default_input}
use iemmixer.Proto.Shape.{
  Range, trim_range, fader_range, pan_range, limit_range, eq_is_finite, cap_eq,
}
use iemmixer.Proto.Msg.{Cmd, CmdError, Change, bad_request, bad_value, forbidden}
use iemmixer.Engine.Topology.{sample_rate}
use iemmixer.Engine.Rt.{RtOp, ix}
use iemmixer.Engine.Core.State.{reconcile}
use iemmixer.Engine.Core.Defs.{
  Core, Partial, send_state, send_topology, save, shutdown, imported, M, ◌>>=◌, ◌>>◌, read, lift,
  write, failure, no_change, changed, with_effect, hil_mask, capped, capped_or, level, strip, out,
  full_sync, input_at, mix_at, group_at, slot_at,
}
use iemmixer.Engine.Core.Setters.{
  set_input, set_out, set_level, set_group, set_solo, start_listen, stop_listen,
}

module _ {F : Type 0} ⦃fl : Float F⦄ where
  abbrev pub test_hz_range : Range F
  test_hz_range = record { lo = fl.lit 20 0; hi = fl.lit 20000 0 }

  abbrev pub test_dbfs_range : Range F
  test_dbfs_range = record { lo = fl.neg (fl.lit 120 0); hi = fl.neg (fl.lit 20 0) }

  abbrev pub test_ttl_range : Range F
  test_ttl_range = record { lo = fl.lit 1 3; hi = fl.lit 120 0 }

  unfoldable pub test_flag : Core F → Result CmdError (Unit {0})
  test_flag c = if c.flags.test_signal then ok tt else failure forbidden

  unfoldable pub need_fault_injection : Core F → Result CmdError (Unit {0})
  need_fault_injection c = if c.flags.fault_injection then ok tt else failure forbidden

  abbrev test_op : Option (List Bool) → Bool → ℕ → F → F → ℕ → RtOp F
  test_op none listen i hz amp ttl = RtOp.test_signal i hz amp ttl
  test_op (some mask) listen i hz amp ttl = RtOp.hil_test_signal i hz amp ttl mask listen

  -- The write of `start_test`, once every value is capped.
  unfoldable pub put_test :
      ℕ → TestSignal F → Option (List Bool) → Bool → Core F → Core F × Partial F
  unfolding changed
  put_test i signal mask listen c = (
    record c { test = some signal; hil_test = is_some mask },
    changed (Change.test_signal (some signal) ∷ []) (
        test_op mask listen (ix i) signal.hz (db_to_lin signal.dbfs)
          (fl.round_u64 (fl.mul signal.ttl_s (fl.from_u32 sample_rate)))
        ∷ []),
  )

  -- A sine replaces `input` for `ttl_s`; with `mask` it is the HIL signal.
  unfoldable pub start_test : InputId → F → F → F → Option (List Bool) → Bool → M F (Partial F)
  unfolding put_test
  start_test input hz dbfs ttl_s mask listen = do
    i ← read (λ c. input_at c input)
    h ← lift (capped hz test_hz_range)
    d ← lift (capped dbfs test_dbfs_range)
    t ← lift (capped ttl_s test_ttl_range)
    write (put_test i (record { input = input; hz = h; dbfs = d; ttl_s = t }) mask listen)

  -- `SetEq` with a finite, capped EQ.
  unfoldable pub set_eq : EqTarget → Eq F → M F (Partial F)
  set_eq (EqTarget.input id) eq = do
    i ← read (λ c. input_at c id)
    write
        (λ c. set_input c i (record (unwrap_or (get_elem? c.s.inputs i) default_input) { eq = eq }))
  set_eq (EqTarget.mix id) eq = do
    m ← read (λ c. mix_at c id)
    write (λ c. set_out c m (record (out c m) { eq = eq }))
  set_eq (EqTarget.group mix group) eq = do
    m ← read (λ c. mix_at c mix)
    g ← read (λ c. group_at c group)
    write (λ c. set_group c m g (record (strip c m g) { eq = eq }))

  unfoldable pub stop_test : Core F → Core F × Partial F
  unfolding changed
  stop_test c =
      if is_some c.test
      then (
        record c { test = none },
        changed (Change.test_signal none ∷ []) (RtOp.stop_test_signal ∷ []),
      )
      else (c, no_change)

  unfoldable pub import_state : MixState F → Core F → Core F × Partial F
  import_state state c =
      let c' : Core F = record c { s = (reconcile c.topo state).0 } in
      (c', record { changes = []; rt = full_sync c'; effect = some imported; bump = true })

  unfoldable pub one : Cmd F → M F (Partial F)
  unfolding test_flag need_fault_injection set_eq stop_test import_state with_effect
  one (Cmd.set_input input trim_db muted processing) = do
    i ← read (λ c. input_at c input)
    old ← read (λ c. ok (unwrap_or (get_elem? c.s.inputs i) default_input))
    trim ← lift (capped_or trim_db trim_range old.trim_db)
    write (λ c. set_input c i (record old {
      trim_db = trim;
      muted = unwrap_or muted old.muted;
      processing = unwrap_or processing old.processing;
    }))
  one (Cmd.set_mix mix volume_db muted) = do
    m ← read (λ c. mix_at c mix)
    old ← read (λ c. ok (out c m))
    volume ← lift (capped_or volume_db fader_range old.volume_db)
    write (λ c. set_out c m (record old { volume_db = volume; muted = unwrap_or muted old.muted }))
  one (Cmd.set_level mix source gain_db pan muted) = do
    m ← read (λ c. mix_at c mix)
    k ← read (λ c. slot_at c m source)
    old ← read (λ c. ok (level c m k))
    gain ← lift (capped_or gain_db fader_range old.gain_db)
    pan' ← lift (capped_or pan pan_range old.pan)
    write (λ c.
        set_level c m k (record { gain_db = gain; pan = pan'; muted = unwrap_or muted old.muted }))
  one (Cmd.set_group mix group gain_db muted) = do
    m ← read (λ c. mix_at c mix)
    g ← read (λ c. group_at c group)
    old ← read (λ c. ok (strip c m g))
    gain ← lift (capped_or gain_db fader_range old.gain_db)
    write (λ c. set_group c m g (record old { gain_db = gain; muted = unwrap_or muted old.muted }))
  one (Cmd.set_eq target eq) =
      if eq_is_finite eq then set_eq target (cap_eq eq) else lift (failure bad_value)
  one (Cmd.set_limiter mix enabled limit_db) = do
    m ← read (λ c. mix_at c mix)
    old ← read (λ c. ok (out c m))
    limit ← lift (capped_or limit_db limit_range old.limiter.limit_db)
    write (λ c. set_out c m (record old {
      limiter = record { enabled = unwrap_or enabled old.limiter.enabled; limit_db = limit };
    }))
  one (Cmd.reset_limiter_stats mix) = do
    m ← read (λ c. mix_at c mix)
    lift (ok (changed (Change.limiter_stats_reset mix ∷ []) (RtOp.reset_limiter (ix m) ∷ [])))
  one (Cmd.set_solo mix sources) = set_solo mix sources
  one (Cmd.start_listen mix) = start_listen mix
  one (Cmd.stop_listen mix) = stop_listen mix
  one (Cmd.start_test_signal input hz dbfs ttl_s) = do
    read test_flag
    read (λ c. if c.hil_test && is_some c.test then failure forbidden else ok tt)
    start_test input hz dbfs ttl_s none false
  one (Cmd.hil_test_signal input hz dbfs ttl_s card_tx listen) = do
    read test_flag
    lift (if fl.lt (fl.neg (fl.lit 20 0)) dbfs then failure bad_value else ok tt)
    mask ← read (λ c. hil_mask c.topo c.hil card_tx)
    start_test input hz dbfs ttl_s (some mask) listen
  one Cmd.stop_test_signal = write stop_test
  one Cmd.inject_fault = do
    read need_fault_injection
    lift (ok (record { changes = []; rt = RtOp.panic ∷ []; effect = none; bump = false }))
  one (Cmd.batch ops) = lift (failure bad_request)
  one (Cmd.import_state state) = write (import_state state)
  one Cmd.get_state = lift (ok (with_effect send_state))
  one Cmd.get_topology = lift (ok (with_effect send_topology))
  one Cmd.save_now = lift (ok (with_effect save))
  one Cmd.shutdown = lift (ok (with_effect shutdown))
  one Cmd.ping = lift (ok no_change)
  one Cmd.arm = lift (ok (record { changes = []; rt = RtOp.arm ∷ []; effect = none; bump = false }))
