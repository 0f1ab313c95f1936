-- ===== src/Engine/Core/Apply.antt =====
-- The requests and what the control loop does by itself (crates/iem-engine/src/core.rs,
-- `Core::apply`, `batch`, `clear_solos`, `end_test_signal`). A batch works on a copy of the core.
use iemmixer.Base.{
  ℕ, suc, Bool, true, false, not, ◌||◌, none, some, List, [], ◌∷◌, ◌++◌, map, if◌then◌else◌, ltb,
  length, get_elem?, Result, ok, err, is_some, map_remove,
}
use iemmixer.Float.{Float}
use iemmixer.Proto.Msg.{Cmd, Cmds, nil, cons, CmdError, Change, bad_request, bad_value}
use iemmixer.Engine.Core.Defs.{
  Core, Partial, Outcome, M, ◌>>=◌, lift, failure, no_change, changed, is_nil, level_ops, finish,
  max_batch, max_cmds_per_block,
}
use iemmixer.Engine.Core.Commands.{one}

module _ {F : Type 0} where
  -- Commands allowed inside a batch: state edits only.
  unfoldable pub batchable : Cmd F → Bool
  batchable (Cmd.set_input _ _ _ _) = true
  batchable (Cmd.set_mix _ _ _) = true
  batchable (Cmd.set_level _ _ _ _ _) = true
  batchable (Cmd.set_group _ _ _ _) = true
  batchable (Cmd.set_eq _ _) = true
  batchable (Cmd.set_limiter _ _ _) = true
  batchable (Cmd.reset_limiter_stats _) = true
  batchable (Cmd.set_solo _ _) = true
  batchable (Cmd.start_listen _) = true
  batchable (Cmd.stop_listen _) = true
  batchable _ = false

  abbrev pub length_cmds : Cmds F → ℕ
  length_cmds nil = 0
  length_cmds (cons op ops) = suc (length_cmds ops)

  -- What a batch gathers: the changes and commands of its operations in turn.
  abbrev pub gather : Partial F → Partial F → Partial F
  gather all p = record all {
    changes = all.changes ++ p.changes;
    rt = all.rt ++ p.rt;
    bump = all.bump || p.bump;
  }

module _ {F : Type 0} ⦃fl : Float F⦄ where
  -- The loop of a batch over its operations, on the copy.
  unfoldable pub batch_ops : Cmds F → Partial F → M F (Partial F)
  batch_ops nil all = lift (ok all)
  batch_ops (cons op ops) all =
      if batchable op
      then one op >>= (λ p. batch_ops ops (gather all p))
      else lift (failure bad_request)

  -- The end of a batch: the copy replaces the core if every operation went through and one block
  -- takes the commands.
  abbrev pub commit :
      Core F → Core F × Result CmdError (Partial F) → Core F × Result CmdError (Partial F)
  commit c (next, err e) = (c, err e)
  commit c (next, ok all) =
      if ltb max_cmds_per_block (length all.rt) then (c, failure bad_value) else (next, ok all)

  unfoldable pub batch : Cmds F → M F (Partial F)
  batch ops c =
      if ltb max_batch (length_cmds ops)
      then (c, failure bad_value)
      else commit c (batch_ops ops no_change c)

  abbrev pub batch_or_one : Cmd F → M F (Partial F)
  batch_or_one (Cmd.batch ops) = batch ops
  batch_or_one other = one other

  unfoldable pub apply : Cmd F → M F (Outcome F)
  apply cmd = batch_or_one cmd >>= finish

  -- The loop of `clear_solos` over the mixes that have a solo.
  unfoldable pub clear_from : List ℕ → Partial F → Core F → Core F × Partial F
  clear_from [] p c = (c, p)
  clear_from (m ∷ ms) p c =
      let c' : Core F = record c { solo = map_remove m c.solo } in
      clear_from ms
        (record p {
          changes = elim (get_elem? c.topo.mixes m) [
            | none ↦ p.changes
            | some n ↦ p.changes ++ Change.solo n.id [] ∷ []
          ];
          rt = p.rt ++ level_ops c' m;
        })
        c'

  -- Clears every solo (10 s after the controller left).
  unfoldable pub clear_solos : M F (Outcome F)
  unfolding clear_from
  clear_solos c =
      let (c', p) = clear_from (map (λ e. e.0) c.solo) no_change c in
      finish (record p { bump = not (is_nil p.changes) }) c'

  -- The test signal's TTL ran out.
  unfoldable pub end_test_signal : M F (Outcome F)
  unfolding changed
  end_test_signal c =
      if is_some c.test
      then finish (changed (Change.test_signal none ∷ []) []) (record c { test = none })
      else finish no_change c
