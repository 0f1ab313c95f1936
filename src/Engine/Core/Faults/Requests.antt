-- ===== src/Engine/Core/Faults/Requests.antt =====
-- Which requests make the real-time thread panic (crates/iem-engine/src/core/commands.rs, the
-- `InjectFault` arm; core.rs, `Core::apply`): the fault injection where it is allowed, and no other.
use iemmixer.Base.{
  ◌≡◌, refl, sym, ap, ◌∙◌, inl, inr, true, false, ◌&&◌, Bool-cases, Result, ok, err, Result-cases,
  arith, ltb, length,
}
use iemmixer.Float.{Float}
use iemmixer.Proto.Msg.{Cmd, Cmds, nil, cons, CmdError}
use iemmixer.Engine.Core.{
  Core, Partial, ◌>>=◌, no_change, finish, max_batch, max_cmds_per_block, one, batchable, batch_ops,
  batch, commit, batch_or_one, apply, gather, length_cmds, need_fault_injection,
}
use iemmixer.Engine.Core.Atomic.{apply_error_unchanged}
use iemmixer.Engine.Core.Rules.{Post, one-Post}
use iemmixer.Engine.Core.Faults.{
  is_fault, panics, sent, calm-append, Harmless, import-Harmless, Harmless-Rules,
}

module _ {F : Type 0} ⦃fl : Float F⦄ where
  one-Harmless : (cmd : Cmd F) (c : Core F) → is_fault cmd ≡ false → Post Harmless c (one cmd c)
  one-Harmless cmd c n =
      one-Post Harmless Harmless-Rules cmd c (λ state _. import-Harmless c state)
        (λ e. absurd (cc (sym (ap is_fault e) ∙ n)))

  batchable_fault : (op : Cmd F) → batchable op ≡ true → is_fault op ≡ false
  unfolding batchable
  batchable_fault Cmd.inject_fault b = cc
  batchable_fault op b = refl

  batch_ops-Harmless :
      (ops : Cmds F) (all : Partial F) (a c : Core F)
      → Harmless a (c, all)
      → Post (λ _. Harmless a) c (batch_ops ops all c)
  unfolding batch_ops
  batch_ops-Harmless nil all a c h = h
  batch_ops-Harmless (cons op ops) all a c h = elim (Bool-cases (batchable op)) [
    | inr b ↦ rw (b, batch_ops) tt
    | inl b ↦ elim (Result-cases (one op c).1) [
      | inr (x, e) ↦ rw (b, batch_ops, ◌>>=◌, e) tt
      | inl (p, e) ↦
          let n : Harmless c ((one op c).0, p) =
            rw e at (one-Harmless op c (batchable_fault op b)) in
          rw (b, batch_ops, ◌>>=◌, e)
            (batch_ops-Harmless ops (gather all p) a (one op c).0
              (record { flags = n.flags ∙ h.flags; calm = calm-append all.rt p.rt h.calm n.calm }))
    ]
  ]

  commit-Harmless :
      (c : Core F) (r : Core F × Result CmdError (Partial F))
      → Post (λ _. Harmless c) c r
      → Post Harmless c (commit c r)
  commit-Harmless c (d, err x) h = tt
  commit-Harmless c (d, ok all) h = elim (Bool-cases (ltb max_cmds_per_block (length all.rt))) [
    | inl b ↦ rw b tt
    | inr b ↦ rw b h
  ]

  request-Harmless :
      (cmd : Cmd F) (c : Core F) → is_fault cmd ≡ false → Post Harmless c (batch_or_one cmd c)
  unfolding batch
  request-Harmless (Cmd.batch ops) c n = elim (Bool-cases (ltb max_batch (length_cmds ops))) [
    | inl b ↦ rw (b, batch) tt
    | inr b ↦
        rw (b, batch)
          (commit-Harmless c (batch_ops ops no_change c)
            (batch_ops-Harmless ops no_change c c (record { flags = refl; calm = refl })))
  ]
  request-Harmless cmd c n = one-Harmless cmd c n

  -- A request leaves the flags, and its commands panic exactly where it injects a fault and may.
  pub record Faulty (cmd : Cmd F) (c : Core F) : Type 0 where
    pub flags : (apply cmd c).0.flags ≡ c.flags
    pub fault : panics (sent (apply cmd c).1) ≡ (c.flags.fault_injection && is_fault cmd)

  calm-Faulty : (cmd : Cmd F) (c : Core F) → is_fault cmd ≡ false → Faulty cmd c
  unfolding apply finish
  calm-Faulty cmd c n = elim (Result-cases (batch_or_one cmd c).1) [
    | inr (x, q) ↦
        let e : (apply cmd c).1 ≡ err x = rw (apply, ◌>>=◌, q) refl in
        record {
          flags = ap (λ (d : Core F). d.flags) (apply_error_unchanged cmd c x e);
          fault = rw e (ground (arith, n));
        }
    | inl (p, q) ↦
        let h : Harmless c ((batch_or_one cmd c).0, p) =
          rw (Post, q) at (request-Harmless cmd c n) in
        record {
          flags = rw (apply, ◌>>=◌, q) h.flags;
          fault = rw (apply, ◌>>=◌, q) (ground (arith, n, h.calm));
        }
  ]

  pub apply-Faulty : (cmd : Cmd F) (c : Core F) → Faulty cmd c
  unfolding apply finish one need_fault_injection
  apply-Faulty Cmd.inject_fault c = elim (Bool-cases c.flags.fault_injection) [
    | inl e ↦ record { flags = ground arith; fault = ground (arith, e) }
    | inr e ↦ record { flags = ground arith; fault = ground (arith, e) }
  ]
  apply-Faulty cmd c = calm-Faulty cmd c refl
