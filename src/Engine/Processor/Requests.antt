-- ===== src/Engine/Processor/Requests.antt =====
-- A request moves the processor to what the core holds after it (crates/iem-engine/src/core.rs,
-- `Core::apply`, `batch`; rt.rs, `apply_due`).
use iemmixer.Base.{
  ℕ, ◌≡◌, refl, sym, ap, subst, ◌∙◌, inl, inr, Bool-cases, Result, ok, err, Result-cases, List, [],
  ◌∷◌, ◌++◌, ltb, length, Bool, false, ◌&&◌, ◌||◌, none, some, if◌then◌else◌, arith,
}
use iemmixer.Float.{Float, FloatLaws}
use iemmixer.Proto.State.{MixState}
use iemmixer.Proto.Msg.{Cmd, Cmds, nil, cons, CmdError}
use iemmixer.Engine.Topology.{Topology}
use iemmixer.Engine.Processor.{Targets, start, step, steps, perform, perform_all}
use iemmixer.Engine.Rt.{RtOp}
use iemmixer.Engine.Processor.Start.{start_mirrors}
use iemmixer.Engine.Processor.Mirror.{targets}
use iemmixer.Engine.Processor.Writes.{steps-append}
use iemmixer.Engine.Processor.Laid.{Small, Laid, new-Laid}
use iemmixer.Engine.Processor.Commands.{Mirrors, Mirror, Mirror-Rules}
use iemmixer.Engine.Processor.Sync.{import-Mirror}
use iemmixer.Engine.Core.{
  Core, Partial, ◌>>=◌, no_change, finish, max_batch, max_cmds_per_block, one, batchable, batch_ops,
  batch, commit, batch_or_one, apply, gather, length_cmds, Flags, new, with_hil,
}
use iemmixer.Engine.Core.Rules.{Post, one-Post}
use iemmixer.Engine.Core.Faults.{is_fault, panics, panics-append, sent}
use iemmixer.Engine.Core.Faults.Requests.{apply-Faulty}
use iemmixer.Engine.Core.Atomic.{apply_error_unchanged}
use iemmixer.Engine.Core.Capped.{CoreCapped, one-Keeps, apply-CoreCapped, new-CoreCapped}

module _ {F : Type 0} ⦃fl : Float F⦄ where
  -- Requests in turn, with the commands that they sent.
  abbrev pub run : List (Cmd F) → Core F → Core F × List (RtOp F)
  run [] c = (c, [])
  run (cmd ∷ cmds) c = let (d, r) = apply cmd c in let (e, rt) = run cmds d in (e, sent r ++ rt)

  -- Whether one of the requests injects a fault.
  abbrev pub asks_fault : List (Cmd F) → Bool
  asks_fault [] = false
  asks_fault (cmd ∷ cmds) = is_fault cmd || asks_fault cmds

  perform_all-steps :
      (ops : List (RtOp F)) (t : Targets F)
      → perform_all ops t ≡ (if panics ops then none else some (steps ops t))
  unfolding perform_all perform step
  perform_all-steps [] t = refl
  perform_all-steps (RtOp.panic ∷ ops) t = refl
  perform_all-steps (op ∷ ops) t = perform_all-steps ops (step op t)

  run-panics :
      (cmds : List (Cmd F)) (c : Core F)
      → panics (run cmds c).1 ≡ (c.flags.fault_injection && asks_fault cmds)
  run-panics [] c = ground arith
  run-panics (cmd ∷ cmds) c =
      let h = apply-Faulty cmd c in
      let f = ap (λ (g : Flags). g.fault_injection) h.flags in
      ground (
        arith,
        panics-append (sent (apply cmd c).1) (run cmds (apply cmd c).0).1,
        h.fault,
        f,
        run-panics cmds (apply cmd c).0,
      )

  Mirror-Mirrors :
      (c : Core F) (r : Core F × Result CmdError (Partial F))
      → Laid c
      → Small c.topo
      → CoreCapped r.0
      → Post Mirror c r
      → Post Mirrors c r
  Mirror-Mirrors c (d, ok p) h small g m = m h small g
  Mirror-Mirrors c (d, err e) h small g m = tt

  commit-Mirrors :
      (c : Core F) (r : Core F × Result CmdError (Partial F))
      → Post Mirrors c r
      → Post Mirrors c (commit c r)
  commit-Mirrors c (d, err x) h = tt
  commit-Mirrors c (d, ok all) h = elim (Bool-cases (ltb max_cmds_per_block (length all.rt))) [
    | inl b ↦ rw b tt
    | inr b ↦ rw b h
  ]

module _ {F : Type 0} ⦃fl : Float F⦄ (laws : FloatLaws F) where
  one-Mirrors :
      (cmd : Cmd F) (c : Core F) → Laid c → Small c.topo → CoreCapped c → Post Mirrors c (one cmd c)
  unfolding step
  one-Mirrors cmd c h small g = Mirror-Mirrors c (one cmd c) h small (one-Keeps laws cmd c g) (
      one-Post Mirror (Mirror-Rules laws) cmd c (λ state _. import-Mirror laws c state)
        (λ _ h small g. record { topo = refl; laid = h; moved = refl }))

  -- The operations of a batch, from where those before them left core and processor.
  batch_ops-Mirrors :
      (ops : Cmds F) (all : Partial F) (c d : Core F)
      → Mirrors c (d, all)
      → Small d.topo
      → CoreCapped d
      → Post Mirrors c (batch_ops ops all d)
  unfolding batch_ops
  batch_ops-Mirrors nil all c d m small g = m
  batch_ops-Mirrors (cons op ops) all c d m small g = elim (Bool-cases (batchable op)) [
    | inr b ↦ rw (b, batch_ops) tt
    | inl b ↦ elim (Result-cases (one op d).1) [
      | inr (x, e) ↦ rw (b, batch_ops, ◌>>=◌, e) tt
      | inl (p, e) ↦
          let n : Mirrors d ((one op d).0, p) = rw e at (one-Mirrors op d m.laid small g) in
          rw (b, batch_ops, ◌>>=◌, e)
            (batch_ops-Mirrors ops (gather all p) c (one op d).0
              (record {
                topo = n.topo ∙ m.topo;
                laid = n.laid;
                moved = steps-append all.rt p.rt (targets c) ∙ ap (steps p.rt) m.moved ∙ n.moved;
              })
              (subst Small (sym n.topo) small) (one-Keeps laws op d g))
    ]
  ]

  request-Mirrors :
      (cmd : Cmd F) (c : Core F)
      → Laid c
      → Small c.topo
      → CoreCapped c
      → Post Mirrors c (batch_or_one cmd c)
  unfolding batch
  request-Mirrors (Cmd.batch ops) c h small g =
      elim (Bool-cases (ltb max_batch (length_cmds ops))) [
        | inl b ↦ rw (b, batch) tt
        | inr b ↦
            rw (b, batch)
              (commit-Mirrors c (batch_ops ops no_change c) (
                batch_ops-Mirrors ops no_change c c (record { topo = refl; laid = h; moved = refl })
                  small g))
      ]
  request-Mirrors cmd c h small g = one-Mirrors cmd c h small g

  -- The whole of a request, refused or not.
  pub apply-Mirrors :
      (cmd : Cmd F) (c : Core F)
      → Laid c
      → Small c.topo
      → CoreCapped c
      → Mirrors c ((apply cmd c).0, record no_change { rt = sent (apply cmd c).1 })
  unfolding apply finish
  apply-Mirrors cmd c h small g = elim (Result-cases (apply cmd c).1) [
    | inr (x, e) ↦
        rw (apply_error_unchanged cmd c x e, e) (record { topo = refl; laid = h; moved = refl })
    | inl (o, e) ↦ elim (Result-cases (batch_or_one cmd c).1) [
      | inr (x, q) ↦ absurd (cc (rw (apply, ◌>>=◌, q) at e))
      | inl (p, q) ↦
          let m : Mirrors c ((batch_or_one cmd c).0, p) =
            rw (Post, q) at (request-Mirrors cmd c h small g) in
          rw (apply, ◌>>=◌, q)
            (record {
              topo = m.topo;
              laid = record { state = m.laid.state; taps = m.laid.taps };
              moved = m.moved;
            })
    ]
  ]

  -- Where the core's lists are as long as the topology says, its numbers in their ranges and the
  -- indices of the topology fit 16 bits, every request keeps the lists so.
  pub apply-Laid :
      (cmd : Cmd F) (c : Core F) → Laid c → Small c.topo → CoreCapped c → Laid (apply cmd c).0
  apply-Laid cmd c h small g = (apply-Mirrors cmd c h small g).laid

  -- Where the core's lists are as long as the topology says, its numbers in their ranges and the
  -- indices of the topology fit 16 bits, a processor that holds what the core does holds it again
  -- after the commands of any request. The one exception is the injection of a fault where the engine
  -- allows it: then the processor panics.
  pub apply_mirrors :
      (cmd : Cmd F) (c : Core F)
      → Laid c
      → Small c.topo
      → CoreCapped c
      → perform_all (sent (apply cmd c).1) (targets c)
        ≡ (if c.flags.fault_injection && is_fault cmd then none else some (targets (apply cmd c).0))
  apply_mirrors cmd c h small g =
      perform_all-steps (sent (apply cmd c).1) (targets c)
      ∙ rw ((apply-Faulty cmd c).fault, (apply-Mirrors cmd c h small g).moved) refl

  run_mirrors :
      (cmds : List (Cmd F)) (c : Core F)
      → Laid c
      → Small c.topo
      → CoreCapped c
      → steps (run cmds c).1 (targets c) ≡ targets (run cmds c).0
  run_mirrors [] c h small g = refl
  run_mirrors (cmd ∷ cmds) c h small g =
      let m = apply-Mirrors cmd c h small g in
      steps-append (sent (apply cmd c).1) (run cmds (apply cmd c).0).1 (targets c)
      ∙ ap (steps (run cmds (apply cmd c).0).1) m.moved
      ∙ run_mirrors cmds (apply cmd c).0 m.laid (subst Small (sym m.topo) small)
          (apply-CoreCapped laws cmd c g)

  -- Where the indices of the topology fit 16 bits, a processor started with the core's state and sent
  -- the commands of every request holds exactly what the core does: every gain, mute, pan, EQ,
  -- limiter and listen tap, with what the solos silence, whatever the requests are and whether they
  -- are refused or not. It panics exactly where a request injects a fault and the engine allows it.
  pub history_mirrors :
      (topo : Topology) (state : MixState F) (rev : ℕ) (flags : Flags) (hil : List ℕ)
      (cmds : List (Cmd F))
      → Small topo
      → perform_all (run cmds (with_hil (new topo state rev flags) hil)).1 (start topo state) ≡ (
          if flags.fault_injection && asks_fault cmds
          then none
          else some (targets (run cmds (with_hil (new topo state rev flags) hil)).0))
  unfolding new with_hil
  history_mirrors topo state rev flags hil cmds small =
      let c : Core F = with_hil (new topo state rev flags) hil in
      let moved =
        ap (steps (run cmds c).1) (start_mirrors laws topo state rev flags hil)
        ∙ run_mirrors cmds c (new-Laid topo state rev flags hil) small
            (new-CoreCapped laws topo state rev flags hil) in
      perform_all-steps (run cmds c).1 (start topo state) ∙ rw (run-panics cmds c, moved) refl
