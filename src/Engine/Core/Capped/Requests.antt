-- ===== src/Engine/Core/Capped/Requests.antt =====
-- Every request keeps the invariant, and a new core meets it.
use iemmixer.Base.{ℕ, List, [], ◌∷◌, map, arith, Result-cases, inl, inr}
use iemmixer.Float.{Float, FloatLaws}
use iemmixer.Proto.State.{MixState}
use iemmixer.Proto.Msg.{Cmd, Cmds, nil, cons}
use iemmixer.Engine.Topology.{Topology}
use iemmixer.Engine.Core.Defs.{Core, Flags, Partial, no_change, new, with_hil, finish}
use iemmixer.Engine.Core.Commands.{one}
use iemmixer.Engine.Core.Apply.{
  batch_ops, batch, apply, clear_from, clear_solos, end_test_signal, gather,
}
use iemmixer.Engine.Core.Capped.Setters.{CoreCapped, reconcile-LaidCapped}
use iemmixer.Engine.Core.Capped.Commands.{Keeps, one-Keeps}

module _ {F : Type 0} ⦃fl : Float F⦄ (laws : FloatLaws F) where
  -- A core made from any state whatever holds only finite numbers in their ranges.
  pub new-CoreCapped :
      (topo : Topology) (state : MixState F) (rev : ℕ) (flags : Flags) (hil : List ℕ)
      → CoreCapped (with_hil (new topo state rev flags) hil)
  unfolding new with_hil
  new-CoreCapped topo state rev flags hil = record {
    state = reconcile-LaidCapped laws topo state;
    test = tt;
  }

  batch_ops-Keeps : (ops : Cmds F) (all : Partial F) → Keeps (batch_ops ops all)
  unfolding batch_ops
  batch_ops-Keeps nil all c h = h
  batch_ops-Keeps (cons op ops) all c h = elim (Result-cases (one op c).1) [
    | inl (p, e) ↦ ground (
      arith,
      one-Keeps laws op c h,
      batch_ops-Keeps ops (gather all p) (one op c).0 (one-Keeps laws op c h),
    )
    | inr (x, e) ↦ ground (arith, one-Keeps laws op c h)
  ]

  batch-Keeps : (ops : Cmds F) → Keeps (batch ops)
  unfolding batch
  batch-Keeps ops c h = ground (arith, batch_ops-Keeps ops no_change c h)

  -- Where every number that the core holds is finite and in its range, every request, refused or
  -- not, keeps it so, whatever it sends.
  pub apply-CoreCapped : (cmd : Cmd F) (c : Core F) → CoreCapped c → CoreCapped (apply cmd c).0
  unfolding apply finish
  apply-CoreCapped (Cmd.batch ops) c h = ground (arith, batch-Keeps ops c h)
  apply-CoreCapped cmd c h = ground (arith, one-Keeps laws cmd c h)

module _ {F : Type 0} ⦃fl : Float F⦄ where
  clear_from-CoreCapped :
      (ms : List ℕ) (p : Partial F) (c : Core F) → CoreCapped c → CoreCapped (clear_from ms p c).0
  unfolding clear_from
  clear_from-CoreCapped [] p c h = h
  clear_from-CoreCapped (m ∷ ms) p c h =
      clear_from-CoreCapped ms _ _ (record { state = h.state; test = h.test })

  -- So do the clearing of the solos and the end of the test signal.
  pub clear_solos-CoreCapped : (c : Core F) → CoreCapped c → CoreCapped (clear_solos c).0
  unfolding clear_solos finish
  clear_solos-CoreCapped c h =
      let k = clear_from-CoreCapped (map (λ e. e.0) c.solo) no_change c h in
      record { state = k.state; test = k.test }

  pub end_test_signal-CoreCapped : (c : Core F) → CoreCapped c → CoreCapped (end_test_signal c).0
  unfolding end_test_signal finish
  end_test_signal-CoreCapped c h = ground arith
