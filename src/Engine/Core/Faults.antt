-- ===== src/Engine/Core/Faults.antt =====
-- Which writes leave the real-time thread alive (crates/iem-engine/src/core/commands.rs; core.rs):
-- all of them, and the commands of a full sync.
use iemmixer.Base.{
  ℕ, suc, ◌≡◌, refl, sym, ap, ◌∙◌, inl, inr, Bool, true, false, ◌&&◌, ◌||◌, Bool-cases, Option,
  none, some, List, [], ◌∷◌, ◌++◌, map, Result, ok, err, Result-cases, arith, if◌then◌else◌, ltb,
  length, is_some, unwrap_or, map_get, map_insert, map_remove, range_from,
}
use iemmixer.Float.{Float}
use iemmixer.Proto.State.{MixId, MixState, InputState, MixGroup, TestSignal}
use iemmixer.Proto.Msg.{Cmd, Cmds, nil, cons, CmdError}
use iemmixer.Engine.Topology.{levels}
use iemmixer.Engine.Rt.{RtOp}
use iemmixer.Engine.Core.{
  Core, MixRec, Partial, Outcome, ◌>>=◌, no_change, changed, with_effect, finish, max_batch,
  max_cmds_per_block, one, batchable, batch_ops, batch, commit, batch_or_one, apply, gather,
  length_cmds, put_solo, put_listen, put_stop, put_test, stop_test, listen_partial, stop_slots,
  level_op, level_ops, out_op, limiter_op, group_op, group_sync, mix_sync, input_sync, full_sync,
  import_state, reconcile, list_eq, is_nil, holds, need_fault_injection,
}
use iemmixer.Engine.Core.Atomic.{apply_error_unchanged}
use iemmixer.Engine.Core.Cases.{set_input_cases, set_out_cases, set_level_cases, set_group_cases}
use iemmixer.Engine.Core.Rules.{Rules, Post, one-Post}
pub mod Requests

module _ {F : Type 0} where
  abbrev pub is_fault : Cmd F → Bool
  is_fault Cmd.inject_fault = true
  is_fault _ = false

  abbrev pub is_panic : RtOp F → Bool
  is_panic RtOp.panic = true
  is_panic _ = false

  abbrev pub panics : List (RtOp F) → Bool
  panics [] = false
  panics (op ∷ ops) = is_panic op || panics ops

  pub panics-append : (xs ys : List (RtOp F)) → panics (xs ++ ys) ≡ (panics xs || panics ys)
  panics-append [] ys = refl
  panics-append (x ∷ xs) ys = ground (arith, panics-append xs ys)

  pub calm-append :
      (xs ys : List (RtOp F)) → panics xs ≡ false → panics ys ≡ false → panics (xs ++ ys) ≡ false
  calm-append xs ys h g = ground (arith, panics-append xs ys, h, g)

  -- The commands of an outcome.
  abbrev pub sent : Result CmdError (Outcome F) → List (RtOp F)
  sent (ok o) = o.rt
  sent (err e) = []

stop_slots-panics :
    (F : Type 0) ⦃fl : Float F⦄ (m slot : ℕ) (ls : List (Option ℕ))
    → panics {F = F} (stop_slots m slot ls).1 ≡ false
unfolding stop_slots
stop_slots-panics F m slot [] = refl
stop_slots-panics F m slot (l ∷ ls) = elim (Bool-cases (holds l m)) [
  | inl e ↦ rw (e, stop_slots) (stop_slots-panics F m (suc slot) ls)
  | inr e ↦ rw (e, stop_slots) (stop_slots-panics F m (suc slot) ls)
]

module _ {F : Type 0} ⦃fl : Float F⦄ where
  level_ops-panics : (c : Core F) (m : ℕ) (ks : List ℕ) → panics (map (level_op c m) ks) ≡ false
  unfolding level_op
  level_ops-panics c m [] = refl
  level_ops-panics c m (k ∷ ks) = level_ops-panics c m ks

  input_sync-panics : (i : ℕ) (ss : List (InputState F)) → panics (input_sync i ss) ≡ false
  unfolding input_sync
  input_sync-panics i [] = refl
  input_sync-panics i (s ∷ ss) = input_sync-panics (suc i) ss

  group_sync-panics : (m g : ℕ) (gs : List (MixGroup F)) → panics (group_sync m g gs) ≡ false
  unfolding group_sync group_op
  group_sync-panics m g [] = refl
  group_sync-panics m g (s ∷ gs) = group_sync-panics m (suc g) gs

  mix_sync-panics : (c : Core F) (m : ℕ) (rs : List (MixRec F)) → panics (mix_sync c m rs) ≡ false
  unfolding mix_sync out_op limiter_op level_ops
  mix_sync-panics c m [] = refl
  mix_sync-panics c m (r ∷ rs) =
      calm-append (level_ops c m) (group_sync m 0 r.groups ++ mix_sync c (suc m) rs)
        (level_ops-panics c m (range_from 0 (levels c.topo m)))
        (calm-append (group_sync m 0 r.groups) (mix_sync c (suc m) rs)
          (group_sync-panics m 0 r.groups) (mix_sync-panics c (suc m) rs))

  -- The flags stay and the commands do not panic.
  pub record Harmless (c : Core F) (r : Core F × Partial F) : Type 0 where
    pub flags : r.0.flags ≡ c.flags
    pub calm : panics r.1.rt ≡ false

  pub import-Harmless : (c : Core F) (state : MixState F) → Harmless c (import_state state c)
  unfolding import_state full_sync
  import-Harmless c state = record {
    flags = refl;
    calm =
        let r = (reconcile c.topo state).0 in
        calm-append (input_sync 0 r.inputs) (mix_sync (record c { s = r }) 0 r.mixes)
          (input_sync-panics 0 r.inputs) (mix_sync-panics (record c { s = r }) 0 r.mixes);
  }

  solo-Harmless :
      (c : Core F) (mix : MixId) (m : ℕ) (new : List ℕ) → Harmless c (put_solo mix m new c)
  unfolding put_solo changed level_ops
  solo-Harmless c mix m new = elim (Bool-cases (list_eq (unwrap_or (map_get m c.solo) []) new)) [
    | inl e ↦ rw (e, put_solo) (record { flags = refl; calm = refl })
    | inr e ↦
        rw (e, put_solo)
          (record {
            flags = refl;
            calm =
                level_ops-panics
                  (record c {
                    solo = if is_nil new then map_remove m c.solo else map_insert m new c.solo;
                  })
                  m (range_from 0 (levels c.topo m));
          })
  ]

  stop-Harmless : (c : Core F) (m : ℕ) → Harmless c (put_stop m c)
  unfolding put_stop listen_partial changed
  stop-Harmless c m = record {
    flags = refl;
    calm = ground (arith, stop_slots-panics F m 0 c.listen);
  }

  test-Harmless :
      (c : Core F) (i : ℕ) (signal : TestSignal F) (mask : Option (List Bool)) (l : Bool)
      → Harmless c (put_test i signal mask l c)
  unfolding put_test changed
  test-Harmless c i signal none l = record { flags = refl; calm = refl }
  test-Harmless c i signal (some mask) l = record { flags = refl; calm = refl }

  stop_test-Harmless : (c : Core F) → Harmless c (stop_test c)
  unfolding stop_test changed
  stop_test-Harmless c = elim (Bool-cases (is_some c.test)) [
    | inl e ↦ rw (e, stop_test) (record { flags = refl; calm = refl })
    | inr e ↦ rw (e, stop_test) (record { flags = refl; calm = refl })
  ]

  pub Harmless-Rules : Rules {F = F} Harmless
  unfolding with_effect changed put_solo put_listen put_stop put_test stop_test listen_partial
      level_ops out_op limiter_op group_op level_op
  Harmless-Rules = record {
    kept = λ c. record { flags = refl; calm = refl };
    effect = λ c e n. record { flags = refl; calm = refl };
    arm = λ c. record { flags = refl; calm = refl };
    reset = λ c mix m. record { flags = refl; calm = refl };
    input = λ c i new.
        set_input_cases (Harmless c) c i new (record { flags = refl; calm = refl })
          (λ old node e f q. record { flags = refl; calm = ground arith });
    out = λ c m new.
        set_out_cases (Harmless c) c m new (record { flags = refl; calm = refl })
          (λ rec node e f q. record { flags = refl; calm = ground arith });
    level = λ c m k new.
        set_level_cases (Harmless c) c m k new (record { flags = refl; calm = refl })
          (λ rec old node s f w e o. record { flags = refl; calm = ground arith });
    group = λ c m g new.
        set_group_cases (Harmless c) c m g new (record { flags = refl; calm = refl })
          (λ rec old node group f w e o. record { flags = refl; calm = ground arith });
    solo = λ c mix m new e. solo-Harmless c mix m new;
    listen = λ c m. record { flags = refl; calm = refl };
    stop = stop-Harmless;
    test = test-Harmless;
    stop_test = stop_test-Harmless;
  }
