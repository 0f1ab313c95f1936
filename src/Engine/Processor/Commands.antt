-- ===== src/Engine/Processor/Commands.antt =====
-- Every write of the control core moves the processor along with it (crates/iem-engine/src/core.rs,
-- `set_input`, `set_out`, `set_level`, `set_group`, `set_solo`, `start_listen`, `stop_listen`).
use iemmixer.Base.{
  ℕ, suc, ◌%◌, is_some, ◌<◌, ◌≡◌, ◌≢◌, refl, ap, ◌∙◌, inl, inr, Bool, false, Bool-cases,
  Option-cases, Option, none, some, List, [], ◌∷◌, arith, if◌then◌else◌, All-get, length,
  length-set, get_elem?, get_elem?-set_self, get-bound, bound-get, set, map_get, map_insert,
  map_remove, map_get-insert, map_get-remove, ◌==◌, ==_iff, Result, ok, unwrap_or,
}
use iemmixer.Float.{Float, FloatLaws}
use iemmixer.Proto.State.{MixId, InputState, Level, MixGroup, MixOut, TestSignal}
use iemmixer.Proto.Msg.{CmdError}
use iemmixer.Engine.Topology.{mix_index}
use iemmixer.Engine.Topology.Slots.{position-get}
use iemmixer.Engine.Rt.{RtOp, ix}
use iemmixer.Engine.Processor.{steps, step}
use iemmixer.Engine.Processor.Mirror.{targets}
use iemmixer.Engine.Processor.Valid.{EqCapped-EqValid}
use iemmixer.Engine.Processor.Entities.{input_synced, out_synced, level_synced, group_synced}
use iemmixer.Engine.Processor.Laid.{Small, Laid, put_input-Laid, put_mix-Laid}
use iemmixer.Engine.Processor.Solos.{solo_synced, listen_synced, stop_synced}
use iemmixer.Engine.Core.{
  Core, MixRec, Partial, no_change, changed, with_effect, put_mix, set_input, set_out, set_level,
  set_group, put_solo, put_listen, put_stop, put_test, stop_test, listen_slot, listen_partial,
  stop_slots, list_eq, is_nil, mix_at,
}
use iemmixer.Engine.Core.Cases.{set_input_cases, set_out_cases, set_level_cases, set_group_cases}
use iemmixer.Engine.Core.Rules.{Rules}
use iemmixer.Engine.Core.Capped.{CoreCapped, RecCapped}

solo_others :
    (m n : ℕ) (new : List ℕ) (solo : List (ℕ × List ℕ))
    → n ≢ m
    → map_get n (if is_nil new then map_remove m solo else map_insert m new solo) ≡ map_get n solo
solo_others m n new solo q =
    let b : (n == m) ≡ false = ground (arith, (==_iff n m).0, q) in
    elim (Bool-cases (is_nil new)) [
      | inl e ↦ rw e (map_get-remove n m solo ∙ rw b refl)
      | inr e ↦ rw e (map_get-insert n m new solo ∙ rw b refl)
    ]

length-stop_slots :
    (F : Type 0) ⦃fl : Float F⦄ (m slot : ℕ) (ls : List (Option ℕ))
    → length (stop_slots {F = F} m slot ls).0 ≡ length ls
unfolding stop_slots
length-stop_slots F m slot [] = refl
length-stop_slots F m slot (l ∷ ls) = ground (arith, length-stop_slots F m (suc slot) ls)

module _ {F : Type 0} ⦃fl : Float F⦄ where
  -- A command leaves the topology and the lengths, and its commands bring the processor to the core.
  pub record Mirrors (c : Core F) (r : Core F × Partial F) : Type 0 where
    pub topo : r.0.topo ≡ c.topo
    pub laid : Laid r.0
    pub moved : steps r.1.rt (targets c) ≡ targets r.0

  abbrev pub Mirror : Core F → Core F × Partial F → Type 0
  Mirror c r = Laid c → Small c.topo → CoreCapped r.0 → Mirrors c r

  pub kept-Mirror : (c : Core F) → Mirror c (c, no_change)
  kept-Mirror c h small g = record { topo = refl; laid = h; moved = refl }

  -- The mix that a name stands for has a record, whose index fits 16 bits.
  mix_at-rec :
      (c : Core F) (mix : MixId) (m : ℕ)
      → mix_at c mix ≡ ok m
      → Laid c
      → Small c.topo
      → (rec : MixRec F) × (get_elem? c.s.mixes m ≡ some rec) × (m < 65536)
  unfolding mix_at mix_index
  mix_at-rec c mix m e h small = elim (Option-cases (mix_index c.topo mix)) [
    | inl q ↦ absurd (cc (rw (q, mix_at) at e))
    | inr (j, q) ↦
        let q' : ◌≡◌ {A = Result CmdError ℕ} (ok j) (ok m) = rw (q, mix_at) at e in
        let same : j ≡ m = cc in
        let (node, g, w) = position-get _ c.topo.mixes j q in
        let b : j < length c.topo.mixes = get-bound c.topo.mixes j node g in
        let (rec, r) = bound-get c.s.mixes m (omega (arith, b, same, h.state.mixes)) in
        (rec, r, omega (arith, b, same, small.mixes))
  ]

  solo-Mirror :
      (c : Core F) (mix : MixId) (m : ℕ) (new : List ℕ)
      → mix_at c mix ≡ ok m
      → Mirror c (put_solo mix m new c)
  unfolding put_solo changed
  solo-Mirror c mix m new e h small g =
      elim (Bool-cases (list_eq (unwrap_or (map_get m c.solo) []) new)) [
        | inl q ↦ rw (q, put_solo) (kept-Mirror c h small (rw (q, put_solo) at g))
        | inr q ↦
            let (rec, r, b) = mix_at-rec c mix m e h small in
            rw (q, put_solo)
              (record {
                topo = refl;
                laid = record { state = h.state; taps = h.taps };
                moved = solo_synced c m rec _ b h small r (λ n p. solo_others m n new c.solo p);
              })
      ]

  listen_partial-rt : (rt : List (RtOp F)) (c : Core F) → (listen_partial rt c).rt ≡ rt
  unfolding listen_partial changed
  listen_partial-rt [] c = refl
  listen_partial-rt (op ∷ rt) c = refl

  listen-Mirror : (c : Core F) (m : ℕ) → Mirror c (put_listen m (listen_slot c m) c)
  unfolding put_listen
  listen-Mirror c m h small g = record {
    topo = refl;
    laid = record {
      state = h.state;
      taps = length-set c.listen (listen_slot c m) (some m) ∙ h.taps;
    };
    moved =
        ap (λ rt. steps rt (targets c))
          (listen_partial-rt (RtOp.listen (listen_slot c m % 256) (some (ix m)) ∷ [])
            (record c { listen = set c.listen (listen_slot c m) (some m) }))
        ∙ listen_synced c m;
  }

  stop-Mirror : (c : Core F) (m : ℕ) → Mirror c (put_stop m c)
  unfolding put_stop
  stop-Mirror c m h small g = record {
    topo = refl;
    laid = record { state = h.state; taps = length-stop_slots F m 0 c.listen ∙ h.taps };
    moved =
        ap (λ rt. steps rt (targets c)) (listen_partial-rt (stop_slots m 0 c.listen).1 _)
        ∙ stop_synced c m c.listen h.taps;
  }

  test-Mirror :
      (c : Core F) (i : ℕ) (signal : TestSignal F) (mask : Option (List Bool)) (l : Bool)
      → Mirror c (put_test i signal mask l c)
  unfolding put_test changed step
  test-Mirror c i signal none l h small g = record {
    topo = refl;
    laid = record { state = h.state; taps = h.taps };
    moved = refl;
  }
  test-Mirror c i signal (some mask) l h small g = record {
    topo = refl;
    laid = record { state = h.state; taps = h.taps };
    moved = refl;
  }

  stop_test-Mirror : (c : Core F) → Mirror c (stop_test c)
  unfolding stop_test changed step
  stop_test-Mirror c h small g = elim (Bool-cases (is_some c.test)) [
    | inl e ↦
        rw (e, stop_test)
          (record { topo = refl; laid = record { state = h.state; taps = h.taps }; moved = refl })
    | inr e ↦ rw (e, stop_test) (kept-Mirror c h small (rw (e, stop_test) at g))
  ]

module _ {F : Type 0} ⦃fl : Float F⦄ (laws : FloatLaws F) where
  input-Mirror : (c : Core F) (i : ℕ) (new : InputState F) → Mirror c (set_input c i new)
  unfolding changed
  input-Mirror c i new =
      set_input_cases (λ r. Mirror c r) c i new (kept-Mirror c)
        (λ old node e f q h small g. record {
          topo = refl;
          laid = put_input-Laid c i new h;
          moved =
              input_synced laws c i node.id old new
                (omega (arith, get-bound c.topo.inputs i node f, small.inputs)) e
                (EqCapped-EqValid laws new.eq
                  (All-get _ _ i new g.state.inputs
                    (get_elem?-set_self c.s.inputs i new old e)).eq);
        })

  -- What the core holds of mix `m` once it was written is capped.
  put_mix-capped :
      (c : Core F) (m : ℕ) (rec new : MixRec F)
      → get_elem? c.s.mixes m ≡ some rec
      → CoreCapped (put_mix c m new)
      → RecCapped new
  put_mix-capped c m rec new e g =
      All-get RecCapped _ m new g.state.mixes (get_elem?-set_self c.s.mixes m new rec e)

  out-Mirror : (c : Core F) (m : ℕ) (new : MixOut F) → Mirror c (set_out c m new)
  unfolding changed
  out-Mirror c m new =
      set_out_cases (λ r. Mirror c r) c m new (kept-Mirror c)
        (λ rec node e f q h small g. record {
          topo = refl;
          laid = put_mix-Laid c m rec (record rec { out = new }) e refl refl h;
          moved =
              out_synced laws c m node.id rec new
                (omega (arith, get-bound c.topo.mixes m node f, small.mixes)) e
                (EqCapped-EqValid laws new.eq
                  (put_mix-capped c m rec (record rec { out = new }) e g).out.eq);
        })

  level-Mirror : (c : Core F) (m k : ℕ) (new : Level F) → Mirror c (set_level c m k new)
  unfolding changed
  level-Mirror c m k new =
      set_level_cases (λ r. Mirror c r) c m k new (kept-Mirror c)
        (λ rec old node s f w e o h small g. record {
          topo = refl;
          laid =
              put_mix-Laid c m rec (record rec { levels = set rec.levels k new }) e
                (length-set rec.levels k new) refl h;
          moved =
              level_synced laws c m k node.id s rec old new
                (omega (arith, get-bound c.topo.mixes m node f, small.mixes))
                (omega (
                  arith,
                  get-bound rec.levels k old o,
                  (h.state.rows m rec e).width,
                  small.levels m,
                ))
                e o;
        })

  group-Mirror : (c : Core F) (m g : ℕ) (new : MixGroup F) → Mirror c (set_group c m g new)
  unfolding changed
  group-Mirror c m k new =
      set_group_cases (λ r. Mirror c r) c m k new (kept-Mirror c)
        (λ rec old node group f w e o h small g.
          let new_rec : MixRec F = record rec { groups = set rec.groups k new } in
          record {
            topo = refl;
            laid = put_mix-Laid c m rec new_rec e refl (length-set rec.groups k new) h;
            moved =
                group_synced laws c m k node.id group.id rec old new
                  (omega (arith, get-bound c.topo.mixes m node f, small.mixes))
                  (omega (arith, get-bound c.topo.groups k group w, small.groups)) e o
                  (EqCapped-EqValid laws new.eq
                    (All-get _ _ k new (put_mix-capped c m rec new_rec e g).groups
                      (get_elem?-set_self rec.groups k new old o)).eq);
          })

  pub Mirror-Rules : Rules {F = F} Mirror
  unfolding step with_effect changed
  Mirror-Rules = record {
    kept = kept-Mirror;
    effect = λ c e n h small g. record { topo = refl; laid = h; moved = refl };
    arm = λ c h small g. record { topo = refl; laid = h; moved = refl };
    reset = λ c mix m h small g. record { topo = refl; laid = h; moved = refl };
    input = input-Mirror;
    out = out-Mirror;
    level = level-Mirror;
    group = group-Mirror;
    solo = solo-Mirror;
    listen = listen-Mirror;
    stop = stop-Mirror;
    test = test-Mirror;
    stop_test = stop_test-Mirror;
  }
