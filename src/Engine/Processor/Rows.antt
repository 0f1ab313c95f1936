-- ===== src/Engine/Processor/Rows.antt =====
-- The commands that bring a processor to a core's state, row by row
-- (crates/iem-engine/src/core.rs, `full_sync`, `level_ops`).
use iemmixer.Base.{
  ℕ, suc, ◌+◌, ◌≤◌, ◌<◌, ◌≡◌, refl, sym, ap, subst, ◌∙◌, not, Option, none, some, List, [], ◌∷◌,
  ◌++◌, arith, map, All, length, get_elem?, range_from, update, update-update, update_id,
  update_fun, renew, map_option,
}
use iemmixer.Float.{Float, FloatLaws}
use iemmixer.Proto.State.{InputState, Level, MixGroup, db_to_lin}
use iemmixer.Engine.Topology.{levels}
use iemmixer.Engine.Rt.{RtOp, ix, eq_params, input_params}
use iemmixer.Engine.Dsp.{switch}
use iemmixer.Engine.Processor.{
  InputTarget, GroupTarget, OutTarget, MixTarget, Targets, with_out, set_limiter_target, set_fader,
  set_eq_target, steps, step,
}
use iemmixer.Engine.Processor.Mirror.{
  ix_small, input_target, out_target, group_target, level_target, EqValid, retarget_lem, eq_set_lem,
}
use iemmixer.Engine.Processor.Writes.{steps-append}
use iemmixer.Engine.Core.{
  Core, MixRec, level, level_op, level_ops, solo_out, group_op, group_sync, input_sync, mix_sync,
  out_op, limiter_op,
}

map_option_three {ℓ} :
    {A : Type ℓ} (f g h k : A → A) (x : Option A)
    → ((a : A) → h (g (f a)) ≡ k a)
    → map_option h (map_option g (map_option f x)) ≡ map_option k x
map_option_three f g h k none e = refl
map_option_three f g h k (some a) e = ap some (e a)

module _ {F : Type 0} ⦃fl : Float F⦄ where
  -- The levels of mix `m` set to those of a row.
  abbrev pub new_levels : Core F → ℕ → ℕ → List (Level F) → MixTarget F → MixTarget F
  new_levels c m k ls n = record n {
    levels = renew (λ k l _. level_target c.solo m k l) k k ls n.levels;
  }

  steps-level_ops_from :
      (c : Core F) (m k : ℕ) (rec : MixRec F) (ls : List (Level F)) (t : Targets F)
      → m < 65536
      → k + length ls ≤ 65536
      → get_elem? c.s.mixes m ≡ some rec
      → ((j : ℕ) → get_elem? ls j ≡ get_elem? rec.levels (k + j))
      → steps (map (level_op c m) (range_from k (length ls))) t
        ≡ record t { mixes = update t.mixes m (new_levels c m k ls) }
  unfolding step level_op level solo_out
  steps-level_ops_from c m k rec [] t b b' e h =
      ap (λ ms. record t { mixes = ms }) (sym (update_id t.mixes m))
  steps-level_ops_from c m k rec (l ∷ ls) t b b' e h =
      let here : get_elem? rec.levels k ≡ some l =
        subst (λ j. get_elem? rec.levels j ≡ some l) (omega arith) (sym (h 0)) in
      steps-level_ops_from c m (suc k) rec ls (step (level_op c m k) t) b (omega (arith, b')) e
        (λ j. h (suc j) ∙ ap (get_elem? rec.levels) (omega arith))
      ∙ rw (e, here, ix_small m b, ix_small k (omega (arith, b')))
          (ap (λ ms. record t { mixes = ms }) (update-update t.mixes m _ _))

  -- The commands of a mix's row of levels.
  pub steps-level_ops :
      (c : Core F) (m : ℕ) (rec : MixRec F) (t : Targets F)
      → m < 65536
      → levels c.topo m ≤ 65536
      → get_elem? c.s.mixes m ≡ some rec
      → length rec.levels ≡ levels c.topo m
      → steps (level_ops c m) t
        ≡ record t { mixes = update t.mixes m (new_levels c m 0 rec.levels) }
  unfolding level_ops
  steps-level_ops c m rec t b b' e w =
      subst
        (λ n.
          steps (map (level_op c m) (range_from 0 n)) t
          ≡ record t { mixes = update t.mixes m (new_levels c m 0 rec.levels) })
        w
        (steps-level_ops_from c m 0 rec rec.levels t b (omega (arith, w, b')) e
          (λ j. ap (get_elem? rec.levels) (omega arith)))

module _ {F : Type 0} ⦃fl : Float F⦄ (laws : FloatLaws F) where
  -- The inputs set to those of a list.
  pub steps-input_sync :
      (i : ℕ) (ss : List (InputState F)) (t : Targets F)
      → i + length ss ≤ 65536
      → All (λ s. EqValid (eq_params s.eq)) ss
      → steps (input_sync i ss) t
        ≡ record t { inputs = renew (λ _ s _. input_target s) i i ss t.inputs }
  unfolding step input_sync input_params
  steps-input_sync i [] t b v = refl
  steps-input_sync i (s ∷ ss) t b v =
      steps-input_sync (suc i) ss
        (step (RtOp.input_eq (ix i) (eq_params s.eq)) (step (RtOp.input (ix i) (input_params s)) t))
        (omega (arith, b)) v.1
      ∙ rw (ix_small i (omega (arith, b))) (
          ap
            (λ (ns : List (InputTarget F)). record t {
              inputs = renew (λ _ s _. input_target s) (suc i) (suc i) ss ns;
            })
            (update-update t.inputs i _ _
              ∙ update_fun t.inputs i _ (λ _. input_target s)
                  (λ n j. record {
                    trim = retarget_lem laws n.trim (db_to_lin s.trim_db) j;
                    gate = retarget_lem laws n.gate (switch (not s.muted)) j;
                    proc_mix = retarget_lem laws n.proc_mix (switch s.processing) j;
                    eq = eq_set_lem laws n.eq (eq_params s.eq) v.0 j;
                  })))

  -- The strips of mix `m` set to those of a list.
  abbrev pub new_groups : ℕ → List (MixGroup F) → MixTarget F → MixTarget F
  new_groups g gs n = record n { groups = renew (λ _ s _. group_target s) g g gs n.groups }

  pub steps-group_sync :
      (m g : ℕ) (gs : List (MixGroup F)) (t : Targets F)
      → m < 65536
      → g + length gs ≤ 65536
      → All (λ s. EqValid (eq_params s.eq)) gs
      → steps (group_sync m g gs) t ≡ record t { mixes = update t.mixes m (new_groups g gs) }
  unfolding step group_sync group_op
  steps-group_sync m g [] t b b' v = ap (λ ms. record t { mixes = ms }) (sym (update_id t.mixes m))
  steps-group_sync m g (s ∷ gs) t b b' v =
      steps-group_sync m (suc g) gs
        (step (RtOp.group_eq (ix m) (ix g) (eq_params s.eq)) (step (group_op m g s) t)) b
        (omega (arith, b')) v.1
      ∙ rw (ix_small m b, ix_small g (omega (arith, b')))
          (ap (λ (ms : List (MixTarget F)). record t { mixes = ms })
            (ap (λ ns. update ns m (new_groups (suc g) gs)) (update-update t.mixes m _ _)
              ∙ update-update t.mixes m _ _
              ∙ update_fun t.mixes m _ (new_groups g (s ∷ gs)) (λ n.
                ap
                  (λ (ns : List (GroupTarget F)). record n {
                    groups = renew (λ _ s _. group_target s) (suc g) (suc g) gs ns;
                  })
                  (update-update n.groups g _ _
                    ∙ update_fun n.groups g _ (λ _. group_target s)
                        (λ x j. record {
                          eq = eq_set_lem laws x.eq (eq_params s.eq) v.0 j;
                          fader = (group_target s).fader;
                        })))))

  -- What a mix's part of a full sync sets.
  abbrev pub new_mix : Core F → ℕ → MixRec F → MixTarget F → MixTarget F
  new_mix c m rec n = new_groups 0 rec.groups (
      new_levels c m 0 rec.levels (record n {
        out = out_target rec.out;
        shadow = map_option (λ _. out_target rec.out) n.shadow;
      }))

  -- What the full sync of a mix needs of it.
  pub record Row (c : Core F) (m : ℕ) (rec : MixRec F) : Type 0 where
    pub levels_fit : levels c.topo m ≤ 65536
    pub width : length rec.levels ≡ levels c.topo m
    pub groups_fit : length rec.groups ≤ 65536
    pub out_eq : EqValid (eq_params rec.out.eq)
    pub group_eqs : All (λ s. EqValid (eq_params s.eq)) rec.groups

  out_all :
      (rec : MixRec F) (o : OutTarget F)
      → EqValid (eq_params rec.out.eq)
      → set_limiter_target rec.out.limiter.enabled rec.out.limiter.limit_db (
          set_eq_target
            (eq_params rec.out.eq)
            (set_fader (db_to_lin rec.out.volume_db) rec.out.muted o))
        ≡ out_target rec.out
  out_all rec o v j = record {
    eq = eq_set_lem laws o.eq (eq_params rec.out.eq) v j;
    limiter = (out_target rec.out).limiter;
    fader = (out_target rec.out).fader;
  }

  out_steps :
      (m : ℕ) (rec : MixRec F) (t : Targets F)
      → m < 65536
      → EqValid (eq_params rec.out.eq)
      → steps
          (out_op m rec.out ∷ RtOp.mix_eq (ix m) (eq_params rec.out.eq) ∷ limiter_op m rec.out ∷ [])
          t
        ≡ record t { mixes = update t.mixes m (with_out (λ _. out_target rec.out)) }
  unfolding step out_op limiter_op
  out_steps m rec t b v =
      let fader : OutTarget F → OutTarget F =
        set_fader (db_to_lin rec.out.volume_db) rec.out.muted in
      let eq : OutTarget F → OutTarget F = set_eq_target (eq_params rec.out.eq) in
      let limiter : OutTarget F → OutTarget F =
        set_limiter_target rec.out.limiter.enabled rec.out.limiter.limit_db in
      rw (ix_small m b) (
        ap (λ (ms : List (MixTarget F)). record t { mixes = ms })
          (ap (λ (ms : List (MixTarget F)). update ms m (with_out limiter))
              (update-update t.mixes m _ _)
            ∙ update-update t.mixes m _ _
            ∙ update_fun t.mixes m _ (with_out (λ _. out_target rec.out)) (λ n j. record n {
              out = out_all rec n.out v j;
              shadow =
                  map_option_three fader eq limiter (λ _. out_target rec.out) n.shadow
                    (λ o. out_all rec o v) j;
            })))

  -- The commands of the mixes from `m` on.
  pub steps-mix_sync :
      (c : Core F) (m : ℕ) (recs : List (MixRec F)) (t : Targets F)
      → m + length recs ≤ 65536
      → ((j : ℕ) (rec : MixRec F)
          → get_elem? recs j ≡ some rec
          → (get_elem? c.s.mixes (m + j) ≡ some rec) × Row c (m + j) rec)
      → steps (mix_sync c m recs) t ≡ record t { mixes = renew (new_mix c) m m recs t.mixes }
  unfolding mix_sync
  steps-mix_sync c m [] t b h = refl
  steps-mix_sync c m (rec ∷ recs) t b h =
      let here : (get_elem? c.s.mixes m ≡ some rec) × Row c m rec =
        subst (λ j. (get_elem? c.s.mixes j ≡ some rec) × Row c j rec) (omega arith)
          (h 0 rec refl) in
      let e : get_elem? c.s.mixes m ≡ some rec = here.0 in
      let r : Row c m rec = here.1 in
      let t1 : Targets F = record t {
        mixes = update t.mixes m (with_out (λ _. out_target rec.out));
      } in
      let t2 : Targets F = record t { mixes = update t1.mixes m (new_levels c m 0 rec.levels) } in
      let t3 : Targets F = record t { mixes = update t2.mixes m (new_groups 0 rec.groups) } in
      let rest : List (RtOp F) = mix_sync c (suc m) recs in
      let groups : List (RtOp F) = group_sync m 0 rec.groups in
      ap (steps (level_ops c m ++ (groups ++ rest))) (out_steps m rec t (omega (arith, b)) r.out_eq)
      ∙ steps-append (level_ops c m) (groups ++ rest) t1
      ∙ ap (steps (groups ++ rest))
          (steps-level_ops c m rec t1 (omega (arith, b)) r.levels_fit e r.width)
      ∙ steps-append groups rest t2
      ∙ ap (steps rest) (
          steps-group_sync m 0 rec.groups t2 (omega (arith, b)) (omega (arith, r.groups_fit))
            r.group_eqs)
      ∙ steps-mix_sync c (suc m) recs t3 (omega (arith, b)) (λ j rec' q.
        subst (λ i. (get_elem? c.s.mixes i ≡ some rec') × Row c i rec') (omega arith)
          (h (suc j) rec' q))
      ∙ ap
          (λ (ms : List (MixTarget F)). record t {
            mixes = renew (new_mix c) (suc m) (suc m) recs ms;
          })
          (ap (λ (ms : List (MixTarget F)). update ms m (new_groups 0 rec.groups))
              (update-update t.mixes m _ _)
            ∙ update-update t.mixes m _ _)
