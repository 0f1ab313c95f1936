-- ===== src/Engine/Processor/Entities.antt =====
-- The commands of one entity's write bring the targets to what the core holds after it
-- (crates/iem-engine/src/core.rs, `set_input`, `set_out`, `set_level`, `set_group`).
use iemmixer.Base.{
  ℕ, ◌<◌, ◌≡◌, sym, ap, ◌∙◌, ◌&&◌, some, List, [], ◌∷◌, ◌++◌, if◌then◌else◌, get_elem?,
  get_elem?-set_self, set, set-set, set_get,
}
use iemmixer.Float.{Float, FloatLaws}
use iemmixer.Proto.State.{MixId, GroupId, Source, InputState, Level, MixGroup, MixOut}
use iemmixer.Proto.Equality.{bool_eq, eq_eq, limiter_eq, input_eq}
use iemmixer.Proto.Equality.Sound.{
  both, bool_eq_sound, eq_eq_sound, limiter_eq_sound, input_eq_sound,
}
use iemmixer.Engine.Rt.{RtOp, ix, eq_params, input_params}
use iemmixer.Engine.Processor.{steps}
use iemmixer.Engine.Processor.Mirror.{targets, EqValid}
use iemmixer.Engine.Processor.Writes.{
  steps-append, optional_step, put_mix-put_mix, put_mix_same, put_mix_get, mix_out_step,
  mix_eq_step, limiter_step, group_step, group_eq-step, level_step, input_step, input_eq-step,
}
use iemmixer.Engine.Core.{
  Core, MixRec, put_mix, put_input, changed, input_written, out_written, level_written,
  group_written, level, level_op, solo_out, out_op, limiter_op, group_op,
}

module _ {F : Type 0} where
  pub put_input-put_input :
      (c : Core F) (i : ℕ) (a b : InputState F) → put_input (put_input c i a) i b ≡ put_input c i b
  put_input-put_input c i a b =
      ap (λ xs. record c { s = record (c.s) { inputs = xs } }) (set-set c.s.inputs i a b)

  put_input_same :
      (c : Core F) (i : ℕ) (s : InputState F)
      → get_elem? c.s.inputs i ≡ some s
      → put_input c i s ≡ c
  put_input_same c i s h =
      ap (λ xs. record c { s = record (c.s) { inputs = xs } }) (set_get c.s.inputs i s h)

module _ {F : Type 0} ⦃fl : Float F⦄ (laws : FloatLaws F) where
  pub input_synced :
      (c : Core F) (i : ℕ) (id : _) (old new : InputState F)
      → i < 65536
      → get_elem? c.s.inputs i ≡ some old
      → EqValid (eq_params new.eq)
      → steps (input_written c i id old new).1.rt (targets c) ≡ targets (put_input c i new)
  unfolding changed
  input_synced c i id old new b e v =
      let mid : InputState F = record new { eq = old.eq } in
      let d : Core F = put_input c i mid in
      let a : List (RtOp F) =
        if input_eq (record old { eq = new.eq }) new
        then []
        else RtOp.input (ix i) (input_params new) ∷ [] in
      let b' : List (RtOp F) =
        if eq_eq old.eq new.eq then [] else RtOp.input_eq (ix i) (eq_params new.eq) ∷ [] in
      steps-append a b' (targets c)
      ∙ (ap (steps b') (
            optional_step (input_eq (record old { eq = new.eq }) new)
              (RtOp.input (ix i) (input_params new)) c d
              (λ q.
                ap (put_input c i) (
                  sym (
                    ap (λ (x : InputState F). record x { eq = old.eq })
                      (input_eq_sound laws (record old { eq = new.eq }) new q)))
                ∙ put_input_same c i old e)
              (input_step laws c i old new b e))
          ∙ (optional_step (eq_eq old.eq new.eq) (RtOp.input_eq (ix i) (eq_params new.eq)) d
                (put_input d i new)
                (λ q.
                  put_input-put_input c i mid new
                  ∙ ap (λ q. put_input c i (record new { eq = q }))
                      (sym (eq_eq_sound laws old.eq new.eq q)))
                (input_eq-step laws d i mid new.eq b (get_elem?-set_self c.s.inputs i mid old e) v)
              ∙ ap targets (put_input-put_input c i mid new)))

  pub out_synced :
      (c : Core F) (m : ℕ) (id : MixId) (rec : MixRec F) (new : MixOut F)
      → m < 65536
      → get_elem? c.s.mixes m ≡ some rec
      → EqValid (eq_params new.eq)
      → steps (out_written c m id rec new).1.rt (targets c)
        ≡ targets (put_mix c m (record rec { out = new }))
  unfolding changed
  out_synced c m id rec new b e v =
      let o1 : MixOut F = record (rec.out) { volume_db = new.volume_db; muted = new.muted } in
      let r1 : MixRec F = record rec { out = o1 } in
      let c1 : Core F = put_mix c m r1 in
      let e1 : get_elem? c1.s.mixes m ≡ some r1 = put_mix_get c m rec r1 e in
      let o2 : MixOut F = record o1 { eq = new.eq } in
      let r2 : MixRec F = record rec { out = o2 } in
      let c2 : Core F = put_mix c1 m r2 in
      let e2 : get_elem? c2.s.mixes m ≡ some r2 = put_mix_get c1 m r1 r2 e1 in
      let r3 : MixRec F = record rec { out = new } in
      let xs : List (RtOp F) =
        if fl.eq rec.out.volume_db new.volume_db && bool_eq rec.out.muted new.muted
        then []
        else out_op m new ∷ [] in
      let ys : List (RtOp F) =
        if eq_eq rec.out.eq new.eq then [] else RtOp.mix_eq (ix m) (eq_params new.eq) ∷ [] in
      let zs : List (RtOp F) =
        if limiter_eq rec.out.limiter new.limiter then [] else limiter_op m new ∷ [] in
      steps-append xs (ys ++ zs) (targets c)
      ∙ (ap (steps (ys ++ zs)) (
            optional_step (fl.eq rec.out.volume_db new.volume_db && bool_eq rec.out.muted new.muted)
              (out_op m new) c c1
              (λ q.
                let (p, w) = both (fl.eq rec.out.volume_db new.volume_db) _ q in
                ap (λ (o : MixOut F). put_mix c m (record rec { out = o }))
                  (λ i. record (rec.out) {
                    volume_db = sym (laws.eq_sound rec.out.volume_db new.volume_db p) i;
                    muted = sym (bool_eq_sound rec.out.muted new.muted w) i;
                  })
                ∙ put_mix_same c m rec e)
              (mix_out_step laws c m rec new b e))
          ∙ (steps-append ys zs (targets c1)
              ∙ (ap (steps zs) (
                    optional_step (eq_eq rec.out.eq new.eq) (RtOp.mix_eq (ix m) (eq_params new.eq))
                      c1 c2
                      (λ q.
                        ap (λ q. put_mix c1 m (record rec { out = record o1 { eq = q } }))
                          (sym (eq_eq_sound laws rec.out.eq new.eq q))
                        ∙ put_mix_same c1 m r1 e1)
                      (mix_eq_step laws c1 m r1 new.eq b e1 v))
                  ∙ (optional_step (limiter_eq rec.out.limiter new.limiter) (limiter_op m new) c2
                        (put_mix c2 m r3)
                        (λ q.
                          ap (λ l. put_mix c2 m (record rec { out = record o2 { limiter = l } }))
                            (sym (limiter_eq_sound laws rec.out.limiter new.limiter q))
                          ∙ put_mix_same c2 m r2 e2)
                        (limiter_step laws c2 m r2 new b e2)
                      ∙ ap targets (put_mix-put_mix c1 m r2 r3 ∙ put_mix-put_mix c m r1 r3)))))

  pub group_synced :
      (c : Core F) (m g : ℕ) (mix : MixId) (group : GroupId) (rec : MixRec F) (old new : MixGroup F)
      → m < 65536
      → g < 65536
      → get_elem? c.s.mixes m ≡ some rec
      → get_elem? rec.groups g ≡ some old
      → EqValid (eq_params new.eq)
      → steps (group_written c m g mix group rec old new).1.rt (targets c)
        ≡ targets (put_mix c m (record rec { groups = set rec.groups g new }))
  unfolding changed
  group_synced c m g mix group rec old new b b' e d v =
      let s1 : MixGroup F = record old { gain_db = new.gain_db; muted = new.muted } in
      let r1 : MixRec F = record rec { groups = set rec.groups g s1 } in
      let c1 : Core F = put_mix c m r1 in
      let e1 : get_elem? c1.s.mixes m ≡ some r1 = put_mix_get c m rec r1 e in
      let r2 : MixRec F = record rec { groups = set (set rec.groups g s1) g new } in
      let xs : List (RtOp F) =
        if fl.eq old.gain_db new.gain_db && bool_eq old.muted new.muted
        then []
        else group_op m g new ∷ [] in
      let ys : List (RtOp F) =
        if eq_eq old.eq new.eq then [] else RtOp.group_eq (ix m) (ix g) (eq_params new.eq) ∷ [] in
      steps-append xs ys (targets c)
      ∙ (ap (steps ys) (
            optional_step (fl.eq old.gain_db new.gain_db && bool_eq old.muted new.muted)
              (group_op m g new) c c1
              (λ q.
                let (p, w) = both (fl.eq old.gain_db new.gain_db) _ q in
                ap (λ (s : MixGroup F). put_mix c m (record rec { groups = set rec.groups g s }))
                  (λ i. record old {
                    gain_db = sym (laws.eq_sound old.gain_db new.gain_db p) i;
                    muted = sym (bool_eq_sound old.muted new.muted w) i;
                  })
                ∙ ap (λ gs. put_mix c m (record rec { groups = gs })) (set_get rec.groups g old d)
                ∙ put_mix_same c m rec e)
              (group_step laws c m g rec old new b b' e d))
          ∙ (optional_step (eq_eq old.eq new.eq) (RtOp.group_eq (ix m) (ix g) (eq_params new.eq)) c1
                (put_mix c1 m r2)
                (λ q.
                  ap
                    (λ q.
                      put_mix c1 m (record r1 { groups = set r1.groups g (record s1 { eq = q }) }))
                    (sym (eq_eq_sound laws old.eq new.eq q))
                  ∙ ap (λ gs. put_mix c1 m (record r1 { groups = gs })) (set-set rec.groups g s1 s1)
                  ∙ put_mix_same c1 m r1 e1)
                (group_eq-step laws c1 m g r1 s1 new.eq b b' e1
                  (get_elem?-set_self rec.groups g s1 old d) v)
              ∙ ap targets (
                  put_mix-put_mix c m r1 r2
                  ∙ ap (λ gs. put_mix c m (record rec { groups = gs }))
                      (set-set rec.groups g s1 new))))

  pub level_synced :
      (c : Core F) (m k : ℕ) (mix : MixId) (s : Source) (rec : MixRec F) (old new : Level F)
      → m < 65536
      → k < 65536
      → get_elem? c.s.mixes m ≡ some rec
      → get_elem? rec.levels k ≡ some old
      → steps (level_written c m k mix s rec new).1.rt (targets c)
        ≡ targets (put_mix c m (record rec { levels = set rec.levels k new }))
  unfolding changed level_op level solo_out
  level_synced c m k mix s rec old new b b' e d =
      let r' : MixRec F = record rec { levels = set rec.levels k new } in
      rw (put_mix_get c m rec r' e, get_elem?-set_self rec.levels k new old d)
        (level_step laws c m k rec old new b b' e d)
