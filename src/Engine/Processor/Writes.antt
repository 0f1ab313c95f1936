-- ===== src/Engine/Processor/Writes.antt =====
-- Each command of a write moves the targets as the core moves (crates/iem-engine/src/rt.rs,
-- `Processor::apply`; core.rs, the writes of one entity).
use iemmixer.Base.{
  ℕ, ◌<◌, ◌≡◌, refl, sym, ap, Bool, true, false, not, none, some, List, [], ◌∷◌, ◌++◌, arith,
  if◌then◌else◌, get_elem?, get_elem?-set_self, set, set-set, set_get, update, map_from,
  map_from-set, map_option,
}
use iemmixer.Float.{Float, FloatLaws}
use iemmixer.Proto.State.{InputState, Level, MixGroup, MixOut, Eq, db_to_lin}
use iemmixer.Engine.Rt.{RtOp, ix, eq_params, input_params}
use iemmixer.Engine.Dsp.{Gain, switch}
use iemmixer.Engine.Processor.{
  InputTarget, OutTarget, GroupTarget, Targets, has_shadow, with_out, set_input_target,
  set_limiter_target, set_fader, set_eq_target, step, steps,
}
use iemmixer.Engine.Processor.Mirror.{
  ix_small, input_target, out_target, group_target, level_target, mix_target, targets, EqValid,
  retarget_lem, eq_set_lem, mix_written,
}
use iemmixer.Engine.Core.{Core, MixRec, put_mix, put_input, out_op, limiter_op, group_op}

pub map_option_if {ℓ κ} :
    {A : Type ℓ} {B : Type κ} (f : A → B) (b : Bool) (a : A) (a' : B)
    → f a ≡ a'
    → map_option f (if b then some a else none) ≡ (if b then some a' else none)
map_option_if f true a a' h = ap some h
map_option_if f false a a' h = refl

module _ {F : Type 0} where
  pub put_mix-put_mix :
      (c : Core F) (m : ℕ) (a b : MixRec F) → put_mix (put_mix c m a) m b ≡ put_mix c m b
  put_mix-put_mix c m a b =
      ap (λ ms. record c { s = record (c.s) { mixes = ms } }) (set-set c.s.mixes m a b)

  pub put_mix_same :
      (c : Core F) (m : ℕ) (r : MixRec F) → get_elem? c.s.mixes m ≡ some r → put_mix c m r ≡ c
  put_mix_same c m r h =
      ap (λ ms. record c { s = record (c.s) { mixes = ms } }) (set_get c.s.mixes m r h)

  pub put_mix_get :
      (c : Core F) (m : ℕ) (r a : MixRec F)
      → get_elem? c.s.mixes m ≡ some r
      → get_elem? (put_mix c m a).s.mixes m ≡ some a
  put_mix_get c m r a h = get_elem?-set_self c.s.mixes m a r h

module _ {F : Type 0} ⦃fl : Float F⦄ where
  pub steps-append :
      (xs ys : List (RtOp F)) (t : Targets F) → steps (xs ++ ys) t ≡ steps ys (steps xs t)
  steps-append [] ys t = refl
  steps-append (x ∷ xs) ys t = steps-append xs ys (step x t)

  -- A command that is left out where nothing differs.
  pub optional_step :
      (b : Bool) (op : RtOp F) (c d : Core F)
      → (b ≡ true → d ≡ c)
      → step op (targets c) ≡ targets d
      → steps (if b then [] else op ∷ []) (targets c) ≡ targets d
  optional_step true op c d h g = ap targets (sym (h refl))
  optional_step false op c d h g = g

module _ {F : Type 0} ⦃fl : Float F⦄ (laws : FloatLaws F) where
  out_step :
      (c : Core F) (m : ℕ) (r : MixRec F) (o : MixOut F) (f : OutTarget F → OutTarget F)
      → get_elem? c.s.mixes m ≡ some r
      → f (out_target r.out) ≡ out_target o
      → record (targets c) { mixes = update (targets c).mixes m (with_out f) }
        ≡ targets (put_mix c m (record r { out = o }))
  out_step c m r o f e h =
      mix_written laws c m r (record r { out = o }) (with_out f) e
        (λ i. record {
          out = h i;
          shadow = map_option_if f (has_shadow c.topo m) (out_target r.out) (out_target o) h i;
          levels = map_from (level_target c.solo m) 0 r.levels;
          groups = map_from (λ _. group_target) 0 r.groups;
        })

  pub mix_out_step :
      (c : Core F) (m : ℕ) (r : MixRec F) (o : MixOut F)
      → m < 65536
      → get_elem? c.s.mixes m ≡ some r
      → step (out_op m o) (targets c)
        ≡ targets (
            put_mix c m
              (record r { out = record (r.out) { volume_db = o.volume_db; muted = o.muted } }))
  unfolding step out_op
  mix_out_step c m r o b e = rw (ix_small m b) (
      out_step c m r (record (r.out) { volume_db = o.volume_db; muted = o.muted })
        (set_fader (db_to_lin o.volume_db) o.muted) e refl)

  pub mix_eq_step :
      (c : Core F) (m : ℕ) (r : MixRec F) (q : Eq F)
      → m < 65536
      → get_elem? c.s.mixes m ≡ some r
      → EqValid (eq_params q)
      → step (RtOp.mix_eq (ix m) (eq_params q)) (targets c)
        ≡ targets (put_mix c m (record r { out = record (r.out) { eq = q } }))
  unfolding step
  mix_eq_step c m r q b e v = rw (ix_small m b) (
      out_step c m r (record (r.out) { eq = q }) (set_eq_target (eq_params q)) e
        (ap (λ p. record (out_target r.out) { eq = p })
          (eq_set_lem laws (eq_params r.out.eq) (eq_params q) v)))

  pub limiter_step :
      (c : Core F) (m : ℕ) (r : MixRec F) (o : MixOut F)
      → m < 65536
      → get_elem? c.s.mixes m ≡ some r
      → step (limiter_op m o) (targets c)
        ≡ targets (put_mix c m (record r { out = record (r.out) { limiter = o.limiter } }))
  unfolding step limiter_op
  limiter_step c m r o b e = rw (ix_small m b) (
      out_step c m r (record (r.out) { limiter = o.limiter })
        (set_limiter_target o.limiter.enabled o.limiter.limit_db) e refl)

  groups_step :
      (c : Core F) (m g : ℕ) (r : MixRec F) (s s' : MixGroup F) (f : GroupTarget F → GroupTarget F)
      → get_elem? c.s.mixes m ≡ some r
      → get_elem? r.groups g ≡ some s
      → f (group_target s) ≡ group_target s'
      → record (targets c) {
        mixes = update (targets c).mixes m (λ n. record n { groups = update n.groups g f });
      }
        ≡ targets (put_mix c m (record r { groups = set r.groups g s' }))
  groups_step c m g r s s' f e d h =
      mix_written laws c m r (record r { groups = set r.groups g s' })
        (λ n. record n { groups = update n.groups g f }) e
        (ap (λ (gs : List (GroupTarget F)). record (mix_target c.topo c.solo m r) { groups = gs })
          (map_from-set (λ _. group_target) f 0 g g r.groups s s' d (omega arith) h))

  pub group_step :
      (c : Core F) (m g : ℕ) (r : MixRec F) (s o : MixGroup F)
      → m < 65536
      → g < 65536
      → get_elem? c.s.mixes m ≡ some r
      → get_elem? r.groups g ≡ some s
      → step (group_op m g o) (targets c)
        ≡ targets (
            put_mix c m (record r {
              groups = set r.groups g (record s { gain_db = o.gain_db; muted = o.muted });
            }))
  unfolding step group_op
  group_step c m g r s o b b' e d =
      rw (ix_small m b, ix_small g b')
        (groups_step c m g r s (record s { gain_db = o.gain_db; muted = o.muted }) _ e d refl)

  pub group_eq-step :
      (c : Core F) (m g : ℕ) (r : MixRec F) (s : MixGroup F) (q : Eq F)
      → m < 65536
      → g < 65536
      → get_elem? c.s.mixes m ≡ some r
      → get_elem? r.groups g ≡ some s
      → EqValid (eq_params q)
      → step (RtOp.group_eq (ix m) (ix g) (eq_params q)) (targets c)
        ≡ targets (put_mix c m (record r { groups = set r.groups g (record s { eq = q }) }))
  unfolding step
  group_eq-step c m g r s q b b' e d v =
      rw (ix_small m b, ix_small g b')
        (groups_step c m g r s (record s { eq = q }) _ e d
          (ap (λ p. record (group_target s) { eq = p })
            (eq_set_lem laws (eq_params s.eq) (eq_params q) v)))

  pub level_step :
      (c : Core F) (m k : ℕ) (r : MixRec F) (old new : Level F)
      → m < 65536
      → k < 65536
      → get_elem? c.s.mixes m ≡ some r
      → get_elem? r.levels k ≡ some old
      → step
          (RtOp.level
            (ix m)
            (ix k)
            (db_to_lin new.gain_db)
            new.pan
            (level_target c.solo m k new).muted)
          (targets c)
        ≡ targets (put_mix c m (record r { levels = set r.levels k new }))
  unfolding step
  level_step c m k r old new b b' e d =
      rw (ix_small m b, ix_small k b')
        (mix_written laws c m r (record r { levels = set r.levels k new }) _ e
          (ap (λ (gs : List (Gain F)). record (mix_target c.topo c.solo m r) { levels = gs })
            (map_from-set (level_target c.solo m) (λ _. level_target c.solo m k new) 0 k k r.levels
              old new d (omega arith) refl)))

  inputs_step :
      (c : Core F) (i : ℕ) (s s' : InputState F) (f : InputTarget F → InputTarget F)
      → get_elem? c.s.inputs i ≡ some s
      → f (input_target s) ≡ input_target s'
      → record (targets c) { inputs = update (targets c).inputs i f } ≡ targets (put_input c i s')
  inputs_step c i s s' f e h =
      ap (λ (xs : List (InputTarget F)). record (targets c) { inputs = xs })
        (map_from-set (λ _. input_target) f 0 i i c.s.inputs s s' e (omega arith) h)

  pub input_step :
      (c : Core F) (i : ℕ) (s o : InputState F)
      → i < 65536
      → get_elem? c.s.inputs i ≡ some s
      → step (RtOp.input (ix i) (input_params o)) (targets c)
        ≡ targets (put_input c i (record o { eq = s.eq }))
  unfolding step input_params
  input_step c i s o b e = rw (ix_small i b) (
      inputs_step c i s (record o { eq = s.eq }) (set_input_target (input_params o)) e
        (λ j. record {
          trim = retarget_lem laws (db_to_lin s.trim_db) (db_to_lin o.trim_db) j;
          gate = retarget_lem laws (switch (not s.muted)) (switch (not o.muted)) j;
          proc_mix = retarget_lem laws (switch s.processing) (switch o.processing) j;
          eq = eq_params s.eq;
        }))

  pub input_eq-step :
      (c : Core F) (i : ℕ) (s : InputState F) (q : Eq F)
      → i < 65536
      → get_elem? c.s.inputs i ≡ some s
      → EqValid (eq_params q)
      → step (RtOp.input_eq (ix i) (eq_params q)) (targets c)
        ≡ targets (put_input c i (record s { eq = q }))
  unfolding step
  input_eq-step c i s q b e v = rw (ix_small i b) (
      inputs_step c i s (record s { eq = q }) _ e
        (ap (λ p. record (input_target s) { eq = p })
          (eq_set_lem laws (eq_params s.eq) (eq_params q) v)))
