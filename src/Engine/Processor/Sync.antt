-- ===== src/Engine/Processor/Sync.antt =====
-- A full sync brings any processor of the topology to the core's state
-- (crates/iem-engine/src/core.rs, `import_state`, `full_sync`).
use iemmixer.Base.{
  ℕ, ◌≡◌, refl, sym, ap, subst, ◌∙◌, some, List, [], ◌∷◌, arith, All, All-get, get_elem?, map_from,
  length-map_from, get-map_from, renew_lem,
}
use iemmixer.Float.{Float, FloatLaws}
use iemmixer.Proto.State.{InputState, MixGroup, MixState}
use iemmixer.Engine.Processor.{InputTarget, MixTarget, Targets, has_shadow, steps}
use iemmixer.Engine.Processor.Mirror.{input_target, out_target, group_target, mix_target, targets}
use iemmixer.Engine.Processor.Writes.{map_option_if, steps-append}
use iemmixer.Engine.Processor.Rows.{Row, new_mix, steps-input_sync, steps-mix_sync}
use iemmixer.Engine.Processor.Valid.{EqCapped-EqValid}
use iemmixer.Engine.Processor.Laid.{Small, RowLaid, StateLaid, reconcile-StateLaid}
use iemmixer.Engine.Processor.Solos.{new_levels-mix_target}
use iemmixer.Engine.Processor.Commands.{Mirror}
use iemmixer.Engine.Core.{
  Core, MixRec, Reconciled, reconcile, import_state, full_sync, input_sync, mix_sync,
}
use iemmixer.Engine.Core.Capped.{RecCapped, LaidCapped}

All-mono {ℓ κ μ} :
    {A : Type ℓ} {P : A → Type κ} {Q : A → Type μ} (xs : List A)
    → ((a : A) → P a → Q a)
    → All P xs
    → All Q xs
All-mono [] f h = tt
All-mono (x ∷ xs) f h = (f x h.0, All-mono xs f h.1)

module _ {F : Type 0} ⦃fl : Float F⦄ (laws : FloatLaws F) where
  new_mix-mix_target :
      (c : Core F) (m : ℕ) (old rec : MixRec F)
      → RowLaid c.topo m old
      → RowLaid c.topo m rec
      → new_mix laws c m rec (mix_target c.topo c.solo m old) ≡ mix_target c.topo c.solo m rec
  new_mix-mix_target c m old rec o r j = record {
    out = out_target rec.out;
    shadow =
        map_option_if (λ _. out_target rec.out) (has_shadow c.topo m) (out_target old.out)
          (out_target rec.out) refl j;
    levels = new_levels-mix_target c c.solo m old rec (o.width ∙ sym r.width) j;
    groups =
        renew_lem (λ _ s _. group_target s) (λ _. group_target) rec.groups
          (map_from (λ _. group_target) 0 old.groups)
          (length-map_from (λ _. group_target) 0 old.groups ∙ o.groups ∙ sym r.groups)
          (λ n x y p q. refl) j;
  }

  capped-Row :
      (c : Core F) (m : ℕ) (rec : MixRec F)
      → Small c.topo
      → RowLaid c.topo m rec
      → RecCapped rec
      → Row laws c m rec
  capped-Row c m rec small r g = record {
    levels_fit = small.levels m;
    width = r.width;
    groups_fit = omega (arith, r.groups, small.groups);
    out_eq = EqCapped-EqValid laws rec.out.eq g.out.eq;
    group_eqs =
        All-mono rec.groups (λ (s : MixGroup F) k. EqCapped-EqValid laws s.eq k.eq) g.groups;
  }

  -- The commands of a full sync, for a core `d` that differs from `c` in its state alone.
  steps-full_sync :
      (c : Core F) (s : Reconciled F)
      → Small c.topo
      → StateLaid c.topo c.s
      → StateLaid c.topo s
      → LaidCapped s
      → steps (full_sync (record c { s = s })) (targets c) ≡ targets (record c { s = s })
  unfolding full_sync
  steps-full_sync c s small old new g =
      let d : Core F = record c { s = s } in
      let t : Targets F = record (targets c) { inputs = map_from (λ _. input_target) 0 s.inputs } in
      steps-append (input_sync 0 s.inputs) (mix_sync d 0 s.mixes) (targets c)
      ∙ ap (steps (mix_sync d 0 s.mixes)) (
          steps-input_sync laws 0 s.inputs (targets c) (omega (arith, new.inputs, small.inputs))
            (All-mono s.inputs (λ (i : InputState F) k. EqCapped-EqValid laws i.eq k.eq) g.inputs)
          ∙ ap (λ (ns : List (InputTarget F)). record (targets c) { inputs = ns })
              (renew_lem (λ _ s _. input_target s) (λ _. input_target) s.inputs
                (map_from (λ _. input_target) 0 c.s.inputs)
                (length-map_from (λ _. input_target) 0 c.s.inputs ∙ old.inputs ∙ sym new.inputs)
                (λ n x y p q. refl)))
      ∙ steps-mix_sync laws d 0 s.mixes t (omega (arith, new.mixes, small.mixes)) (λ j rec e.
        subst (λ k. (get_elem? s.mixes k ≡ some rec) × Row laws d k rec) (omega arith)
          (
            e,
            capped-Row d j rec small (new.rows j rec e) (All-get RecCapped s.mixes j rec g.mixes e),
          ))
      ∙ ap (λ (ms : List (MixTarget F)). record t { mixes = ms })
          (renew_lem (new_mix laws d) (mix_target c.topo c.solo) s.mixes
            (map_from (mix_target c.topo c.solo) 0 c.s.mixes)
            (length-map_from (mix_target c.topo c.solo) 0 c.s.mixes ∙ old.mixes ∙ sym new.mixes)
            (λ n x y p q.
              let (x', p', q') = get-map_from (mix_target c.topo c.solo) 0 n c.s.mixes y q in
              ap (new_mix laws d n x) (q' ∙ ap (λ k. mix_target c.topo c.solo k x') (omega arith))
              ∙ new_mix-mix_target d n x' x (old.rows n x' p') (new.rows n x p)))

  pub import-Mirror : (c : Core F) (state : MixState F) → Mirror c (import_state state c)
  unfolding import_state
  import-Mirror c state h small g = record {
    topo = refl;
    laid = record { state = reconcile-StateLaid c.topo state; taps = h.taps };
    moved =
        steps-full_sync c (reconcile c.topo state).0 small h.state
          (reconcile-StateLaid c.topo state) g.state;
  }
