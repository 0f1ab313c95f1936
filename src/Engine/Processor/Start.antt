-- ===== src/Engine/Processor/Start.antt =====
-- A new processor holds what a new core does (crates/iem-engine/src/rt.rs, `Processor::with_hil`;
-- core.rs, `Core::new`).
use iemmixer.Base.{
  ℕ, suc, ◌≡◌, refl, ap, ◌∙◌, Bool, false, ◌||◌, none, some, List, [], ◌∷◌, arith, All,
  if◌then◌else◌, map, map_from,
}
use iemmixer.Float.{Float, FloatLaws}
use iemmixer.Proto.State.{InputState, MixGroup, MixOut, MixState}
use iemmixer.Proto.Capped.{InputCapped, GroupCapped, OutCapped}
use iemmixer.Engine.Topology.{Topology}
use iemmixer.Engine.Rt.{EqParams, eq_params, input_params}
use iemmixer.Engine.Dsp.{eq_new}
use iemmixer.Engine.Processor.{
  has_shadow, start_input, start_out, start_group, start_level, start_mix, start,
}
use iemmixer.Engine.Processor.Mirror.{
  input_target, out_target, group_target, level_target, mix_target, targets, EqValid,
}
use iemmixer.Engine.Processor.Valid.{EqCapped-EqValid}
use iemmixer.Engine.Core.{MixRec, reconcile, Flags, new, with_hil}
use iemmixer.Engine.Core.Capped.{RecCapped, reconcile-LaidCapped}

map-map_from {ℓ κ μ} :
    {A : Type ℓ} {B : Type κ} {P : A → Type μ} (f : A → B) (g : ℕ → A → B) (n : ℕ) (xs : List A)
    → ((k : ℕ) (a : A) → P a → f a ≡ g k a)
    → All P xs
    → map f xs ≡ map_from g n xs
map-map_from f g n [] e h = refl
map-map_from f g n (x ∷ xs) e h =
    ap (λ b. b ∷ map f xs) (e n x h.0) ∙ ap (λ bs. g n x ∷ bs) (map-map_from f g (suc n) xs e h.1)

map_from-All {ℓ κ μ} :
    {A : Type ℓ} {B : Type κ} {P : A → Type μ} (f g : ℕ → A → B) (n : ℕ) (xs : List A)
    → ((k : ℕ) (a : A) → P a → f k a ≡ g k a)
    → All P xs
    → map_from f n xs ≡ map_from g n xs
map_from-All f g n [] e h = refl
map_from-All f g n (x ∷ xs) e h =
    ap (λ b. b ∷ map_from f (suc n) xs) (e n x h.0)
    ∙ ap (λ bs. g n x ∷ bs) (map_from-All f g (suc n) xs e h.1)

or_false : (b : Bool) → b ≡ (b || false)
or_false b = ground arith

module _ {F : Type 0} ⦃fl : Float F⦄ where
  eq_new_lem : (p : EqParams F) → EqValid p → eq_new p ≡ p
  unfolding eq_new
  eq_new_lem p v = rw (eq_new, v.b0, v.b1, v.b2, v.b3, v.b4, v.global) refl

module _ {F : Type 0} ⦃fl : Float F⦄ (laws : FloatLaws F) where
  start_input_lem : (s : InputState F) → InputCapped s → start_input s ≡ input_target s
  unfolding input_params
  start_input_lem s h =
      ap (λ q. record (input_target s) { eq = q })
        (eq_new_lem (eq_params s.eq) (EqCapped-EqValid laws s.eq h.eq))

  start_out_lem : (o : MixOut F) → OutCapped o → start_out o ≡ out_target o
  start_out_lem o h =
      ap (λ q. record (out_target o) { eq = q })
        (eq_new_lem (eq_params o.eq) (EqCapped-EqValid laws o.eq h.eq))

  start_group_lem : (s : MixGroup F) → GroupCapped s → start_group s ≡ group_target s
  start_group_lem s h =
      ap (λ q. record (group_target s) { eq = q })
        (eq_new_lem (eq_params s.eq) (EqCapped-EqValid laws s.eq h.eq))

  start_mix_lem :
      (topo : Topology) (m : ℕ) (rec : MixRec F)
      → RecCapped rec
      → start_mix topo m rec ≡ mix_target topo [] m rec
  start_mix_lem topo m rec h j =
      let o = start_out_lem rec.out h.out in
      record {
        out = o j;
        shadow = if has_shadow topo m then some (o j) else none;
        levels =
            map-map_from start_level (level_target [] m) 0 rec.levels
              (λ k l _ i. record (start_level l) { muted = or_false l.muted i }) h.levels j;
        groups =
            map-map_from start_group (λ _. group_target) 0 rec.groups (λ k s g. start_group_lem s g)
              h.groups j;
      }

  -- The processor that starts with a state holds what the core that starts with it does.
  pub start_mirrors :
      (topo : Topology) (state : MixState F) (rev : ℕ) (flags : Flags) (hil : List ℕ)
      → start topo state ≡ targets (with_hil (new topo state rev flags) hil)
  unfolding start new with_hil
  start_mirrors topo state rev flags hil j =
      let capped = reconcile-LaidCapped laws topo state in
      record {
        inputs =
            map-map_from start_input (λ _. input_target) 0 (reconcile topo state).0.inputs
              (λ k s h. start_input_lem s h) capped.inputs j;
        mixes =
            map_from-All (start_mix topo) (mix_target topo []) 0 (reconcile topo state).0.mixes
              (start_mix_lem topo) capped.mixes j;
        listen = none ∷ none ∷ [];
      }
