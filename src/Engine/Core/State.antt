-- ===== src/Engine/Core/State.antt =====
-- The mix state in topology order (crates/iem-engine/src/core/state.rs).
use iemmixer.Base.{
  ℕ, suc, true, Option, none, some, List, [], ◌∷◌, map, unwrap_or, map_option, bind_option, lookup,
  insert, collect, range_from,
}
use iemmixer.Float.{Float}
use iemmixer.Proto.State.{
  MixId, Source, InputState, Level, MixGroup, MixOut, Mix, MixState, default_input, default_level,
  default_group, default_out,
}
use iemmixer.Proto.Shape.{Dropped}
use iemmixer.Proto.Shape
use iemmixer.Engine.Topology.{Topology, InputNode, GroupNode, MixNode, levels, source, info}

-- One mix in topology order: its output, its level slots and its group strips.
pub record MixRec (F : Type 0) : Type 0 where
  pub out : MixOut F
  pub levels : List (Level F)
  pub groups : List (MixGroup F)

pub record Reconciled (F : Type 0) : Type 0 where
  pub inputs : List (InputState F)
  pub mixes : List (MixRec F)

-- The entries of two lists side by side, up to the shorter one.
abbrev pub zip_with {ℓ κ μ} :
    {A : Type ℓ} {B : Type κ} {C : Type μ} → (A → B → C) → List A → List B → List C
zip_with f [] ys = []
zip_with f (x ∷ xs) [] = []
zip_with f (x ∷ xs) (y ∷ ys) = f x y ∷ zip_with f xs ys

module _ {F : Type 0} ⦃fl : Float F⦄ where
  -- The level of `source`, if the mix holds one.
  unfoldable pub mix_level : Mix F → Source → Option (Level F)
  mix_level x (Source.input id) = lookup id x.inputs
  mix_level x (Source.mix id) = lookup id x.mixes

  -- The level of slot `k` of mix `m`, defaulted.
  unfoldable pub lay_level : Topology → ℕ → Option (Mix F) → ℕ → Level F
  unfolding mix_level
  lay_level topo m mix k =
      unwrap_or (bind_option (source topo m k) (λ s. bind_option mix (λ x. mix_level x s)))
        default_level

  unfoldable pub lay_mix : Topology → ℕ → Option (Mix F) → MixRec F
  unfolding lay_level
  lay_mix topo m mix = record {
    out = unwrap_or (map_option (λ x. x.out) mix) default_out;
    levels = map (lay_level topo m mix) (range_from 0 (levels topo m));
    groups =
        map (λ g. unwrap_or (bind_option mix (λ x. lookup g.id x.groups)) default_group)
          topo.groups;
  }

  unfoldable pub lay_mixes : Topology → List (MixId × Mix F) → ℕ → List MixNode → List (MixRec F)
  lay_mixes topo mixes m [] = []
  lay_mixes topo mixes m (node ∷ nodes) =
      lay_mix topo m (lookup node.id mixes) ∷ lay_mixes topo mixes (suc m) nodes

  -- The state for this topology: known ids capped, missing ones defaulted.
  unfoldable pub reconcile : Topology → MixState F → Reconciled F × List Dropped
  reconcile topo state =
      let (shaped, dropped) = Shape.reconcile (info topo) state in
      (
        record {
          inputs = map (λ n. unwrap_or (lookup n.id shaped.inputs) default_input) topo.inputs;
          mixes = lay_mixes topo shaped.mixes 0 topo.mixes;
        },
        dropped,
      )

  -- The loop over a mix's level slots.
  unfoldable pub put_levels : Topology → ℕ → ℕ → List (Level F) → Mix F → Mix F
  put_levels topo m k [] mix = mix
  put_levels topo m k (level ∷ rest) mix = put_levels topo m (suc k) rest (elim (source topo m k) [
    | some s ↦ elim s [
      | Source.input id ↦ record mix { inputs = insert id level mix.inputs }
      | Source.mix id ↦ record mix { mixes = insert id level mix.mixes }
    ]
    | none ↦ mix
  ])

  unfoldable pub to_mix : Topology → ℕ → MixRec F → Mix F
  unfolding put_levels
  to_mix topo m rec =
      let mix : Mix F = record { out = rec.out; inputs = []; groups = []; mixes = [] } in
      record (put_levels topo m 0 rec.levels mix) {
        groups = collect [] (zip_with (λ (g : GroupNode) s. (g.id, s)) topo.groups rec.groups);
      }

  unfoldable pub to_mixes : Topology → ℕ → List MixNode → List (MixRec F) → List (MixId × Mix F)
  to_mixes topo m [] recs = []
  to_mixes topo m (node ∷ nodes) [] = []
  to_mixes topo m (node ∷ nodes) (rec ∷ recs) =
      (node.id, to_mix topo m rec) ∷ to_mixes topo (suc m) nodes recs

  -- The protocol form of a reconciled state.
  unfoldable pub to_state : Topology → Reconciled F → MixState F
  to_state topo r = record {
    inputs = collect [] (zip_with (λ (n : InputNode) s. (n.id, s)) topo.inputs r.inputs);
    mixes = collect [] (to_mixes topo 0 topo.mixes r.mixes);
  }

  -- The end of the load chain: defaults with every mix muted.
  unfoldable pub defaults_muted : Topology → MixState F
  defaults_muted topo =
      let r = (reconcile topo (record { inputs = []; mixes = [] })).0 in
      to_state topo (record r {
        mixes =
            map (λ (rec : MixRec F). record rec { out = record (rec.out) { muted = true } })
              r.mixes;
      })
