-- ===== src/Proto/Capped/Shape.antt =====
-- A state shaped by a topology is capped, whatever was given (shape.rs, `reconcile`).
use iemmixer.Base.{
  Option, List, [], ◌∷◌, ◌++◌, lookup, Values, insert-Values, collect-Values, map-Values,
  unwrap_or-map_option,
}
use iemmixer.Float.{Float, FloatLaws}
use iemmixer.Proto.State.{MixId, Mix, MixState}
use iemmixer.Proto.Shape.{
  TopologyInfo, MixInfo, Dropped, shape_mix, shape_mixes, dropped_of_mix, reconcile,
}
use iemmixer.Proto.Capped.{
  InputCapped, LevelCapped, GroupCapped, OutCapped, MixCapped, StateCapped, cap_input-InputCapped,
  cap_level-LevelCapped, cap_group-GroupCapped, cap_out-OutCapped, default_input-InputCapped,
  default_level-LevelCapped, default_group-GroupCapped, default_out-OutCapped,
}

module _ {F : Type 0} ⦃fl : Float F⦄ (laws : FloatLaws F) where
  shape_mix-MixCapped :
      (topo : TopologyInfo) (node : MixInfo) (given : Option (Mix F))
      → MixCapped (shape_mix topo node given)
  unfolding shape_mix
  shape_mix-MixCapped topo node given = record {
    out =
        unwrap_or-map_option OutCapped _ given _ (λ x. cap_out-OutCapped laws x.out)
          (default_out-OutCapped laws);
    inputs = collect-Values LevelCapped [] _ tt (
        map-Values LevelCapped (λ i. i.id) _ topo.inputs
          λ i.
            unwrap_or-map_option LevelCapped _ _ _ (cap_level-LevelCapped laws)
              (default_level-LevelCapped laws));
    groups = collect-Values GroupCapped [] _ tt (
        map-Values GroupCapped (λ g. g.id) _ topo.groups
          λ g.
            unwrap_or-map_option GroupCapped _ _ _ (cap_group-GroupCapped laws)
              (default_group-GroupCapped laws));
    mixes = collect-Values LevelCapped [] _ tt (
        map-Values LevelCapped (λ h. h) _ (node.mixes ++ node.peers)
          λ h.
            unwrap_or-map_option LevelCapped _ _ _ (cap_level-LevelCapped laws)
              (default_level-LevelCapped laws));
  }

  shape_mixes-Values :
      (topo : TopologyInfo) (given : List (MixId × Mix F)) (nodes : List MixInfo)
      (mixes : List (MixId × Mix F)) (dropped : List Dropped)
      → Values MixCapped mixes
      → Values MixCapped (shape_mixes topo given nodes mixes dropped).0
  unfolding shape_mixes
  shape_mixes-Values topo given [] mixes dropped h = h
  shape_mixes-Values topo given (node ∷ nodes) mixes dropped h =
      shape_mixes-Values topo given nodes _
        (dropped ++ dropped_of_mix topo node (lookup node.id given))
        (insert-Values MixCapped node.id _ mixes (shape_mix-MixCapped topo node _) h)

  pub reconcile-StateCapped :
      (topo : TopologyInfo) (state : MixState F) → StateCapped (reconcile topo state).0
  unfolding reconcile
  reconcile-StateCapped topo state = record {
    inputs = collect-Values InputCapped [] _ tt (
        map-Values InputCapped (λ n. n.id) _ topo.inputs
          λ n.
            unwrap_or-map_option InputCapped _ _ _ (cap_input-InputCapped laws)
              (default_input-InputCapped laws));
    mixes = shape_mixes-Values topo state.mixes topo.mixes [] _ tt;
  }
