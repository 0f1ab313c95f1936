-- ===== src/Engine/Compile/Parts.antt =====
-- A site that compiles, part by part (crates/iem-engine/src/topology.rs, `compile`): every part goes
-- through, and the topology is made of what they give.
use Prim.Native.String.{String}
use iemmixer.Base.{ℕ, ◌≡◌, List, [], map, collect, ok, ok_injective, and_then-ok}
use iemmixer.Proto.Shape.{TopologyInfo}
use iemmixer.Engine.Site.{SiteInput, Site}
use iemmixer.Engine.Topology.{InputNode, GroupNode, MixNode, Topology}
use iemmixer.Engine.Compile.{
  Inputs, Mixes, check_ids, compile_inputs, compile_groups, compile_mixes, compile_engineer,
  compile_peers, compile_carries, places, site_ids, no_inputs, no_mixes, assemble, compile,
}

pub record Parts (hash : TopologyInfo → String) (site : Site) (topo : Topology) : Type 0 where
  pub seen : List String
  pub inputs : Inputs
  pub nodes : List InputNode
  pub groups : List GroupNode
  pub mixes : Mixes
  pub engineer : ℕ
  pub whole : List MixNode
  pub carries : List (List ℕ)
  pub ids_ok : check_ids (site_ids site) [] ≡ ok seen
  pub inputs_ok : compile_inputs site.channels site.inputs no_inputs ≡ ok inputs
  pub groups_ok :
      compile_groups
        (collect [] (places 0 (map (λ (i : SiteInput). i.id) site.inputs)))
        0
        site.groups
        inputs.nodes
        []
      ≡ ok (nodes, groups)
  pub mixes_ok : compile_mixes site.channels 0 site.mixes no_mixes ≡ ok mixes
  pub engineer_ok : compile_engineer site.engineer mixes.declared mixes.nodes ≡ ok engineer
  pub peers_ok : compile_peers engineer mixes.declared 0 site.mixes mixes.nodes ≡ ok whole
  pub carries_ok : compile_carries site.mixes 0 whole [] ≡ ok carries
  pub topology : assemble hash inputs nodes groups mixes whole engineer ≡ topo

pub compile-Parts :
    (hash : TopologyInfo → String) (site : Site) (topo : Topology)
    → compile hash site ≡ ok topo
    → Parts hash site topo
unfolding compile
compile-Parts hash site topo h =
    let (seen, e1, h1) = and_then-ok _ _ topo h in
    let (inputs, e2, h2) = and_then-ok _ _ topo h1 in
    let ((nodes, groups), e3, h3) = and_then-ok _ _ topo h2 in
    let (mixes, e4, h4) = and_then-ok _ _ topo h3 in
    let (engineer, e5, h5) = and_then-ok _ _ topo h4 in
    let (whole, e6, h6) = and_then-ok _ _ topo h5 in
    let (carries, e7, h7) = and_then-ok _ _ topo h6 in
    record {
      seen = seen;
      inputs = inputs;
      nodes = nodes;
      groups = groups;
      mixes = mixes;
      engineer = engineer;
      whole = whole;
      carries = carries;
      ids_ok = e1;
      inputs_ok = e2;
      groups_ok = e3;
      mixes_ok = e4;
      engineer_ok = e5;
      peers_ok = e6;
      carries_ok = e7;
      topology = ok_injective _ _ h7;
    }
