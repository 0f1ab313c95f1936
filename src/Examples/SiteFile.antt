-- ===== src/Examples/SiteFile.antt =====
-- A small site file, its topology, and the theorems of the compilation applied to them.
use Prim.Native.String.{String}
use iemmixer.Base.{
  ℕ, ◌≡◌, refl, true, false, none, some, [], ◌∷◌, All, Distinct, map, ok, member, ltb, length,
}
use iemmixer.Proto.Ids.{valid_id}
use iemmixer.Proto.Shape.{TopologyInfo}
use iemmixer.Engine.Site.{SiteMix, Site}
use iemmixer.Engine.Topology.{MixNode, Topology, hears_nothing, info}
use iemmixer.Engine.Compile.{
  compile, check_ids, check_id, check_channels, compile_inputs, compile_input, compile_groups,
  compile_members, compile_mixes, compile_mix, compile_heard, compile_engineer, compile_peers,
  compile_peers_of, compile_carries, carry_heard, site_ids,
}
use iemmixer.Engine.Compile.Channels.{OnCard, compile_channels}
use iemmixer.Engine.Compile.Heard.{HeardBefore, compile-HeardBefore}
use iemmixer.Engine.Compile.Echo.{Brings, compile_no_echo}
use iemmixer.Engine.Compile.Order.{compile_order_once, compile_order_heard, compile_order_peer}
use iemmixer.Engine.Compile.Indices.{Before}
use iemmixer.Engine.Compile.Names.{AllDifferent, node_ids, compile_names}

abbrev pub no_hash : TopologyInfo → String
no_hash t = ""

-- A talker, a stereo pair in a group, an engineer's mix, two sets of which one hears the other as a
-- peer, and a mono feed that hears a set whole.
abbrev pub band : Site
band = record {
  channels = 8;
  engineer = "engineer";
  inputs =
      record { id = "talk"; rx = 1 ∷ []; talkback = true }
      ∷ record { id = "keys"; rx = 2 ∷ 3 ∷ []; talkback = false }
      ∷ [];
  groups = record { id = "stems"; inputs = "keys" ∷ [] } ∷ [];
  mixes =
      record { id = "engineer"; tx = 1 ∷ 2 ∷ []; mixes = []; peers = [] }
      ∷ record { id = "set1"; tx = 3 ∷ 4 ∷ []; mixes = []; peers = "set2" ∷ [] }
      ∷ record { id = "set2"; tx = 5 ∷ 6 ∷ []; mixes = []; peers = [] }
      ∷ record { id = "feed"; tx = 7 ∷ []; mixes = "set1" ∷ []; peers = [] }
      ∷ [];
}

abbrev pub set1 : MixNode
set1 = record {
  id = "set1";
  tx = (some 2, some 3);
  mono = false;
  mixes = [];
  peers = 2 ∷ [];
  shadow = false;
}

abbrev pub set2 : MixNode
set2 = record {
  id = "set2";
  tx = (some 4, some 5);
  mono = false;
  mixes = [];
  peers = [];
  shadow = false;
}

abbrev pub feed : MixNode
feed = record {
  id = "feed";
  tx = (some 6, none);
  mono = true;
  mixes = 1 ∷ [];
  peers = [];
  shadow = false;
}

abbrev pub stage : Topology
stage = record {
  inputs =
      record { id = "talk"; rx = (0, 0); stereo = false; talkback = true; group = none }
      ∷ record { id = "keys"; rx = (1, 2); stereo = true; talkback = false; group = some 0 }
      ∷ [];
  groups = record { id = "stems"; inputs = 1 ∷ [] } ∷ [];
  mixes =
      record {
        id = "engineer";
        tx = (some 0, some 1);
        mono = false;
        mixes = [];
        peers = [];
        shadow = false;
      }
      ∷ set1
      ∷ set2
      ∷ feed
      ∷ [];
  order = 0 ∷ 2 ∷ 1 ∷ 3 ∷ [];
  direct = 0 ∷ [];
  rx = 1 ∷ 2 ∷ 3 ∷ [];
  tx = 1 ∷ 2 ∷ 3 ∷ 4 ∷ 5 ∷ 6 ∷ 7 ∷ [];
  engineer = 0;
  hash = "";
}

pub band_compiles : compile no_hash band ≡ ok stage
unfolding compile check_ids check_id valid_id check_channels compile_inputs compile_input
    compile_groups compile_members compile_mixes compile_mix compile_heard compile_engineer
    compile_peers compile_peers_of compile_carries carry_heard hears_nothing info
band_compiles = refl

compile_channels_example :
    (Distinct stage.rx × All (OnCard 8) stage.rx) × (Distinct stage.tx × All (OnCard 8) stage.tx)
compile_channels_example = compile_channels no_hash band stage band_compiles

compile-HeardBefore_example : HeardBefore 3 feed
compile-HeardBefore_example = compile-HeardBefore no_hash band stage 3 feed band_compiles refl

compile_no_echo_example : ¬ Brings stage.mixes 1 3
compile_no_echo_example = compile_no_echo no_hash band stage 3 1 feed band_compiles refl refl

compile_order_once_example :
    Distinct stage.order × ((m : ℕ) → member m stage.order ≡ ltb m (length stage.mixes))
compile_order_once_example = compile_order_once no_hash band stage band_compiles

compile_order_heard_example : Before stage.order 1 3
compile_order_heard_example =
    compile_order_heard no_hash band stage 3 1 feed set1 band_compiles refl refl refl

compile_order_peer_example : Before stage.order 2 1
unfolding hears_nothing
compile_order_peer_example =
    compile_order_peer no_hash band stage 1 2 set1 set2 band_compiles refl refl refl refl

compile_names_example :
    (node_ids stage.mixes ≡ map (λ (x : SiteMix). x.id) band.mixes)
    × All (λ id. valid_id id ≡ true) (site_ids band)
    × AllDifferent (site_ids band)
compile_names_example = compile_names no_hash band stage band_compiles
