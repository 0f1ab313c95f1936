-- ===== src/Engine/Compile/Whole.antt =====
-- What the mixes of a site hear of each other, and the whole topology
-- (crates/iem-engine/src/topology.rs, `compile`: the peers, what a mix carries, the shadows, the order).
use Prim.Native.String.{String}
use iemmixer.Base.{
  ℕ, suc, Bool, true, false, not, ◌&&◌, ◌||◌, none, some, List, [], ◌∷◌, ◌++◌, map, if◌then◌else◌,
  ◌==◌, get_elem?, update, map_from, member, set_insert, lookup, collect, map_option, unwrap_or,
  is_some, Result, ok, err, and_then,
}
use iemmixer.Proto.Shape.{TopologyInfo}
use iemmixer.Engine.Site.{
  SiteInput, SiteGroup, SiteMix, Site, SiteError, peer, peers_on_non_set, hears_itself_back,
}
use iemmixer.Engine.Topology.{
  InputNode, GroupNode, MixNode, Topology, hears_nothing, info, is_empty,
}
use iemmixer.Engine.Compile.Strips.{
  Inputs, Mixes, check_ids, compile_inputs, compile_groups, compile_mixes, compile_engineer,
  node_is,
}

-- Another stereo set mix, heard once and not also whole.
abbrev pub is_peer : List MixNode → ℕ → ℕ → List ℕ → ℕ → Bool
is_peer nodes engineer m peers s =
    not (s == m)
    && (not (s == engineer)
        && (node_is nodes s (λ n. not n.mono)
            && (node_is nodes m (λ n. not (member s n.mixes)) && not (member s peers))))

-- The loop over the peers of mix `m`.
unfoldable pub compile_peers_of :
    List MixNode
    → ℕ
    → ℕ
    → String
    → List (String × ℕ)
    → List String
    → List ℕ
    → Result SiteError (List ℕ)
compile_peers_of nodes engineer m mix declared [] peers = ok peers
compile_peers_of nodes engineer m mix declared (name ∷ names) peers = elim (lookup name declared) [
  | none ↦ err (peer mix name)
  | some s ↦
      let rest = compile_peers_of nodes engineer m mix declared names (peers ++ s ∷ []) in
      if is_peer nodes engineer m peers s then rest else err (peer mix name)
]

-- Whether mix `m` lists peers and may not: the engineer's, or a mono mix.
abbrev pub peerless : ℕ → ℕ → SiteMix → List MixNode → Bool
peerless engineer m mix nodes =
    not (is_empty mix.peers)
    && (m == engineer || unwrap_or (map_option (λ (n : MixNode). n.mono) (get_elem? nodes m)) true)

-- The loop over the mixes, once every mix is declared.
unfoldable pub compile_peers :
    ℕ → List (String × ℕ) → ℕ → List SiteMix → List MixNode → Result SiteError (List MixNode)
unfolding compile_peers_of
compile_peers engineer declared m [] nodes = ok nodes
compile_peers engineer declared m (mix ∷ rest) nodes =
    if peerless engineer m mix nodes
    then err (peers_on_non_set mix.id)
    else and_then (compile_peers_of nodes engineer m mix.id declared mix.peers []) (λ peers.
      compile_peers engineer declared (suc m) rest
        (update nodes m (λ n. record n { peers = peers })))

-- The rest of the loop once the peers of mix `m` are known.
abbrev pub peers_set :
    ℕ
    → List (String × ℕ)
    → ℕ
    → List SiteMix
    → List MixNode
    → List ℕ
    → Result SiteError (List MixNode)
peers_set engineer declared m rest nodes peers =
    compile_peers engineer declared (suc m) rest (update nodes m (λ n. record n { peers = peers }))

-- `BTreeSet::extend`.
abbrev pub extend : List ℕ → List ℕ → List ℕ
extend own [] = own
extend own (k ∷ ks) = extend (set_insert k own) ks

abbrev mix_name : List SiteMix → ℕ → String
mix_name mixes m = unwrap_or (map_option (λ (x : SiteMix). x.id) (get_elem? mixes m)) ""

-- The loop over the mixes that mix `m` hears whole: what each one brings.
unfoldable pub carry_heard :
    List SiteMix → List (List ℕ) → ℕ → List ℕ → List ℕ → Result SiteError (List ℕ)
carry_heard names carries m [] own = ok own
carry_heard names carries m (h ∷ hs) own = elim (get_elem? carries h) [
  | none ↦ carry_heard names carries m hs own
  | some brought ↦
      let rest = carry_heard names carries m hs (extend own brought) in
      if member m brought
      then err (hears_itself_back (mix_name names m) (mix_name names h))
      else rest
]

-- The own outputs that each mix's whole output holds, in declaration order.
unfoldable pub compile_carries :
    List SiteMix → ℕ → List MixNode → List (List ℕ) → Result SiteError (List (List ℕ))
unfolding carry_heard
compile_carries names m [] carries = ok carries
compile_carries names m (node ∷ nodes) carries =
    and_then (carry_heard names carries m node.mixes (set_insert m (extend [] node.peers)))
      (λ own. compile_carries names (suc m) nodes (carries ++ own ∷ []))

abbrev heard_as_peer : List MixNode → ℕ → Bool
heard_as_peer [] m = false
heard_as_peer (n ∷ ns) m = member m n.peers || heard_as_peer ns m

abbrev pub shadowed : List MixNode → List MixNode
shadowed nodes =
    map_from
      (λ m (n : MixNode). record n { shadow = heard_as_peer nodes m && not (hears_nothing n) }) 0
      nodes

-- The indices, from `m` on, of the elements that the test holds of.
abbrev pub indices {ℓ} : {A : Type ℓ} → (A → Bool) → ℕ → List A → List ℕ
indices p m [] = []
indices p m (x ∷ xs) = let rest = indices p (suc m) xs in if p x then m ∷ rest else rest

abbrev pub render_order : List MixNode → List ℕ
render_order nodes = indices hears_nothing 0 nodes ++ indices (λ n. not (hears_nothing n)) 0 nodes

-- `enumerate().map(..).collect()`: each id with its place.
abbrev pub places : ℕ → List String → List (String × ℕ)
places m [] = []
places m (id ∷ ids) = (id, m) ∷ places (suc m) ids

abbrev pub site_ids : Site → List String
site_ids site =
    map (λ (i : SiteInput). i.id) site.inputs
    ++ (map (λ (g : SiteGroup). g.id) site.groups ++ map (λ (m : SiteMix). m.id) site.mixes)

-- The parts of a site, once each is compiled.
abbrev pub assemble :
    (TopologyInfo → String)
    → Inputs
    → List InputNode
    → List GroupNode
    → Mixes
    → List MixNode
    → ℕ
    → Topology
assemble hash inputs nodes groups mixes whole engineer =
    let topo : Topology = record {
      inputs = nodes;
      groups = groups;
      mixes = shadowed whole;
      order = render_order (shadowed whole);
      direct = indices (λ (n : InputNode). not (is_some n.group)) 0 nodes;
      rx = inputs.rx;
      tx = mixes.tx;
      engineer = engineer;
      hash = "";
    } in
    record topo { hash = hash (info topo) }

abbrev pub no_inputs : Inputs
no_inputs = record { rx = []; used = []; talkback = false; nodes = [] }

abbrev pub no_mixes : Mixes
no_mixes = record { tx = []; used = []; declared = []; nodes = [] }

-- `hash` stands for the hexadecimal SHA-256 of the JSON form of what the protocol says of it.
unfoldable pub compile : (TopologyInfo → String) → Site → Result SiteError Topology
unfolding check_ids compile_inputs compile_groups compile_mixes compile_engineer compile_peers
    compile_carries
compile hash site = and_then (check_ids (site_ids site) []) (λ seen.
    and_then (compile_inputs site.channels site.inputs no_inputs) (λ inputs.
      and_then
        (compile_groups (collect [] (places 0 (map (λ (i : SiteInput). i.id) site.inputs))) 0
          site.groups inputs.nodes [])
        (λ (nodes, groups). and_then (compile_mixes site.channels 0 site.mixes no_mixes) (λ mixes.
          and_then (compile_engineer site.engineer mixes.declared mixes.nodes) (λ engineer.
            and_then (compile_peers engineer mixes.declared 0 site.mixes mixes.nodes) (λ whole.
              and_then (compile_carries site.mixes 0 whole [])
                (λ carries. ok (assemble hash inputs nodes groups mixes whole engineer))))))))
