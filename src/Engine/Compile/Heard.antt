-- ===== src/Engine/Compile/Heard.antt =====
-- What a mix of a compiled site hears (crates/iem-engine/src/topology.rs, `compile`): "a mix may hear
-- whole only mixes declared before it", and a peer is another stereo set mix.
use Prim.Native.String.{String}
use iemmixer.Base.{
  ℕ, suc, ◌<◌, ◌≡◌, refl, ap, subst, ◌∙◌, inl, inr, false, some, List, [], ◌∷◌, ◌++◌, arith,
  Bool-cases, Option-cases, length, length-append, get_elem?, update, get-map_from, All, All-append,
  Values, lookup, lookup-Given, insert-Values, Values-mono, member, Distinct, Distinct-append,
  AllFrom, AllFrom-append, AllFrom-get, AllFrom-update, ok, ok_injective, and_then-ok,
}
use iemmixer.Proto.Shape.{TopologyInfo}
use iemmixer.Engine.Site.{SiteMix, Site}
use iemmixer.Engine.Topology.{MixNode, Topology}
use iemmixer.Engine.Compile.{
  Mixes, check_channels, compile_heard, compile_mix, compile_mixes, compile_peers, compile_peers_of,
  one_or_two, mix_taken, mix_heard, mix_node, compile, shadowed, no_mixes, peerless, peers_set,
}
use iemmixer.Engine.Compile.Parts.{compile-Parts}

-- The mixes that a mix hears whole stand before it, each once.
pub record HeardBefore (m : ℕ) (node : MixNode) : Type 0 where
  pub before : All (λ h. h < m) node.mixes
  pub distinct : Distinct node.mixes

-- The mixes declared so far: as many as their nodes, whose places they have.
record Declared (m : ℕ) (acc : Mixes) : Type 0 where
  count : length acc.nodes ≡ m
  places : Values (λ s. s < m) acc.declared
  heard : AllFrom HeardBefore 0 acc.nodes

compile_heard-before :
    (mix : String) (names : List String) (declared : List (String × ℕ)) (m : ℕ) (heard out : List ℕ)
    → Values (λ s. s < m) declared
    → All (λ h. h < m) heard
    → Distinct heard
    → compile_heard mix names declared heard ≡ ok out
    → All (λ h. h < m) out × Distinct out
unfolding compile_heard
compile_heard-before mix [] declared m heard out v h d e =
    subst (λ o. All (λ h. h < m) o × Distinct o) (ok_injective heard out e) (h, d)
compile_heard-before mix (name ∷ names) declared m heard out v h d e =
    elim (Option-cases (lookup name declared)) [
      | inl q ↦ absurd (cc (rw (q, compile_heard) at e))
      | inr (s, q) ↦ elim (Bool-cases (member s heard)) [
        | inl b ↦ absurd (cc (rw (q, b, compile_heard) at e))
        | inr b ↦
            compile_heard-before mix names declared m (heard ++ s ∷ []) out v
              (All-append _ heard (s ∷ []) h
                (rw q at (lookup-Given (λ s. s < m) name declared v), tt))
              (Distinct-append heard (s ∷ []) d (refl, tt)
                (λ k w. subst (λ j. member j heard ≡ false) (ground (arith, w)) b))
              (rw (q, b, compile_heard) at e)
      ]
    ]

compile_mix-Declared :
    (channels m : ℕ) (mix : SiteMix) (acc out : Mixes)
    → Declared m acc
    → compile_mix channels m mix acc ≡ ok out
    → Declared (suc m) out
unfolding compile_mix
compile_mix-Declared channels m mix acc out d e = elim (Bool-cases (one_or_two mix.tx)) [
  | inr q ↦ absurd (cc (rw (q, compile_mix) at e))
  | inl q ↦
      let (used, c, e') =
        and_then-ok (check_channels mix.id mix.tx channels acc.used) (mix_taken m mix acc) out
          (rw (q, compile_mix) at e) in
      let (heard, f, e'') =
        and_then-ok (compile_heard mix.id mix.mixes acc.declared []) (mix_heard m mix acc used) out
          e' in
      let (before, distinct) =
        compile_heard-before mix.id mix.mixes acc.declared m [] heard d.places tt tt f in
      subst (Declared (suc m)) (ok_injective _ out e'') (record {
        count = length-append acc.nodes _ ∙ omega (arith, d.count);
        places =
            insert-Values (λ s. s < suc m) mix.id m acc.declared (omega arith)
              (Values-mono (λ s. s < m) (λ s. s < suc m) acc.declared (λ s h. omega (arith, h))
                d.places);
        heard =
            AllFrom-append HeardBefore 0 m acc.nodes (mix_node mix (length acc.tx) heard) d.heard
              (omega (arith, d.count)) (record { before = before; distinct = distinct });
      })
]

compile_mixes-Declared :
    (channels m : ℕ) (mixes : List SiteMix) (acc out : Mixes)
    → Declared m acc
    → compile_mixes channels m mixes acc ≡ ok out
    → AllFrom HeardBefore 0 out.nodes
unfolding compile_mixes
compile_mixes-Declared channels m [] acc out d e =
    subst (λ (o : Mixes). AllFrom HeardBefore 0 o.nodes) (ok_injective acc out e) d.heard
compile_mixes-Declared channels m (mix ∷ mixes) acc out d e =
    let (next, c, e') =
      and_then-ok (compile_mix channels m mix acc) (compile_mixes channels (suc m) mixes) out e in
    compile_mixes-Declared channels (suc m) mixes next out
      (compile_mix-Declared channels m mix acc next d c) e'

pub compile_mixes-heard :
    (channels : ℕ) (site_mixes : List SiteMix) (mixes : Mixes)
    → compile_mixes channels 0 site_mixes no_mixes ≡ ok mixes
    → AllFrom HeardBefore 0 mixes.nodes
compile_mixes-heard channels site_mixes mixes e =
    compile_mixes-Declared channels 0 site_mixes no_mixes mixes
      (record { count = refl; places = tt; heard = tt }) e

-- The peers of the mixes leave what they hear whole.
compile_peers-heard :
    (engineer : ℕ) (declared : List (String × ℕ)) (m : ℕ) (mixes : List SiteMix)
    (nodes out : List MixNode)
    → AllFrom HeardBefore 0 nodes
    → compile_peers engineer declared m mixes nodes ≡ ok out
    → AllFrom HeardBefore 0 out
unfolding compile_peers
compile_peers-heard engineer declared m [] nodes out h e =
    subst (AllFrom HeardBefore 0) (ok_injective nodes out e) h
compile_peers-heard engineer declared m (mix ∷ mixes) nodes out h e =
    elim (Bool-cases (peerless engineer m mix nodes)) [
      | inl q ↦ absurd (cc (rw (q, compile_peers) at e))
      | inr q ↦
          let (peers, c, e') =
            and_then-ok (compile_peers_of nodes engineer m mix.id declared mix.peers [])
              (peers_set engineer declared m mixes nodes) out (rw (q, compile_peers) at e) in
          compile_peers-heard engineer declared (suc m) mixes
            (update nodes m (λ n. record n { peers = peers })) out
            (AllFrom-update HeardBefore 0 m nodes (λ n. record n { peers = peers }) h
              (λ n p. record { before = p.before; distinct = p.distinct }))
            e'
    ]

-- The mixes, once they are compiled and their peers are.
pub heard_whole :
    (channels engineer : ℕ) (site_mixes : List SiteMix) (mixes : Mixes) (whole : List MixNode)
    → compile_mixes channels 0 site_mixes no_mixes ≡ ok mixes
    → compile_peers engineer mixes.declared 0 site_mixes mixes.nodes ≡ ok whole
    → AllFrom HeardBefore 0 whole
heard_whole channels engineer site_mixes mixes whole e f =
    compile_peers-heard engineer mixes.declared 0 site_mixes mixes.nodes whole
      (compile_mixes-heard channels site_mixes mixes e) f

-- Where a site compiles, every mix hears whole only mixes declared before it, each once.
pub compile-HeardBefore :
    (hash : TopologyInfo → String) (site : Site) (topo : Topology) (m : ℕ) (node : MixNode)
    → compile hash site ≡ ok topo
    → get_elem? topo.mixes m ≡ some node
    → HeardBefore m node
compile-HeardBefore hash site topo m node h e =
    let p = compile-Parts hash site topo h in
    let all =
      heard_whole site.channels p.engineer site.mixes p.mixes p.whole p.mixes_ok p.peers_ok in
    let e' : get_elem? (shadowed p.whole) m ≡ some node =
      ap (λ (t : Topology). get_elem? t.mixes m) p.topology ∙ e in
    let (old, g, q) = get-map_from _ 0 m p.whole node e' in
    let r = AllFrom-get HeardBefore 0 m m p.whole old all g (omega arith) in
    rw q (record { before = r.before; distinct = r.distinct })
