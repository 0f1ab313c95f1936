-- ===== src/Engine/Compile/Once.antt =====
-- A mix of a compiled site hears a mix once, whole or as a peer (crates/iem-engine/src/topology.rs,
-- `compile`: the loops over what a mix hears).
use Prim.Native.String.{String}
use iemmixer.Base.{
  ℕ, zero, suc, ◌≡◌, refl, sym, ap, subst, ◌∙◌, inl, inr, true, false, some, List, [], ◌∷◌, ◌++◌,
  ◌==◌, ==_iff, arith, Bool-cases, Option-cases, get_elem?, update, get-map_from, All, All-append,
  lookup, member, member-append, Distinct, Distinct-append, AllFrom, AllFrom-get, ok, ok_injective,
  and_then, and_then-ok,
}
use iemmixer.Proto.Shape.{TopologyInfo}
use iemmixer.Engine.Site.{SiteMix, Site}
use iemmixer.Engine.Topology.{MixNode, Topology}
use iemmixer.Engine.Compile.{
  Mixes, check_channels, compile_heard, compile_mix, compile_mixes, compile_peers, compile_peers_of,
  one_or_two, mix_taken, mix_heard, is_peer, compile, shadowed, no_mixes, peerless, peers_set,
}
use iemmixer.Engine.Compile.Parts.{compile-Parts}
use iemmixer.Engine.Compile.Heard.{HeardBefore, compile_mixes-heard}

-- No mix twice among those that a mix hears.
pub record HeardOnce (m : ℕ) (node : MixNode) : Type 0 where
  pub mixes : Distinct node.mixes
  pub peers : Distinct node.peers
  pub apart : (k : ℕ) → member k node.peers ≡ true → member k node.mixes ≡ false

abbrev Peerless : List MixNode → Type 0
Peerless = All (λ (n : MixNode). n.peers ≡ [])

compile_mixes-Peerless :
    (channels m : ℕ) (mixes : List SiteMix) (acc out : Mixes)
    → compile_mixes channels m mixes acc ≡ ok out
    → Peerless acc.nodes
    → Peerless out.nodes
unfolding compile_mixes compile_mix
compile_mixes-Peerless channels m [] acc out e h =
    subst (λ (o : Mixes). Peerless o.nodes) (ok_injective acc out e) h
compile_mixes-Peerless channels m (mix ∷ mixes) acc out e h =
    elim (Bool-cases (one_or_two mix.tx)) [
      | inr q ↦ absurd (cc (rw (q, compile_mixes, compile_mix, and_then) at e))
      | inl q ↦
          let (next, c, e') =
            and_then-ok (compile_mix channels m mix acc) (compile_mixes channels (suc m) mixes) out
              e in
          let (used, d, c') =
            and_then-ok (check_channels mix.id mix.tx channels acc.used) (mix_taken m mix acc) next
              (rw (q, compile_mix) at c) in
          let (heard, f, c'') =
            and_then-ok (compile_heard mix.id mix.mixes acc.declared []) (mix_heard m mix acc used)
              next c' in
          compile_mixes-Peerless channels (suc m) mixes next out e' (
            subst (λ (o : Mixes). Peerless o.nodes) (ok_injective _ next c'')
              (All-append _ acc.nodes _ h (refl, tt)))
    ]

heard_once :
    (k : ℕ) (nodes : List MixNode)
    → AllFrom HeardBefore k nodes
    → Peerless nodes
    → AllFrom HeardOnce k nodes
heard_once k [] h p = tt
heard_once k (n ∷ nodes) h p = (
  record {
    mixes = h.0.distinct;
    peers = subst Distinct (sym p.0) tt;
    apart = λ j e. absurd (cc (rw p.0 at e));
  },
  heard_once (suc k) nodes h.1 p.1,
)

-- The peers gathered for a mix.
record PeersOnce (node : MixNode) (peers : List ℕ) : Type 0 where
  distinct : Distinct peers
  apart : (k : ℕ) → member k peers ≡ true → member k node.mixes ≡ false

is_peer_new :
    (nodes : List MixNode) (engineer m s : ℕ) (peers : List ℕ) (node : MixNode)
    → get_elem? nodes m ≡ some node
    → is_peer nodes engineer m peers s ≡ true
    → (member s node.mixes ≡ false) × (member s peers ≡ false)
is_peer_new nodes engineer m s peers node e h = ground (arith, rw e at h)

compile_peers_of-PeersOnce :
    (nodes : List MixNode) (engineer m : ℕ) (mix : String) (declared : List (String × ℕ))
    (names : List String) (peers out : List ℕ) (node : MixNode)
    → get_elem? nodes m ≡ some node
    → compile_peers_of nodes engineer m mix declared names peers ≡ ok out
    → PeersOnce node peers
    → PeersOnce node out
unfolding compile_peers_of
compile_peers_of-PeersOnce nodes engineer m mix declared [] peers out node g e h =
    subst (PeersOnce node) (ok_injective peers out e) h
compile_peers_of-PeersOnce nodes engineer m mix declared (name ∷ names) peers out node g e h =
    elim (Option-cases (lookup name declared)) [
      | inl q ↦ absurd (cc (rw (q, compile_peers_of) at e))
      | inr (s, q) ↦ elim (Bool-cases (is_peer nodes engineer m peers s)) [
        | inr b ↦ absurd (cc (rw (q, b, compile_peers_of) at e))
        | inl b ↦
            let (u, v) = is_peer_new nodes engineer m s peers node g b in
            compile_peers_of-PeersOnce nodes engineer m mix declared names (peers ++ s ∷ []) out
              node g (rw (q, b, compile_peers_of) at e)
              (record {
                distinct =
                    Distinct-append peers (s ∷ []) h.distinct (refl, tt)
                      (λ k w. subst (λ j. member j peers ≡ false) (ground (arith, w)) v);
                apart = λ k w. elim (Bool-cases (k == s)) [
                  | inl t ↦ subst (λ j. member j node.mixes ≡ false) (sym ((==_iff k s).0 t)) u
                  | inr t ↦ h.apart k (ground (arith, w, t, member-append k peers (s ∷ [])))
                ];
              })
      ]
    ]

update-HeardOnce :
    (k m : ℕ) (nodes : List MixNode) (peers : List ℕ)
    → AllFrom HeardOnce k nodes
    → ((node : MixNode) → get_elem? nodes m ≡ some node → PeersOnce node peers)
    → AllFrom HeardOnce k (update nodes m (λ n. record n { peers = peers }))
update-HeardOnce k m [] peers h p = tt
update-HeardOnce k zero (n ∷ nodes) peers h p =
    let q = p n refl in (record { mixes = h.0.mixes; peers = q.distinct; apart = q.apart }, h.1)
update-HeardOnce k (suc m) (n ∷ nodes) peers h p =
    (h.0, update-HeardOnce (suc k) m nodes peers h.1 p)

compile_peers-HeardOnce :
    (engineer : ℕ) (declared : List (String × ℕ)) (m : ℕ) (mixes : List SiteMix)
    (nodes out : List MixNode)
    → AllFrom HeardOnce 0 nodes
    → compile_peers engineer declared m mixes nodes ≡ ok out
    → AllFrom HeardOnce 0 out
unfolding compile_peers
compile_peers-HeardOnce engineer declared m [] nodes out h e =
    subst (AllFrom HeardOnce 0) (ok_injective nodes out e) h
compile_peers-HeardOnce engineer declared m (mix ∷ mixes) nodes out h e =
    elim (Bool-cases (peerless engineer m mix nodes)) [
      | inl q ↦ absurd (cc (rw (q, compile_peers) at e))
      | inr q ↦
          let (peers, c, e') =
            and_then-ok (compile_peers_of nodes engineer m mix.id declared mix.peers [])
              (peers_set engineer declared m mixes nodes) out (rw (q, compile_peers) at e) in
          compile_peers-HeardOnce engineer declared (suc m) mixes
            (update nodes m (λ n. record n { peers = peers })) out
            (update-HeardOnce 0 m nodes peers h (λ node g.
              compile_peers_of-PeersOnce nodes engineer m mix.id declared mix.peers [] peers node g
                c (record { distinct = tt; apart = λ k w. absurd cc })))
            e'
    ]

-- Where a site compiles, no mix hears another twice.
pub compile-HeardOnce :
    (hash : TopologyInfo → String) (site : Site) (topo : Topology) (m : ℕ) (node : MixNode)
    → compile hash site ≡ ok topo
    → get_elem? topo.mixes m ≡ some node
    → HeardOnce m node
compile-HeardOnce hash site topo m node h e =
    let p = compile-Parts hash site topo h in
    let first =
      heard_once 0 p.mixes.nodes (compile_mixes-heard site.channels site.mixes p.mixes p.mixes_ok)
        (compile_mixes-Peerless site.channels 0 site.mixes no_mixes p.mixes p.mixes_ok tt) in
    let all =
      compile_peers-HeardOnce p.engineer p.mixes.declared 0 site.mixes p.mixes.nodes p.whole first
        p.peers_ok in
    let e' : get_elem? (shadowed p.whole) m ≡ some node =
      ap (λ (t : Topology). get_elem? t.mixes m) p.topology ∙ e in
    let (old, g, q) = get-map_from _ 0 m p.whole node e' in
    let r = AllFrom-get HeardOnce 0 m m p.whole old all g (omega arith) in
    subst (HeardOnce m) (sym q) (record { mixes = r.mixes; peers = r.peers; apart = r.apart })
