-- ===== src/Engine/Compile/Order.antt =====
-- The render order of a compiled site (crates/iem-engine/src/topology.rs, `Topology::order`): every
-- mix once, after what it reads.
use Prim.Native.String.{String}
use iemmixer.Base.{
  ℕ, ◌<◌, ◌≡◌, refl, sym, ap, subst, ◌∙◌, inl, inr, true, false, not, some, List, [], ◌∷◌, arith,
  Bool-cases, ltb, ltb→lt, length, get_elem?, bound-get, member, member-All, member-append,
  Distinct, Distinct-append, ok, get-bound,
}
use mathlib.Core.Option.{some-injective}
use iemmixer.Proto.Shape.{TopologyInfo}
use iemmixer.Engine.Site.{Site}
use iemmixer.Engine.Topology.{MixNode, Topology, hears_nothing, is_empty}
use iemmixer.Engine.Compile.{compile, indices, render_order}
use iemmixer.Engine.Compile.Indices.{
  Before, Before-append_right, member-indices, indices-member, indices-Distinct, indices-Before,
}
use iemmixer.Engine.Compile.Parts.{compile-Parts}
use iemmixer.Engine.Compile.Heard.{compile-HeardBefore}

empty_member : (xs : List ℕ) (k : ℕ) → is_empty xs ≡ true → member k xs ≡ false
empty_member [] k e = refl
empty_member (x ∷ xs) k e = cc

-- A mix that hears one is not one that hears nothing.
hears_mix : (n : MixNode) (h : ℕ) → member h n.mixes ≡ true → hears_nothing n ≡ false
unfolding hears_nothing
hears_mix n h e = elim (Bool-cases (is_empty n.mixes)) [
  | inl b ↦ absurd (cc (sym e ∙ empty_member n.mixes h b))
  | inr b ↦ rw b refl
]

hears_peer : (n : MixNode) (h : ℕ) → member h n.peers ≡ true → hears_nothing n ≡ false
unfolding hears_nothing
hears_peer n h e = elim (Bool-cases (is_empty n.peers)) [
  | inl b ↦ absurd (cc (sym e ∙ empty_member n.peers h b))
  | inr b ↦ ground (arith, b)
]

render_order-Distinct : (nodes : List MixNode) → Distinct (render_order nodes)
render_order-Distinct nodes =
    Distinct-append (indices hears_nothing 0 nodes) (indices (λ n. not (hears_nothing n)) 0 nodes)
      (indices-Distinct hears_nothing 0 nodes)
      (indices-Distinct (λ n. not (hears_nothing n)) 0 nodes)
      (λ k m. elim (Bool-cases (member k (indices hears_nothing 0 nodes))) [
        | inr b ↦ b
        | inl b ↦
            let (i, x, e, q, r) = indices-member hears_nothing 0 k nodes b in
            let (j, y, f, w, s) = indices-member (λ n. not (hears_nothing n)) 0 k nodes m in
            let same : i ≡ j = omega (arith, r, s) in
            let xy : x ≡ y = some-injective _ _ (sym e ∙ ap (get_elem? nodes) same ∙ f) in
            absurd (ground (arith, w, subst (λ (n : MixNode). hears_nothing n ≡ true) xy q))
      ])

module _ (nodes : List MixNode) (m : ℕ) (node : MixNode)
    (here : get_elem? nodes m ≡ some node) where
  in_order : member m (render_order nodes) ≡ true
  in_order =
      let quiet = indices hears_nothing 0 nodes in
      let loud : List ℕ = indices (λ n. not (hears_nothing n)) 0 nodes in
      member-append m quiet loud ∙ elim (Bool-cases (hears_nothing node)) [
        | inl b ↦ ground (arith, member-indices hears_nothing 0 m m nodes node here b (omega arith))
        | inr b ↦ ground (
          arith,
          member-indices (λ n. not (hears_nothing n)) 0 m m nodes node here (rw b refl)
              (omega arith),
        )
      ]

  -- A mix that hears nothing is rendered before one that hears something.
  quiet_first :
      (h : ℕ) (heard : MixNode)
      → get_elem? nodes h ≡ some heard
      → hears_nothing heard ≡ true
      → hears_nothing node ≡ false
      → Before (render_order nodes) h m
  quiet_first h heard e q b = record {
    front = indices hears_nothing 0 nodes;
    back = indices (λ n. not (hears_nothing n)) 0 nodes;
    split = refl;
    first = member-indices hears_nothing 0 h h nodes heard e q (omega arith);
    second =
        member-indices (λ n. not (hears_nothing n)) 0 m m nodes node here (rw b refl) (omega arith);
  }

  heard_first :
      (h : ℕ) (heard : MixNode)
      → get_elem? nodes h ≡ some heard
      → member h node.mixes ≡ true
      → h < m
      → Before (render_order nodes) h m
  heard_first h heard e q l =
      let b = hears_mix node h q in
      elim (Bool-cases (hears_nothing heard)) [
        | inl c ↦ quiet_first h heard e c b
        | inr c ↦ Before-append_right (indices hears_nothing 0 nodes) _ h m (
            indices-Before (λ n. not (hears_nothing n)) 0 h m h m nodes heard node e (rw c refl)
              here (rw b refl) l (omega arith) (omega arith))
      ]

order_bound :
    (nodes : List MixNode) (m : ℕ) → member m (render_order nodes) ≡ true → m < length nodes
order_bound nodes m e =
    let quiet = indices hears_nothing 0 nodes in
    let loud : List ℕ = indices (λ n. not (hears_nothing n)) 0 nodes in
    elim (Bool-cases (member m quiet)) [
      | inl b ↦
          let (i, x, g, q, r) = indices-member hears_nothing 0 m nodes b in
          omega (arith, r, get-bound nodes i x g)
      | inr b ↦
          let b' : member m loud ≡ true = ground (arith, e, b, member-append m quiet loud) in
          let (i, x, g, q, r) = indices-member (λ n. not (hears_nothing n)) 0 m nodes b' in
          omega (arith, r, get-bound nodes i x g)
    ]

compile-order :
    (hash : TopologyInfo → String) (site : Site) (topo : Topology)
    → compile hash site ≡ ok topo
    → topo.order ≡ render_order topo.mixes
compile-order hash site topo c =
    let p = compile-Parts hash site topo c in
    subst (λ (t : Topology). t.order ≡ render_order t.mixes) p.topology refl

-- Where a site compiles, its render order has each of its mixes once and nothing else.
pub compile_order_once :
    (hash : TopologyInfo → String) (site : Site) (topo : Topology)
    → compile hash site ≡ ok topo
    → Distinct topo.order × ((m : ℕ) → member m topo.order ≡ ltb m (length topo.mixes))
compile_order_once hash site topo c =
    let e = compile-order hash site topo c in
    (
      subst Distinct (sym e) (render_order-Distinct topo.mixes),
      λ m. ap (member m) e ∙ elim (Bool-cases (ltb m (length topo.mixes))) [
        | inl b ↦
            let (node, g) = bound-get topo.mixes m (ltb→lt m (length topo.mixes) b) in
            in_order topo.mixes m node g ∙ sym b
        | inr b ↦ elim (Bool-cases (member m (render_order topo.mixes))) [
          | inl q ↦ absurd (ground (arith, b, order_bound topo.mixes m q))
          | inr q ↦ q ∙ sym b
        ]
      ],
    )

-- Where a site compiles, a mix that another hears whole is rendered before it.
pub compile_order_heard :
    (hash : TopologyInfo → String) (site : Site) (topo : Topology) (m h : ℕ) (node heard : MixNode)
    → compile hash site ≡ ok topo
    → get_elem? topo.mixes m ≡ some node
    → get_elem? topo.mixes h ≡ some heard
    → member h node.mixes ≡ true
    → Before topo.order h m
compile_order_heard hash site topo m h node heard c g g' e =
    let before = compile-HeardBefore hash site topo m node c g in
    subst (λ o. Before o h m) (sym (compile-order hash site topo c))
      (heard_first topo.mixes m node g h heard g' e
        (member-All (λ h. h < m) h node.mixes before.before e))

-- Where a site compiles, a peer that hears nothing is rendered before the mix that hears it.
pub compile_order_peer :
    (hash : TopologyInfo → String) (site : Site) (topo : Topology) (m h : ℕ) (node heard : MixNode)
    → compile hash site ≡ ok topo
    → get_elem? topo.mixes m ≡ some node
    → get_elem? topo.mixes h ≡ some heard
    → member h node.peers ≡ true
    → hears_nothing heard ≡ true
    → Before topo.order h m
compile_order_peer hash site topo m h node heard c g g' e q =
    subst (λ o. Before o h m) (sym (compile-order hash site topo c))
      (quiet_first topo.mixes m node g h heard g' q (hears_peer node h e))
