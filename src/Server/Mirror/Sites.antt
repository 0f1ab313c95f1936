-- ===== src/Server/Mirror/Sites.antt =====
-- In a compiled site an id names one entity and a source stands in one slot
-- (crates/iem-engine/src/topology.rs, `compile` and `source`): what a mirror needs to follow.
use Prim.Native.String.{String}
use mathlib.Core.Option.{some-injective}
use iemmixer.Base.{
  ℕ, zero, suc, ◌+◌, ◌≡◌, refl, sym, ap, ◌∙◌, subst, inl, inr, ◌⊎◌, true, some, List, [], ◌∷◌, map,
  arith, length, get_elem?, same, member, Distinct, ok, Option-cases,
}
use iemmixer.Proto.State.{Source}
use iemmixer.Proto.Shape.{TopologyInfo}
use iemmixer.Engine.Site.{SiteInput, SiteGroup, Site}
use iemmixer.Engine.Topology.{
  Topology, InputNode, MixNode, position, checked_sub, heard_at, source, source_in,
}
use iemmixer.Engine.Compile.{compile, no_inputs}
use iemmixer.Engine.Compile.Parts.{compile-Parts}
use iemmixer.Engine.Compile.Names.{
  AllDifferent, position_lem, compile_names, different_left, different_right,
}
use iemmixer.Engine.Compile.Entities.{
  input_node_ids, group_node_ids, compile_inputs-ids, compile_groups-ids,
}
use iemmixer.Engine.Compile.Once.{HeardOnce, compile-HeardOnce}
use iemmixer.Server.Mirror.Follows.{OneName}

member-get : (xs : List ℕ) (i s : ℕ) → get_elem? xs i ≡ some s → member s xs ≡ true
member-get [] i s h = absurd cc
member-get (x ∷ xs) zero s h = ground (arith, some-injective _ _ h)
member-get (x ∷ xs) (suc i) s h = ground (arith, member-get xs i s h)

get-Distinct :
    (xs : List ℕ) (i j s : ℕ)
    → Distinct xs
    → get_elem? xs i ≡ some s
    → get_elem? xs j ≡ some s
    → i ≡ j
get-Distinct [] i j s d g h = absurd cc
get-Distinct (x ∷ xs) zero zero s d g h = refl
get-Distinct (x ∷ xs) zero (suc j) s d g h =
    let q : x ≡ s = some-injective _ _ g in
    absurd (cc (sym (member-get xs j s h) ∙ ap (λ k. member k xs) (sym q) ∙ d.0))
get-Distinct (x ∷ xs) (suc i) zero s d g h =
    let q : x ≡ s = some-injective _ _ h in
    absurd (cc (sym (member-get xs i s g) ∙ ap (λ k. member k xs) (sym q) ∙ d.0))
get-Distinct (x ∷ xs) (suc i) (suc j) s d g h = ap suc (get-Distinct xs i j s d.1 g h)

checked_sub-add : (a b i : ℕ) → checked_sub a b ≡ some i → a ≡ b + i
checked_sub-add a b i h = ground (arith, h)

-- Where a heard mix stands.
heard_at_cases :
    (node : MixNode) (j s : ℕ)
    → heard_at node j ≡ some s
    → (get_elem? node.mixes j ≡ some s)
      ⊎ ((i : ℕ) × (j ≡ length node.mixes + i) × (get_elem? node.peers i ≡ some s))
unfolding heard_at
heard_at_cases node j s h = elim (Option-cases (get_elem? node.mixes j)) [
  | inr (x, e) ↦ inl (e ∙ (rw (e, heard_at) at h))
  | inl e ↦ elim (Option-cases (checked_sub j (length node.mixes))) [
    | inl f ↦ absurd (cc (rw (e, heard_at, f) at h))
    | inr (i, f) ↦ inr (i, checked_sub-add j (length node.mixes) i f, rw (e, heard_at, f) at h)
  ]
]

heard_at-once :
    (m : ℕ) (node : MixNode) (j k s : ℕ)
    → HeardOnce m node
    → heard_at node j ≡ some s
    → heard_at node k ≡ some s
    → j ≡ k
heard_at-once m node j k s o g h = elim (heard_at_cases node j s g) [
  | inl a ↦ elim (heard_at_cases node k s h) [
    | inl b ↦ get-Distinct node.mixes j k s o.mixes a b
    | inr (i, q, b) ↦
        absurd (cc (sym (member-get node.mixes j s a) ∙ o.apart s (member-get node.peers i s b)))
  ]
  | inr (i, p, a) ↦ elim (heard_at_cases node k s h) [
    | inl b ↦
        absurd (cc (sym (member-get node.mixes k s b) ∙ o.apart s (member-get node.peers i s a)))
    | inr (l, q, b) ↦ omega (arith, p, q, get-Distinct node.peers i l s o.peers a b)
  ]
]

-- What slot `k` of a mix holds.
record HoldsMix (t : Topology) (node : MixNode) (k : ℕ) (s : Source) : Type 0 where
  place : ℕ
  heard : ℕ
  other : MixNode
  at : k ≡ length t.inputs + place
  hears : heard_at node place ≡ some heard
  named : get_elem? t.mixes heard ≡ some other
  is : s ≡ Source.mix other.id

source_in_cases :
    (t : Topology) (node : MixNode) (k : ℕ) (s : Source)
    → source_in t node k ≡ some s
    → ((n : InputNode) × (get_elem? t.inputs k ≡ some n) × (s ≡ Source.input n.id))
      ⊎ HoldsMix t node k s
source_in_cases t node k s h = elim (Option-cases (get_elem? t.inputs k)) [
  | inr (n, e) ↦ inl (n, e, sym (some-injective _ _ (rw (e, source_in) at h)))
  | inl e ↦ elim (Option-cases (checked_sub k (length t.inputs))) [
    | inl f ↦ absurd (cc (rw (e, source_in, f) at h))
    | inr (j, f) ↦ elim (Option-cases (heard_at node j)) [
      | inl g ↦ absurd (cc (rw (e, source_in, f, g) at h))
      | inr (r, g) ↦ elim (Option-cases (get_elem? t.mixes r)) [
        | inl q ↦ absurd (cc (rw (e, source_in, f, g, q) at h))
        | inr (n, q) ↦ inr (record {
          place = j;
          heard = r;
          other = n;
          at = checked_sub-add k (length t.inputs) j f;
          hears = g;
          named = q;
          is = sym (some-injective _ _ (rw (e, source_in, f, g, q) at h));
        })
      ]
    ]
  ]
]

one_place :
    {A : Type 0} (name : A → String) (xs : List A) (i j : ℕ) (x y : A)
    → AllDifferent (map name xs)
    → get_elem? xs i ≡ some x
    → get_elem? xs j ≡ some y
    → name x ≡ name y
    → i ≡ j
one_place name xs i j x y d g h e = some-injective _ _ (
    sym (position_lem name xs i x d g)
    ∙ ap (λ id. position (λ n. same (name n) id) xs) e
    ∙ position_lem name xs j y d h)

source_once :
    (t : Topology) (m k j : ℕ) (s : Source)
    → AllDifferent (map (λ (n : InputNode). n.id) t.inputs)
    → AllDifferent (map (λ (n : MixNode). n.id) t.mixes)
    → ((node : MixNode) → get_elem? t.mixes m ≡ some node → HeardOnce m node)
    → source t m k ≡ some s
    → source t m j ≡ some s
    → k ≡ j
unfolding source
source_once t m k j s inputs mixes once g h = elim (Option-cases (get_elem? t.mixes m)) [
  | inl e ↦ absurd (cc (rw (e, source) at g))
  | inr (node, e) ↦ elim (source_in_cases t node k s (rw (e, source) at g)) [
    | inl (x, a, p) ↦ elim (source_in_cases t node j s (rw (e, source) at h)) [
      | inl (y, b, q) ↦
          one_place (λ (n : InputNode). n.id) t.inputs k j x y inputs a b
            (ground (arith, sym p ∙ q))
      | inr r ↦ absurd (cc (sym p ∙ r.is))
    ]
    | inr a ↦ elim (source_in_cases t node j s (rw (e, source) at h)) [
      | inl (y, b, q) ↦ absurd (cc (sym q ∙ a.is))
      | inr b ↦
          let r : a.heard ≡ b.heard =
            one_place (λ (n : MixNode). n.id) t.mixes a.heard b.heard a.other b.other mixes a.named
              b.named (ground (arith, sym a.is ∙ b.is)) in
          let q : a.place ≡ b.place =
            heard_at-once m node a.place b.place b.heard (once node e) (a.hears ∙ ap some r)
              b.hears in
          omega (arith, a.at, b.at, q)
    ]
  ]
]

-- Where a site compiles, an id names one entity of its kind and a mix has one slot for a source.
pub compile-OneName :
    (hash : TopologyInfo → String) (site : Site) (topo : Topology)
    → compile hash site ≡ ok topo
    → OneName topo
compile-OneName hash site topo c =
    let p = compile-Parts hash site topo c in
    let (named, valid, different) = compile_names hash site topo c in
    let ids = λ (i : SiteInput). i.id in
    let groups = λ (g : SiteGroup). g.id in
    let later = different_right (map ids site.inputs) _ different in
    let (i, g) =
      compile_groups-ids _ 0 site.groups p.inputs.nodes [] (p.nodes, p.groups) p.groups_ok in
    let inputs : AllDifferent (input_node_ids topo.inputs) =
      subst AllDifferent
        (sym (
          ap (λ (t : Topology). input_node_ids t.inputs) (sym p.topology)
          ∙ i
          ∙ compile_inputs-ids site.channels site.inputs no_inputs p.inputs p.inputs_ok))
        (different_left (map ids site.inputs) _ different) in
    let mixes : AllDifferent (map (λ (n : MixNode). n.id) topo.mixes) =
      subst AllDifferent (sym named) (different_right (map groups site.groups) _ later) in
    record {
      inputs = inputs;
      groups =
          subst AllDifferent
            (sym (ap (λ (t : Topology). group_node_ids t.groups) (sym p.topology) ∙ g))
            (different_left (map groups site.groups) _ later);
      mixes = mixes;
      slots = λ m k j s.
          source_once topo m k j s inputs mixes
            (λ node e. compile-HeardOnce hash site topo m node c e);
    }
