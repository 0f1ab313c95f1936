-- ===== src/Engine/Compile/Entities.antt =====
-- The inputs and the groups of a compiled site keep the site's ids, in their order
-- (crates/iem-engine/src/topology.rs, `compile`).
use Prim.Native.String.{String}
use iemmixer.Base.{
  ℕ, zero, suc, ◌≡◌, sym, ap, ◌∙◌, inl, inr, ◌&&◌, some, List, [], ◌∷◌, ◌++◌, map, Bool-cases,
  Option-cases, get_elem?, set, lookup, is_some, ok, ok_injective, and_then, and_then-ok,
}
use mathlib.Core.Option.{some-injective}
use iemmixer.Engine.Site.{SiteInput, SiteGroup}
use iemmixer.Engine.Topology.{InputNode, GroupNode, is_empty}
use iemmixer.Engine.Compile.{
  Inputs, check_channels, compile_input, compile_inputs, compile_members, compile_groups,
  one_or_two, input_taken, sort,
}
use iemmixer.Engine.Compile.Names.{append_nil, append_assoc, map-append}

abbrev pub input_node_ids : List InputNode → List String
input_node_ids = map (λ (n : InputNode). n.id)

abbrev pub group_node_ids : List GroupNode → List String
group_node_ids = map (λ (n : GroupNode). n.id)

taken-ids :
    (i : SiteInput) (acc out : Inputs) (used : List ℕ)
    → input_taken i acc used ≡ ok out
    → input_node_ids out.nodes ≡ input_node_ids acc.nodes ++ (i.id ∷ [])
taken-ids i acc out used e = elim (Bool-cases (i.talkback && acc.talkback)) [
  | inl q ↦ absurd (cc (rw (q, input_taken) at e))
  | inr q ↦
      ap (λ (o : Inputs). input_node_ids o.nodes)
        (sym (ok_injective _ out (rw (q, input_taken) at e)))
      ∙ map-append (λ (n : InputNode). n.id) acc.nodes _
]

pub compile_inputs-ids :
    (channels : ℕ) (is : List SiteInput) (acc out : Inputs)
    → compile_inputs channels is acc ≡ ok out
    → input_node_ids out.nodes ≡ input_node_ids acc.nodes ++ map (λ (i : SiteInput). i.id) is
unfolding compile_inputs compile_input
compile_inputs-ids channels [] acc out e =
    ap (λ (o : Inputs). input_node_ids o.nodes) (sym (ok_injective acc out e))
    ∙ sym (append_nil (input_node_ids acc.nodes))
compile_inputs-ids channels (i ∷ is) acc out e = elim (Bool-cases (one_or_two i.rx)) [
  | inr q ↦ absurd (cc (rw (q, compile_inputs, compile_input, and_then) at e))
  | inl q ↦
      let (next, c, e') =
        and_then-ok (compile_input channels i acc) (compile_inputs channels is) out e in
      let (used, d, c') =
        and_then-ok (check_channels i.id i.rx channels acc.used) (input_taken i acc) next
          (rw (q, compile_input) at c) in
      compile_inputs-ids channels is next out e'
      ∙ ap (λ ids. ids ++ map (λ (i : SiteInput). i.id) is) (taken-ids i acc next used c')
      ∙ append_assoc (input_node_ids acc.nodes) (i.id ∷ []) (map (λ (i : SiteInput). i.id) is)
]

marked-ids :
    (nodes : List InputNode) (i g : ℕ) (node : InputNode)
    → get_elem? nodes i ≡ some node
    → input_node_ids (set nodes i (record node { group = some g })) ≡ input_node_ids nodes
marked-ids [] i g node e = absurd cc
marked-ids (n ∷ nodes) zero g node e =
    ap (λ (x : InputNode). x.id ∷ input_node_ids nodes) (sym (some-injective _ _ e))
marked-ids (n ∷ nodes) (suc i) g node e = ap (λ ids. n.id ∷ ids) (marked-ids nodes i g node e)

compile_members-ids :
    (pos : List (String × ℕ)) (g : ℕ) (group : String) (names : List String)
    (nodes : List InputNode) (members : List ℕ) (out : List InputNode × List ℕ)
    → compile_members pos g group names nodes members ≡ ok out
    → input_node_ids out.0 ≡ input_node_ids nodes
unfolding compile_members
compile_members-ids pos g group [] nodes members out e =
    ap (λ (o : List InputNode × List ℕ). input_node_ids o.0)
      (sym (ok_injective (nodes, members) out e))
compile_members-ids pos g group (name ∷ names) nodes members out e =
    elim (Option-cases (lookup name pos)) [
      | inl q ↦ absurd (cc (rw (q, compile_members) at e))
      | inr (i, q) ↦ elim (Option-cases (get_elem? nodes i)) [
        | inl r ↦
            compile_members-ids pos g group names nodes members out
              (rw (q, r, compile_members) at e)
        | inr (node, r) ↦ elim (Bool-cases (is_some node.group)) [
          | inl b ↦ absurd (cc (rw (q, r, b, compile_members) at e))
          | inr b ↦
              compile_members-ids pos g group names (set nodes i (record node { group = some g }))
                (members ++ i ∷ []) out (rw (q, r, b, compile_members) at e)
              ∙ marked-ids nodes i g node r
        ]
      ]
    ]

pub compile_groups-ids :
    (pos : List (String × ℕ)) (g : ℕ) (site : List SiteGroup) (nodes : List InputNode)
    (groups : List GroupNode) (out : List InputNode × List GroupNode)
    → compile_groups pos g site nodes groups ≡ ok out
    → (input_node_ids out.0 ≡ input_node_ids nodes)
      × (group_node_ids out.1 ≡ group_node_ids groups ++ map (λ (x : SiteGroup). x.id) site)
unfolding compile_groups
compile_groups-ids pos g [] nodes groups out e =
    let q : (nodes, groups) ≡ out = ok_injective (nodes, groups) out e in
    (
      ap (λ (o : List InputNode × List GroupNode). input_node_ids o.0) (sym q),
      ap (λ (o : List InputNode × List GroupNode). group_node_ids o.1) (sym q)
          ∙ sym (append_nil (group_node_ids groups)),
    )
compile_groups-ids pos g (group ∷ rest) nodes groups out e =
    elim (Bool-cases (is_empty group.inputs)) [
      | inl q ↦ absurd (cc (rw (q, compile_groups) at e))
      | inr q ↦
          let ((marked, members), c, e') =
            and_then-ok (compile_members pos g group.id group.inputs nodes []) _ out
              (rw (q, compile_groups) at e) in
          let node : GroupNode = record { id = group.id; inputs = sort members } in
          let (i, k) = compile_groups-ids pos (suc g) rest marked (groups ++ node ∷ []) out e' in
          (
            i ∙ compile_members-ids pos g group.id group.inputs nodes [] (marked, members) c,
            k
                ∙ ap (λ ids. ids ++ map (λ (x : SiteGroup). x.id) rest)
                    (map-append (λ (n : GroupNode). n.id) groups (node ∷ []))
                ∙ append_assoc (group_node_ids groups) (group.id ∷ [])
                    (map (λ (x : SiteGroup). x.id) rest),
          )
    ]
