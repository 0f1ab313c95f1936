-- ===== src/Engine/Compile/Echo.antt =====
-- No mix hears itself back (crates/iem-engine/src/topology.rs, `compile`: "A mix must not hear one
-- that brings its own output back").
use Prim.Native.String.{String}
use iemmixer.Base.{
  ℕ, zero, suc, ◌+◌, ◌<◌, ◌≡◌, refl, sym, ap, subst, ◌∙◌, ◌⊎◌, inl, inr, true, false, ◌||◌, some,
  List, [], ◌∷◌, ◌++◌, arith, Bool-cases, Option-cases, length, length-append, get_elem?, bound-get,
  get-map_from, All, member, member-All, set_insert, member-set_insert, ==_iff, ◌==◌, AllFrom,
  AllFrom-get, ok, ok_injective, and_then-ok,
}
use mathlib.Core.Option.{some-injective}
use iemmixer.Proto.Shape.{TopologyInfo}
use iemmixer.Engine.Site.{SiteMix, Site}
use iemmixer.Engine.Topology.{MixNode, Topology}
use iemmixer.Engine.Compile.{carry_heard, compile_carries, extend, compile, shadowed}
use iemmixer.Engine.Compile.Parts.{compile-Parts}
use iemmixer.Engine.Compile.Heard.{HeardBefore, heard_whole}

-- The whole output of mix `m` brings the own output of mix `x`: its own, a peer's, or what a mix
-- brings that it hears whole.
pub data Brings (mixes : List MixNode) : ℕ → ℕ → Type 0 where
  itself : (m x : ℕ) → m ≡ x → Brings mixes m x
  from_peer :
      (m x : ℕ) (node : MixNode)
      → get_elem? mixes m ≡ some node
      → member x node.peers ≡ true
      → Brings mixes m x
  from_heard :
      (m h x : ℕ) (node : MixNode)
      → get_elem? mixes m ≡ some node
      → member h node.mixes ≡ true
      → Brings mixes h x
      → Brings mixes m x

member-extend : (k : ℕ) (own ks : List ℕ) → member k (extend own ks) ≡ (member k own || member k ks)
member-extend k own [] = ground arith
member-extend k own (j ∷ ks) =
    member-extend k (set_insert j own) ks ∙ ground (arith, member-set_insert k j own)

-- The loop over the heard mixes keeps what is gathered, finds no mix that brings `m`, and gathers
-- what each one brings.
record Gathered (carries : List (List ℕ)) (m : ℕ) (hs own out : List ℕ) : Type 0 where
  keeps : (x : ℕ) → member x own ≡ true → member x out ≡ true
  apart :
      (h : ℕ) (brought : List ℕ)
      → member h hs ≡ true
      → get_elem? carries h ≡ some brought
      → member m brought ≡ false
  gathers :
      (h x : ℕ) (brought : List ℕ)
      → member h hs ≡ true
      → get_elem? carries h ≡ some brought
      → member x brought ≡ true
      → member x out ≡ true

carry_heard-Gathered :
    (names : List SiteMix) (carries : List (List ℕ)) (m : ℕ) (hs own out : List ℕ)
    → carry_heard names carries m hs own ≡ ok out
    → Gathered carries m hs own out
unfolding carry_heard
carry_heard-Gathered names carries m [] own out e = record {
  keeps = λ x h. subst (λ o. member x o ≡ true) (ok_injective own out e) h;
  apart = λ h brought q. cc;
  gathers = λ h x brought q. cc;
}
carry_heard-Gathered names carries m (g ∷ hs) own out e =
    elim (Option-cases (get_elem? carries g)) [
      | inl q ↦
          let r = carry_heard-Gathered names carries m hs own out (rw (q, carry_heard) at e) in
          record {
            keeps = r.keeps;
            apart = λ h brought p c. elim (Bool-cases (h == g)) [
              | inl b ↦ absurd (cc (sym q ∙ ap (get_elem? carries) (sym ((==_iff h g).0 b)) ∙ c))
              | inr b ↦ r.apart h brought (ground (arith, p, b)) c
            ];
            gathers = λ h x brought p c w. elim (Bool-cases (h == g)) [
              | inl b ↦ absurd (cc (sym q ∙ ap (get_elem? carries) (sym ((==_iff h g).0 b)) ∙ c))
              | inr b ↦ r.gathers h x brought (ground (arith, p, b)) c w
            ];
          }
      | inr (first, q) ↦ elim (Bool-cases (member m first)) [
        | inl f ↦ absurd (cc (rw (q, f, carry_heard) at e))
        | inr f ↦
            let r =
              carry_heard-Gathered names carries m hs (extend own first) out
                (rw (q, f, carry_heard) at e) in
            let same : (h : ℕ) (brought : List ℕ)
                → (h == g) ≡ true
                → get_elem? carries h ≡ some brought
                → first ≡ brought =
              λ h brought b c.
                some-injective _ _ (sym q ∙ ap (get_elem? carries) (sym ((==_iff h g).0 b)) ∙ c) in
            record {
              keeps = λ x h. r.keeps x (member-extend x own first ∙ ground (arith, h));
              apart = λ h brought p c. elim (Bool-cases (h == g)) [
                | inl b ↦ subst (λ o. member m o ≡ false) (same h brought b c) f
                | inr b ↦ r.apart h brought (ground (arith, p, b)) c
              ];
              gathers = λ h x brought p c w. elim (Bool-cases (h == g)) [
                | inl b ↦ r.keeps x (
                    member-extend x own first
                    ∙ ground (arith, subst (λ o. member x o ≡ true) (sym (same h brought b c)) w))
                | inr b ↦ r.gathers h x brought (ground (arith, p, b)) c w
              ];
            }
      ]
    ]

get-snoc :
    {A : Type 0} (xs : List A) (y z : A) (i : ℕ)
    → get_elem? (xs ++ y ∷ []) i ≡ some z
    → (get_elem? xs i ≡ some z) ⊎ ((i ≡ length xs) × (y ≡ z))
get-snoc [] y z zero h = inr (refl, some-injective _ _ h)
get-snoc [] y z (suc i) h = absurd cc
get-snoc (x ∷ xs) y z zero h = inl h
get-snoc (x ∷ xs) y z (suc i) h = elim (get-snoc xs y z i h) [
  | inl e ↦ inl e
  | inr (e, q) ↦ inr (ap suc e, q)
]

-- Each mix so far carries all that it brings.
abbrev Carried : List MixNode → List (List ℕ) → Type 0
Carried nodes carries =
    (h x : ℕ) (brought : List ℕ)
    → get_elem? carries h ≡ some brought
    → Brings nodes h x
    → member x brought ≡ true

module _ (nodes : List MixNode) (m : ℕ) (node : MixNode) (carries : List (List ℕ)) (out : List ℕ)
    (here : get_elem? nodes m ≡ some node) (count : length carries ≡ m)
    (before : All (λ h. h < m) node.mixes) (carried : Carried nodes carries)
    (g : Gathered carries m node.mixes (set_insert m (extend [] node.peers)) out) where
  brought_by : (h : ℕ) → member h node.mixes ≡ true → (b : List ℕ) × (get_elem? carries h ≡ some b)
  brought_by h q =
      bound-get carries h (omega (arith, count, member-All (λ h. h < m) h node.mixes before q))

  -- What mix `m` brings, its own set holds.
  out_holds : (k x : ℕ) → k ≡ m → Brings nodes k x → member x out ≡ true
  out_holds k x q (Brings.itself _ _ e) =
      g.keeps x (member-set_insert x m (extend [] node.peers) ∙ ground (arith, q, e))
  out_holds k x q (Brings.from_peer _ _ n e p) =
      let same : n ≡ node = some-injective _ _ (sym e ∙ ap (get_elem? nodes) q ∙ here) in
      let p' : member x node.peers ≡ true =
        subst (λ (n : MixNode). member x n.peers ≡ true) same p in
      g.keeps x (
        member-set_insert x m (extend [] node.peers)
        ∙ ground (arith, member-extend x [] node.peers, p'))
  out_holds k x q (Brings.from_heard _ h _ n e p w) =
      let same : n ≡ node = some-injective _ _ (sym e ∙ ap (get_elem? nodes) q ∙ here) in
      let p' : member h node.mixes ≡ true =
        subst (λ (n : MixNode). member h n.mixes ≡ true) same p in
      let (b, c) = brought_by h p' in g.gathers h x b p' c (carried h x b c w)

  snoc-Carried : Carried nodes (carries ++ out ∷ [])
  snoc-Carried h x b c w = elim (get-snoc carries out b h c) [
    | inl e ↦ carried h x b e w
    | inr (e, q) ↦ subst (λ o. member x o ≡ true) q (out_holds h x (e ∙ count) w)
  ]

  no_echo_here : (h : ℕ) → member h node.mixes ≡ true → ¬ Brings nodes h m
  no_echo_here h q w = let (b, c) = brought_by h q in cc (sym (g.apart h b q c) ∙ carried h m b c w)

-- What is left of a mix's own output is in none that it hears whole.
abbrev NoEcho : List MixNode → ℕ → MixNode → Type 0
NoEcho nodes m node = (h : ℕ) → member h node.mixes ≡ true → ¬ Brings nodes h m

compile_carries-NoEcho :
    (names : List SiteMix) (nodes rest : List MixNode) (m : ℕ) (carries out : List (List ℕ))
    → ((j : ℕ) → get_elem? rest j ≡ get_elem? nodes (m + j))
    → length carries ≡ m
    → AllFrom HeardBefore m rest
    → Carried nodes carries
    → compile_carries names m rest carries ≡ ok out
    → AllFrom (NoEcho nodes) m rest
unfolding compile_carries
compile_carries-NoEcho names nodes [] m carries out at count before carried e = tt
compile_carries-NoEcho names nodes (node ∷ rest) m carries out at count before carried e =
    let (brought, c, e') = and_then-ok _ _ out e in
    let g =
      carry_heard-Gathered names carries m node.mixes (set_insert m (extend [] node.peers)) brought
        c in
    let here : get_elem? nodes m ≡ some node = ap (get_elem? nodes) (omega arith) ∙ sym (at 0) in
    (
      no_echo_here nodes m node carries brought here count before.0.before carried g,
      compile_carries-NoEcho names nodes rest (suc m) (carries ++ brought ∷ []) out
          (λ j. at (suc j) ∙ ap (get_elem? nodes) (omega arith))
          (length-append carries (brought ∷ []) ∙ omega (arith, count)) before.1
          (snoc-Carried nodes m node carries brought here count before.0.before carried g) e',
    )

-- The shadows change nothing of what a mix brings.
shadowed-Brings : (nodes : List MixNode) (m x : ℕ) → Brings (shadowed nodes) m x → Brings nodes m x
shadowed-Brings nodes m x (Brings.itself _ _ e) = Brings.itself m x e
shadowed-Brings nodes m x (Brings.from_peer _ _ n e p) =
    let (old, g, q) = get-map_from _ 0 m nodes n e in
    Brings.from_peer m x old g (subst (λ (n : MixNode). member x n.peers ≡ true) q p)
shadowed-Brings nodes m x (Brings.from_heard _ h _ n e p w) =
    let (old, g, q) = get-map_from _ 0 m nodes n e in
    Brings.from_heard m h x old g (subst (λ (n : MixNode). member h n.mixes ≡ true) q p)
      (shadowed-Brings nodes h x w)

-- Where a site compiles, no mix hears whole one that brings its own output back, by whatever chain of
-- mixes heard whole and however it ends.
pub compile_no_echo :
    (hash : TopologyInfo → String) (site : Site) (topo : Topology) (m h : ℕ) (node : MixNode)
    → compile hash site ≡ ok topo
    → get_elem? topo.mixes m ≡ some node
    → member h node.mixes ≡ true
    → ¬ Brings topo.mixes h m
compile_no_echo hash site topo m h node c e q w =
    let p = compile-Parts hash site topo c in
    let whole = p.whole in
    let before =
      heard_whole site.channels p.engineer site.mixes p.mixes whole p.mixes_ok p.peers_ok in
    let all =
      compile_carries-NoEcho site.mixes whole whole 0 [] p.carries
        (λ j. ap (get_elem? whole) (omega arith)) refl before (λ h x b k. cc) p.carries_ok in
    let e' : get_elem? (shadowed whole) m ≡ some node =
      ap (λ (t : Topology). get_elem? t.mixes m) p.topology ∙ e in
    let (old, g, r) = get-map_from _ 0 m whole node e' in
    let w' : Brings (shadowed whole) h m =
      subst (λ (t : Topology). Brings t.mixes h m) (sym p.topology) w in
    AllFrom-get (NoEcho whole) 0 m m whole old all g (omega arith) h
      (subst (λ (n : MixNode). member h n.mixes ≡ true) r q) (shadowed-Brings whole h m w')
