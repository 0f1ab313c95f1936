-- ===== src/Engine/Compile/Names.antt =====
-- The ids of a compiled site (crates/iem-engine/src/topology.rs, `check_id`, and the lookups
-- `input_index`, `mix_index` of `Topology`).
use Prim.Native.String.{String}
use iemmixer.Base.{
  ℕ, zero, suc, ◌≡◌, refl, sym, ap, subst, ◌∙◌, inl, inr, true, false, some, List, [], ◌∷◌, ◌++◌,
  arith, map, Bool-cases, All, contains, same, same_iff, get_elem?, update, map_from, ok,
  ok_injective, and_then, and_then-ok,
}
use mathlib.Core.Option.{some-injective}
use iemmixer.Proto.Ids.{valid_id}
use iemmixer.Proto.Shape.{TopologyInfo}
use iemmixer.Engine.Site.{SiteInput, SiteGroup, SiteMix, Site}
use iemmixer.Engine.Topology.{MixNode, Topology, position, mix_index}
use iemmixer.Engine.Compile.{
  Mixes, check_id, check_ids, check_channels, compile_heard, compile_mix, compile_mixes,
  compile_peers, compile_peers_of, one_or_two, mix_taken, mix_heard, peerless, peers_set, no_mixes,
  site_ids, compile,
}
use iemmixer.Engine.Compile.Parts.{compile-Parts}

-- No text twice.
abbrev pub AllDifferent : List String → Type 0
AllDifferent [] = Unit
AllDifferent (x ∷ xs) = (contains xs x ≡ false) × AllDifferent xs

pub record Named (seen ids : List String) : Type 0 where
  pub valid : All (λ id. valid_id id ≡ true) ids
  pub different : AllDifferent ids
  pub fresh : (id : String) → contains ids id ≡ true → contains seen id ≡ false

pub check_ids-Named : (ids seen out : List String) → check_ids ids seen ≡ ok out → Named seen ids
unfolding check_ids check_id
check_ids-Named [] seen out h = record { valid = tt; different = tt; fresh = λ id e. cc }
check_ids-Named (id ∷ ids) seen out h = elim (Bool-cases (valid_id id)) [
  | inr v ↦ absurd (cc (rw (v, check_ids, check_id, and_then) at h))
  | inl v ↦ elim (Bool-cases (contains seen id)) [
    | inl b ↦ absurd (cc (rw (v, b, check_ids, check_id, and_then) at h))
    | inr b ↦
        let r : Named (id ∷ seen) ids =
          check_ids-Named ids (id ∷ seen) out (rw (v, b, check_ids, check_id, and_then) at h) in
        let apart : contains ids id ≡ false = elim (Bool-cases (contains ids id)) [
          | inl q ↦ absurd (ground (arith, r.fresh id q, same_iff id id))
          | inr q ↦ q
        ] in
        record {
          valid = (v, r.valid);
          different = (apart, r.different);
          fresh = λ k e. elim (Bool-cases (same id k)) [
            | inl q ↦ subst (λ j. contains seen j ≡ false) ((same_iff id k).0 q) b
            | inr q ↦ ground (arith, e, q, r.fresh k)
          ];
        }
  ]
]

contains_left :
    (xs ys : List String) (k : String) → contains (xs ++ ys) k ≡ false → contains xs k ≡ false
contains_left [] ys k e = refl
contains_left (x ∷ xs) ys k e = ground (arith, e, contains_left xs ys k)

pub contains_get :
    {A : Type 0} (name : A → String) (xs : List A) (i : ℕ) (x : A)
    → get_elem? xs i ≡ some x
    → contains (map name xs) (name x) ≡ true
contains_get name [] i x e = absurd cc
contains_get name (y ∷ xs) zero x e =
    let q : y ≡ x = some-injective _ _ e in rw ((same_iff (name y) (name x)).1 (ap name q)) refl
contains_get name (y ∷ xs) (suc i) x e = ground (arith, contains_get name xs i x e)

pub different_left : (xs ys : List String) → AllDifferent (xs ++ ys) → AllDifferent xs
different_left [] ys h = tt
different_left (x ∷ xs) ys h = (contains_left xs ys x h.0, different_left xs ys h.1)

pub different_right : (xs ys : List String) → AllDifferent (xs ++ ys) → AllDifferent ys
different_right [] ys h = h
different_right (x ∷ xs) ys h = different_right xs ys h.1

-- The place of an id is where the first position search finds it.
pub position_lem :
    {A : Type 0} (name : A → String) (xs : List A) (i : ℕ) (x : A)
    → AllDifferent (map name xs)
    → get_elem? xs i ≡ some x
    → position (λ n. same (name n) (name x)) xs ≡ some i
position_lem name [] i x d e = absurd cc
position_lem name (y ∷ xs) zero x d e =
    let q : y ≡ x = some-injective _ _ e in rw ((same_iff (name y) (name x)).1 (ap name q)) refl
position_lem name (y ∷ xs) (suc i) x d e = elim (Bool-cases (same (name y) (name x))) [
  | inl q ↦ absurd (
      cc (
        sym d.0
        ∙ ap (contains (map name xs)) ((same_iff (name y) (name x)).0 q)
        ∙ contains_get name xs i x e))
  | inr q ↦ rw (q, position_lem name xs i x d.1 e) refl
]

pub append_nil : {A : Type 0} (xs : List A) → xs ++ [] ≡ xs
append_nil [] = refl
append_nil (x ∷ xs) = ap (λ ys. x ∷ ys) (append_nil xs)

pub append_assoc : {A : Type 0} (xs ys zs : List A) → (xs ++ ys) ++ zs ≡ xs ++ (ys ++ zs)
append_assoc [] ys zs = refl
append_assoc (x ∷ xs) ys zs = ap (λ ws. x ∷ ws) (append_assoc xs ys zs)

pub map-append :
    {A : Type 0} {B : Type 0} (f : A → B) (xs ys : List A) → map f (xs ++ ys) ≡ map f xs ++ map f ys
map-append f [] ys = refl
map-append f (x ∷ xs) ys = ap (λ zs. f x ∷ zs) (map-append f xs ys)

abbrev pub node_ids : List MixNode → List String
node_ids = map (λ (n : MixNode). n.id)

compile_mixes-ids :
    (channels m : ℕ) (mixes : List SiteMix) (acc out : Mixes)
    → compile_mixes channels m mixes acc ≡ ok out
    → node_ids out.nodes ≡ node_ids acc.nodes ++ map (λ (x : SiteMix). x.id) mixes
unfolding compile_mixes compile_mix
compile_mixes-ids channels m [] acc out e =
    ap (λ (o : Mixes). node_ids o.nodes) (sym (ok_injective acc out e))
    ∙ sym (append_nil (node_ids acc.nodes))
compile_mixes-ids channels m (mix ∷ mixes) acc out e = elim (Bool-cases (one_or_two mix.tx)) [
  | inr q ↦ absurd (cc (rw (q, compile_mixes, compile_mix, and_then) at e))
  | inl q ↦
      let (next, c, e') =
        and_then-ok (compile_mix channels m mix acc) (compile_mixes channels (suc m) mixes) out e in
      let (used, d, c') =
        and_then-ok (check_channels mix.id mix.tx channels acc.used) (mix_taken m mix acc) next
          (rw (q, compile_mix) at c) in
      let (heard, f, c'') =
        and_then-ok (compile_heard mix.id mix.mixes acc.declared []) (mix_heard m mix acc used) next
          c' in
      compile_mixes-ids channels (suc m) mixes next out e'
      ∙ ap (λ (o : Mixes). node_ids o.nodes ++ map (λ (x : SiteMix). x.id) mixes)
          (sym (ok_injective _ next c''))
      ∙ ap (λ ids. ids ++ map (λ (x : SiteMix). x.id) mixes)
          (map-append (λ (n : MixNode). n.id) acc.nodes _)
      ∙ append_assoc (node_ids acc.nodes) (mix.id ∷ []) (map (λ (x : SiteMix). x.id) mixes)
]

update-ids :
    (nodes : List MixNode) (m : ℕ) (peers : List ℕ)
    → node_ids (update nodes m (λ n. record n { peers = peers })) ≡ node_ids nodes
update-ids [] m peers = refl
update-ids (n ∷ nodes) zero peers = refl
update-ids (n ∷ nodes) (suc m) peers = ap (λ ids. n.id ∷ ids) (update-ids nodes m peers)

compile_peers-ids :
    (engineer : ℕ) (declared : List (String × ℕ)) (m : ℕ) (mixes : List SiteMix)
    (nodes out : List MixNode)
    → compile_peers engineer declared m mixes nodes ≡ ok out
    → node_ids out ≡ node_ids nodes
unfolding compile_peers
compile_peers-ids engineer declared m [] nodes out e = ap node_ids (sym (ok_injective nodes out e))
compile_peers-ids engineer declared m (mix ∷ mixes) nodes out e =
    elim (Bool-cases (peerless engineer m mix nodes)) [
      | inl q ↦ absurd (cc (rw (q, compile_peers) at e))
      | inr q ↦
          let (peers, c, e') =
            and_then-ok (compile_peers_of nodes engineer m mix.id declared mix.peers [])
              (peers_set engineer declared m mixes nodes) out (rw (q, compile_peers) at e) in
          compile_peers-ids engineer declared (suc m) mixes
            (update nodes m (λ n. record n { peers = peers })) out e'
          ∙ update-ids nodes m peers
    ]

pub map-map_from :
    {A B C : Type 0} (g : B → C) (h : A → C) (f : ℕ → A → B) (k : ℕ) (xs : List A)
    → ((n : ℕ) (x : A) → g (f n x) ≡ h x)
    → map g (map_from f k xs) ≡ map h xs
map-map_from g h f k [] e = refl
map-map_from g h f k (x ∷ xs) e =
    ap (λ c. c ∷ map g (map_from f (suc k) xs)) (e k x)
    ∙ ap (λ cs. h x ∷ cs) (map-map_from g h f (suc k) xs e)

-- Where a site compiles, its topology's mixes have the ids of the site's, in their order, and every
-- id of the site is valid and stands there once.
pub compile_names :
    (hash : TopologyInfo → String) (site : Site) (topo : Topology)
    → compile hash site ≡ ok topo
    → (node_ids topo.mixes ≡ map (λ (x : SiteMix). x.id) site.mixes)
      × All (λ id. valid_id id ≡ true) (site_ids site)
      × AllDifferent (site_ids site)
compile_names hash site topo c =
    let p = compile-Parts hash site topo c in
    let n = check_ids-Named (site_ids site) [] p.seen p.ids_ok in
    (
      ap (λ (t : Topology). node_ids t.mixes) (sym p.topology)
          ∙ map-map_from (λ (n : MixNode). n.id) (λ (n : MixNode). n.id) _ 0 p.whole (λ n x. refl)
          ∙ compile_peers-ids p.engineer p.mixes.declared 0 site.mixes p.mixes.nodes p.whole
              p.peers_ok
          ∙ compile_mixes-ids site.channels 0 site.mixes no_mixes p.mixes p.mixes_ok,
      n.valid,
      n.different,
    )

-- Where a site compiles, the lookup of a mix's id finds that mix.
pub compile-mix_index :
    (hash : TopologyInfo → String) (site : Site) (topo : Topology) (m : ℕ) (node : MixNode)
    → compile hash site ≡ ok topo
    → get_elem? topo.mixes m ≡ some node
    → mix_index topo node.id ≡ some m
unfolding mix_index
compile-mix_index hash site topo m node c e =
    let (names, valid, different) = compile_names hash site topo c in
    position_lem (λ (n : MixNode). n.id) topo.mixes m node
      (subst AllDifferent (sym names) (
        different_right (map (λ (g : SiteGroup). g.id) site.groups) _
          (different_right (map (λ (i : SiteInput). i.id) site.inputs) _ different)))
      e
