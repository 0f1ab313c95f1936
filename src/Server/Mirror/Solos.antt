-- ===== src/Server/Mirror/Solos.antt =====
-- The solos of the core, by mix in topology order, and of a mirror, in the order of their changes: a
-- reader finds the same sources.
use mathlib.Core.Option.{some-injective}
use iemmixer.Base.{
  ℕ, ◌≡◌, refl, sym, ap, ◌∙◌, subst, inl, inr, Bool, true, false, not, none, some, List, [], ◌∷◌,
  ◌++◌, arith, if◌then◌else◌, ◌==◌, ==_iff, get_elem?, keep, filter_map, map_insert, map_remove,
  same, same_iff, Bool-cases, Option-cases,
}
use iemmixer.Proto.State.{MixId, Source, Solo}
use iemmixer.Engine.Topology.{MixNode, position, source}
use iemmixer.Engine.Compile.Names.{position_lem}
use iemmixer.Engine.Core.{Core, is_nil, mix_id, solo_of}
use iemmixer.Server.Mirror.{soloed}
use iemmixer.Server.Mirror.Follows.{OneName}

module _ (mix id : MixId) where
  abbrev others : List Solo → List Solo
  others = keep (λ (s : Solo). not (same s.mix mix))

  soloed-others : (l : List Solo) → soloed id (others l) ≡ (if same mix id then [] else soloed id l)
  soloed-others [] = ground arith
  soloed-others (s ∷ l) =
      ground (arith, same_iff s.mix mix, same_iff s.mix id, same_iff mix id, soloed-others l)

  soloed-last :
      (sources : List Source) (l : List Solo)
      → soloed id (others l ++ (record { mix = mix; sources = sources } ∷ []))
        ≡ (if same mix id then sources else soloed id l)
  soloed-last sources [] = ground arith
  soloed-last sources (s ∷ l) =
      ground (arith, same_iff s.mix mix, same_iff s.mix id, same_iff mix id, soloed-last sources l)

  -- What a mirror makes of a change of solo.
  pub soloed-change :
      (sources : List Source) (l : List Solo)
      → soloed id (
          if is_nil sources
          then others l
          else others l ++ (record { mix = mix; sources = sources } ∷ []))
        ≡ (if same mix id then sources else soloed id l)
  soloed-change [] l = soloed-others l
  soloed-change (x ∷ sources) l = soloed-last (x ∷ sources) l

module _ {F : Type 0} (c : Core F) where
  -- Mix `j` has this id.
  abbrev pub called : ℕ → MixId → Bool
  called j id = elim (mix_id c j) [ none ↦ false | some x ↦ same x id ]

  abbrev sources_of : ℕ → List ℕ → List Source
  sources_of m held = filter_map (source c.topo m) held

  soloed-cons :
      (id : MixId) (j : ℕ) (held : List ℕ) (l : List (ℕ × List ℕ))
      → soloed id (filter_map (solo_of c) ((j, held) ∷ l))
        ≡ (if called j id then sources_of j held else soloed id (filter_map (solo_of c) l))
  soloed-cons id j held l = ground arith

  -- The solo of a mix that the topology has not is read by nobody.
  pub soloed-map_remove_unknown :
      (m : ℕ) (id : MixId) (l : List (ℕ × List ℕ))
      → called m id ≡ false
      → soloed id (filter_map (solo_of c) (map_remove m l)) ≡ soloed id (filter_map (solo_of c) l)
  soloed-map_remove_unknown m id [] h = refl
  soloed-map_remove_unknown m id ((j, held) ∷ l) h = elim (Bool-cases (m == j)) [
    | inl e ↦
        let q : m ≡ j = (==_iff m j).0 e in
        let h' : called j id ≡ false = subst (λ k. called k id ≡ false) q h in
        rw e (
          soloed-map_remove_unknown m id l h
          ∙ sym (
              soloed-cons id j held l
              ∙ ap (λ b. if b then sources_of j held else soloed id (filter_map (solo_of c) l)) h'))
    | inr e ↦ rw e (
        soloed-cons id j held (map_remove m l)
        ∙ ap (λ s. if called j id then sources_of j held else s)
            (soloed-map_remove_unknown m id l h)
        ∙ sym (soloed-cons id j held l))
  ]

  module _ (mix : MixId) (m : ℕ) (at : (id : MixId) → called m id ≡ same mix id)
      (once : (j : ℕ) → called j mix ≡ true → j ≡ m) where
    here : (id : MixId) (j : ℕ) → same mix id ≡ true → called j id ≡ true → j ≡ m
    here id j e h = once j (subst (λ k. called j k ≡ true) (sym ((same_iff mix id).0 e)) h)

    pub soloed-map_remove :
        (id : MixId) (l : List (ℕ × List ℕ))
        → soloed id (filter_map (solo_of c) (map_remove m l))
          ≡ (if same mix id then [] else soloed id (filter_map (solo_of c) l))
    soloed-map_remove id [] = ground arith
    soloed-map_remove id ((j, held) ∷ l) = ground (
      arith,
      at id,
      here id j,
      soloed-cons id j held l,
      soloed-cons id j held (map_remove m l),
      soloed-map_remove id l,
    )

    pub soloed-map_insert :
        (id : MixId) (new : List ℕ) (l : List (ℕ × List ℕ))
        → soloed id (filter_map (solo_of c) (map_insert m new l))
          ≡ (if same mix id then sources_of m new else soloed id (filter_map (solo_of c) l))
    soloed-map_insert id new [] = soloed-cons id m new [] ∙ ground (arith, at id)
    soloed-map_insert id new ((j, held) ∷ l) = ground (
      arith,
      at id,
      here id j,
      soloed-cons id j held l,
      soloed-cons id m new l,
      soloed-cons id m new ((j, held) ∷ l),
      soloed-cons id j held (map_insert m new l),
      soloed-map_insert id new l,
    )

-- Where an id names one mix, that mix is the one at its place.
pub called_at :
    {F : Type 0} (c : Core F) (mix : MixId) (m : ℕ) (node : MixNode)
    → OneName c.topo
    → get_elem? c.topo.mixes m ≡ some node
    → node.id ≡ mix
    → ((id : MixId) → called c m id ≡ same mix id) × ((j : ℕ) → called c j mix ≡ true → j ≡ m)
called_at c mix m node one e n = (
  λ id. rw (e, called) (ap (λ x. same x id) n),
  λ j h. elim (Option-cases (get_elem? c.topo.mixes j)) [
    | inl f ↦ absurd (cc (rw (f, called) at h))
    | inr (other, f) ↦
        let q : other.id ≡ node.id = (same_iff other.id mix).0 (rw (f, called) at h) ∙ sym n in
        let name = λ (x : MixNode). x.id in
        let p : position (λ x. same x.id other.id) c.topo.mixes ≡ some j =
          position_lem name c.topo.mixes j other one.mixes f in
        let r : position (λ x. same x.id node.id) c.topo.mixes ≡ some m =
          position_lem name c.topo.mixes m node one.mixes e in
        some-injective _ _
          (sym p ∙ ap (λ id. position (λ (x : MixNode). same x.id id) c.topo.mixes) q ∙ r)
  ],
)
