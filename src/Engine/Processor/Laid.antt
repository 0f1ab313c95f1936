-- ===== src/Engine/Processor/Laid.antt =====
-- The core's lists have the topology's lengths (crates/iem-engine/src/core/state.rs, `reconcile`),
-- and the writes of one entity keep them.
use iemmixer.Base.{
  ℕ, zero, suc, ◌+◌, ◌≤◌, ◌≡◌, refl, sym, ap, subst, ◌∙◌, inl, inr, Option, some, List, [], ◌∷◌,
  arith, map, length, length-set, get_elem?, get_elem?-set_self, get_elem?-set_ne, set, range_from,
  ◌==◌, ==_iff, Bool-cases,
}
use mathlib.Core.Option.{some-injective}
use iemmixer.Float.{Float}
use iemmixer.Proto.State.{MixId, InputState, Mix, MixState}
use iemmixer.Proto.Shape
use iemmixer.Engine.Topology.{Topology, MixNode, levels, info}
use iemmixer.Engine.Core.{
  Core, MixRec, Reconciled, put_mix, put_input, reconcile, lay_mix, lay_mixes, Flags, new, with_hil,
}

-- The indices of a topology fit the 16 bits that the commands carry.
pub record Small (topo : Topology) : Type 0 where
  pub inputs : length topo.inputs ≤ 65536
  pub groups : length topo.groups ≤ 65536
  pub mixes : length topo.mixes ≤ 65536
  pub levels : (m : ℕ) → levels topo m ≤ 65536

length-map {ℓ κ} :
    {A : Type ℓ} {B : Type κ} (f : A → B) (xs : List A) → length (map f xs) ≡ length xs
length-map f [] = refl
length-map f (x ∷ xs) = ap suc (length-map f xs)

length-range_from : (k n : ℕ) → length (range_from k n) ≡ n
length-range_from k zero = refl
length-range_from k (suc n) = ap suc (length-range_from (suc k) n)

module _ {F : Type 0} where
  -- A mix's levels and groups are as many as the topology says.
  pub record RowLaid (topo : Topology) (m : ℕ) (rec : MixRec F) : Type 0 where
    pub width : length rec.levels ≡ levels topo m
    pub groups : length rec.groups ≡ length topo.groups

  pub record StateLaid (topo : Topology) (s : Reconciled F) : Type 0 where
    pub inputs : length s.inputs ≡ length topo.inputs
    pub mixes : length s.mixes ≡ length topo.mixes
    pub rows : (m : ℕ) (rec : MixRec F) → get_elem? s.mixes m ≡ some rec → RowLaid topo m rec

  pub record Laid (c : Core F) : Type 0 where
    pub state : StateLaid c.topo c.s
    pub taps : length c.listen ≡ 2

  pub put_input-Laid : (c : Core F) (i : ℕ) (s : InputState F) → Laid c → Laid (put_input c i s)
  put_input-Laid c i s h = record {
    state = record {
      inputs = length-set c.s.inputs i s ∙ h.state.inputs;
      mixes = h.state.mixes;
      rows = h.state.rows;
    };
    taps = h.taps;
  }

  pub put_mix-Laid :
      (c : Core F) (m : ℕ) (rec new : MixRec F)
      → get_elem? c.s.mixes m ≡ some rec
      → length new.levels ≡ length rec.levels
      → length new.groups ≡ length rec.groups
      → Laid c
      → Laid (put_mix c m new)
  put_mix-Laid c m rec new e w g h =
      let old : RowLaid c.topo m rec = h.state.rows m rec e in
      record {
        state = record {
          inputs = h.state.inputs;
          mixes = length-set c.s.mixes m new ∙ h.state.mixes;
          rows = λ j r q. elim (Bool-cases (m == j)) [
            | inl b ↦
                let same : m ≡ j = (==_iff m j).0 b in
                let here : new ≡ r = some-injective _ _ (
                  sym (get_elem?-set_self c.s.mixes m new rec e)
                  ∙ ap (get_elem? (set c.s.mixes m new)) same
                  ∙ q) in
                subst (λ j. RowLaid c.topo j r) same
                  (subst (RowLaid c.topo m) here
                    (record { width = w ∙ old.width; groups = g ∙ old.groups }))
            | inr b ↦
                h.state.rows j r (
                  sym (get_elem?-set_ne c.s.mixes m j new (λ q. cc (sym b ∙ (==_iff m j).1 q))) ∙ q)
          ];
        };
        taps = h.taps;
      }

module _ {F : Type 0} ⦃fl : Float F⦄ where
  lay_mix-RowLaid :
      (topo : Topology) (m : ℕ) (x : Option (Mix F)) → RowLaid topo m (lay_mix topo m x)
  unfolding lay_mix
  lay_mix-RowLaid topo m x = record {
    width = length-map _ (range_from 0 (levels topo m)) ∙ length-range_from 0 (levels topo m);
    groups = length-map _ topo.groups;
  }

  length-lay_mixes :
      (topo : Topology) (mixes : List (MixId × Mix F)) (m : ℕ) (nodes : List MixNode)
      → length (lay_mixes topo mixes m nodes) ≡ length nodes
  unfolding lay_mixes
  length-lay_mixes topo mixes m [] = refl
  length-lay_mixes topo mixes m (n ∷ nodes) = ap suc (length-lay_mixes topo mixes (suc m) nodes)

  lay_mixes-RowLaid :
      (topo : Topology) (mixes : List (MixId × Mix F)) (m : ℕ) (nodes : List MixNode) (j : ℕ)
      (rec : MixRec F)
      → get_elem? (lay_mixes topo mixes m nodes) j ≡ some rec
      → RowLaid topo (m + j) rec
  unfolding lay_mixes
  lay_mixes-RowLaid topo mixes m [] j rec e = absurd cc
  lay_mixes-RowLaid topo mixes m (n ∷ nodes) zero rec e =
      subst (λ k. RowLaid topo k rec) (omega arith)
        (subst (RowLaid topo m) (some-injective _ _ e) (lay_mix-RowLaid topo m _))
  lay_mixes-RowLaid topo mixes m (n ∷ nodes) (suc j) rec e =
      subst (λ k. RowLaid topo k rec) (omega arith)
        (lay_mixes-RowLaid topo mixes (suc m) nodes j rec e)

  pub reconcile-StateLaid :
      (topo : Topology) (state : MixState F) → StateLaid topo (reconcile topo state).0
  unfolding reconcile
  reconcile-StateLaid topo state =
      let (shaped, dropped) = Shape.reconcile (info topo) state in
      record {
        inputs = length-map _ topo.inputs;
        mixes = length-lay_mixes topo shaped.mixes 0 topo.mixes;
        rows = λ m rec e.
            subst (λ k. RowLaid topo k rec) (omega arith)
              (lay_mixes-RowLaid topo shaped.mixes 0 topo.mixes m rec e);
      }

  -- A new core is laid out as its topology says.
  pub new-Laid :
      (topo : Topology) (state : MixState F) (rev : ℕ) (flags : Flags) (hil : List ℕ)
      → Laid (with_hil (new topo state rev flags) hil)
  unfolding new with_hil
  new-Laid topo state rev flags hil = record { state = reconcile-StateLaid topo state; taps = refl }
