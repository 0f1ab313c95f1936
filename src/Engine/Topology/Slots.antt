-- ===== src/Engine/Topology/Slots.antt =====
-- Level slots and their sources (crates/iem-engine/src/topology.rs, `slot`, `source`).
use mathlib.Core.Option.{some-injective}
use iemmixer.Base.{
  ℕ, zero, suc, ◌+◌, ◌<◌, ◌≡◌, refl, sym, subst, ap, ◌∙◌, inl, inr, Bool, true, none, some, List,
  [], ◌∷◌, arith, ◌==◌, ==_iff, length, get_elem?, get-bound, same, same_iff, Option-cases,
  Bool-cases,
}
use iemmixer.Proto.State.{Source}
use iemmixer.Engine.Topology.{
  Topology, InputNode, MixNode, position, checked_sub, input_index, mix_index, heard_position,
  heard_at, slot, source, levels, slot_in, source_in, levels_of,
}

-- A position is where the test first holds.
pub position-get {ℓ} :
    {A : Type ℓ} (p : A → Bool) (xs : List A) (i : ℕ)
    → position p xs ≡ some i
    → (x : A) × (get_elem? xs i ≡ some x) × (p x ≡ true)
position-get p [] i h = cc
position-get p (x ∷ xs) i h = elim (Bool-cases (p x)) [
  | inl e ↦ (x, ap (get_elem? (x ∷ xs)) (sym (some-injective _ _ (rw e at h))), e)
  | inr e ↦ elim (Option-cases (position p xs)) [
    | inl n ↦ absurd (cc (rw (e, n) at h))
    | inr (j, q) ↦
        let (y, g, r) = position-get p xs j q in
        (y, ap (get_elem? (x ∷ xs)) (sym (some-injective _ _ (rw (e, q) at h))) ∙ g, r)
  ]
]

get-beyond {ℓ} : {A : Type ℓ} (xs : List A) (k i : ℕ) → k ≡ length xs + i → get_elem? xs k ≡ none
get-beyond [] k i h = refl
get-beyond (x ∷ xs) zero i h = absurd (omega (arith, h))
get-beyond (x ∷ xs) (suc k) i h = get-beyond xs k i (omega (arith, h))

sub_back : (a i : ℕ) → checked_sub (a + i) a ≡ some i
sub_back a i = ground arith

-- A mix's source stands where its position says, and the position is one of its slots.
heard_position-heard_at :
    (node : MixNode) (s j : ℕ)
    → heard_position node s ≡ some j
    → (heard_at node j ≡ some s) × (j < length node.mixes + length node.peers)
unfolding heard_position heard_at
heard_position-heard_at node s j h = elim (Option-cases (position (λ x. x == s) node.mixes)) [
  | inr (k, q) ↦
      let (x, g, r) = position-get (λ x. x == s) node.mixes k q in
      let e : k ≡ j = some-injective _ _ (rw (q, heard_position) at h) in
      let g' : get_elem? node.mixes j ≡ some s =
        ap (get_elem? node.mixes) (sym e) ∙ (g ∙ ap some ((==_iff x s).0 r)) in
      (rw (g', heard_at) refl, omega (arith, get-bound node.mixes j s g'))
  | inl n ↦ elim (Option-cases (position (λ x. x == s) node.peers)) [
    | inl q ↦ absurd (cc (rw (n, heard_position, q) at h))
    | inr (k, q) ↦
        let (x, g, r) = position-get (λ x. x == s) node.peers k q in
        let e : length node.mixes + k ≡ j = some-injective _ _ (rw (n, heard_position, q) at h) in
        let g' : get_elem? node.peers k ≡ some s = g ∙ ap some ((==_iff x s).0 r) in
        let b : get_elem? node.mixes j ≡ none = get-beyond node.mixes j k (sym e) in
        let d : checked_sub j (length node.mixes) ≡ some k =
          subst (λ j. checked_sub j (length node.mixes) ≡ some k) e
            (sub_back (length node.mixes) k) in
        (rw (b, heard_at, d) g', omega (arith, e, get-bound node.peers k s g'))
  ]
]

slot_in-source_in :
    (t : Topology) (node : MixNode) (s : Source) (k : ℕ)
    → slot_in t node s ≡ some k
    → (source_in t node k ≡ some s) × (k < length t.inputs + levels_of (some node))
unfolding input_index mix_index
slot_in-source_in t node (Source.input id) k h =
    let (n, g, r) = position-get (λ (n : InputNode). same n.id id) t.inputs k h in
    (
      rw (g, source_in) (ap (λ i. some (Source.input i)) ((same_iff n.id id).0 r)),
      omega (arith, get-bound t.inputs k n g),
    )
slot_in-source_in t node (Source.mix id) k h = elim (Option-cases (mix_index t id)) [
  | inl q ↦ absurd (cc (rw q at h))
  | inr (s, q) ↦ elim (Option-cases (heard_position node s)) [
    | inl p ↦ absurd (cc (rw (q, p) at h))
    | inr (j, p) ↦
        let (n, g, r) = position-get (λ (n : MixNode). same n.id id) t.mixes s q in
        let e : length t.inputs + j ≡ k = some-injective _ _ (rw (q, p) at h) in
        let (a, b) = heard_position-heard_at node s j p in
        let f : get_elem? t.inputs k ≡ none = get-beyond t.inputs k j (sym e) in
        let d : checked_sub k (length t.inputs) ≡ some j =
          subst (λ k. checked_sub k (length t.inputs) ≡ some j) e (sub_back (length t.inputs) j) in
        (
          rw (f, source_in, d, a, g) (ap (λ i. some (Source.mix i)) ((same_iff n.id id).0 r)),
          omega (arith, e, b),
        )
  ]
]

-- The level slot of a source is a slot of the mix and holds exactly that source: a level that a
-- command sets is the one that it names.
pub slot-source :
    (t : Topology) (m : ℕ) (s : Source) (k : ℕ)
    → slot t m s ≡ some k
    → (source t m k ≡ some s) × (k < levels t m)
unfolding slot source levels input_index mix_index
slot-source t m s k h = elim (Option-cases (get_elem? t.mixes m)) [
  | inl n ↦ absurd (cc (rw (n, slot) at h))
  | inr (node, e) ↦ rw (e, source, levels) (slot_in-source_in t node s k (rw (e, slot) at h))
]
