-- ===== src/Engine/Core/Cases.antt =====
-- Case rules for the writes of one entity: a setter leaves the core as it was or makes its write.
use iemmixer.Base.{ℕ, ◌≡◌, false, some, get_elem?, Option-cases, Bool-cases, inl, inr}
use iemmixer.Float.{Float}
use iemmixer.Proto.State.{Source, InputState, Level, MixGroup, MixOut}
use iemmixer.Proto.Equality.{input_eq, out_eq, level_eq, group_eq}
use iemmixer.Engine.Topology.{InputNode, GroupNode, MixNode, source}
use iemmixer.Engine.Core.State.{MixRec}
use iemmixer.Engine.Core.Defs.{Core, Partial, no_change}
use iemmixer.Engine.Core.Setters.{
  set_input, set_out, set_level, set_group, input_written, out_written, level_written,
  group_written,
}

module _ {ℓ} {F : Type 0} ⦃fl : Float F⦄ (P : Core F × Partial F → Type ℓ) (c : Core F) where
  pub set_input_cases :
      (i : ℕ) (new : InputState F)
      → P (c, no_change)
      → ((old : InputState F) (node : InputNode)
          → get_elem? c.s.inputs i ≡ some old
          → get_elem? c.topo.inputs i ≡ some node
          → input_eq old new ≡ false
          → P (input_written c i node.id old new))
      → P (set_input c i new)
  unfolding set_input
  set_input_cases i new kept written = elim (Option-cases (get_elem? c.s.inputs i)) [
    | inl e ↦ rw (e, set_input) kept
    | inr (old, e) ↦ elim (Option-cases (get_elem? c.topo.inputs i)) [
      | inl f ↦ rw (e, f, set_input) kept
      | inr (node, f) ↦ elim (Bool-cases (input_eq old new)) [
        | inl s ↦ rw (e, f, s, set_input) kept
        | inr s ↦ rw (e, f, s, set_input) (written old node e f s)
      ]
    ]
  ]

  pub set_out_cases :
      (m : ℕ) (new : MixOut F)
      → P (c, no_change)
      → ((rec : MixRec F) (node : MixNode)
          → get_elem? c.s.mixes m ≡ some rec
          → get_elem? c.topo.mixes m ≡ some node
          → out_eq rec.out new ≡ false
          → P (out_written c m node.id rec new))
      → P (set_out c m new)
  unfolding set_out
  set_out_cases m new kept written = elim (Option-cases (get_elem? c.s.mixes m)) [
    | inl e ↦ rw (e, set_out) kept
    | inr (rec, e) ↦ elim (Option-cases (get_elem? c.topo.mixes m)) [
      | inl f ↦ rw (e, f, set_out) kept
      | inr (node, f) ↦ elim (Bool-cases (out_eq rec.out new)) [
        | inl s ↦ rw (e, f, s, set_out) kept
        | inr s ↦ rw (e, f, s, set_out) (written rec node e f s)
      ]
    ]
  ]

  pub set_level_cases :
      (m k : ℕ) (new : Level F)
      → P (c, no_change)
      → ((rec : MixRec F) (old : Level F) (node : MixNode) (s : Source)
          → get_elem? c.topo.mixes m ≡ some node
          → source c.topo m k ≡ some s
          → get_elem? c.s.mixes m ≡ some rec
          → get_elem? rec.levels k ≡ some old
          → P (level_written c m k node.id s rec new))
      → P (set_level c m k new)
  unfolding set_level
  set_level_cases m k new kept written = elim (Option-cases (get_elem? c.topo.mixes m)) [
    | inl f ↦ rw (f, set_level) kept
    | inr (node, f) ↦ elim (Option-cases (source c.topo m k)) [
      | inl g ↦ rw (f, g, set_level) kept
      | inr (s, g) ↦ elim (Option-cases (get_elem? c.s.mixes m)) [
        | inl e ↦ rw (f, g, e, set_level) kept
        | inr (rec, e) ↦ elim (Option-cases (get_elem? rec.levels k)) [
          | inl o ↦ rw (f, g, e, o, set_level) kept
          | inr (old, o) ↦ elim (Bool-cases (level_eq old new)) [
            | inl t ↦ rw (f, g, e, o, t, set_level) kept
            | inr t ↦ rw (f, g, e, o, t, set_level) (written rec old node s f g e o)
          ]
        ]
      ]
    ]
  ]

  pub set_group_cases :
      (m g : ℕ) (new : MixGroup F)
      → P (c, no_change)
      → ((rec : MixRec F) (old : MixGroup F) (node : MixNode) (group : GroupNode)
          → get_elem? c.topo.mixes m ≡ some node
          → get_elem? c.topo.groups g ≡ some group
          → get_elem? c.s.mixes m ≡ some rec
          → get_elem? rec.groups g ≡ some old
          → P (group_written c m g node.id group.id rec old new))
      → P (set_group c m g new)
  unfolding set_group
  set_group_cases m g new kept written = elim (Option-cases (get_elem? c.topo.mixes m)) [
    | inl f ↦ rw (f, set_group) kept
    | inr (node, f) ↦ elim (Option-cases (get_elem? c.topo.groups g)) [
      | inl h ↦ rw (f, h, set_group) kept
      | inr (group, h) ↦ elim (Option-cases (get_elem? c.s.mixes m)) [
        | inl e ↦ rw (f, h, e, set_group) kept
        | inr (rec, e) ↦ elim (Option-cases (get_elem? rec.groups g)) [
          | inl o ↦ rw (f, h, e, o, set_group) kept
          | inr (old, o) ↦ elim (Bool-cases (group_eq old new)) [
            | inl t ↦ rw (f, h, e, o, t, set_group) kept
            | inr t ↦ rw (f, h, e, o, t, set_group) (written rec old node group f h e o)
          ]
        ]
      ]
    ]
  ]
