-- ===== src/Engine/Topology.antt =====
-- The compiled topology and its lookups (crates/iem-engine/src/topology.rs). `compile` fills the
-- three index maps with each id's position, and refuses a site that gives an id twice: a lookup is
-- the position of the id.
pub mod Hil
pub mod Slots
use Prim.Native.String.{String}
use iemmixer.Base.{
  ℕ, suc, ◌+◌, ◌-◌, Bool, true, false, ◌&&◌, ◌||◌, Option, none, some, List, [], ◌∷◌, ◌++◌, map,
  if◌then◌else◌, leb, ◌==◌, length, get_elem?, unwrap_or, map_option, bind_option, same, find,
  member, Result, ok, err, ltb,
}
use iemmixer.Proto.State.{InputId, GroupId, MixId, Source}
use iemmixer.Proto.Shape.{TopologyInfo}

pub record InputNode : Type 0 where
  pub id : InputId
  pub rx : ℕ × ℕ
  pub stereo : Bool
  pub talkback : Bool
  pub group : Option ℕ

pub record GroupNode : Type 0 where
  pub id : GroupId
  pub inputs : List ℕ

pub record MixNode : Type 0 where
  pub id : MixId
  pub tx : Option ℕ × Option ℕ
  pub mono : Bool
  pub mixes : List ℕ
  pub peers : List ℕ
  pub shadow : Bool

pub record Topology : Type 0 where
  pub inputs : List InputNode
  pub groups : List GroupNode
  pub mixes : List MixNode
  pub order : List ℕ
  pub direct : List ℕ
  pub rx : List ℕ
  pub tx : List ℕ
  pub engineer : ℕ
  pub hash : String

abbrev pub sample_rate : ℕ
sample_rate = 96000

-- HIL's spare card outputs an engine opens at most.
abbrev pub max_hil : ℕ
max_hil = 8

-- `Iterator::position`.
abbrev pub position {ℓ} : {A : Type ℓ} → (A → Bool) → List A → Option ℕ
position p [] = none
position p (x ∷ xs) = if p x then some 0 else map_option suc (position p xs)

abbrev pub is_empty {ℓ} : {A : Type ℓ} → List A → Bool
is_empty [] = true
is_empty (x ∷ xs) = false

-- `usize::checked_sub`.
abbrev pub checked_sub : ℕ → ℕ → Option ℕ
checked_sub a b = if leb b a then some (a - b) else none

unfoldable pub hears_nothing : MixNode → Bool
hears_nothing n = is_empty n.mixes && is_empty n.peers

unfoldable pub input_index : Topology → InputId → Option ℕ
input_index t id = position (λ n. same n.id id) t.inputs

unfoldable pub group_index : Topology → GroupId → Option ℕ
group_index t id = position (λ n. same n.id id) t.groups

unfoldable pub mix_index : Topology → MixId → Option ℕ
mix_index t id = position (λ n. same n.id id) t.mixes

-- Level slots of a mix that hears these.
abbrev pub levels_of : Option MixNode → ℕ
levels_of none = 0
levels_of (some n) = length n.mixes + length n.peers

-- Level slots of mix `m`: every input, then the mixes it hears, then its peers.
unfoldable pub levels : Topology → ℕ → ℕ
levels t m = length t.inputs + levels_of (get_elem? t.mixes m)

-- Where a mix stands among those that a mix hears whole, or else among its peers.
unfoldable pub heard_position : MixNode → ℕ → Option ℕ
heard_position node s = elim (position (λ h. h == s) node.mixes) [
  | some k ↦ some k
  | none ↦ map_option (λ k. length node.mixes + k) (position (λ p. p == s) node.peers)
]

abbrev pub slot_in : Topology → MixNode → Source → Option ℕ
slot_in t node (Source.input id) = input_index t id
slot_in t node (Source.mix id) =
    bind_option (mix_index t id)
      (λ s. map_option (λ k. length t.inputs + k) (heard_position node s))

-- The level slot of `source` in mix `m`; `none` when the mix does not hear it.
unfoldable pub slot : Topology → ℕ → Source → Option ℕ
slot t m source = bind_option (get_elem? t.mixes m) (λ node. slot_in t node source)

-- The mix at place `j` after the inputs: a heard mix, or else a peer.
unfoldable pub heard_at : MixNode → ℕ → Option ℕ
heard_at node j = elim (get_elem? node.mixes j) [
  | some s ↦ some s
  | none ↦ bind_option (checked_sub j (length node.mixes)) (λ i. get_elem? node.peers i)
]

abbrev pub source_in : Topology → MixNode → ℕ → Option Source
source_in t node k = elim (get_elem? t.inputs k) [
  | some n ↦ some (Source.input n.id)
  | none ↦
      bind_option (bind_option (checked_sub k (length t.inputs)) (λ j. heard_at node j))
        (λ s. map_option (λ n. Source.mix n.id) (get_elem? t.mixes s))
]

-- The source of level slot `k` in mix `m`: an input, a heard mix or a peer.
unfoldable pub source : Topology → ℕ → ℕ → Option Source
source t m k = bind_option (get_elem? t.mixes m) (λ node. source_in t node k)

abbrev carries_slot : ℕ → Option ℕ → Bool
carries_slot slot none = false
carries_slot slot (some c) = c == slot

-- The mix whose TX is card channel `ch`, if any.
unfoldable pub mix_on_tx : Topology → ℕ → Option MixNode
mix_on_tx t ch =
    bind_option (position (λ c. c == ch) t.tx)
      (λ slot. find (λ (m : MixNode). carries_slot slot m.tx.0 || carries_slot slot m.tx.1) t.mixes)

pub data HilError : Type 0 where
  too_many : ℕ → HilError
  zero_channel : HilError
  mix_tx : ℕ → MixId → HilError
  topology_input : ℕ → HilError
  listed_twice : ℕ → HilError

-- The loop of `hil_outputs` over the listed channels.
unfoldable pub hil_outputs_from : Topology → List ℕ → List ℕ → Result HilError (List ℕ)
hil_outputs_from t [] outputs = ok outputs
hil_outputs_from t (ch ∷ rest) outputs =
    let next = hil_outputs_from t rest (outputs ++ ch ∷ []) in
    if ch == 0 then err zero_channel else elim (mix_on_tx t ch) [
      | some m ↦ err (mix_tx ch m.id)
      | none ↦
          if member ch t.rx
          then err (topology_input ch)
          else if member ch outputs
          then err (listed_twice ch)
          else next
    ]

-- HIL's spare card outputs: channels from 1 that no mix uses and no input, each once.
unfoldable pub hil_outputs : Topology → List ℕ → Result HilError (List ℕ)
unfolding hil_outputs_from
hil_outputs t hil_tx =
    if ltb max_hil (length hil_tx)
    then err (too_many (length hil_tx))
    else hil_outputs_from t hil_tx []

abbrev mix_ids : Topology → List ℕ → List MixId
mix_ids t [] = []
mix_ids t (m ∷ ms) =
    let rest = mix_ids t ms in elim (get_elem? t.mixes m) [ none ↦ rest | some n ↦ n.id ∷ rest ]

abbrev input_ids : Topology → List ℕ → List InputId
input_ids t [] = []
input_ids t (i ∷ is) =
    let rest = input_ids t is in elim (get_elem? t.inputs i) [ none ↦ rest | some n ↦ n.id ∷ rest ]

-- The topology as the protocol describes it.
unfoldable pub info : Topology → TopologyInfo
info t = record {
  hash = t.hash;
  sample_rate = sample_rate;
  engineer = unwrap_or (map_option (λ (n : MixNode). n.id) (get_elem? t.mixes t.engineer)) "";
  inputs =
      map
        (λ n. record {
          id = n.id;
          channels = if n.stereo then 2 else 1;
          talkback = n.talkback;
          group =
              map_option (λ (g : GroupNode). g.id)
                (bind_option n.group (λ g. get_elem? t.groups g));
        })
        t.inputs;
  groups = map (λ g. record { id = g.id; inputs = input_ids t g.inputs }) t.groups;
  mixes =
      map
        (λ n. record {
          id = n.id;
          channels = if n.mono then 1 else 2;
          mixes = mix_ids t n.mixes;
          peers = mix_ids t n.peers;
        })
        t.mixes;
}
