-- ===== src/Engine/Compile/Strips.antt =====
-- The strips of a site (crates/iem-engine/src/topology.rs, `compile`: the ids, the inputs, the groups
-- and the mixes). A part is a loop over the entities of the site that stops at the first error.
use Prim.Native.String.{String}
use iemmixer.Base.{
  ℕ, suc, ◌+◌, Bool, false, not, ◌&&◌, ◌||◌, none, some, List, [], ◌∷◌, ◌++◌, if◌then◌else◌, ltb,
  leb, ◌==◌, length, get_elem?, set, member, set_insert, contains, lookup, insert, map_option,
  unwrap_or, is_some, Result, ok, err, and_then,
}
use iemmixer.Proto.Ids.{valid_id}
use iemmixer.Engine.Site.{
  SiteInput, SiteGroup, SiteMix, SiteError, bad_id, duplicate_id, channel_count, channel_range,
  channel_reused, unknown_input, empty_group, second_group, heard_mix, second_talkback, engineer,
}
use iemmixer.Engine.Topology.{InputNode, GroupNode, MixNode, is_empty}

-- The loop over a strip's channels; `used` holds those of the strips before it.
unfoldable pub check_channels : String → List ℕ → ℕ → List ℕ → Result SiteError (List ℕ)
check_channels id [] channels used = ok used
check_channels id (ch ∷ chs) channels used =
    let rest = check_channels id chs channels (set_insert ch used) in
    if ch == 0 || ltb channels ch
    then err (channel_range id ch)
    else if member ch used
    then err (channel_reused ch)
    else rest

unfoldable pub check_id : String → List String → Result SiteError (List String)
check_id id seen =
    if not (valid_id id)
    then err (bad_id id)
    else if contains seen id
    then err (duplicate_id id)
    else ok (id ∷ seen)

unfoldable pub check_ids : List String → List String → Result SiteError (List String)
unfolding check_id
check_ids [] seen = ok seen
check_ids (id ∷ ids) seen = and_then (check_id id seen) (check_ids ids)

-- What the loop over the inputs has gathered.
pub record Inputs : Type 0 where
  pub rx : List ℕ
  pub used : List ℕ
  pub talkback : Bool
  pub nodes : List InputNode

abbrev pub one_or_two : List ℕ → Bool
one_or_two chs = leb 1 (length chs) && leb (length chs) 2

abbrev pub input_node : SiteInput → ℕ → InputNode
input_node i first =
    let stereo = length i.rx == 2 in
    record {
      id = i.id;
      rx = (first, if stereo then first + 1 else first);
      stereo = stereo;
      talkback = i.talkback;
      group = none;
    }

-- The input once its channels are checked.
abbrev pub input_taken : SiteInput → Inputs → List ℕ → Result SiteError Inputs
input_taken i acc used =
    if i.talkback && acc.talkback
    then err second_talkback
    else ok (record {
      rx = acc.rx ++ i.rx;
      used = used;
      talkback = acc.talkback || i.talkback;
      nodes = acc.nodes ++ input_node i (length acc.rx) ∷ [];
    })

unfoldable pub compile_input : ℕ → SiteInput → Inputs → Result SiteError Inputs
unfolding check_channels
compile_input channels i acc =
    if not (one_or_two i.rx)
    then err (channel_count i.id (length i.rx))
    else and_then (check_channels i.id i.rx channels acc.used) (input_taken i acc)

unfoldable pub compile_inputs : ℕ → List SiteInput → Inputs → Result SiteError Inputs
unfolding compile_input
compile_inputs channels [] acc = ok acc
compile_inputs channels (i ∷ is) acc =
    and_then (compile_input channels i acc) (compile_inputs channels is)

-- `sort_unstable` of numbers.
abbrev sort_insert : ℕ → List ℕ → List ℕ
sort_insert x [] = x ∷ []
sort_insert x (y ∷ ys) = let rest = sort_insert x ys in if leb x y then x ∷ y ∷ ys else y ∷ rest

abbrev pub sort : List ℕ → List ℕ
sort [] = []
sort (x ∷ xs) = sort_insert x (sort xs)

-- The loop over a group's members: the nodes marked, and the members so far.
unfoldable pub compile_members :
    List (String × ℕ)
    → ℕ
    → String
    → List String
    → List InputNode
    → List ℕ
    → Result SiteError (List InputNode × List ℕ)
compile_members pos g group [] nodes members = ok (nodes, members)
compile_members pos g group (name ∷ names) nodes members = elim (lookup name pos) [
  | none ↦ err (unknown_input group name)
  | some i ↦ elim (get_elem? nodes i) [
    | none ↦ compile_members pos g group names nodes members
    | some node ↦
        let marked = set nodes i (record node { group = some g }) in
        let rest = compile_members pos g group names marked (members ++ i ∷ []) in
        if is_some node.group then err (second_group name) else rest
  ]
]

unfoldable pub compile_groups :
    List (String × ℕ)
    → ℕ
    → List SiteGroup
    → List InputNode
    → List GroupNode
    → Result SiteError (List InputNode × List GroupNode)
unfolding compile_members
compile_groups pos g [] nodes groups = ok (nodes, groups)
compile_groups pos g (group ∷ rest) nodes groups =
    if is_empty group.inputs
    then err (empty_group group.id)
    else and_then (compile_members pos g group.id group.inputs nodes []) (λ (marked, members).
      compile_groups pos (suc g) rest marked
        (groups ++ record { id = group.id; inputs = sort members } ∷ []))

-- The loop over the mixes that a mix hears whole: declared before it, each once.
unfoldable pub compile_heard :
    String → List String → List (String × ℕ) → List ℕ → Result SiteError (List ℕ)
compile_heard mix [] declared heard = ok heard
compile_heard mix (name ∷ names) declared heard = elim (lookup name declared) [
  | none ↦ err (heard_mix mix name)
  | some s ↦
      let rest = compile_heard mix names declared (heard ++ s ∷ []) in
      if member s heard then err (heard_mix mix name) else rest
]

-- What the loop over the mixes has gathered.
pub record Mixes : Type 0 where
  pub tx : List ℕ
  pub used : List ℕ
  pub declared : List (String × ℕ)
  pub nodes : List MixNode

abbrev pub mix_node : SiteMix → ℕ → List ℕ → MixNode
mix_node mix first heard =
    let mono = length mix.tx == 1 in
    record {
      id = mix.id;
      tx = (some first, if mono then none else some (first + 1));
      mono = mono;
      mixes = heard;
      peers = [];
      shadow = false;
    }

-- The mix once its channels and the mixes it hears whole are checked.
abbrev pub mix_heard : ℕ → SiteMix → Mixes → List ℕ → List ℕ → Result SiteError Mixes
mix_heard m mix acc used heard = ok (record {
  tx = acc.tx ++ mix.tx;
  used = used;
  declared = insert mix.id m acc.declared;
  nodes = acc.nodes ++ mix_node mix (length acc.tx) heard ∷ [];
})

abbrev pub mix_taken : ℕ → SiteMix → Mixes → List ℕ → Result SiteError Mixes
mix_taken m mix acc used =
    and_then (compile_heard mix.id mix.mixes acc.declared []) (mix_heard m mix acc used)

unfoldable pub compile_mix : ℕ → ℕ → SiteMix → Mixes → Result SiteError Mixes
unfolding check_channels compile_heard
compile_mix channels m mix acc =
    if not (one_or_two mix.tx)
    then err (channel_count mix.id (length mix.tx))
    else and_then (check_channels mix.id mix.tx channels acc.used) (mix_taken m mix acc)

unfoldable pub compile_mixes : ℕ → ℕ → List SiteMix → Mixes → Result SiteError Mixes
unfolding compile_mix
compile_mixes channels m [] acc = ok acc
compile_mixes channels m (mix ∷ rest) acc =
    and_then (compile_mix channels m mix acc) (compile_mixes channels (suc m) rest)

-- `mixes.get(m).is_some_and(..)`.
abbrev pub node_is : List MixNode → ℕ → (MixNode → Bool) → Bool
node_is nodes m p = unwrap_or (map_option p (get_elem? nodes m)) false

unfoldable pub compile_engineer : String → List (String × ℕ) → List MixNode → Result SiteError ℕ
compile_engineer name declared nodes = elim (lookup name declared) [
  | none ↦ err (engineer name)
  | some m ↦ if node_is nodes m (λ n. not n.mono) then ok m else err (engineer name)
]
