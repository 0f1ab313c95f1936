-- ===== src/Engine/Core/Defs.antt =====
-- The control core, its readers and what it sends to the real-time thread
-- (crates/iem-engine/src/core.rs).
use iemmixer.Base.{
  ℕ, suc, ◌+◌, ◌%◌, Bool, true, false, not, ◌||◌, Option, none, some, List, [], ◌∷◌, ◌++◌, map,
  if◌then◌else◌, ◌==◌, get_elem?, set, filter_map, range_from, replicate, Result, ok, err, ok_or,
  unwrap_or, map_option, bind_option, member, map_get,
}
use iemmixer.Float.{Float}
use iemmixer.Proto.State.{
  InputId, GroupId, MixId, Source, InputState, Level, MixGroup, MixOut, MixState, Solo, TestSignal,
  Transient, db_to_lin, default_level, default_group, default_out,
}
use iemmixer.Proto.Shape.{Range, cap}
use iemmixer.Proto.Msg.{ErrCode, CmdError, Change, bad_value, unknown_id, forbidden}
use iemmixer.Engine.Topology.{
  Topology, MixNode, position, input_index, group_index, mix_index, levels, slot, source, mix_on_tx,
  max_hil,
}
use iemmixer.Engine.Rt.{RtOp, ix, eq_params, input_params}
use iemmixer.Engine.Core.State.{MixRec, Reconciled, reconcile, to_state}

abbrev pub max_cmds_per_block : ℕ
max_cmds_per_block = 512

abbrev pub max_batch : ℕ
max_batch = 256

abbrev pub max_solo : ℕ
max_solo = 64

-- `rev` is a `u64`.
abbrev pub u64 : ℕ → ℕ
u64 n = n % 18446744073709551616

-- Per-run launch flags.
pub record Flags : Type 0 where
  pub test_signal : Bool
  pub fault_injection : Bool

-- What the control loop does besides broadcasting the changes.
pub data Effect : Type 0 where
  no_effect send_state send_topology save shutdown imported : Effect

pub record Outcome (F : Type 0) : Type 0 where
  pub rev : ℕ
  pub changes : List (Change F)
  pub rt : List (RtOp F)
  pub effect : Effect

pub record Partial (F : Type 0) : Type 0 where
  pub changes : List (Change F)
  pub rt : List (RtOp F)
  pub effect : Option Effect
  pub bump : Bool

-- `listen` is an array of two; `solo` maps a mix to its soloed level slots.
pub record Core (F : Type 0) : Type 0 where
  pub topo : Topology
  pub s : Reconciled F
  pub solo : List (ℕ × List ℕ)
  pub listen : List (Option ℕ)
  pub test : Option (TestSignal F)
  pub hil_test : Bool
  pub hil : List ℕ
  pub rev : ℕ
  pub flags : Flags

abbrev pub failure {ℓ} : {A : Type ℓ} → ErrCode → Result CmdError A
failure code = err (record { code = code })

-- A `&mut self` method that may fail: the core is returned with the error too.
abbrev pub M : Type 0 → Type 0 → Type 0
M F A = Core F → Core F × Result CmdError A

infixl 5 ◌>>=◌ ◌>>◌
abbrev pub ◌>>=◌ : {F A B : Type 0} → M F A → (A → M F B) → M F B
◌>>=◌ m f c = let (c', r) = m c in elim r [ ok a ↦ f a c' | err e ↦ (c', err e) ]

abbrev pub ◌>>◌ : {F B : Type 0} → M F (Unit {0}) → M F B → M F B
m >> k = m >>= λ _. k

-- A `&self` method that may fail, a result, and a `&mut self` method that does not fail.
abbrev pub read : {F A : Type 0} → (Core F → Result CmdError A) → M F A
read f c = (c, f c)

abbrev pub lift : {F A : Type 0} → Result CmdError A → M F A
lift r c = (c, r)

abbrev pub write : {F A : Type 0} → (Core F → Core F × A) → M F A
write f c = let (c', a) = f c in (c', ok a)

abbrev pub is_nil {ℓ} : {A : Type ℓ} → List A → Bool
is_nil [] = true
is_nil (x ∷ xs) = false

-- `Partial::default`, `Partial::changed` and `Partial::effect`.
abbrev pub no_change : {F : Type 0} → Partial F
no_change = record { changes = []; rt = []; effect = none; bump = false }

unfoldable pub changed : {F : Type 0} → List (Change F) → List (RtOp F) → Partial F
changed changes rt = record {
  changes = changes;
  rt = rt;
  effect = none;
  bump = not (is_nil changes);
}

unfoldable pub with_effect : {F : Type 0} → Effect → Partial F
with_effect e = record { changes = []; rt = []; effect = some e; bump = false }

-- The loop of `hil_mask` over the listed card channels.
unfoldable pub hil_mask_from : Topology → List ℕ → List ℕ → List Bool → Result CmdError (List Bool)
hil_mask_from topo hil [] mask = ok mask
hil_mask_from topo hil (ch ∷ rest) mask = elim (mix_on_tx topo ch) [
  | some m ↦ failure forbidden
  | none ↦ elim (position (λ c. c == ch) hil) [
    | none ↦ failure unknown_id
    | some slot ↦ elim (get_elem? mask slot) [
      | none ↦ failure bad_value
      | some bit ↦ hil_mask_from topo hil rest (set mask slot true)
    ]
  ]
]

-- The HIL signal's outputs: the slots of the listed card channels among the spare outputs.
unfoldable pub hil_mask : Topology → List ℕ → List ℕ → Result CmdError (List Bool)
unfolding hil_mask_from
hil_mask topo hil card_tx =
    if is_nil card_tx
    then failure bad_value
    else hil_mask_from topo hil card_tx (replicate max_hil false)

abbrev pub silenced : ℕ → Option (List ℕ) → Bool
silenced k none = false
silenced k (some held) = not (member k held)

module _ {F : Type 0} ⦃fl : Float F⦄ where
  unfoldable pub capped : F → Range F → Result CmdError F
  capped v r = ok_or (cap v r) (record { code = bad_value })

  -- `if let Some(v) = v { x = capped(v, r)? }`.
  unfoldable pub capped_or : Option F → Range F → F → Result CmdError F
  unfolding capped
  capped_or none r x = ok x
  capped_or (some v) r x = capped v r

  unfoldable pub new : Topology → MixState F → ℕ → Flags → Core F
  new topo state rev flags = record {
    topo = topo;
    s = (reconcile topo state).0;
    solo = [];
    listen = none ∷ none ∷ [];
    test = none;
    hil_test = false;
    hil = [];
    rev = rev;
    flags = flags;
  }

  unfoldable pub state : Core F → MixState F
  state c = to_state c.topo c.s

  unfoldable pub level : Core F → ℕ → ℕ → Level F
  level c m k =
      unwrap_or (bind_option (get_elem? c.s.mixes m) (λ (r : MixRec F). get_elem? r.levels k))
        default_level

  unfoldable pub strip : Core F → ℕ → ℕ → MixGroup F
  strip c m g =
      unwrap_or (bind_option (get_elem? c.s.mixes m) (λ (r : MixRec F). get_elem? r.groups g))
        default_group

  unfoldable pub out : Core F → ℕ → MixOut F
  out c m = unwrap_or (map_option (λ (r : MixRec F). r.out) (get_elem? c.s.mixes m)) default_out

  -- A level a solo silences: its mix has a solo that does not hold it.
  unfoldable pub solo_out : Core F → ℕ → ℕ → Bool
  solo_out c m k = silenced k (map_get m c.solo)

  unfoldable pub level_op : Core F → ℕ → ℕ → RtOp F
  unfolding solo_out
  level_op c m k =
      let l = level c m k in
      RtOp.level (ix m) (ix k) (db_to_lin l.gain_db) l.pan (l.muted || solo_out c m k)

  -- Every level of mix `m`, as the RT thread must hold it.
  unfoldable pub level_ops : Core F → ℕ → List (RtOp F)
  unfolding level_op
  level_ops c m = map (level_op c m) (range_from 0 (levels c.topo m))

  unfoldable pub out_op : ℕ → MixOut F → RtOp F
  out_op m o = RtOp.mix_out (ix m) (db_to_lin o.volume_db) o.muted

  unfoldable pub limiter_op : ℕ → MixOut F → RtOp F
  limiter_op m o = RtOp.limiter (ix m) o.limiter.enabled o.limiter.limit_db

  unfoldable pub group_op : ℕ → ℕ → MixGroup F → RtOp F
  group_op m g s = RtOp.group (ix m) (ix g) (db_to_lin s.gain_db) s.muted

  unfoldable pub input_sync : ℕ → List (InputState F) → List (RtOp F)
  input_sync i [] = []
  input_sync i (s ∷ rest) =
      RtOp.input (ix i) (input_params s)
      ∷ RtOp.input_eq (ix i) (eq_params s.eq)
      ∷ input_sync (suc i) rest

  unfoldable pub group_sync : ℕ → ℕ → List (MixGroup F) → List (RtOp F)
  unfolding group_op
  group_sync m g [] = []
  group_sync m g (strip ∷ rest) =
      group_op m g strip
      ∷ RtOp.group_eq (ix m) (ix g) (eq_params strip.eq)
      ∷ group_sync m (suc g) rest

  unfoldable pub mix_sync : Core F → ℕ → List (MixRec F) → List (RtOp F)
  unfolding out_op limiter_op level_ops group_sync
  mix_sync c m [] = []
  mix_sync c m (rec ∷ rest) =
      out_op m rec.out
      ∷ RtOp.mix_eq (ix m) (eq_params rec.out.eq)
      ∷ limiter_op m rec.out
      ∷ (level_ops c m ++ (group_sync m 0 rec.groups ++ mix_sync c (suc m) rest))

  -- Commands that bring an RT processor to this state.
  unfoldable pub full_sync : Core F → List (RtOp F)
  unfolding input_sync mix_sync
  full_sync c = input_sync 0 c.s.inputs ++ mix_sync c 0 c.s.mixes

module _ {F : Type 0} where
  unfoldable pub with_hil : Core F → List ℕ → Core F
  with_hil c hil = record c { hil = hil }

  abbrev pub mix_id : Core F → ℕ → Option MixId
  mix_id c m = map_option (λ (n : MixNode). n.id) (get_elem? c.topo.mixes m)

  unfoldable pub listened : Core F → List (Option MixId)
  listened c = map (λ l. bind_option l (mix_id c)) c.listen

  abbrev pub solo_of : Core F → ℕ × List ℕ → Option Solo
  solo_of c (m, held) =
      map_option (λ id. record { mix = id; sources = filter_map (source c.topo m) held })
        (mix_id c m)

  unfoldable pub transient : Core F → Transient F
  unfolding listened
  transient c = record {
    solo = filter_map (solo_of c) c.solo;
    listen = listened c;
    test_signal = c.test;
  }

  unfoldable pub input_at : Core F → InputId → Result CmdError ℕ
  input_at c id = ok_or (input_index c.topo id) (record { code = unknown_id })

  unfoldable pub mix_at : Core F → MixId → Result CmdError ℕ
  mix_at c id = ok_or (mix_index c.topo id) (record { code = unknown_id })

  unfoldable pub group_at : Core F → GroupId → Result CmdError ℕ
  group_at c id = ok_or (group_index c.topo id) (record { code = unknown_id })

  -- The level slot that `SetLevel` addresses.
  unfoldable pub slot_at : Core F → ℕ → Source → Result CmdError ℕ
  slot_at c m source = ok_or (slot c.topo m source) (record { code = unknown_id })

  -- The end of a request: the revision grows when something changed.
  unfoldable pub finish : Partial F → M F (Outcome F)
  finish p c =
      let rev = if p.bump then u64 (c.rev + 1) else c.rev in
      (
        record c { rev = rev },
        ok (record {
          rev = rev;
          changes = p.changes;
          rt = p.rt;
          effect = unwrap_or p.effect no_effect;
        }),
      )
