-- ===== src/Engine/Core/Setters.antt =====
-- The writes of one entity, its solo and its listen taps (crates/iem-engine/src/core.rs,
-- `Core::set_input` to `Core::listen_partial`).
use iemmixer.Base.{
  ℕ, suc, ◌%◌, Bool, true, false, ◌&&◌, Option, none, some, List, [], ◌∷◌, ◌++◌, if◌then◌else◌, ltb,
  ◌==◌, length, get_elem?, set, filter_map, Result, ok, and_then, ok_or, unwrap_or, bind_option,
  is_some, set_insert, map_get, map_insert, map_remove,
}
use iemmixer.Float.{Float}
use iemmixer.Proto.State.{InputId, GroupId, MixId, Source, InputState, Level, MixGroup, MixOut}
use iemmixer.Proto.Equality.{bool_eq, eq_eq, limiter_eq, input_eq, level_eq, group_eq, out_eq}
use iemmixer.Proto.Msg.{CmdError, Change, bad_value, no_source}
use iemmixer.Engine.Topology.{Topology, source, slot}
use iemmixer.Engine.Rt.{RtOp, ix, eq_params, input_params}
use iemmixer.Engine.Core.State.{MixRec}
use iemmixer.Engine.Core.Defs.{
  Core, Partial, M, ◌>>=◌, read, write, failure, no_change, changed, is_nil, max_solo, level_op,
  level_ops, out_op, limiter_op, group_op, listened, mix_at,
}

module _ {F : Type 0} where
  -- The core with the record of mix `m` in place of its old one.
  abbrev pub put_mix : Core F → ℕ → MixRec F → Core F
  put_mix c m rec = record c { s = record (c.s) { mixes = set c.s.mixes m rec } }

  abbrev pub put_input : Core F → ℕ → InputState F → Core F
  put_input c i new = record c { s = record (c.s) { inputs = set c.s.inputs i new } }

module _ {F : Type 0} ⦃fl : Float F⦄ where
  -- The write of an input that is there, and its commands: what differs.
  abbrev pub input_written : Core F → ℕ → InputId → InputState F → InputState F → Core F × Partial F
  input_written c i id old new = (
    put_input c i new,
    changed (Change.input id new ∷ []) (
        (if input_eq (record old { eq = new.eq }) new
          then []
          else RtOp.input (ix i) (input_params new) ∷ [])
        ++ (if eq_eq old.eq new.eq then [] else RtOp.input_eq (ix i) (eq_params new.eq) ∷ [])),
  )

  unfoldable pub set_input : Core F → ℕ → InputState F → Core F × Partial F
  unfolding changed
  set_input c i new = elim (get_elem? c.s.inputs i) [
    | none ↦ (c, no_change)
    | some old ↦ elim (get_elem? c.topo.inputs i) [
      | none ↦ (c, no_change)
      | some node ↦ if input_eq old new then (c, no_change) else input_written c i node.id old new
    ]
  ]

  -- The write of a mix's output.
  abbrev pub out_written : Core F → ℕ → MixId → MixRec F → MixOut F → Core F × Partial F
  out_written c m id rec new = (
    put_mix c m (record rec { out = new }),
    changed (Change.mix_out id new ∷ []) (
        (if fl.eq rec.out.volume_db new.volume_db && bool_eq rec.out.muted new.muted
          then []
          else out_op m new ∷ [])
        ++ ((if eq_eq rec.out.eq new.eq then [] else RtOp.mix_eq (ix m) (eq_params new.eq) ∷ [])
            ++ (if limiter_eq rec.out.limiter new.limiter then [] else limiter_op m new ∷ []))),
  )

  unfoldable pub set_out : Core F → ℕ → MixOut F → Core F × Partial F
  unfolding changed
  set_out c m new = elim (get_elem? c.s.mixes m) [
    | none ↦ (c, no_change)
    | some rec ↦ elim (get_elem? c.topo.mixes m) [
      | none ↦ (c, no_change)
      | some node ↦ if out_eq rec.out new then (c, no_change) else out_written c m node.id rec new
    ]
  ]

  -- The write of a level slot.
  abbrev pub level_written :
      Core F → ℕ → ℕ → MixId → Source → MixRec F → Level F → Core F × Partial F
  level_written c m k mix s rec new =
      let c' : Core F = put_mix c m (record rec { levels = set rec.levels k new }) in
      (c', changed (Change.level mix s new ∷ []) (level_op c' m k ∷ []))

  unfoldable pub set_level : Core F → ℕ → ℕ → Level F → Core F × Partial F
  unfolding changed
  set_level c m k new = elim (get_elem? c.topo.mixes m) [
    | none ↦ (c, no_change)
    | some node ↦ elim (source c.topo m k) [
      | none ↦ (c, no_change)
      | some s ↦ elim (get_elem? c.s.mixes m) [
        | none ↦ (c, no_change)
        | some rec ↦ elim (get_elem? rec.levels k) [
          | none ↦ (c, no_change)
          | some old ↦
              if level_eq old new then (c, no_change) else level_written c m k node.id s rec new
        ]
      ]
    ]
  ]

  -- The write of a group's strip in a mix.
  abbrev pub group_written :
      Core F → ℕ → ℕ → MixId → GroupId → MixRec F → MixGroup F → MixGroup F → Core F × Partial F
  group_written c m g mix group rec old new = (
    put_mix c m (record rec { groups = set rec.groups g new }),
    changed (Change.group mix group new ∷ []) (
        (if fl.eq old.gain_db new.gain_db && bool_eq old.muted new.muted
          then []
          else group_op m g new ∷ [])
        ++ (if eq_eq old.eq new.eq
            then []
            else RtOp.group_eq (ix m) (ix g) (eq_params new.eq) ∷ [])),
  )

  unfoldable pub set_group : Core F → ℕ → ℕ → MixGroup F → Core F × Partial F
  unfolding changed
  set_group c m g new = elim (get_elem? c.topo.mixes m) [
    | none ↦ (c, no_change)
    | some node ↦ elim (get_elem? c.topo.groups g) [
      | none ↦ (c, no_change)
      | some group ↦ elim (get_elem? c.s.mixes m) [
        | none ↦ (c, no_change)
        | some rec ↦ elim (get_elem? rec.groups g) [
          | none ↦ (c, no_change)
          | some old ↦
              if group_eq old new
              then (c, no_change)
              else group_written c m g node.id group.id rec old new
        ]
      ]
    ]
  ]

-- The loop of `set_solo`: the slots of the sources, as a set.
unfoldable pub solo_slots : Topology → ℕ → List Source → List ℕ → Result CmdError (List ℕ)
solo_slots topo m [] acc = ok acc
solo_slots topo m (s ∷ rest) acc =
    and_then (ok_or (slot topo m s) (record { code = bad_value }))
      (λ k. solo_slots topo m rest (set_insert k acc))

abbrev pub list_eq : List ℕ → List ℕ → Bool
list_eq [] [] = true
list_eq (x ∷ xs) (y ∷ ys) = x == y && list_eq xs ys
list_eq _ _ = false

-- `*l == Some(m)`.
abbrev pub holds : Option ℕ → ℕ → Bool
holds none m = false
holds (some n) m = n == m

module _ {F : Type 0} ⦃fl : Float F⦄ where
  -- `set_solo` once the slots are known.
  unfoldable pub put_solo : MixId → ℕ → List ℕ → Core F → Core F × Partial F
  unfolding changed
  put_solo mix m new c =
      if list_eq (unwrap_or (map_get m c.solo) []) new
      then (c, no_change)
      else (let c' : Core F = record c {
        solo = if is_nil new then map_remove m c.solo else map_insert m new c.solo;
      } in
          (c', changed (Change.solo mix (filter_map (source c.topo m) new) ∷ []) (level_ops c' m)))

  unfoldable pub set_solo : MixId → List Source → M F (Partial F)
  unfolding put_solo
  set_solo mix sources = do
    m ← read (λ c. mix_at c mix)
    new ← read (λ c.
        if ltb max_solo (length sources) then failure bad_value else solo_slots c.topo m sources [])
    write (put_solo mix m new)

  unfoldable pub listen_partial : List (RtOp F) → Core F → Partial F
  unfolding changed
  listen_partial rt c =
      if is_nil rt then no_change else changed (Change.listen (listened c) ∷ []) rt

  -- `start_listen` once the mix and its slot are known.
  unfoldable pub put_listen : ℕ → ℕ → Core F → Core F × Partial F
  unfolding listen_partial
  put_listen m slot c =
      let c' : Core F = record c { listen = set c.listen slot (some m) } in
      (c', listen_partial (RtOp.listen (slot % 256) (some (ix m)) ∷ []) c')

  abbrev pub listen_slot : Core F → ℕ → ℕ
  listen_slot c m = if m == c.topo.engineer then 0 else 1

  -- Slot 0 is the engineer's tap, slot 1 one other mix's.
  unfoldable pub start_listen : MixId → M F (Partial F)
  unfolding put_listen
  start_listen mix = do
    m ← read (λ c. mix_at c mix)
    λ c.
        let slot = listen_slot c m in
        let current = bind_option (get_elem? c.listen slot) (λ l. l) in
        if holds current m
        then (c, ok no_change)
        else if slot == 1 && is_some current
        then (c, failure no_source)
        else write (put_listen m slot) c

  -- The loop of `StopListen` over the taps: the taps left, and a command for each one stopped.
  unfoldable pub stop_slots : ℕ → ℕ → List (Option ℕ) → List (Option ℕ) × List (RtOp F)
  stop_slots m slot [] = ([], [])
  stop_slots m slot (l ∷ rest) =
      let (left, rt) = stop_slots m (suc slot) rest in
      if holds l m then (none ∷ left, RtOp.listen (slot % 256) none ∷ rt) else (l ∷ left, rt)

  -- `StopListen` once the mix is known.
  unfoldable pub put_stop : ℕ → Core F → Core F × Partial F
  unfolding stop_slots listen_partial
  put_stop m c =
      let (left, rt) = stop_slots m 0 c.listen in
      let c' : Core F = record c { listen = left } in (c', listen_partial rt c')

  unfoldable pub stop_listen : MixId → M F (Partial F)
  unfolding put_stop
  stop_listen mix = do m ← read (λ c. mix_at c mix); write (put_stop m)
