-- ===== src/Engine/Control/Loop.antt =====
-- The control loop (crates/iem-engine/src/control.rs, control/connections.rs, control/requests.rs,
-- control/saving.rs, and the save schedule of persist.rs): its connections and their roles, the
-- answers, the broadcasts, the saves and the timers. A handler reads the clock once, as `now`. What
-- is outside answers by `Outside`: a connection may break at any write, the ring of the real-time
-- thread takes as many groups of commands as it has room for, and a save may fail.
pub mod Handlers
pub mod Kept
pub mod Seats
pub mod Hellos
pub mod Handled
pub mod Authority
pub mod Saving
use Prim.Native.String.{String}
use iemmixer.Base.{
  ℕ, zero, suc, ◌+◌, ◌-◌, Bool, true, false, not, ◌||◌, ◌&&◌, Option, none, some, List, [], ◌∷◌,
  ◌++◌, map, if◌then◌else◌, ltb, leb, ◌==◌, length, take, drop, is_some, map_option, bind_option,
  map_get, map_insert, map_remove, Result, ok, err,
}
use iemmixer.Float.{Float}
use iemmixer.Proto.State.{TestSignal}
use iemmixer.Proto.Msg.{
  Role, control, observe, supervisor, Cmd, CmdError, ErrCode, bad_request, unsupported,
}
use iemmixer.Proto.EngineMsg.{ErrorBody, AlarmCode, state_fallback, save_failed, Alarm, EngineMsg}
use iemmixer.Engine.Topology.{info, sample_rate}
use iemmixer.Engine.Rt.{RtOp}
use iemmixer.Engine.Core.{
  Core, Outcome, Effect, no_effect, send_state, send_topology, save, shutdown, imported, apply,
  transient, is_nil, clear_solos, end_test_signal, max_cmds_per_block,
}
use iemmixer.Engine.Control.{refusal}
use iemmixer.Engine.Control.Broadcasts.{state_msg}

abbrev pub max_conns : ℕ
max_conns = 8

abbrev pub max_alarms : ℕ
max_alarms = 16

-- The version of the protocol (`PROTO`).
abbrev pub proto_version : ℕ
proto_version = 1

-- Nanoseconds.
abbrev pub quiet_time : ℕ
quiet_time = 1000000000

abbrev pub max_delay : ℕ
max_delay = 5000000000

pub record SaveSchedule : Type 0 where
  pub first : Option ℕ
  pub last : Option ℕ

abbrev pub no_save : SaveSchedule
no_save = record { first = none; last = none }

unfoldable pub changed : ℕ → SaveSchedule → SaveSchedule
changed now s = record {
  first = elim (s.first) [ none ↦ some now | some t ↦ some t ];
  last = some now;
}

unfoldable pub save_due : ℕ → SaveSchedule → Bool
save_due now s = elim (s.first) [
  | none ↦ false
  | some first ↦ elim (s.last) [
    | none ↦ false
    | some last ↦ leb quiet_time (now - last) || leb max_delay (now - first)
  ]
]

-- The version both sides speak (crates/iem-engine-proto/src/msg.rs); a version is a `u16`.
unfoldable pub negotiate : ℕ → ℕ → Option ℕ
negotiate ours theirs =
    if leb ours theirs
    then some ours
    else if theirs + 1 == ours && ltb 0 theirs
    then some theirs
    else none

-- A client's message, or why it cannot be read.
pub data ClientMsg (F : Type 0) : Type 0 where
  unreadable : Option ℕ → ErrorBody → ClientMsg F
  hello : ℕ → Role → ClientMsg F
  asks : ℕ → Option ℕ → Cmd F → ClientMsg F

pub data CtlMsg (F : Type 0) : Type 0 where
  connected : ℕ → CtlMsg F
  frame : ℕ → ClientMsg F → CtlMsg F
  closed : ℕ → CtlMsg F

-- A save that went through: its generation, and where a `save.tmp` was moved aside.
pub record Committed : Type 0 where
  pub generation : ℕ
  pub orphaned : Option String

-- What the loop meets: whether write `n` to a connection fails, whether a message can be encoded,
-- how many groups of commands the ring takes the `n`th time, what save `n` gives, a TTL in
-- nanoseconds, the engine's build and the text of an error.
pub record Outside (F : Type 0) : Type 0 where
  pub breaks : ℕ → ℕ → Bool
  pub encodes : EngineMsg F → Bool
  pub room : ℕ → ℕ
  pub saves : ℕ → Result String Committed
  pub ttl : F → ℕ
  pub build : String
  pub text : ErrCode → String

-- `delivered` is what the connections were given, newest last; `writes`, `flushes` and `tries` count.
pub record Control (F : Type 0) : Type 0 where
  pub core : Core F
  pub schedule : SaveSchedule
  pub pending : List (List (RtOp F))
  pub ring : List (List (RtOp F))
  pub peers : List (ℕ × Option Role)
  pub controller : Option ℕ
  pub controller_lost : Option ℕ
  pub supervisor : Option ℕ
  pub held : Bool
  pub test_deadline : Option ℕ
  pub alarms : List Alarm
  pub solo_grace : ℕ
  pub block : ℕ
  pub shutdown : Bool
  pub delivered : List (ℕ × EngineMsg F)
  pub writes : ℕ
  pub flushes : ℕ
  pub tries : ℕ

-- The peers that said hello.
abbrev pub greeted : List (ℕ × Option Role) → List ℕ
greeted [] = []
greeted ((id, none) ∷ ps) = greeted ps
greeted ((id, some r) ∷ ps) = id ∷ greeted ps

-- `get_mut(&id)` and `p.role = Some(role)`.
abbrev pub set_role : ℕ → Role → List (ℕ × Option Role) → List (ℕ × Option Role)
set_role id role [] = []
set_role id role ((j, r) ∷ ps) = (if id == j then (j, some role) else (j, r)) ∷ set_role id role ps

abbrev pub is_it : Option ℕ → ℕ → Bool
is_it none id = false
is_it (some k) id = k == id

-- The connection of a role that a new one of the role supersedes.
abbrev pub other_than : Option ℕ → ℕ → Option ℕ
other_than none id = none
other_than (some old) id = if old == id then none else some old

unfoldable pub push_alarm : List Alarm → Alarm → List Alarm
push_alarm list alarm =
    let longer = list ++ (alarm ∷ []) in
    if ltb max_alarms (length longer) then drop 1 longer else longer

-- `chunks(n)`; fuel for as many chunks as there are commands.
abbrev pub chunks {ℓ} : {A : Type ℓ} → ℕ → ℕ → List A → List (List A)
chunks zero n xs = []
chunks (suc fuel) n [] = []
chunks (suc fuel) n (x ∷ xs) = take n (x ∷ xs) ∷ chunks fuel n (drop n (x ∷ xs))

module _ {F : Type 0} where
  unfoldable pub drop_peer : ℕ → ℕ → Control F → Control F
  drop_peer now id s =
      let s' : Control F = record s { peers = map_remove id s.peers } in
      if is_it s.controller id
      then record s' { controller = none; controller_lost = some now }
      else s'

  unfoldable pub flush_rt : Outside F → Control F → Control F
  flush_rt o s =
      let n = o.room s.flushes in
      record s {
        ring = s.ring ++ take n s.pending;
        pending = drop n s.pending;
        flushes = suc s.flushes;
      }

  module _ (o : Outside F) (now : ℕ) where
    unfoldable pub write : ℕ → EngineMsg F → Control F → Control F
    unfolding drop_peer
    write id msg s = elim (map_get id s.peers) [
      | none ↦ s
      | some role ↦
          if o.breaks id s.writes
          then drop_peer now id (record s { writes = suc s.writes })
          else record s { writes = suc s.writes; delivered = s.delivered ++ ((id, msg) ∷ []) }
    ]

    unfoldable pub send : ℕ → EngineMsg F → Control F → Control F
    unfolding write
    send id msg s = if o.encodes msg then write id msg s else s

    -- The loop of a broadcast.
    unfoldable pub write_all : List ℕ → EngineMsg F → Control F → Control F
    unfolding write
    write_all [] msg s = s
    write_all (id ∷ ids) msg s = write_all ids msg (write id msg s)

    -- To every connection that said hello.
    unfoldable pub broadcast : EngineMsg F → Control F → Control F
    unfolding write_all
    broadcast msg s = if o.encodes msg then write_all (greeted s.peers) msg s else s

    unfoldable pub reply : ℕ → ℕ → Option ErrorBody → Control F → Control F
    unfolding send
    reply id request error s =
        send id (EngineMsg.reply (record { id = request; rev = s.core.rev; error = error })) s

    unfoldable pub raise_alarm : AlarmCode → String → Control F → Control F
    unfolding broadcast push_alarm
    raise_alarm code detail s =
        let alarm : Alarm = record { code = code; detail = detail } in
        broadcast (EngineMsg.alarm alarm) (record s { alarms = push_alarm s.alarms alarm })

    -- The replay of the alarms to a new connection.
    unfoldable pub send_alarms : ℕ → List Alarm → Control F → Control F
    unfolding send
    send_alarms id [] s = s
    send_alarms id (a ∷ rest) s = send_alarms id rest (send id (EngineMsg.alarm a) s)
