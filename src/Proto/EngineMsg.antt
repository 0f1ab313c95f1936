-- ===== src/Proto/EngineMsg.antt =====
-- What the engine sends (crates/iem-engine-proto/src/msg/engine.rs, status.rs). The text of an error
-- or an alarm is a `String`; the peaks of the meters, `f32` in the source, are `F` like the rest.
use Prim.Native.String.{String}
use iemmixer.Base.{ℕ, Bool, Option, List}
use iemmixer.Proto.State.{MixState, Transient}
use iemmixer.Proto.Shape.{TopologyInfo}
use iemmixer.Proto.Msg.{Role, ErrCode, Change}

pub record ErrorBody : Type 0 where
  pub code : ErrCode
  pub msg : String

pub record Reply : Type 0 where
  pub id : ℕ
  pub rev : ℕ
  pub error : Option ErrorBody

pub record Hello : Type 0 where
  pub proto : ℕ
  pub engine_build : String
  pub topology_hash : String
  pub state_rev : ℕ
  pub sample_rate : ℕ
  pub block : ℕ
  pub role : Role

pub data AlarmCode : Type 0 where
  state_fallback state_lost sanitizer fault save_failed : AlarmCode

pub record Alarm : Type 0 where
  pub code : AlarmCode
  pub detail : String

pub record Meters (F : Type 0) : Type 0 where
  pub seq : ℕ
  pub inputs : List (F × F)
  pub mixes : List (F × F)
  pub groups : List (F × F)
  pub gr_db : List F
  pub limiter_active_s : List F
  pub trips : ℕ
  pub own : List (F × F)

pub record HilOut (F : Type 0) : Type 0 where
  pub tx : ℕ
  pub peak : F

pub record Status (F : Type 0) : Type 0 where
  pub callbacks : ℕ
  pub late : ℕ
  pub faulted : Bool
  pub process_max_us : F
  pub trips : ℕ
  pub tap_overruns : ℕ
  pub talkback_dropped : ℕ
  pub cmd_backlog : ℕ
  pub frames : ℕ
  pub missed : ℕ
  pub overruns : ℕ
  pub resets : ℕ
  pub held : Bool
  pub hil : List (HilOut F)
  pub loopback_samples : ℕ
  pub interval_hist : List (ℕ × ℕ)
  pub process_hist : List (ℕ × ℕ)
  pub hist_top_us : ℕ
  pub last_reopen_us : ℕ
  pub fault_callback_us : F

pub data EngineMsg (F : Type 0) : Type 0 where
  hello : Hello → EngineMsg F
  reply : Reply → EngineMsg F
  topology : TopologyInfo → EngineMsg F
  state : ℕ → MixState F → Transient F → EngineMsg F
  delta : ℕ → Option ℕ → List (Change F) → EngineMsg F
  meters : Meters F → EngineMsg F
  status : Status F → EngineMsg F
  saved : ℕ → ℕ → EngineMsg F
  alarm : Alarm → EngineMsg F
  driver_released : String → EngineMsg F
  superseded : EngineMsg F
