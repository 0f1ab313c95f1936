-- ===== src/Examples/MirrorTests.antt =====
-- The theorems on the server's mirror, applied to the compiled site and a tap that is switched on.
use iemmixer.Base.{
  ℕ, zero, suc, ◌<◌, Bool, true, ltb, length, refl, none, some, false, [], ◌∷◌, List, inl, arith,
}
use iemmixer.Proto.State.{MixState}
use iemmixer.Proto.Msg.{control, Cmd, Change, is_supervisor}
use iemmixer.Proto.EngineMsg.{EngineMsg}
use iemmixer.Engine.Topology.{mix_index}
use iemmixer.Engine.Core.{
  Core, new, finish, start_listen, mix_at, changed, listened, one, apply, put_listen,
  listen_partial,
}
use iemmixer.Engine.Control.{request, refusal}
use iemmixer.Engine.Control.Broadcasts.{Deed, asked, act, announce, state_msg, publish}
use iemmixer.Server.Mirror.{Mirror, apply_delta, change_all, change}
use iemmixer.Server.Mirror as Server
use iemmixer.Server.Mirror.History.{Encoded, core_at, broadcasts, apply_all, mirror_at, InStep}
use iemmixer.Server.Mirror.Genuine.{whole, sent, Shown}
use iemmixer.Server.Mirror.Served.{mirror_follows_engine, mirror_never_wrong}
use iemmixer.Examples.Decimal.{Decimal, decimal_float}
use iemmixer.Examples.SiteFile.{no_hash, band, stage, band_compiles}

abbrev nothing : MixState Decimal
nothing = record { inputs = []; mixes = [] }

abbrev on_stage : Core Decimal
on_stage = new stage nothing 7 (record { test_signal = false; fault_injection = false })

-- The controller switches the engineer's tap on, again and again.
abbrev taps : ℕ → Deed Decimal
taps n = asked (some control) (some 4) (Cmd.start_listen "engineer")

abbrev blank : Mirror Decimal
blank = record {
  hello = none;
  topology = none;
  state = nothing;
  transient = record { solo = []; listen = none ∷ none ∷ []; test_signal = none };
  rev = 0;
  synced = false;
}

-- A frame takes what is short.
abbrev short : EngineMsg Decimal → Bool
short (EngineMsg.delta rev origin changes) = ltb (length changes) 1000
short _ = true

taps-Encoded : (k : ℕ) → k < 3 → Encoded short taps on_stage k
unfolding new broadcasts core_at announce request refusal start_listen mix_at mix_index put_listen
    changed listened finish publish apply one is_supervisor listen_partial
taps-Encoded zero b = (refl, tt)
taps-Encoded (suc zero) b = tt
taps-Encoded (suc (suc zero)) b = tt
taps-Encoded (suc (suc (suc k))) b = absurd (omega (arith, b))

mirror_follows_engine_example :
    InStep
      (core_at taps on_stage 3)
      (mirror_at short taps on_stage (Server.apply (state_msg on_stage) blank).0 3)
unfolding new
mirror_follows_engine_example =
    mirror_follows_engine no_hash band on_stage band_compiles short taps blank 3 (omega arith)
      taps-Encoded

abbrev tapped : EngineMsg Decimal
tapped = EngineMsg.delta 8 (some 4) (Change.listen (some "engineer" ∷ none ∷ []) ∷ [])

-- The state, then the tap's change twice.
abbrev heard : List (EngineMsg Decimal)
heard = state_msg on_stage ∷ tapped ∷ tapped ∷ []

mirror_never_wrong_example : Shown taps on_stage 1 (apply_all heard blank)
unfolding new broadcasts core_at act announce request refusal start_listen mix_at mix_index
    put_listen changed listened finish publish apply one apply_all state_msg is_supervisor
    change_all
mirror_never_wrong_example =
    mirror_never_wrong no_hash band on_stage band_compiles short taps 1 heard blank (omega arith)
      (
        whole 0 (omega arith) refl,
        (sent 0 (omega arith) (inl refl), (sent 0 (omega arith) (inl refl), tt)),
      )
      refl refl
