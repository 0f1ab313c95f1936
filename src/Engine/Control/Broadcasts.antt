-- ===== src/Engine/Control/Broadcasts.antt =====
-- What the control loop broadcasts (crates/iem-engine/src/control/requests.rs, `publish` and the end
-- of `frame`; control/connections.rs, `state_msg`; control.rs, the end of `tick`): to every
-- connection that said hello the same messages, in this order, but for one that is too long to encode.
use iemmixer.Base.{
  ℕ, Option, none, List, [], ◌∷◌, ◌++◌, Bool, true, ◌≡◌, refl, ap, All, Result, ok, err,
  if◌then◌else◌,
}
use iemmixer.Float.{Float}
use iemmixer.Proto.Msg.{Role, Cmd, CmdError}
use iemmixer.Proto.EngineMsg.{EngineMsg}
use iemmixer.Engine.Core.{
  Core, Outcome, Effect, imported, state, transient, is_nil, clear_solos, end_test_signal,
}
use iemmixer.Engine.Control.{request}

-- What changes the core: a request of a connection with this role, or the loop's own timers.
pub data Deed (F : Type 0) : Type 0 where
  asked : Option Role → Option ℕ → Cmd F → Deed F
  solo_grace_over : Deed F
  test_signal_over : Deed F

module _ {F : Type 0} where
  -- `broadcast` of each message: one that `encode` refuses, too long for a frame, goes to nobody.
  abbrev pub broadcast_all : (EngineMsg F → Bool) → List (EngineMsg F) → List (EngineMsg F)
  broadcast_all encodes [] = []
  broadcast_all encodes (msg ∷ msgs) =
      let rest = broadcast_all encodes msgs in if encodes msg then msg ∷ rest else rest

module _ {F : Type 0} ⦃fl : Float F⦄ where
  unfoldable pub state_msg : Core F → EngineMsg F
  state_msg c = EngineMsg.state c.rev (state c) (transient c)

  unfoldable pub publish : Outcome F → Option ℕ → List (EngineMsg F)
  publish o origin = if is_nil o.changes then [] else EngineMsg.delta o.rev origin o.changes ∷ []

  -- The broadcast of an effect.
  abbrev pub effect_msgs : Effect → Core F → List (EngineMsg F)
  effect_msgs imported c = state_msg c ∷ []
  effect_msgs _ c = []

  abbrev pub answer : Option ℕ → Core F × Result CmdError (Outcome F) → Core F × List (EngineMsg F)
  answer origin (c, err e) = (c, [])
  answer origin (c, ok o) = (c, publish o origin ++ effect_msgs o.effect c)

  -- The core after a deed, and the messages that it has for every connection.
  unfoldable pub announce : Deed F → Core F → Core F × List (EngineMsg F)
  announce (asked role origin cmd) c = answer origin (request role cmd c)
  announce solo_grace_over c = answer none (clear_solos c)
  announce test_signal_over c = answer none (end_test_signal c)

  -- The core after a deed, and what is broadcast.
  unfoldable pub act : (EngineMsg F → Bool) → Deed F → Core F → Core F × List (EngineMsg F)
  unfolding announce
  act encodes deed c = let (d, msgs) = announce deed c in (d, broadcast_all encodes msgs)

-- Where every message encodes, every one is broadcast.
pub broadcast_all_whole :
    {F : Type 0} (encodes : EngineMsg F → Bool) (msgs : List (EngineMsg F))
    → All (λ msg. encodes msg ≡ true) msgs
    → broadcast_all encodes msgs ≡ msgs
broadcast_all_whole encodes [] h = refl
broadcast_all_whole encodes (msg ∷ msgs) (e, h) =
    rw e (ap (λ rest. msg ∷ rest) (broadcast_all_whole encodes msgs h))
