-- ===== src/Engine/Core/Atomic.antt =====
-- A request that is refused leaves the core as it was.
use iemmixer.Base.{◌≡◌, List, err, arith}
use iemmixer.Float.{Float}
use iemmixer.Proto.State.{EqTarget, InputId, Source, Eq}
use iemmixer.Proto.Shape.{cap_eq}
use iemmixer.Proto.Msg.{Cmd, Cmds, CmdError}
use iemmixer.Engine.Core.Defs.{Core, M, finish}
use iemmixer.Engine.Core.Setters.{set_solo, start_listen, stop_listen}
use iemmixer.Engine.Core.Commands.{start_test, set_eq, one}
use iemmixer.Engine.Core.Apply.{batch, apply}

module _ {F : Type 0} ⦃fl : Float F⦄ where
  abbrev IsAtomic : {A : Type 0} → M F A → Type 0
  IsAtomic m = (c : Core F) (e : CmdError) → (m c).1 ≡ err e → (m c).0 ≡ c

  set_solo-IsAtomic : (mix : InputId) → (ss : List Source) → IsAtomic (set_solo mix ss)
  unfolding set_solo
  set_solo-IsAtomic mix ss c e h = ground arith

  start_listen-IsAtomic : (mix : InputId) → IsAtomic (start_listen mix)
  unfolding start_listen
  start_listen-IsAtomic mix c e h = ground arith

  stop_listen-IsAtomic : (mix : InputId) → IsAtomic (stop_listen mix)
  unfolding stop_listen
  stop_listen-IsAtomic mix c e h = ground arith

  set_eq-IsAtomic : (target : EqTarget) (eq : Eq F) → IsAtomic (set_eq target eq)
  unfolding set_eq
  set_eq-IsAtomic (EqTarget.input id) eq c e h = ground arith
  set_eq-IsAtomic target eq c e h = ground arith

  one-IsAtomic : (cmd : Cmd F) → IsAtomic (one cmd)
  unfolding one start_test
  one-IsAtomic (Cmd.set_solo mix ss) c e h = set_solo-IsAtomic mix ss c e h
  one-IsAtomic (Cmd.start_listen mix) c e h = start_listen-IsAtomic mix c e h
  one-IsAtomic (Cmd.stop_listen mix) c e h = stop_listen-IsAtomic mix c e h
  one-IsAtomic (Cmd.set_eq target eq) c e h = ground (arith, set_eq-IsAtomic target (cap_eq eq) c e)
  one-IsAtomic cmd c e h = ground arith

  batch-IsAtomic : (ops : Cmds F) → IsAtomic (batch ops)
  unfolding batch
  batch-IsAtomic ops c e h = ground arith

  -- A refused request leaves the core as it was, a batch that fails half-way included.
  pub apply_error_unchanged :
      (cmd : Cmd F) (c : Core F) (e : CmdError) → (apply cmd c).1 ≡ err e → (apply cmd c).0 ≡ c
  unfolding apply finish
  apply_error_unchanged (Cmd.batch ops) c e h = ground (arith, batch-IsAtomic ops c e)
  apply_error_unchanged cmd c e h = ground (arith, one-IsAtomic cmd c e)
