-- ===== src/Server/Mirror/Served.antt =====
-- The engine on a compiled site and the mirror of the server that it serves, from the site's file to
-- what the server reads (crates/iem-engine/src/control.rs, crates/iem-server/src/engine/mirror.rs).
use Prim.Native.String.{String}
use iemmixer.Base.{ℕ, ◌+◌, ◌<◌, ◌≡◌, true, false, Bool, List, All, ok}
use iemmixer.Float.{Float}
use iemmixer.Proto.Shape.{TopologyInfo}
use iemmixer.Proto.EngineMsg.{EngineMsg}
use iemmixer.Engine.Site.{Site}
use iemmixer.Engine.Compile.{compile}
use iemmixer.Engine.Core.{Core}
use iemmixer.Engine.Control.Broadcasts.{Deed, state_msg}
use iemmixer.Server.Mirror.{Mirror, apply}
use iemmixer.Server.Mirror.History.{
  Encoded, core_at, apply_all, mirror_at, InStep, state_msg-InStep,
}
use iemmixer.Server.Mirror.Runs.{mirror_at-InStep}
use iemmixer.Server.Mirror.Genuine.{Genuine, Shown, apply_all-Shown}
use iemmixer.Server.Mirror.Sites.{compile-OneName}

module _ {F : Type 0} ⦃fl : Float F⦄ (hash : TopologyInfo → String) (site : Site) (c : Core F)
    (compiled : compile hash site ≡ ok c.topo) (encodes : EngineMsg F → Bool)
    (deeds : ℕ → Deed F) where
  -- On a compiled site, where the revision does not reach 2^64 on the way and every message of the run
  -- encodes into a frame: a mirror that is given the core's state and then, in order, all that the
  -- engine broadcasts for the first `n` of any requests and timers is synced, has the core's revision,
  -- and shows the core's state, taps, test signal and solos.
  pub mirror_follows_engine :
      (m : Mirror F) (n : ℕ)
      → c.rev + n < 18446744073709551616
      → ((k : ℕ) → k < n → Encoded encodes deeds c k)
      → InStep (core_at deeds c n) (mirror_at encodes deeds c (apply (state_msg c) m).0 n)
  mirror_follows_engine m n b h =
      mirror_at-InStep deeds c (compile-OneName hash site c.topo compiled) encodes
        (apply (state_msg c) m).0 n b h (state_msg-InStep c m)

  -- On a compiled site, where the revision does not reach 2^64 in the run: whichever messages of the
  -- engine's run reach a mirror that is not synced, in whatever order, some lost, some repeated and
  -- some never sent since they do not encode, if the mirror is synced after them it shows the core as
  -- it was at a moment of the run and has the core's revision of that moment.
  pub mirror_never_wrong :
      (last : ℕ) (msgs : List (EngineMsg F)) (m : Mirror F)
      → c.rev + last < 18446744073709551616
      → All (Genuine encodes deeds c last) msgs
      → m.synced ≡ false
      → (apply_all msgs m).synced ≡ true
      → Shown deeds c last (apply_all msgs m)
  mirror_never_wrong last msgs m b g s =
      apply_all-Shown encodes deeds c last (compile-OneName hash site c.topo compiled) b msgs m g s
