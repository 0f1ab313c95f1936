-- ===== src/Examples/LoopTests.antt =====
-- The theorems on the control loop, applied to a loop with a controller and an observer.
use iemmixer.Base.{◌+◌, ◌≤◌, ◌≡◌, ◌↔◌, ◌⊎◌, refl, none, some, true, false, [], ◌∷◌, List, ok, arith}
use iemmixer.Proto.Msg.{control, observe, Cmd}
use iemmixer.Engine.Core.Roles.{SameMix}
use iemmixer.Engine.Control.Loop.{
  Outside, Control, hello, asks, connected, frame, no_save, save_due,
}
use iemmixer.Engine.Control.Loop.Handlers.{on_frame, timers}
use iemmixer.Engine.Control.Loop.Handled.{Happening, message, tick, start, run, loop-Seated}
use iemmixer.Engine.Control.Loop.Seats.{Seated}
use iemmixer.Engine.Control.Loop.Authority.{GraceOver, frame_authority, tick_solos}
use iemmixer.Engine.Control.Loop.Saving.{after, latest, save_due_exact}
use iemmixer.Examples.Decimal.{Decimal, plus, decimal_float}
use iemmixer.Examples.Site.{core}

-- Everything goes through.
abbrev world : Outside Decimal
world = record {
  breaks = λ id n. false;
  encodes = λ msg. true;
  room = λ n. 1;
  saves = λ n. ok (record { generation = n; orphaned = none });
  ttl = λ x. 1000000000;
  build = "1.0";
  text = λ code. "refused";
}

-- A controller, an observer that then asks for control, and a tick a minute later.
abbrev evening : List (Happening Decimal)
evening =
    message 10 (connected 1)
    ∷ message 11 (frame 1 (hello 1 control))
    ∷ message 12 (connected 2)
    ∷ message 13 (frame 2 (hello 1 observe))
    ∷ message 14 (frame 2 (hello 1 control))
    ∷ message 15 (frame 2 (asks 5 none (Cmd.set_mix "drums" (some (plus 5 0)) none)))
    ∷ tick 60000000000
    ∷ []

loop-Seated_example : Seated (run world evening (start core [] 10000000000 32 false))
loop-Seated_example = loop-Seated world core [] 10000000000 32 false evening

-- Connection 1 has control, connection 2 looks on.
abbrev two : Control Decimal
two = record {
  core = core;
  schedule = no_save;
  pending = [];
  ring = [];
  peers = (1, some control) ∷ (2, some observe) ∷ [];
  controller = some 1;
  controller_lost = none;
  supervisor = none;
  held = false;
  test_deadline = none;
  alarms = [];
  solo_grace = 10000000000;
  block = 32;
  shutdown = false;
  delivered = [];
  writes = 0;
  flushes = 0;
  tries = 0;
}

two-Seated : Seated two
two-Seated = record {
  few = omega arith;
  controls = λ k q. ground (arith, q);
  supervises = λ k q. ground (arith, q);
  there = λ k q. ground (arith, q);
  grace = λ q. refl;
}

frame_authority_example :
    SameMix core
      (on_frame world 20 2 (asks 5 none (Cmd.set_mix "drums" (some (plus 5 0)) none)) two).core
frame_authority_example =
    frame_authority world 20 2 (asks 5 none (Cmd.set_mix "drums" (some (plus 5 0)) none)) two
      two-Seated (λ e. ground (arith, e))

tick_solos_example :
    (GraceOver world 90 two → (timers world 90 two).core.solo ≡ [])
    × ((GraceOver world 90 two → ⊥) → SameMix core (timers world 90 two).core)
tick_solos_example = tick_solos world 90 two

save_due_exact_example :
    (save_due 4000 (after (10 ∷ 20 ∷ []) no_save) ≡ true)
    ↔ ((latest 10 (20 ∷ []) + 1000000000 ≤ 4000) ⊎ (10 + 5000000000 ≤ 4000))
save_due_exact_example = save_due_exact 10 (20 ∷ []) 4000
