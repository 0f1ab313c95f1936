-- ===== src/Examples/ServerTests.antt =====
-- The theorems on the web server's state machines, applied to a client that has failed three
-- times and to a page that came and went.
use iemmixer.Base.{◌*◌, ◌<◌, ◌≤◌, min, ◌≡◌, refl, [], ◌∷◌, some, ok, arith, get_by}
use iemmixer.Server.LoginGuard.{
  ClientKey, lan, Inner, empty, secs, free_failures, max_delay, streak_delay, streak_eq,
  failures_after, check, record_failure, record_success, check_streak,
}
use iemmixer.Server.LoginGuard.Delays.{streak_delay_lem, check_wait_bounded}
use iemmixer.Server.LoginGuard.Bounds.{Bounded}
use iemmixer.Server.LoginGuard.Flood.{record_failure-Bounded}
use iemmixer.Server.LoginGuard.Admission.{check_no_lockout}
use iemmixer.Server.LoginGuard.Streaks.{success_forgives}
use iemmixer.Base.{All, List, leb, ◌-◌, false}
use iemmixer.Server.SoloJanitor.{Janitor, connected, disconnected, due, solo_grace}
use iemmixer.Server.SoloJanitor.Pages.{Event, opening, closing, after, pages, due_closed}
use iemmixer.Server.SoloJanitor.Once.{due_once}

abbrev phone : ClientKey
phone = record { origin = lan; ip = "192.168.1.20" }

-- Three failures at second 100, for the drummer.
abbrev tried : Inner
tried = record empty {
  streaks = ((phone, "drums"), record { failures = 3; last_failure = secs 100 }) ∷ [];
  clients = (phone, secs 98 ∷ secs 99 ∷ secs 100 ∷ []) ∷ [];
  lan_budget = record {
    failures = secs 98 ∷ secs 99 ∷ secs 100 ∷ [];
    last_admitted = some (secs 99);
  };
}

streak_delay_lem_example :
    (4 < free_failures → streak_delay 4 ≡ 0)
    × (streak_delay free_failures ≡ secs 1)
    × (free_failures ≤ 4 → streak_delay 5 ≡ min (2 * streak_delay 4) max_delay)
streak_delay_lem_example = streak_delay_lem 4

check_wait_bounded_example : (0 < secs 1) × (secs 1 ≤ max_delay)
unfolding check check_streak streak_delay
check_wait_bounded_example = check_wait_bounded phone "drums" (secs 100) tried (secs 1) refl

tried-Bounded : Bounded tried
tried-Bounded = record {
  streaks = omega arith;
  clients = omega arith;
  windows = (omega arith, tt);
  lan = record { failures = omega arith };
  tunnel = record { failures = omega arith };
}

record_failure-Bounded_example : Bounded (record_failure phone "drums" (secs 102) tried).0
record_failure-Bounded_example = record_failure-Bounded phone "drums" (secs 102) tried tried-Bounded

check_no_lockout_example : (check phone "drums" (secs 160) tried).1 ≡ ok tt
check_no_lockout_example =
    check_no_lockout (secs 100) (secs 160) (omega arith) phone "drums" tried (record {
      streaks = (omega arith, tt);
      windows = ((omega arith, (omega arith, (omega arith, tt))), tt);
      lan = omega arith;
      tunnel = tt;
    })

success_forgives_example :
    failures_after
      (get_by streak_eq (phone, "drums") (record_success phone "drums" tried).streaks)
      (secs 103)
    ≡ 1
success_forgives_example = success_forgives phone "drums" (secs 103) tried

abbrev fresh : Janitor
fresh = record { opened = []; left = [] }

-- A page on the drummer's mix came and left at second 5.
abbrev came_and_went : Janitor
came_and_went = disconnected "drums" (secs 5) (connected "drums" fresh)

-- Two pages on the drummer's mix came; one left at second 4, the other at second 5; a page on the
-- singer's mix came.
abbrev both_left : List Event
both_left =
    opening "vocals"
    ∷ closing "drums" (secs 5)
    ∷ closing "drums" (secs 4)
    ∷ opening "drums"
    ∷ opening "drums"
    ∷ []

cleared_test : (due (secs 15) (after both_left)).1 ≡ "drums" ∷ []
unfolding after connected disconnected due
cleared_test = refl

due_closed_example : All (λ mix. pages mix both_left ≡ 0) (due (secs 15) (after both_left)).1
due_closed_example = due_closed (secs 15) both_left

due_once_example :
    All (λ e. leb solo_grace (secs 15 - e.1) ≡ false) (due (secs 15) came_and_went).0.left
    × ((due (secs 15) (due (secs 15) came_and_went).0).1 ≡ [])
due_once_example = due_once (secs 15) came_and_went
