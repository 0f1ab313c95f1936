-- ===== src/Server/LoginGuard.antt =====
-- Login protection (crates/iem-server/src/login_guard.rs): failure budgets per client, member and
-- origin. The clock is a number of nanoseconds. The order that a `HashMap` is walked in is that of
-- the list; it decides only which of several equally old entries is evicted.
use Prim.Native.String.{String}
use iemmixer.Base.{
  ℕ, suc, ◌+◌, ◌-◌, ◌*◌, ◌^◌, ◌==◌, min, Bool, true, false, not, ◌&&◌, ◌≡◌, Option, none, some,
  List, [], ◌∷◌, ◌++◌, map, if◌then◌else◌, ltb, leb, length, get_last?, tail, Result, ok, err,
  unwrap_or, is_some, same, same_iff, get_by, insert_by, remove_by, evict_by, refl, arith,
}
pub mod Delays
pub mod Bounds
pub mod Flood
pub mod Admission
pub mod Streaks

abbrev pub secs : ℕ → ℕ
secs n = n * 1000000000

abbrev pub free_failures : ℕ
free_failures = 3

abbrev pub streak_decay : ℕ
streak_decay = secs 900

abbrev pub max_delay : ℕ
max_delay = secs 60

abbrev pub client_window : ℕ
client_window = secs 600

abbrev pub client_window_failures : ℕ
client_window_failures = 20

abbrev pub client_spacing : ℕ
client_spacing = secs 60

abbrev pub engineer_window : ℕ
engineer_window = secs 3600

abbrev pub engineer_window_failures : ℕ
engineer_window_failures = 30

abbrev pub engineer_spacing : ℕ
engineer_spacing = secs 5

abbrev pub max_tracked : ℕ
max_tracked = 4096

-- `u32::MAX`.
abbrev pub max_u32 : ℕ
max_u32 = 4294967295

-- `saturating_duration_since`.
abbrev pub since : ℕ → ℕ → ℕ
since now t = now - t

pub data Origin : Type 0 where
  lan tunnel : Origin

-- The address of a client, as a text in canonical form.
pub record ClientKey : Type 0 where
  pub origin : Origin
  pub ip : String

abbrev pub origin_eq : Origin → Origin → Bool
origin_eq lan lan = true
origin_eq tunnel tunnel = true
origin_eq _ _ = false

abbrev pub client_eq : ClientKey → ClientKey → Bool
client_eq a b = origin_eq a.origin b.origin && same a.ip b.ip

abbrev pub streak_eq : ClientKey × String → ClientKey × String → Bool
streak_eq a b = client_eq a.0 b.0 && same a.1 b.1

pub data FailureEffect : Type 0 where
  counted engineer_budget_exhausted : FailureEffect

pub record LoginStats : Type 0 where
  pub lan_failures : ℕ
  pub tunnel_failures : ℕ
  pub engineer_budget_trips : ℕ

pub record Streak : Type 0 where
  pub failures : ℕ
  pub last_failure : ℕ

pub record OriginBudget : Type 0 where
  pub failures : List ℕ
  pub last_admitted : Option ℕ

pub record Inner : Type 0 where
  pub streaks : List ((ClientKey × String) × Streak)
  pub clients : List (ClientKey × List ℕ)
  pub lan_budget : OriginBudget
  pub tunnel_budget : OriginBudget
  pub stats : LoginStats

-- `Inner::origin_mut`, read and written.
abbrev pub budget_of : Origin → Inner → OriginBudget
budget_of lan s = s.lan_budget
budget_of tunnel s = s.tunnel_budget

abbrev pub put_budget : Origin → OriginBudget → Inner → Inner
put_budget lan b s = record s { lan_budget = b }
put_budget tunnel b s = record s { tunnel_budget = b }

-- The delay owed after so many failures in a row.
unfoldable pub streak_delay : ℕ → ℕ
streak_delay failures =
    if ltb failures free_failures
    then 0
    else if leb 6 (failures - free_failures)
    then max_delay
    else min (secs (2 ^ (failures - free_failures))) max_delay

unfoldable pub prune : List ℕ → ℕ → ℕ → List ℕ
prune [] now span = []
prune (oldest ∷ window) now span =
    let rest = prune window now span in
    if leb span (since now oldest) then rest else oldest ∷ window

-- The order of the instants that a streak and a client's window end with; none is the least.
abbrev pub streak_le : (ClientKey × String) × Streak → (ClientKey × String) × Streak → Bool
streak_le a b = leb a.1.last_failure b.1.last_failure

abbrev instant_le : Option ℕ → Option ℕ → Bool
instant_le none y = true
instant_le (some a) none = false
instant_le (some a) (some b) = leb a b

abbrev pub window_le : ClientKey × List ℕ → ClientKey × List ℕ → Bool
window_le a b = instant_le (get_last? a.1) (get_last? b.1)

abbrev pub empty_budget : OriginBudget
empty_budget = record { failures = []; last_admitted = none }

-- `Inner::default`.
abbrev pub empty : Inner
empty = record {
  streaks = [];
  clients = [];
  lan_budget = empty_budget;
  tunnel_budget = empty_budget;
  stats = record { lan_failures = 0; tunnel_failures = 0; engineer_budget_trips = 0 };
}

-- A step that admits or answers with the time to wait.
abbrev pub Admission : Type 0
Admission = Inner × Result ℕ (Unit {0})

abbrev pub then_check : Admission → (Inner → Admission) → Admission
then_check (s, ok u) f = f s
then_check (s, err wait) f = (s, err wait)

-- Admitted when `span` has passed since `t`.
abbrev pub spaced : Inner → ℕ → ℕ → Admission
spaced s since span = if ltb since span then (s, err (span - since)) else (s, ok tt)

unfoldable pub check_streak : ClientKey → String → ℕ → Inner → Admission
check_streak client member now s = elim (get_by streak_eq (client, member) s.streaks) [
  | none ↦ (s, ok tt)
  | some streak ↦
      if leb streak_decay (since now streak.last_failure)
      then (record s { streaks = remove_by streak_eq (client, member) s.streaks }, ok tt)
      else spaced s (since now streak.last_failure) (streak_delay streak.failures)
]

unfoldable pub check_client : ClientKey → ℕ → Inner → Admission
check_client client now s = elim (get_by client_eq client s.clients) [
  | none ↦ (s, ok tt)
  | some window ↦
      let pruned = prune window now client_window in
      let s' : Inner = record s { clients = insert_by client_eq client pruned s.clients } in
      if leb client_window_failures (length pruned)
      then elim (get_last? pruned) [
        | none ↦ (s', ok tt)
        | some last ↦ spaced s' (since now last) client_spacing
      ]
      else (s', ok tt)
]

abbrev pub spaced_origin : OriginBudget → ℕ → Inner → Admission
spaced_origin budget now s =
    if ltb engineer_window_failures (length budget.failures)
    then elim budget.last_admitted [
      | none ↦ (s, ok tt)
      | some last ↦ spaced s (since now last) engineer_spacing
    ]
    else (s, ok tt)

unfoldable pub check_origin : ClientKey → ℕ → Inner → Admission
check_origin client now s =
    let old = budget_of client.origin s in
    let budget : OriginBudget = record old { failures = prune old.failures now engineer_window } in
    then_check (spaced_origin budget now (put_budget client.origin budget s))
      (λ s'. (put_budget client.origin (record budget { last_admitted = some now }) s', ok tt))

-- Admission before any hashing: the time to wait otherwise.
unfoldable pub check : ClientKey → String → ℕ → Inner → Admission
check client member now s =
    then_check (then_check (check_streak client member now s) (check_client client now))
      (check_origin client now)

-- `streak.failures.saturating_add(1)` within the decay, else 1.
abbrev pub failures_after : Option Streak → ℕ → ℕ
failures_after none now = 1
failures_after (some streak) now =
    if ltb (since now streak.last_failure) streak_decay
    then min (streak.failures + 1) max_u32
    else 1

abbrev pub record_streak : ClientKey → String → ℕ → Inner → Inner
record_streak client member now s =
    let old = get_by streak_eq (client, member) s.streaks in
    let kept =
      if not (is_some old) && leb max_tracked (length s.streaks)
      then evict_by streak_eq streak_le s.streaks
      else s.streaks in
    record s {
      streaks =
          insert_by streak_eq (client, member)
            (record { failures = failures_after old now; last_failure = now }) kept;
    }

-- One more instant at the end of a window of at most `most`.
abbrev pub push : List ℕ → ℕ → ℕ → List ℕ
push window now most =
    let longer = window ++ now ∷ [] in if ltb most (length longer) then tail longer else longer

abbrev pub record_client : ClientKey → ℕ → Inner → Inner
record_client client now s =
    let old = get_by client_eq client s.clients in
    let kept =
      if not (is_some old) && leb max_tracked (length s.clients)
      then evict_by client_eq window_le s.clients
      else s.clients in
    record s {
      clients =
          insert_by client_eq client
            (push (prune (unwrap_or old []) now client_window) now client_window_failures) kept;
    }

abbrev pub count_failure : Origin → LoginStats → LoginStats
count_failure lan t = record t { lan_failures = t.lan_failures + 1 }
count_failure tunnel t = record t { tunnel_failures = t.tunnel_failures + 1 }

abbrev pub record_origin : ClientKey → ℕ → Inner → Inner × FailureEffect
record_origin client now s =
    let old = budget_of client.origin s in
    let pruned = prune old.failures now engineer_window in
    let budget : OriginBudget = record old {
      failures = push pruned now (engineer_window_failures + 1);
    } in
    let counted_stats = count_failure client.origin s.stats in
    let s' : Inner = put_budget client.origin budget (record s { stats = counted_stats }) in
    if length pruned == engineer_window_failures
    then (
      record s' {
        stats = record counted_stats {
          engineer_budget_trips = counted_stats.engineer_budget_trips + 1;
        };
      },
      engineer_budget_exhausted,
    )
    else (s', counted)

-- A failed PIN check is counted.
unfoldable pub record_failure : ClientKey → String → ℕ → Inner → Inner × FailureEffect
unfolding prune
record_failure client member now s =
    record_origin client now (record_client client now (record_streak client member now s))

-- A successful PIN check ends that streak.
unfoldable pub record_success : ClientKey → String → Inner → Inner
record_success client member s = record s {
  streaks = remove_by streak_eq (client, member) s.streaks;
}
