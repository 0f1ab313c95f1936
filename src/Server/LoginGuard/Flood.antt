-- ===== src/Server/LoginGuard/Flood.antt =====
-- Recording failures keeps the bounds, by evictions (crates/iem-server/src/login_guard.rs,
-- `record_failure`).
use Prim.Native.String.{String}
use iemmixer.Base.{
  ℕ, ◌+◌, ◌≤◌, ◌≡◌, inl, inr, Bool, true, not, ◌&&◌, if◌then◌else◌, List, [], All, arith, leb,
  length, unwrap_or, is_some, get_by, insert_by, evict_by, Bool-cases, length-insert_by,
  length-evict_by, All-evict_by, if_either, ◌==◌, Given-unwrap_or,
}
use iemmixer.Server.LoginGuard.{
  ClientKey, engineer_window, LoginStats, client_window, failures_after, count_failure, Inner,
  client_eq, streak_eq, prune, push, streak_le, window_le, max_tracked, client_window_failures,
  engineer_window_failures, record_failure, record_streak, record_client, record_origin, budget_of,
  put_budget,
}
use iemmixer.Server.LoginGuard.Bounds.{
  Bounded, streak_eq_refl, client_eq_refl, length-prune, length-push, put_budget-Bounded,
  budget_of-BudgetBounded, with_streaks-Bounded, window_put-Bounded, window_bound,
}

-- An insert after an eviction where there is no room.
kept-bound {ℓ κ} :
    {K : Type ℓ} {V : Type κ} (eq : K → K → Bool) (eq_refl : (k : K) → eq k k ≡ true)
    (le : K × V → K × V → Bool) (k : K) (v : V) (m : List (K × V))
    → length m ≤ max_tracked
    → length (
        insert_by eq k v (
          if not (is_some (get_by eq k m)) && leb max_tracked (length m)
          then evict_by eq le m
          else m))
      ≤ max_tracked
kept-bound eq eq_refl le k v m h = ground (
  arith,
  length-insert_by eq k v m,
  length-insert_by eq k v (evict_by eq le m),
  length-evict_by eq eq_refl le m 4095,
)

record_streak-Bounded :
    (client : ClientKey) (member : String) (now : ℕ) (s : Inner)
    → Bounded s
    → Bounded (record_streak client member now s)
record_streak-Bounded client member now s h =
    with_streaks-Bounded s (record_streak client member now s).streaks
      (kept-bound streak_eq streak_eq_refl streak_le (client, member)
        (record {
          failures = failures_after (get_by streak_eq (client, member) s.streaks) now;
          last_failure = now;
        })
        s.streaks h.streaks)
      h

record_client-Bounded :
    (client : ClientKey) (now : ℕ) (s : Inner) → Bounded s → Bounded (record_client client now s)
record_client-Bounded client now s h =
    let old = unwrap_or (get_by client_eq client s.clients) [] in
    let w = push (prune old now client_window) now client_window_failures in
    let most : length old ≤ client_window_failures =
      Given-unwrap_or (λ w. length w ≤ client_window_failures) (get_by client_eq client s.clients)
        [] (window_bound s client h) (omega arith) in
    let longer : length w ≤ client_window_failures =
      length-push (prune old now client_window) now client_window_failures
        (omega (arith, most, length-prune old now client_window)) in
    window_put-Bounded s client w
      (if not (is_some (get_by client_eq client s.clients)) && leb max_tracked (length s.clients)
        then evict_by client_eq window_le s.clients
        else s.clients)
      (kept-bound client_eq client_eq_refl window_le client w s.clients h.clients)
      (if_either (All (λ e. length e.1 ≤ client_window_failures))
        (not (is_some (get_by client_eq client s.clients)) && leb max_tracked (length s.clients))
        (evict_by client_eq window_le s.clients) s.clients
        (All-evict_by client_eq (λ w. length w ≤ client_window_failures) window_le s.clients
          h.windows)
        h.windows)
      longer h

with_stats-Bounded : (s : Inner) (t : LoginStats) → Bounded s → Bounded (record s { stats = t })
with_stats-Bounded s t h = record {
  streaks = h.streaks;
  clients = h.clients;
  windows = h.windows;
  lan = h.lan;
  tunnel = h.tunnel;
}

record_origin-Bounded :
    (client : ClientKey) (now : ℕ) (s : Inner) → Bounded s → Bounded (record_origin client now s).0
record_origin-Bounded client now s h =
    let old = budget_of client.origin s in
    let p = prune old.failures now engineer_window in
    let b : length (push p now 31) ≤ 31 = length-push p now 31 (
      omega (
        arith,
        (budget_of-BudgetBounded client.origin s h).failures,
        length-prune old.failures now engineer_window,
      )) in
    let t = count_failure client.origin s.stats in
    let s' : Inner =
      put_budget client.origin (record old { failures = push p now 31 }) (record s { stats = t }) in
    let k : Bounded s' =
      put_budget-Bounded client.origin (record old { failures = push p now 31 })
        (record s { stats = t }) (record { failures = b }) (with_stats-Bounded s t h) in
    elim (Bool-cases (length p == engineer_window_failures)) [
      | inl e ↦ rw e (
          with_stats-Bounded s' (record t { engineer_budget_trips = t.engineer_budget_trips + 1 })
            k)
      | inr e ↦ rw e k
    ]

-- A counted failure keeps the guard within its bounds: at most 4096 streaks and 4096 clients, with
-- at most 20 failures for a client and 31 for an origin, whoever fails.
pub record_failure-Bounded :
    (client : ClientKey) (member : String) (now : ℕ) (s : Inner)
    → Bounded s
    → Bounded (record_failure client member now s).0
unfolding record_failure
record_failure-Bounded client member now s h =
    record_origin-Bounded client now (record_client client now (record_streak client member now s))
      (record_client-Bounded client now (record_streak client member now s)
        (record_streak-Bounded client member now s h))
