-- ===== src/Server/LoginGuard/Bounds.antt =====
-- The memory that the guard uses is bounded under a flood
-- (crates/iem-server/src/login_guard.rs, `MAX_TRACKED`).
use Prim.Native.String.{String}
use iemmixer.Base.{
  ℕ, suc, ◌+◌, ◌≤◌, ◌≡◌, refl, inl, inr, true, ok, err, some, List, [], ◌∷◌, ◌++◌, All, arith,
  length, tail, length-append, same_iff, get_by, insert_by, remove_by, Given, Option-cases,
  length-insert_by, length-remove_by, All-insert_by, get_by-Given,
}
use iemmixer.Server.LoginGuard.{
  ClientKey, Origin, lan, tunnel, spaced_origin, engineer_window, Streak, client_window,
  OriginBudget, Inner, client_eq, streak_eq, origin_eq, prune, push, max_tracked,
  client_window_failures, engineer_window_failures, check, check_streak, check_client, check_origin,
  budget_of, put_budget, Admission, then_check,
}

pub record BudgetBounded (b : OriginBudget) : Type 0 where
  pub failures : length b.failures ≤ engineer_window_failures + 1

pub record Bounded (s : Inner) : Type 0 where
  pub streaks : length s.streaks ≤ max_tracked
  pub clients : length s.clients ≤ max_tracked
  pub windows : All (λ e. length e.1 ≤ client_window_failures) s.clients
  pub lan : BudgetBounded s.lan_budget
  pub tunnel : BudgetBounded s.tunnel_budget

origin_eq_refl : (o : Origin) → origin_eq o o ≡ true
origin_eq_refl lan = refl
origin_eq_refl tunnel = refl

pub client_eq_refl : (k : ClientKey) → client_eq k k ≡ true
client_eq_refl k = rw (origin_eq_refl k.origin) ((same_iff k.ip k.ip).1 refl)

pub streak_eq_refl : (k : ClientKey × String) → streak_eq k k ≡ true
streak_eq_refl k = rw (client_eq_refl k.0) ((same_iff k.1 k.1).1 refl)

pub length-prune : (w : List ℕ) (now span : ℕ) → length (prune w now span) ≤ length w
unfolding prune
length-prune [] now span = omega arith
length-prune (x ∷ w) now span = ground (arith, length-prune w now span)

length-tail : (xs : List ℕ) (n : ℕ) → length xs ≤ suc n → length (tail xs) ≤ n
length-tail [] n h = omega arith
length-tail (x ∷ xs) n h = omega arith

pub length-push : (w : List ℕ) (now most : ℕ) → length w ≤ most → length (push w now most) ≤ most
length-push w now most h =
    ground (arith, length-append w (now ∷ []), length-tail (w ++ now ∷ []) most)

pub put_budget-Bounded :
    (o : Origin) (b : OriginBudget) (s : Inner)
    → BudgetBounded b
    → Bounded s
    → Bounded (put_budget o b s)
put_budget-Bounded lan b s k h = record {
  streaks = h.streaks;
  clients = h.clients;
  windows = h.windows;
  lan = k;
  tunnel = h.tunnel;
}
put_budget-Bounded tunnel b s k h = record {
  streaks = h.streaks;
  clients = h.clients;
  windows = h.windows;
  lan = h.lan;
  tunnel = k;
}

pub budget_of-BudgetBounded : (o : Origin) (s : Inner) → Bounded s → BudgetBounded (budget_of o s)
budget_of-BudgetBounded lan s h = h.lan
budget_of-BudgetBounded tunnel s h = h.tunnel

-- The core with other streaks, or other windows, within their bounds.
pub with_streaks-Bounded :
    (s : Inner) (m : List ((ClientKey × String) × Streak))
    → length m ≤ max_tracked
    → Bounded s
    → Bounded (record s { streaks = m })
with_streaks-Bounded s m n h = record {
  streaks = n;
  clients = h.clients;
  windows = h.windows;
  lan = h.lan;
  tunnel = h.tunnel;
}

with_clients-Bounded :
    (s : Inner) (m : List (ClientKey × List ℕ))
    → length m ≤ max_tracked
    → All (λ e. length e.1 ≤ client_window_failures) m
    → Bounded s
    → Bounded (record s { clients = m })
with_clients-Bounded s m n w h = record {
  streaks = h.streaks;
  clients = n;
  windows = w;
  lan = h.lan;
  tunnel = h.tunnel;
}

check_streak-Bounded :
    (client : ClientKey) (member : String) (now : ℕ) (s : Inner)
    → Bounded s
    → Bounded (check_streak client member now s).0
unfolding check_streak
check_streak-Bounded client member now s h = ground (
  arith,
  with_streaks-Bounded s (remove_by streak_eq (client, member) s.streaks),
  length-remove_by streak_eq (client, member) s.streaks,
  h.streaks,
  h,
)

-- A client's window, pruned or one instant longer, in place of its old one.
pub window_put-Bounded :
    (s : Inner) (client : ClientKey) (w : List ℕ) (m : List (ClientKey × List ℕ))
    → length (insert_by client_eq client w m) ≤ max_tracked
    → All (λ e. length e.1 ≤ client_window_failures) m
    → length w ≤ client_window_failures
    → Bounded s
    → Bounded (record s { clients = insert_by client_eq client w m })
window_put-Bounded s client w m n a k h =
    with_clients-Bounded s (insert_by client_eq client w m) n
      (All-insert_by client_eq (λ w. length w ≤ client_window_failures) client w m k a) h

pub window_bound :
    (s : Inner) (client : ClientKey)
    → Bounded s
    → Given (λ w. length w ≤ client_window_failures) (get_by client_eq client s.clients)
window_bound s client h =
    get_by-Given client_eq (λ w. length w ≤ client_window_failures) client s.clients h.windows

check_client-Bounded :
    (client : ClientKey) (now : ℕ) (s : Inner) → Bounded s → Bounded (check_client client now s).0
unfolding check_client
check_client-Bounded client now s h = elim (Option-cases (get_by client_eq client s.clients)) [
  | inl n ↦ rw (n, check_client) h
  | inr (w, g) ↦
      let p = prune w now client_window in
      let b : length w ≤ client_window_failures = rw g at (window_bound s client h) in
      let k : Bounded (record s { clients = insert_by client_eq client p s.clients }) =
        window_put-Bounded s client p s.clients
          (omega (arith, h.clients, rw g at (length-insert_by client_eq client p s.clients)))
          h.windows (omega (arith, b, length-prune w now client_window)) h in
      rw (g, check_client) (ground (arith, k))
]

then_check-Bounded :
    (a : Admission) (f : Inner → Admission)
    → Bounded a.0
    → ((s : Inner) → Bounded s → Bounded (f s).0)
    → Bounded (then_check a f).0
then_check-Bounded (s, ok u) f h g = g s h
then_check-Bounded (s, err w) f h g = h

spaced_origin-Bounded :
    (b : OriginBudget) (now : ℕ) (s : Inner) → Bounded s → Bounded (spaced_origin b now s).0
spaced_origin-Bounded b now s h = ground arith

check_origin-Bounded :
    (client : ClientKey) (now : ℕ) (s : Inner) → Bounded s → Bounded (check_origin client now s).0
unfolding check_origin
check_origin-Bounded client now s h =
    let old = budget_of client.origin s in
    let p = prune old.failures now engineer_window in
    let b : length p ≤ engineer_window_failures + 1 = omega (
      arith,
      (budget_of-BudgetBounded client.origin s h).failures,
      length-prune old.failures now engineer_window,
    ) in
    let budget : OriginBudget = record old { failures = p } in
    then_check-Bounded (spaced_origin budget now (put_budget client.origin budget s))
      (λ s'. (put_budget client.origin (record budget { last_admitted = some now }) s', ok tt))
      (spaced_origin-Bounded budget now (put_budget client.origin budget s)
        (put_budget-Bounded client.origin budget s (record { failures = b }) h))
      (λ s' h'.
        put_budget-Bounded client.origin (record budget { last_admitted = some now }) s'
          (record { failures = b }) h')

-- An admission check keeps the guard's tables and windows within their bounds.
pub check-Bounded :
    (client : ClientKey) (member : String) (now : ℕ) (s : Inner)
    → Bounded s
    → Bounded (check client member now s).0
unfolding check
check-Bounded client member now s h =
    then_check-Bounded (then_check (check_streak client member now s) (check_client client now))
      (check_origin client now)
      (then_check-Bounded (check_streak client member now s) (check_client client now)
        (check_streak-Bounded client member now s h) (check_client-Bounded client now))
      (check_origin-Bounded client now)
