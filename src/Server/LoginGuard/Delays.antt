-- ===== src/Server/LoginGuard/Delays.antt =====
-- How long a client waits (crates/iem-server/src/login_guard.rs, `streak_delay`, `check`).
use Prim.Native.String.{String}
use iemmixer.Base.{
  ℕ, zero, suc, ◌+◌, ◌*◌, ◌-◌, subst, ◌≤◌, ◌<◌, min, ◌≡◌, refl, inl, inr, ok, err, arith,
  Bool-cases, Option-cases, leb, get_by,
}
use iemmixer.Server.LoginGuard.{
  ClientKey, Inner, Admission, then_check, spaced, secs, free_failures, max_delay, streak_delay,
  check, check_streak, check_client, check_origin, since, streak_eq, streak_decay,
}

exponent_step :
    (e : ℕ)
    → streak_delay (suc (free_failures + e)) ≡ min (2 * streak_delay (free_failures + e)) max_delay
unfolding streak_delay
exponent_step zero = refl
exponent_step (suc zero) = refl
exponent_step (suc (suc zero)) = refl
exponent_step (suc (suc (suc zero))) = refl
exponent_step (suc (suc (suc (suc zero)))) = refl
exponent_step (suc (suc (suc (suc (suc zero))))) = refl
exponent_step (suc (suc (suc (suc (suc (suc e)))))) = ground arith

-- Fewer than three failures in a row cost nothing, the third costs a second, and each further one
-- doubles the delay up to a minute.
pub streak_delay_lem :
    (n : ℕ)
    → (n < free_failures → streak_delay n ≡ 0)
      × (streak_delay free_failures ≡ secs 1)
      × (free_failures ≤ n → streak_delay (suc n) ≡ min (2 * streak_delay n) max_delay)
unfolding streak_delay
streak_delay_lem n = (
  λ h. ground arith,
  refl,
  λ h.
      let e : free_failures + (n - free_failures) ≡ n = omega arith in
      subst (λ k. streak_delay (suc k) ≡ min (2 * streak_delay k) max_delay) e
        (exponent_step (n - free_failures)),
)

pub streak_delay_bounded : (n : ℕ) → streak_delay n ≤ max_delay
unfolding streak_delay
streak_delay_bounded n = ground arith

-- What a refusal tells to wait.
abbrev Waits : Admission → Type 0
Waits a = (wait : ℕ) → a.1 ≡ err wait → (0 < wait) × (wait ≤ max_delay)

spaced-Waits : (s : Inner) (t span : ℕ) → span ≤ max_delay → Waits (spaced s t span)
spaced-Waits s t span h wait e = ground arith

then_check-Waits :
    (a : Admission) (f : Inner → Admission)
    → Waits a
    → ((s : Inner) → Waits (f s))
    → Waits (then_check a f)
then_check-Waits (s, ok u) f h g wait e = g s wait e
then_check-Waits (s, err w) f h g wait e = h wait e

check_streak-Waits :
    (client : ClientKey) (member : String) (now : ℕ) (s : Inner)
    → Waits (check_streak client member now s)
unfolding check_streak
check_streak-Waits client member now s =
    elim (Option-cases (get_by streak_eq (client, member) s.streaks)) [
      | inl n ↦ rw (n, check_streak) (λ wait e. cc)
      | inr (streak, f) ↦ elim (Bool-cases (leb streak_decay (since now streak.last_failure))) [
        | inl d ↦ rw (f, check_streak, d) (λ wait e. cc)
        | inr d ↦
            rw (f, check_streak, d)
              (spaced-Waits s (since now streak.last_failure) (streak_delay streak.failures)
                (streak_delay_bounded streak.failures))
      ]
    ]

check_client-Waits : (client : ClientKey) (now : ℕ) (s : Inner) → Waits (check_client client now s)
unfolding check_client
check_client-Waits client now s wait e = ground arith

check_origin-Waits : (client : ClientKey) (now : ℕ) (s : Inner) → Waits (check_origin client now s)
unfolding check_origin
check_origin-Waits client now s wait e = ground arith

-- A refused login is told to wait for some time, and never for more than a minute.
pub check_wait_bounded :
    (client : ClientKey) (member : String) (now : ℕ) (s : Inner) (wait : ℕ)
    → (check client member now s).1 ≡ err wait
    → (0 < wait) × (wait ≤ max_delay)
unfolding check
check_wait_bounded client member now s =
    then_check-Waits (then_check (check_streak client member now s) (check_client client now))
      (check_origin client now)
      (then_check-Waits (check_streak client member now s) (check_client client now)
        (check_streak-Waits client member now s) (check_client-Waits client now))
      (check_origin-Waits client now)
