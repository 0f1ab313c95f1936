-- ===== src/Server/LoginGuard/Streaks.antt =====
-- What a failed PIN check costs and a correct one forgives
-- (crates/iem-server/src/login_guard.rs, `record_failure`, `record_success`).
use Prim.Native.String.{String}
use iemmixer.Base.{ℕ, ◌≡◌, refl, inl, inr, List, [], ◌∷◌, none, get_by, remove_by, Bool-cases}
use iemmixer.Server.LoginGuard.{ClientKey, Streak, Inner, streak_eq, failures_after, record_success}

gone :
    (k : ClientKey × String) (m : List ((ClientKey × String) × Streak))
    → get_by streak_eq k (remove_by streak_eq k m) ≡ none
gone k [] = refl
gone k ((j, v) ∷ m) = elim (Bool-cases (streak_eq k j)) [
  | inl e ↦ rw e (gone k m)
  | inr e ↦ rw e (rw e (gone k m))
]

-- A correct PIN ends the streak: the next failure of that client and member counts as the first.
pub success_forgives :
    (client : ClientKey) (member : String) (now : ℕ) (s : Inner)
    → failures_after
        (get_by streak_eq (client, member) (record_success client member s).streaks)
        now
      ≡ 1
unfolding record_success
success_forgives client member now s = rw (gone (client, member) s.streaks) refl
