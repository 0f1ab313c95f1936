-- ===== src/Engine/Control/Loop/Saving.antt =====
-- When the state is saved (crates/iem-engine/src/persist.rs, `SaveSchedule`): a second after the last
-- change, and five after the first at the latest.
use iemmixer.Base.{ℕ, ◌+◌, ◌≤◌, ◌≡◌, refl, ◌⊎◌, ◌↔◌, true, some, List, [], ◌∷◌, arith}
use iemmixer.Engine.Control.Loop.{SaveSchedule, no_save, changed, save_due}

-- The schedule after changes at these times, and the last of them.
abbrev pub after : List ℕ → SaveSchedule → SaveSchedule
after [] s = s
after (t ∷ ts) s = after ts (changed t s)

abbrev pub latest : ℕ → List ℕ → ℕ
latest t [] = t
latest t (u ∷ ts) = latest u ts

after_changes :
    (first last : ℕ) (ts : List ℕ)
    → after ts (record { first = some first; last = some last })
      ≡ record { first = some first; last = some (latest last ts) }
unfolding changed
after_changes first last [] = refl
after_changes first last (t ∷ ts) = after_changes first t ts

-- After changes at `t` and then at the times `ts`, with no save since, a save is due exactly from a
-- second after the last change on, or from five seconds after the first on.
pub save_due_exact :
    (t : ℕ) (ts : List ℕ) (now : ℕ)
    → (save_due now (after (t ∷ ts) no_save) ≡ true)
      ↔ ((latest t ts + 1000000000 ≤ now) ⊎ (t + 5000000000 ≤ now))
unfolding changed save_due
save_due_exact t ts now = rw (after_changes t t ts) (λ h. ground (arith, h), λ h. ground (arith, h))
