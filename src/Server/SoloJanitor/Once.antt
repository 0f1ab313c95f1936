-- ===== src/Server/SoloJanitor/Once.antt =====
-- How often a solo is cleared (crates/iem-server/src/solo.rs).
use Prim.Native.String.{String, compare}
use iemmixer.Base.{
  ℕ, ◌-◌, true, false, ◌≡◌, refl, sym, ap, subst, inl, inr, ◌⊎◌, List, [], ◌∷◌, All, arith, leb,
  remove, contains, same, same_iff, Bool-cases, ◌||◌,
}
use iemmixer.Server.SoloJanitor.{Janitor, solo_grace, overdue, insert_sorted, sort, remove_all, due}
use iemmixer.Server.SoloJanitor.Clearing.{All-weaken, All-remove, placed_either}

contains-insert_sorted :
    (m k : String) (ms : List String)
    → contains (insert_sorted m ms) k ≡ (same m k || contains ms k)
contains-insert_sorted m k [] = refl
contains-insert_sorted m k (n ∷ ns) =
    placed_either (λ xs. contains xs k ≡ (same m k || contains (n ∷ ns) k)) (compare m n)
      (m ∷ n ∷ ns) (n ∷ insert_sorted m ns) refl (ground (arith, contains-insert_sorted m k ns))

contains-sort : (k : String) (ms : List String) → contains (sort ms) k ≡ contains ms k
contains-sort k [] = refl
contains-sort k (m ∷ ms) = ground (arith, contains-insert_sorted m k (sort ms), contains-sort k ms)

-- An entry that is cleared or does not wait long enough yet.
abbrev Settled : ℕ → List String → String × ℕ → Type 0
Settled now ms e = (contains ms e.0 ≡ true) ⊎ (leb solo_grace (now - e.1) ≡ false)

overdue-Settled : (now : ℕ) (left : List (String × ℕ)) → All (Settled now (overdue now left)) left
overdue-Settled now [] = tt
overdue-Settled now ((m, t) ∷ left) = elim (Bool-cases (leb solo_grace (now - t))) [
  | inl e ↦
      let q : overdue now ((m, t) ∷ left) ≡ m ∷ overdue now left = rw e refl in
      subst (λ ms. All (Settled now ms) ((m, t) ∷ left)) (sym q)
        (
          inl (ground (arith, (same_iff m m).1 refl)),
          All-weaken (Settled now (overdue now left)) (Settled now (m ∷ overdue now left)) left
              (λ x h. ground (arith, h)) (overdue-Settled now left),
        )
  | inr e ↦
      let q : overdue now ((m, t) ∷ left) ≡ overdue now left = rw e refl in
      subst (λ ms. All (Settled now ms) ((m, t) ∷ left)) (sym q) (inr e, overdue-Settled now left)
]

remove_all-Settled :
    (now : ℕ) (ms : List String) (left : List (String × ℕ))
    → All (Settled now ms) left
    → All (λ e. leb solo_grace (now - e.1) ≡ false) (remove_all ms left)
remove_all-Settled now [] left h =
    All-weaken (Settled now []) (λ e. leb solo_grace (now - e.1) ≡ false) left
      (λ e s. ground (arith, s)) h
remove_all-Settled now (k ∷ ms) left h = remove_all-Settled now ms (remove k left) (
    All-remove (Settled now (k ∷ ms)) (Settled now ms) k left
      (λ e s d. ground (arith, s, same_iff k e.0, same_iff e.0 k)) h)

waiting_none :
    (now : ℕ) (left : List (String × ℕ))
    → All (λ e. leb solo_grace (now - e.1) ≡ false) left
    → overdue now left ≡ []
waiting_none now [] h = refl
waiting_none now ((m, t) ∷ left) h = rw h.0 (waiting_none now left h.1)

-- A mix is cleared once: after `due` no mix is left that waited for the grace, so `due` at the same
-- time names none.
pub due_once :
    (now : ℕ) (s : Janitor)
    → All (λ e. leb solo_grace (now - e.1) ≡ false) (due now s).0.left
      × ((due now (due now s).0).1 ≡ [])
unfolding due
due_once now s =
    let a = remove_all-Settled now (sort (overdue now s.left)) s.left (
      All-weaken (Settled now (overdue now s.left)) (Settled now (sort (overdue now s.left))) s.left
        (λ e h. ground (arith, h, contains-sort e.0 (overdue now s.left)))
        (overdue-Settled now s.left)) in
    (a, ap sort (waiting_none now (remove_all (sort (overdue now s.left)) s.left) a))
