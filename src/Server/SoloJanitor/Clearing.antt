-- ===== src/Server/SoloJanitor/Clearing.antt =====
-- The mixes that wait for the end of their solo are none with open connections
-- (crates/iem-server/src/solo.rs).
use Prim.Native.String.{String, compare}
use Prim.Native.Nat.{Ordering}
use iemmixer.Base.{
  ℕ, ◌+◌, ◌-◌, ◌==◌, false, ◌≡◌, refl, sym, ap, ◌∙◌, inl, inr, none, some, List, [], ◌∷◌, All,
  arith, leb, lookup, insert, remove, same, same_iff, unwrap_or, lookup-insert, lookup-remove,
  Bool-cases, Option-cases,
}
use iemmixer.Server.SoloJanitor.{
  Janitor, solo_grace, connected, disconnected, overdue, insert_sorted, placed, sort, remove_all,
  due,
}

-- A mix that waits for its solo's end has no open connection.
pub record Idle (s : Janitor) : Type 0 where
  pub closed : All (λ e. lookup e.0 s.opened ≡ none) s.left

pub All-remove :
    (P Q : String × ℕ → Type 0) (k : String) (m : List (String × ℕ))
    → ((e : String × ℕ) → P e → same e.0 k ≡ false → Q e)
    → All P m
    → All Q (remove k m)
All-remove P Q k [] f h = tt
All-remove P Q k ((j, v) ∷ m) f h = elim (Bool-cases (same j k)) [
  | inl e ↦ rw e (All-remove P Q k m f h.1)
  | inr e ↦ rw e (f (j, v) h.0 e, All-remove P Q k m f h.1)
]

pub All-weaken :
    (P Q : String × ℕ → Type 0) (m : List (String × ℕ))
    → ((e : String × ℕ) → P e → Q e)
    → All P m
    → All Q m
All-weaken P Q [] f h = tt
All-weaken P Q (x ∷ m) f h = (f x h.0, All-weaken P Q m f h.1)

All-insert :
    (P Q : String × ℕ → Type 0) (k : String) (v : ℕ) (m : List (String × ℕ))
    → ((e : String × ℕ) → P e → Q e)
    → Q (k, v)
    → All P m
    → All Q (insert k v m)
All-insert P Q k v [] f q h = (q, tt)
All-insert P Q k v ((j, w) ∷ m) f q h = elim (Bool-cases (same j k)) [
  | inl e ↦ rw e (q, All-weaken P Q m f h.1)
  | inr e ↦ rw e (f (j, w) h.0, All-insert P Q k v m f q h.1)
]

-- The mix is no key of the entry: the open connections of the entry's mix stay as they are.
other_insert :
    (mix : String) (n : ℕ) (m : List (String × ℕ)) (e : String × ℕ)
    → lookup e.0 m ≡ none
    → same e.0 mix ≡ false
    → lookup e.0 (insert mix n m) ≡ none
other_insert mix n m e h d =
    ground (arith, lookup-insert mix e.0 n m, same_iff mix e.0, same_iff e.0 mix)

other_remove :
    (mix : String) (m : List (String × ℕ)) (e : String × ℕ)
    → lookup e.0 m ≡ none
    → lookup e.0 (remove mix m) ≡ none
other_remove mix m e h = ground (arith, lookup-remove mix e.0 m)

pub connected-Idle : (mix : String) (s : Janitor) → Idle s → Idle (connected mix s)
unfolding connected
connected-Idle mix s h = record {
  closed =
      All-remove (λ e. lookup e.0 s.opened ≡ none)
        (λ e. lookup e.0 (insert mix (unwrap_or (lookup mix s.opened) 0 + 1) s.opened) ≡ none) mix
        s.left (λ e. other_insert mix _ s.opened e) h.closed;
}

-- A mix with an open connection does not wait.
open_differs :
    (mix : String) (n : ℕ) (m : List (String × ℕ)) (e : String × ℕ)
    → lookup mix m ≡ some n
    → lookup e.0 m ≡ none
    → same e.0 mix ≡ false
open_differs mix n m e f h = elim (Bool-cases (same e.0 mix)) [
  | inr d ↦ d
  | inl d ↦ absurd (cc (sym h ∙ (ap (λ k. lookup k m) ((same_iff e.0 mix).0 d) ∙ f)))
]

pub disconnected-Idle :
    (mix : String) (now : ℕ) (s : Janitor) → Idle s → Idle (disconnected mix now s)
unfolding disconnected
disconnected-Idle mix now s h = elim (Option-cases (lookup mix s.opened)) [
  | inl e ↦ rw (e, disconnected) h
  | inr (n, e) ↦ elim (Bool-cases ((n - 1) == 0)) [
    | inl z ↦
        rw (e, disconnected, z)
          (record {
            closed =
                All-insert (λ e. lookup e.0 s.opened ≡ none)
                  (λ e. lookup e.0 (remove mix s.opened) ≡ none) mix now s.left
                  (other_remove mix s.opened)
                  (ground (arith, lookup-remove mix mix s.opened, (same_iff mix mix).1 refl))
                  h.closed;
          })
    | inr z ↦
        rw (e, disconnected, z)
          (record {
            closed =
                All-weaken (λ e. lookup e.0 s.opened ≡ none)
                  (λ e. lookup e.0 (insert mix (n - 1) s.opened) ≡ none) s.left
                  (λ x g. other_insert mix (n - 1) s.opened x g (open_differs mix n s.opened x e g))
                  h.closed;
          })
  ]
]

remove_all-All :
    (P : String × ℕ → Type 0) (ms : List String) (m : List (String × ℕ))
    → All P m
    → All P (remove_all ms m)
remove_all-All P [] m h = h
remove_all-All P (k ∷ ms) m h = remove_all-All P ms (remove k m) (All-remove P P k m (λ e p d. p) h)

pub due-Idle : (now : ℕ) (s : Janitor) → Idle s → Idle (due now s).0
unfolding due
due-Idle now s h = record {
  closed =
      remove_all-All (λ e. lookup e.0 s.opened ≡ none) (sort (overdue now s.left)) s.left h.closed;
}

pub placed_either :
    (P : List String → Type 0) (o : Ordering) (xs ys : List String)
    → P xs
    → P ys
    → P (placed o xs ys)
placed_either P Ordering.lt xs ys p q = p
placed_either P Ordering.eq xs ys p q = p
placed_either P Ordering.gt xs ys p q = q

-- What a mix that is cleared has to satisfy, seen on the texts.
insert_sorted-All :
    (P : String → Type 0) (m : String) (ms : List String)
    → P m
    → All P ms
    → All P (insert_sorted m ms)
insert_sorted-All P m [] p h = (p, tt)
insert_sorted-All P m (n ∷ ns) p h =
    placed_either (All P) (compare m n) (m ∷ n ∷ ns) (n ∷ insert_sorted m ns) (p, h)
      (h.0, insert_sorted-All P m ns p h.1)

pub sort-All : (P : String → Type 0) (ms : List String) → All P ms → All P (sort ms)
sort-All P [] h = tt
sort-All P (m ∷ ms) h = insert_sorted-All P m (sort ms) h.0 (sort-All P ms h.1)

pub overdue-All :
    (P : String → Type 0) (now : ℕ) (left : List (String × ℕ))
    → All (λ e. P e.0) left
    → All P (overdue now left)
overdue-All P now [] h = tt
overdue-All P now ((m, t) ∷ left) h = elim (Bool-cases (leb solo_grace (now - t))) [
  | inl e ↦ rw e (h.0, overdue-All P now left h.1)
  | inr e ↦ rw e (overdue-All P now left h.1)
]
