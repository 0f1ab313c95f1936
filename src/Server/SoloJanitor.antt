-- ===== src/Server/SoloJanitor.antt =====
-- The clean-up of solos (crates/iem-server/src/solo.rs): a mix's solo is cleared ten seconds after
-- the last page connection on it closed. The clock is a number of nanoseconds.
use Prim.Native.String.{String, compare}
use Prim.Native.Nat.{Ordering}
use iemmixer.Base.{
  ℕ, ◌+◌, ◌-◌, ◌==◌, Option, none, some, List, [], ◌∷◌, if◌then◌else◌, leb, lookup, insert, remove,
  unwrap_or,
}
pub mod Clearing
pub mod Once
pub mod Pages

abbrev pub solo_grace : ℕ
solo_grace = 10000000000

pub record Janitor : Type 0 where
  pub opened : List (String × ℕ)
  pub left : List (String × ℕ)

-- A page connection on a mix opened.
unfoldable pub connected : String → Janitor → Janitor
connected mix s = record {
  opened = insert mix (unwrap_or (lookup mix s.opened) 0 + 1) s.opened;
  left = remove mix s.left;
}

abbrev pub count_down : String → ℕ → ℕ → Janitor → Janitor
count_down mix n now s =
    if n == 0
    then record { opened = remove mix s.opened; left = insert mix now s.left }
    else record s { opened = insert mix n s.opened }

-- A page connection on a mix closed.
unfoldable pub disconnected : String → ℕ → Janitor → Janitor
disconnected mix now s = elim (lookup mix s.opened) [
  | none ↦ s
  | some n ↦ count_down mix (n - 1) now s
]

-- The mixes left for the grace or longer.
abbrev pub overdue : ℕ → List (String × ℕ) → List String
overdue now [] = []
overdue now ((m, t) ∷ left) =
    let rest = overdue now left in if leb solo_grace (now - t) then m ∷ rest else rest

-- `sort`.
abbrev pub placed : Ordering → List String → List String → List String
placed Ordering.gt before after = after
placed _ before after = before

abbrev pub insert_sorted : String → List String → List String
insert_sorted m [] = m ∷ []
insert_sorted m (n ∷ ns) =
    let rest = insert_sorted m ns in placed (compare m n) (m ∷ n ∷ ns) (n ∷ rest)

abbrev pub sort : List String → List String
sort [] = []
sort (m ∷ ms) = insert_sorted m (sort ms)

abbrev pub remove_all : List String → List (String × ℕ) → List (String × ℕ)
remove_all [] left = left
remove_all (m ∷ ms) left = remove_all ms (remove m left)

-- The mixes whose solo must be cleared now.
unfoldable pub due : ℕ → Janitor → Janitor × List String
due now s =
    let mixes = sort (overdue now s.left) in (record s { left = remove_all mixes s.left }, mixes)
