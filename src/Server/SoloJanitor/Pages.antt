-- ===== src/Server/SoloJanitor/Pages.antt =====
-- The janitor against the pages themselves (crates/iem-server/src/solo.rs): it is told of every page
-- that opens or closes, and asked now and then what is due.
use Prim.Native.String.{String}
use iemmixer.Base.{
  ℕ, ◌+◌, ◌-◌, ◌==◌, ◌≡◌, refl, ap, true, inl, inr, Option, none, some, List, [], ◌∷◌, All, arith,
  if◌then◌else◌, lookup, same, same_iff, unwrap_or, lookup-insert, lookup-remove, Bool-cases,
  Option-cases,
}
use iemmixer.Server.SoloJanitor.{Janitor, connected, disconnected, overdue, due}
use iemmixer.Server.SoloJanitor.Clearing.{
  Idle, connected-Idle, disconnected-Idle, due-Idle, All-weaken, sort-All, overdue-All,
}

pub data Event : Type 0 where
  opening : String → Event
  closing : String → ℕ → Event
  clearing : ℕ → Event

-- A new janitor after these events, the last of them first.
unfoldable pub after : List Event → Janitor
after [] = record { opened = []; left = [] }
after (opening mix ∷ events) = connected mix (after events)
after (closing mix now ∷ events) = disconnected mix now (after events)
after (clearing now ∷ events) = (due now (after events)).0

-- How many pages are open on a mix, by the events alone. A close with no page open counts nothing.
abbrev pub pages : String → List Event → ℕ
pages k [] = 0
pages k (opening mix ∷ events) = let n = pages k events in if same mix k then n + 1 else n
pages k (closing mix now ∷ events) = let n = pages k events in if same mix k then n - 1 else n
pages k (clearing now ∷ events) = pages k events

abbrev counted : ℕ → Option ℕ
counted n = if n == 0 then none else some n

pages_same :
    (mix k : String) (events : List Event) → same mix k ≡ true → pages mix events ≡ pages k events
pages_same mix k events e = ap (λ m. pages m events) ((same_iff mix k).0 e)

-- The janitor has counted a mix's pages, and keeps no entry where there are none.
after-counted :
    (k : String) (events : List Event) → lookup k (after events).opened ≡ counted (pages k events)
unfolding after connected disconnected due
after-counted k [] = refl
after-counted k (opening mix ∷ events) =
    let s = after events in
    let put = lookup-insert mix k (unwrap_or (lookup mix s.opened) 0 + 1) s.opened in
    elim (Bool-cases (same mix k)) [
      | inl e ↦ rw (put, e) (ground (arith, after-counted mix events, pages_same mix k events e))
      | inr e ↦ rw (put, e) (after-counted k events)
    ]
after-counted k (closing mix now ∷ events) =
    let s = after events in
    let gone = lookup-remove mix k s.opened in
    let one = after-counted mix events in
    let other = after-counted k events in
    let same = pages_same mix k events in
    elim (Option-cases (lookup mix s.opened)) [
      | inl e ↦ rw (e, disconnected) (ground (arith, e, one, other, same))
      | inr (n, e) ↦
          let put = lookup-insert mix k (n - 1) s.opened in
          elim (Bool-cases ((n - 1) == 0)) [
            | inl z ↦ rw (e, disconnected, z) (ground (arith, e, z, one, other, gone, same))
            | inr z ↦ rw (e, disconnected, z) (ground (arith, e, z, one, other, put, same))
          ]
    ]
after-counted k (clearing now ∷ events) = after-counted k events

after-Idle : (events : List Event) → Idle (after events)
unfolding after
after-Idle [] = record { closed = tt }
after-Idle (opening mix ∷ events) = connected-Idle mix (after events) (after-Idle events)
after-Idle (closing mix now ∷ events) = disconnected-Idle mix now (after events) (after-Idle events)
after-Idle (clearing now ∷ events) = due-Idle now (after events) (after-Idle events)

-- Whatever pages opened and closed before, and whenever solos were cleared, a solo is cleared only on
-- a mix that no page is open on.
pub due_closed :
    (now : ℕ) (events : List Event) → All (λ mix. pages mix events ≡ 0) (due now (after events)).1
unfolding due
due_closed now events =
    let left = (after events).left in
    sort-All (λ m. pages m events ≡ 0) (overdue now left)
      (overdue-All (λ m. pages m events ≡ 0) now left
        (All-weaken (λ e. lookup e.0 (after events).opened ≡ none) (λ e. pages e.0 events ≡ 0) left
          (λ e h. ground (arith, h, after-counted e.0 events)) (after-Idle events).closed))
