-- ===== src/Server/LoginGuard/Admission.antt =====
-- Nobody is locked out (crates/iem-server/src/login_guard.rs, "every delay ≤ 60 s").
use Prim.Native.String.{String}
use iemmixer.Base.{
  ℕ, ◌+◌, ◌≤◌, ◌≡◌, refl, inl, inr, false, List, [], ◌∷◌, All, arith, ltb, leb, get_last?, ok, err,
  get_by, insert_by, Given, Bool-cases, Option-cases, get_by-Given, All-remove_by, All-insert_by,
}
use iemmixer.Server.LoginGuard.{
  ClientKey, Origin, lan, tunnel, Streak, Inner, client_eq, streak_eq, prune, since, secs, check,
  check_streak, check_client, check_origin, budget_of, Admission, then_check, max_delay,
  streak_delay, streak_decay, client_window, client_spacing,
}
use iemmixer.Server.LoginGuard.Delays.{streak_delay_bounded}

-- Nothing that the guard remembers is later than `t`.
pub record Before (t : ℕ) (s : Inner) : Type 0 where
  pub streaks : All (λ e. e.1.last_failure ≤ t) s.streaks
  pub windows : All (λ e. All (λ x. x ≤ t) e.1) s.clients
  pub lan : Given (λ x. x ≤ t) s.lan_budget.last_admitted
  pub tunnel : Given (λ x. x ≤ t) s.tunnel_budget.last_admitted

prune-All : (P : ℕ → Type 0) (w : List ℕ) (now span : ℕ) → All P w → All P (prune w now span)
unfolding prune
prune-All P [] now span h = h
prune-All P (x ∷ w) now span h = elim (Bool-cases (leb span (since now x))) [
  | inl e ↦ rw (e, prune) (prune-All P w now span h.1)
  | inr e ↦ rw (e, prune) h
]

get_last?-Given : (P : ℕ → Type 0) (w : List ℕ) → All P w → Given P (get_last? w)
get_last?-Given P [] h = tt
get_last?-Given P (x ∷ []) h = h.0
get_last?-Given P (x ∷ y ∷ w) h = get_last?-Given P (y ∷ w) h.1

-- An admission that leaves the memory before `t`.
abbrev Admits : ℕ → Admission → Type 0
Admits t a = (a.1 ≡ ok tt) × Before t a.0

then_check_admitted :
    (t : ℕ) (a : Admission) (f : Inner → Admission)
    → Admits t a
    → ((s : Inner) → Before t s → (f s).1 ≡ ok tt)
    → (then_check a f).1 ≡ ok tt
then_check_admitted t (s, ok u) f h g = g s h.1
then_check_admitted t (s, err w) f h g = cc (h.0)

then_check-Admits :
    (t : ℕ) (a : Admission) (f : Inner → Admission)
    → Admits t a
    → ((s : Inner) → Before t s → Admits t (f s))
    → Admits t (then_check a f)
then_check-Admits t (s, ok u) f h g = g s h.1
then_check-Admits t (s, err w) f h g = absurd (cc h.0)

module _ (t now : ℕ) (later : t + max_delay ≤ now) where
  check_streak-Admits :
      (client : ClientKey) (member : String) (s : Inner)
      → Before t s
      → Admits t (check_streak client member now s)
  unfolding check_streak
  check_streak-Admits client member s h =
      elim (Option-cases (get_by streak_eq (client, member) s.streaks)) [
        | inl n ↦ rw (n, check_streak) (refl, h)
        | inr (streak, f) ↦
            let b : streak.last_failure ≤ t = rw f at (
              get_by-Given streak_eq (λ (x : Streak). x.last_failure ≤ t) (client, member) s.streaks
                h.streaks) in
            elim (Bool-cases (leb streak_decay (since now streak.last_failure))) [
              | inl d ↦
                  rw (f, check_streak, d)
                    (
                      refl,
                      record {
                        streaks =
                            All-remove_by streak_eq (λ (x : Streak). x.last_failure ≤ t)
                              (client, member) s.streaks h.streaks;
                        windows = h.windows;
                        lan = h.lan;
                        tunnel = h.tunnel;
                      },
                    )
              | inr d ↦
                  let n : ltb (since now streak.last_failure) (streak_delay streak.failures)
                      ≡ false =
                    ground (arith, streak_delay_bounded streak.failures, b, later) in
                  rw (f, check_streak, d, n) (refl, h)
            ]
      ]

  check_client-Admits :
      (client : ClientKey) (s : Inner) → Before t s → Admits t (check_client client now s)
  unfolding check_client
  check_client-Admits client s h = elim (Option-cases (get_by client_eq client s.clients)) [
    | inl n ↦ rw (n, check_client) (refl, h)
    | inr (w, f) ↦
        let p = prune w now client_window in
        let a : All (λ x. x ≤ t) p =
          prune-All (λ x. x ≤ t) w now client_window
            (rw f at
              (get_by-Given client_eq (λ w. All (λ x. x ≤ t) w) client s.clients h.windows)) in
        let k : Before t (record s { clients = insert_by client_eq client p s.clients }) = record {
          streaks = h.streaks;
          windows =
              All-insert_by client_eq (λ w. All (λ x. x ≤ t) w) client p s.clients a h.windows;
          lan = h.lan;
          tunnel = h.tunnel;
        } in
        elim (Option-cases (get_last? p)) [
          | inl n ↦ rw (f, check_client, n) (ground (arith, k))
          | inr (last, q) ↦
              let b : last ≤ t = rw q at (get_last?-Given (λ x. x ≤ t) p a) in
              let n : ltb (since now last) client_spacing ≡ false = ground (arith, b, later) in
              rw (f, check_client, q, n) (ground (arith, k))
        ]
  ]

  budget_of-Given :
      (o : Origin) (s : Inner) → Before t s → Given (λ x. x ≤ t) (budget_of o s).last_admitted
  budget_of-Given lan s h = h.lan
  budget_of-Given tunnel s h = h.tunnel

  check_origin_admitted :
      (client : ClientKey) (s : Inner) → Before t s → (check_origin client now s).1 ≡ ok tt
  unfolding check_origin
  check_origin_admitted client s h = elim (Option-cases (budget_of client.origin s).last_admitted) [
    | inl n ↦ rw (n, check_origin) (ground arith)
    | inr (last, q) ↦
        let b : last ≤ t = rw q at (budget_of-Given client.origin s h) in
        let n : ltb (since now last) (secs 5) ≡ false = ground (arith, b, later) in
        rw (q, check_origin) (ground (arith, n))
  ]

  -- Nobody is locked out: a login a minute or more after everything that the guard remembers is
  -- admitted, however many failures came before.
  pub check_no_lockout :
      (client : ClientKey) (member : String) (s : Inner)
      → Before t s
      → (check client member now s).1 ≡ ok tt
  unfolding check
  check_no_lockout client member s h =
      then_check_admitted t
        (then_check (check_streak client member now s) (check_client client now))
        (check_origin client now)
        (then_check-Admits t (check_streak client member now s) (check_client client now)
          (check_streak-Admits client member s h) (check_client-Admits client))
        (check_origin_admitted client)
