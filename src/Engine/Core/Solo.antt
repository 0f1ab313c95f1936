-- ===== src/Engine/Core/Solo.antt =====
-- What a solo silences (crates/iem-engine/src/core.rs, `set_solo`, `solo_out`).
use iemmixer.Base.{
  ℕ, ◌==◌, ==_iff, Bool, true, false, not, ◌&&◌, ◌||◌, ◌≡◌, refl, sym, subst, ◌∙◌, inl, inr, some,
  List, [], ◌∷◌, All, ok, err, Result, arith, if◌then◌else◌, Bool-cases, Option-cases, Result-cases,
  member, set_insert, member-set_insert, map_get, map_insert, map_remove, map_get-insert,
  map_get-remove, unwrap_or, ltb, length,
}
use iemmixer.Float.{Float}
use iemmixer.Proto.State.{MixId, Source, MixState}
use iemmixer.Proto.Msg.{Cmd, bad_value}
use iemmixer.Engine.Topology.{Topology, slot}
use iemmixer.Engine.Core.Defs.{
  Core, Partial, solo_out, silenced, mix_at, failure, max_solo, is_nil, ◌>>=◌,
}
use iemmixer.Engine.Core.Setters.{
  set_input, set_out, set_level, set_group, solo_slots, put_solo, set_solo, put_listen, put_stop,
  holds, list_eq,
}
use iemmixer.Engine.Core.Commands.{put_test, stop_test, import_state}
use iemmixer.Engine.Core.Apply.{apply}
use iemmixer.Engine.Core.Rules.{Rules}
use iemmixer.Engine.Core.Steps.{apply-Step}

-- Whether a source of the list stands in slot `k` of the mix.
abbrev pub named : Topology → ℕ → ℕ → List Source → Bool
named topo m k [] = false
named topo m k (s ∷ ss) = holds (slot topo m s) k || named topo m k ss

member-solo_slots :
    (topo : Topology) (m k : ℕ) (ss : List Source) (acc new : List ℕ)
    → solo_slots topo m ss acc ≡ ok new
    → member k new ≡ (member k acc || named topo m k ss)
unfolding solo_slots
member-solo_slots topo m k [] acc new h = ground (arith, h)
member-solo_slots topo m k (s ∷ ss) acc new h = elim (Option-cases (slot topo m s)) [
  | inl e ↦ absurd (cc (rw (e, solo_slots) at h))
  | inr (j, e) ↦ ground (
    arith,
    e,
    member-set_insert k j acc,
    member-solo_slots topo m k ss (set_insert j acc) new (rw (e, solo_slots) at h),
  )
]

held_insert :
    (m : ℕ) (new : List ℕ) (xs : List (ℕ × List ℕ))
    → is_nil new ≡ false
    → All (λ e. is_nil e.1 ≡ false) xs
    → All (λ e. is_nil e.1 ≡ false) (map_insert m new xs)
held_insert m new [] n h = (n, tt)
held_insert m new ((j, w) ∷ xs) n h = ground (arith, h, held_insert m new xs n h.1)

held_remove :
    (m : ℕ) (xs : List (ℕ × List ℕ))
    → All (λ e. is_nil e.1 ≡ false) xs
    → All (λ e. is_nil e.1 ≡ false) (map_remove m xs)
held_remove m [] h = h
held_remove m ((j, w) ∷ xs) h = ground (arith, h, held_remove m xs h.1)

list_eq_sound : (xs ys : List ℕ) → list_eq xs ys ≡ true → xs ≡ ys
list_eq_sound [] [] h = refl
list_eq_sound [] (y ∷ ys) h = cc
list_eq_sound (x ∷ xs) [] h = cc
list_eq_sound (x ∷ xs) (y ∷ ys) h = ground (arith, h, list_eq_sound xs ys)

held_get :
    (m : ℕ) (xs : List (ℕ × List ℕ)) (w : List ℕ)
    → All (λ e. is_nil e.1 ≡ false) xs
    → map_get m xs ≡ some w
    → is_nil w ≡ false
held_get m [] w h e = cc
held_get m ((j, v) ∷ xs) w h e = ground (arith, h, held_get m xs w h.1)

is_nil-set_insert : (k : ℕ) (xs : List ℕ) → is_nil (set_insert k xs) ≡ false
is_nil-set_insert k [] = refl
is_nil-set_insert k (x ∷ xs) = ground arith

is_nil-solo_slots :
    (topo : Topology) (m : ℕ) (ss : List Source) (acc new : List ℕ)
    → solo_slots topo m ss acc ≡ ok new
    → is_nil new ≡ (is_nil ss && is_nil acc)
unfolding solo_slots
is_nil-solo_slots topo m [] acc new h = ground (arith, h)
is_nil-solo_slots topo m (s ∷ ss) acc new h = elim (Option-cases (slot topo m s)) [
  | inl e ↦ absurd (cc (rw (e, solo_slots) at h))
  | inr (j, e) ↦ ground (
    arith,
    is_nil-set_insert j acc,
    is_nil-solo_slots topo m ss (set_insert j acc) new (rw (e, solo_slots) at h),
  )
]

passed {ℓ κ} :
    {E : Type κ} {A : Type ℓ} (b : Bool) (x : E) (r : Result E A) (a : A)
    → (if b then err x else r) ≡ ok a
    → r ≡ ok a
passed true x r a h = absurd (cc h)
passed false x r a h = h

module _ {F : Type 0} ⦃fl : Float F⦄ where
  -- A mix without a solo has no entry.
  pub record SolosHeld (c : Core F) : Type 0 where
    pub held : All (λ e. is_nil e.1 ≡ false) c.solo

  abbrev Kept : Core F → Core F → Type 0
  Kept c d = SolosHeld c → SolosHeld d

  same_solo : (c d : Core F) → d.solo ≡ c.solo → Kept c d
  same_solo c d e h = record { held = rw e h.held }

  put_solo-Kept :
      (mix : MixId) (m : ℕ) (new : List ℕ) (c : Core F) → Kept c (put_solo mix m new c).0
  unfolding put_solo
  put_solo-Kept mix m new c h = elim (Bool-cases (list_eq (unwrap_or (map_get m c.solo) []) new)) [
    | inl e ↦ rw (e, put_solo) h
    | inr e ↦ elim (Bool-cases (is_nil new)) [
      | inl n ↦ rw (e, put_solo, n) (record { held = held_remove m c.solo h.held })
      | inr n ↦ rw (e, put_solo, n) (record { held = held_insert m new c.solo n h.held })
    ]
  ]

  Kept-Rules : Rules (λ (c : Core F) r. Kept c r.0)
  unfolding set_input set_out set_level set_group put_listen put_stop put_test stop_test
  Kept-Rules = record {
    kept = λ c h. h;
    effect = λ c e n h. h;
    arm = λ c h. h;
    reset = λ c mix m h. h;
    input = λ c i new. same_solo c (set_input c i new).0 (ground arith);
    out = λ c m new. same_solo c (set_out c m new).0 (ground arith);
    level = λ c m k new. same_solo c (set_level c m k new).0 (ground arith);
    group = λ c m g new. same_solo c (set_group c m g new).0 (ground arith);
    solo = λ c mix m new e. put_solo-Kept mix m new c;
    listen = λ c m. same_solo c (put_listen m _ c).0 refl;
    stop = λ c m. same_solo c (put_stop m c).0 refl;
    test = λ c i signal mask l. same_solo c (put_test i signal mask l c).0 refl;
    stop_test = λ c. same_solo c (stop_test c).0 (ground arith);
  }

  import-Kept : (c : Core F) (state : MixState F) → Kept c (import_state state c).0
  unfolding import_state
  import-Kept c state = same_solo c (import_state state c).0 refl

  -- Where no solo of the core is empty, no request leaves an empty one behind, which would silence
  -- a whole mix.
  pub apply-SolosHeld : (cmd : Cmd F) (c : Core F) → SolosHeld c → SolosHeld (apply cmd c).0
  apply-SolosHeld =
      apply-Step Kept (λ c h. h) (λ c d e f g h. g (f h)) Kept-Rules import-Kept
        (λ c n. same_solo c (record c { rev = n }) refl)

  solo_unchanged :
      (m k : ℕ) (new : List ℕ) (c : Core F)
      → SolosHeld c
      → unwrap_or (map_get m c.solo) [] ≡ new
      → silenced k (map_get m c.solo) ≡ (not (is_nil new) && not (member k new))
  solo_unchanged m k new c h e = elim (Option-cases (map_get m c.solo)) [
    | inl n ↦ rw n (subst (λ w. false ≡ (not (is_nil w) && not (member k w))) (rw n at e) refl)
    | inr (w, q) ↦ rw q (
        subst (λ v. not (member k w) ≡ (not (is_nil v) && not (member k v))) (rw q at e)
          (rw (held_get m c.solo w h.held q) refl))
  ]

  solo_put :
      (mix : MixId) (m : ℕ) (new : List ℕ) (c : Core F) (n k : ℕ)
      → SolosHeld c
      → solo_out (put_solo mix m new c).0 n k
        ≡ (if n == m then not (is_nil new) && not (member k new) else solo_out c n k)
  unfolding put_solo solo_out
  solo_put mix m new c n k h = elim (Bool-cases (list_eq (unwrap_or (map_get m c.solo) []) new)) [
    | inl e ↦
        let u = solo_unchanged m k new c h (list_eq_sound _ new e) in
        elim (Bool-cases (n == m)) [
          | inr d ↦ rw (e, put_solo, solo_out, d) refl
          | inl d ↦
              let q : m ≡ n = sym ((==_iff n m).0 d) in
              rw (e, put_solo, solo_out, d)
                (subst
                  (λ n. silenced k (map_get n c.solo) ≡ (not (is_nil new) && not (member k new))) q
                  u)
        ]
    | inr e ↦ elim (Bool-cases (is_nil new)) [
      | inl z ↦ rw (e, put_solo, solo_out, z, map_get-remove n m c.solo) (ground arith)
      | inr z ↦ rw (e, put_solo, solo_out, z, map_get-insert n m new c.solo) (ground arith)
    ]
  ]

  -- What an admitted solo command leaves to hear, where no solo of the core is empty: in its mix
  -- every source that it does not name is silenced, unless it names none and ends the solo; the
  -- other mixes' solos stay as they were.
  pub set_solo_silences :
      (mix : MixId) (sources : List Source) (c : Core F) (m : ℕ) (p : Partial F)
      → SolosHeld c
      → mix_at c mix ≡ ok m
      → (set_solo mix sources c).1 ≡ ok p
      → (n k : ℕ)
      → solo_out (set_solo mix sources c).0 n k ≡ (
          if n == m then not (is_nil sources) && not (named c.topo m k sources) else solo_out c n k)
  unfolding set_solo
  set_solo_silences mix sources c m p h em e n k =
      elim (Result-cases (
        if ltb max_solo (length sources)
        then failure bad_value
        else solo_slots c.topo m sources [])) [
          | inr (x, en) ↦ absurd (cc (rw (em, set_solo, ◌>>=◌, en) at e))
          | inl (new, en) ↦
              let q =
                passed (ltb max_solo (length sources)) _ (solo_slots c.topo m sources []) new en in
              rw (em, set_solo, ◌>>=◌, en)
                (solo_put mix m new c n k h
                  ∙ ground (
                    arith,
                    member-solo_slots c.topo m k sources [] new q,
                    is_nil-solo_slots c.topo m sources [] new q,
                  ))
        ]
