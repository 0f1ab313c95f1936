-- ===== src/Engine/Control/Loop/Authority.antt =====
-- Who and what changes the mix over the control loop (crates/iem-engine/src/control/requests.rs,
-- `frame`; control.rs, `tick`).
use iemmixer.Base.{
  ℕ, ◌-◌, ◌≤◌, ◌≡◌, ◌≢◌, refl, sym, ap, ◌∙◌, subst, inl, inr, true, Option, none, some, List, [],
  ◌∷◌, arith, leb, ◌==◌, map, member, is_some, map_get, map_remove, All, Result, ok, err,
  Bool-cases, Option-cases,
}
use iemmixer.Float.{Float}
use iemmixer.Proto.Msg.{Role, control, observe, supervisor, Cmd, CmdError}
use iemmixer.Engine.Core.{
  Core, Partial, Outcome, no_change, apply, finish, clear_from, clear_solos, end_test_signal,
}
use iemmixer.Engine.Core.Roles.{SameMix}
use iemmixer.Engine.Control.{refusal, request}
use iemmixer.Engine.Control.Admission.{only_controller_changes_mix}
use iemmixer.Engine.Control.Loop.{
  Outside, Control, ClientMsg, unreadable, hello, asks, set_role, other_than, drop_peer, save_due,
  negotiate, proto_version,
}
use iemmixer.Engine.Control.Loop.Handlers.{
  take_control, take_supervision, greet, on_hello, answered, on_request, on_message, on_frame,
  own_outcome, grace_over, solo_timer, test_timer, save_timer, timers,
}
use iemmixer.Engine.Control.Loop.Kept.{
  Kept, parts-Kept, reply-Kept, supersede-Kept, welcome-Kept, publish-Kept, run_effect-Kept,
  note-Kept, do_save-Kept,
}
use iemmixer.Engine.Control.Loop.Seats.{Seated}

module _ {F : Type 0} where
  abbrev Has : Core F → Control F → Type 0
  Has c s = s.core ≡ c

  Has-Kept : (c : Core F) → Kept {F = F} (Has c)
  unfolding drop_peer
  Has-Kept c =
      parts-Kept (λ core peers controller lost supervised. core ≡ c)
        (λ now id s h. ground (arith, h))

module _ {V : Type 0} where
  abbrev remove_each : List ℕ → List (ℕ × V) → List (ℕ × V)
  remove_each [] l = l
  remove_each (m ∷ ms) l = remove_each ms (map_remove m l)

  abbrev Listed : List ℕ → List (ℕ × V) → Type 0
  Listed ms = All (λ e. member e.0 ms ≡ true)

  map_remove-Listed :
      (m : ℕ) (ms : List ℕ) (l : List (ℕ × V)) → Listed (m ∷ ms) l → Listed ms (map_remove m l)
  map_remove-Listed m ms [] h = tt
  map_remove-Listed m ms ((j, w) ∷ l) h = elim (Bool-cases (m == j)) [
    | inl e ↦ rw e (map_remove-Listed m ms l h.1)
    | inr e ↦ rw e (ground (arith, h.0, e), map_remove-Listed m ms l h.1)
  ]

  remove_each_all : (ms : List ℕ) (l : List (ℕ × V)) → Listed ms l → remove_each ms l ≡ []
  remove_each_all [] [] h = refl
  remove_each_all [] (e ∷ l) h = absurd cc
  remove_each_all (m ∷ ms) l h = remove_each_all ms (map_remove m l) (map_remove-Listed m ms l h)

  keys-Listed :
      (l : List (ℕ × V)) (ms : List ℕ)
      → ((k : ℕ) → member k (map (λ (e : ℕ × V). e.0) l) ≡ true → member k ms ≡ true)
      → Listed ms l
  keys-Listed [] ms h = tt
  keys-Listed ((j, w) ∷ l) ms h =
      (h j (ground arith), keys-Listed l ms (λ k q. h k (ground (arith, q))))

module _ {F : Type 0} ⦃fl : Float F⦄ where
  clear_from_solo :
      (ms : List ℕ) (p : Partial F) (c : Core F)
      → (clear_from ms p c).0.solo ≡ remove_each ms c.solo
  unfolding clear_from
  clear_from_solo [] p c = refl
  clear_from_solo (m ∷ ms) p c = clear_from_solo ms _ (record c { solo = map_remove m c.solo })

module _ {F : Type 0} ⦃fl : Float F⦄ (o : Outside F) (now : ℕ) where
  -- A request changes the core as its answer says.
  answered-core :
      (id request : ℕ) (origin : Option ℕ) (cmd : Cmd F) (r : Core F × Result CmdError (Outcome F))
      (s : Control F)
      → (answered o now id request origin cmd r s).core ≡ r.0
  answered-core id request origin cmd (c, err e) s =
      reply-Kept (Has c) (Has-Kept c) o now id request _ (record s { core = c }) refl
  answered-core id request origin cmd (c, ok out) s =
      run_effect-Kept (Has c) (Has-Kept c) o now id out.effect _ (
        publish-Kept (Has c) (Has-Kept c) o now out origin _ (
          reply-Kept (Has c) (Has-Kept c) o now id request none _
            (note-Kept (Has c) (Has-Kept c) o now cmd (record s { core = c }) refl)))

  on_request-core :
      (id : ℕ) (role : Option Role) (ask : ℕ) (origin : Option ℕ) (cmd : Cmd F) (s : Control F)
      → (on_request o now id role ask origin cmd s).core ≡ (request role cmd s.core).0
  unfolding on_request request
  on_request-core id role ask origin cmd s = elim (Option-cases (refusal role cmd)) [
    | inr (code, e) ↦
        rw (e, on_request, request)
          (reply-Kept (Has s.core) (Has-Kept s.core) o now id ask _ s refl)
    | inl e ↦ rw (e, on_request, request) (answered-core id ask origin cmd (apply cmd s.core) s)
  ]

  greet-core :
      (id proto : ℕ) (role : Role) (s t : Control F)
      → t.core ≡ s.core
      → (greet o now id proto role t).core ≡ s.core
  greet-core id proto role s t q = elim (Option-cases (map_get id t.peers)) [
    | inl e ↦ rw (e, greet) q
    | inr (old, e) ↦
        rw (e, greet)
          (welcome-Kept (Has s.core) (Has-Kept s.core) o now id proto role
            (record t { peers = set_role id role t.peers }) q)
  ]

  taken-core :
      (id : ℕ) (role : Role) (s : Control F)
      → (take_supervision o now id role (take_control o now id role s)).core ≡ s.core
  taken-core id control s =
      supersede-Kept (Has s.core) (Has-Kept s.core) o now (other_than s.controller id) s refl
  taken-core id observe s = refl
  taken-core id supervisor s =
      supersede-Kept (Has s.core) (Has-Kept s.core) o now (other_than s.supervisor id) s refl

  on_hello-core :
      (id proto : ℕ) (role : Role) (s : Control F) → (on_hello o now id proto role s).core ≡ s.core
  unfolding on_hello
  on_hello-core id proto role s = elim (Option-cases (negotiate proto_version proto)) [
    | inl e ↦
        let k = Has-Kept s.core in
        rw (e, on_hello)
          (k.dropped now id _ (reply-Kept (Has s.core) (Has-Kept s.core) o now id 0 _ s refl))
    | inr (spoken, e) ↦ rw (e, on_hello) (greet-core id spoken role s _ (taken-core id role s))
  ]

  SameMix-eq : (c d e : Core F) → e ≡ d → SameMix c d → SameMix c e
  SameMix-eq c d e q h = subst (SameMix c) (sym q) h

  SameMix-refl : (c : Core F) → SameMix c c
  SameMix-refl c = record { state = refl; solo = refl; listen = refl }

  on_message-SameMix :
      (id : ℕ) (role : Option Role) (msg : ClientMsg F) (s : Control F)
      → role ≢ some control
      → SameMix s.core (on_message o now id role msg s).core
  on_message-SameMix id role (unreadable ask error) s n =
      SameMix-eq s.core s.core _ (reply-Kept (Has s.core) (Has-Kept s.core) o now id _ _ s refl)
        (SameMix-refl s.core)
  on_message-SameMix id role (hello proto claimed) s n =
      SameMix-eq s.core s.core _ (on_hello-core id proto claimed s) (SameMix-refl s.core)
  on_message-SameMix id role (asks ask origin cmd) s n =
      SameMix-eq s.core (request role cmd s.core).0 _ (on_request-core id role ask origin cmd s)
        (only_controller_changes_mix role cmd s.core n)

  -- Where the connections are in order, a frame of a connection that is not the controller leaves
  -- the mix state, the solos and the listen taps, whatever it says.
  pub frame_authority :
      (id : ℕ) (msg : ClientMsg F) (s : Control F)
      → Seated s
      → s.controller ≢ some id
      → SameMix s.core (on_frame o now id msg s).core
  unfolding on_frame
  frame_authority id msg s h n = elim (Option-cases (map_get id s.peers)) [
    | inl e ↦ rw (e, on_frame) (SameMix-refl s.core)
    | inr (role, e) ↦
        rw (e, on_frame) (on_message-SameMix id role msg s (λ q. n (h.controls id (e ∙ ap some q))))
  ]

  own_outcome-SameMix :
      (c : Core F) (r : Core F × Result CmdError (Outcome F)) (s : Control F)
      → SameMix c s.core
      → SameMix c r.0
      → SameMix c (own_outcome o now r s).core
  own_outcome-SameMix c (d, err e) s h g = h
  own_outcome-SameMix c (d, ok out) s h g =
      SameMix-eq c d _
        (publish-Kept (Has d) (Has-Kept d) o now out none (record s { core = d }) refl) g

  save_timer-core : (s : Control F) → (save_timer o now s).core ≡ s.core
  unfolding save_timer
  save_timer-core s = elim (Bool-cases (save_due now s.schedule)) [
    | inl e ↦ rw e (do_save-Kept (Has s.core) (Has-Kept s.core) o now s refl)
    | inr e ↦ rw e refl
  ]

  end_test-SameMix : (c : Core F) → SameMix c (end_test_signal c).0
  unfolding end_test_signal finish
  end_test-SameMix c = elim (Bool-cases (is_some c.test)) [
    | inl e ↦ rw e (record { state = refl; solo = refl; listen = refl })
    | inr e ↦ rw e (record { state = refl; solo = refl; listen = refl })
  ]

  test_timer-SameMix : (s : Control F) → SameMix s.core (test_timer o now s).core
  unfolding test_timer
  test_timer-SameMix s = elim (Option-cases s.test_deadline) [
    | inl e ↦ rw (e, test_timer) (SameMix-refl s.core)
    | inr (deadline, e) ↦ elim (Bool-cases (leb deadline now)) [
      | inr b ↦ rw (e, test_timer, b) (SameMix-refl s.core)
      | inl b ↦
          rw (e, test_timer, b)
            (own_outcome-SameMix s.core (end_test_signal s.core) (record s { test_deadline = none })
              (SameMix-refl s.core) (end_test-SameMix s.core))
    ]
  ]

  SameMix-trans : (a b c : Core F) → SameMix a b → SameMix b c → SameMix a c
  SameMix-trans a b c h g = record {
    state = g.state ∙ h.state;
    solo = g.solo ∙ h.solo;
    listen = g.listen ∙ h.listen;
  }

  -- After the solos, the timers leave the mix.
  rest-SameMix : (s : Control F) → SameMix s.core (save_timer o now (test_timer o now s)).core
  rest-SameMix s =
      SameMix-eq s.core (test_timer o now s).core _ (save_timer-core (test_timer o now s))
        (test_timer-SameMix s)

  -- The solo grace is over: there is no controller, and the last one left long enough ago.
  pub record GraceOver (s : Control F) : Type 0 where
    pub lost : ℕ
    pub nobody : s.controller ≡ none
    pub left : s.controller_lost ≡ some lost
    pub long_ago : s.solo_grace ≤ now - lost

  grace_over_cases : (s : Control F) → grace_over o now s ≡ true → GraceOver s
  grace_over_cases s h = elim (Option-cases s.controller) [
    | inr (id, e) ↦ absurd (cc (rw (e, grace_over) at h))
    | inl e ↦ elim (Option-cases s.controller_lost) [
      | inl f ↦ absurd (cc (rw (e, grace_over, f) at h))
      | inr (lost, f) ↦ record {
        lost = lost;
        nobody = e;
        left = f;
        long_ago = ground (arith, rw (e, grace_over, f) at h);
      }
    ]
  ]

  own_outcome-core :
      (r : Core F × Result CmdError (Outcome F)) (out : Outcome F) (s : Control F)
      → r.1 ≡ ok out
      → (own_outcome o now r s).core ≡ r.0
  own_outcome-core (c, err e) out s h = absurd cc
  own_outcome-core (c, ok p) out s h =
      publish-Kept (Has c) (Has-Kept c) o now p none (record s { core = c }) refl

  clear_solos_all : (c : Core F) → (clear_solos c).0.solo ≡ []
  unfolding clear_solos finish
  clear_solos_all c =
      clear_from_solo (map (λ (e : ℕ × List ℕ). e.0) c.solo) no_change c
      ∙ remove_each_all (map (λ (e : ℕ × List ℕ). e.0) c.solo) c.solo
          (keys-Listed c.solo (map (λ (e : ℕ × List ℕ). e.0) c.solo) (λ k q. q))

  cleared_solo :
      (s : Control F)
      → (own_outcome o now (clear_solos s.core) (record s { controller_lost = none })).core.solo
        ≡ []
  unfolding clear_solos finish
  cleared_solo s =
      ap (λ (c : Core F). c.solo)
        (own_outcome-core (clear_solos s.core) _ (record s { controller_lost = none }) refl)
      ∙ clear_solos_all s.core

  grace_over_holds : (s : Control F) → GraceOver s → grace_over o now s ≡ true
  grace_over_holds s g =
      let enough : leb s.solo_grace (now - g.lost) ≡ true = ground (arith, g.long_ago) in
      rw (g.nobody, grace_over, g.left) enough

  -- Where the solo grace is over, a tick leaves no solo; where it is not, a tick leaves the mix state,
  -- the solos and the listen taps as they are.
  pub tick_solos :
      (s : Control F)
      → (GraceOver s → (timers o now s).core.solo ≡ [])
        × ((GraceOver s → ⊥) → SameMix s.core (timers o now s).core)
  unfolding timers solo_timer
  tick_solos s = (
    λ g.
        let s' : Control F =
          own_outcome o now (clear_solos s.core) (record s { controller_lost = none }) in
        rw (grace_over_holds s g) ((rest-SameMix s').solo ∙ cleared_solo s),
    λ n. elim (Bool-cases (grace_over o now s)) [
      | inr e ↦ rw e (rest-SameMix s)
      | inl e ↦ absurd (n (grace_over_cases s e))
    ],
  )
