-- ===== src/Engine/Core/Rules.antt =====
-- An induction rule over the commands: what holds of each write, and of a command that writes
-- nothing, holds of every command that goes through.
use iemmixer.Base.{
  ℕ, ◌≡◌, refl, ◌≢◌, Bool, false, Option, none, some, List, [], ◌∷◌, Result, ok, err, Result-cases,
  Bool-cases, inl, inr, unwrap_or, get_elem?, arith, if◌then◌else◌, ltb, length,
}
use iemmixer.Float.{Float}
use iemmixer.Proto.State.{
  InputId, MixId, Source, EqTarget, Eq, InputState, Level, MixGroup, MixOut, MixState, TestSignal,
  default_input,
}
use iemmixer.Proto.Shape.{trim_range, fader_range, pan_range, limit_range, cap_eq, eq_is_finite}
use iemmixer.Proto.Msg.{Cmd, CmdError, Change, bad_value}
use iemmixer.Engine.Rt.{RtOp, ix}
use iemmixer.Engine.Core.Defs.{
  Core, Partial, Effect, imported, send_state, send_topology, save, shutdown, failure, max_solo,
  ◌>>=◌, no_change, changed, with_effect, hil_mask, capped, capped_or, level, strip, out, input_at,
  mix_at, group_at, slot_at,
}
use iemmixer.Engine.Core.Setters.{
  set_input, set_out, set_level, set_group, solo_slots, put_solo, set_solo, listen_slot, put_listen,
  start_listen, put_stop, stop_listen,
}
use iemmixer.Engine.Core.Commands.{
  test_hz_range, test_dbfs_range, test_ttl_range, put_test, start_test, set_eq, stop_test,
  import_state, one,
}

module _ {F : Type 0} ⦃fl : Float F⦄ where
  -- A relation between a core and what a command made of it, met by every write.
  pub record Rules (P : Core F → Core F × Partial F → Type 0) : Type 0 where
    pub kept : (c : Core F) → P c (c, no_change)
    pub effect : (c : Core F) (e : Effect) → e ≢ imported → P c (c, with_effect e)
    pub arm :
        (c : Core F)
        → P c (c, record { changes = []; rt = RtOp.arm ∷ []; effect = none; bump = false })
    pub reset :
        (c : Core F) (mix : MixId) (m : ℕ)
        → P c (c, changed (Change.limiter_stats_reset mix ∷ []) (RtOp.reset_limiter (ix m) ∷ []))
    pub input : (c : Core F) (i : ℕ) (new : InputState F) → P c (set_input c i new)
    pub out : (c : Core F) (m : ℕ) (new : MixOut F) → P c (set_out c m new)
    pub level : (c : Core F) (m k : ℕ) (new : Level F) → P c (set_level c m k new)
    pub group : (c : Core F) (m g : ℕ) (new : MixGroup F) → P c (set_group c m g new)
    pub solo :
        (c : Core F) (mix : MixId) (m : ℕ) (new : List ℕ)
        → mix_at c mix ≡ ok m
        → P c (put_solo mix m new c)
    pub listen : (c : Core F) (m : ℕ) → P c (put_listen m (listen_slot c m) c)
    pub stop : (c : Core F) (m : ℕ) → P c (put_stop m c)
    pub test :
        (c : Core F) (i : ℕ) (signal : TestSignal F) (mask : Option (List Bool)) (l : Bool)
        → P c (put_test i signal mask l c)
    pub stop_test : (c : Core F) → P c (stop_test c)

  -- What the fault injection answers.
  abbrev pub with_fault : Partial F
  with_fault = record { changes = []; rt = RtOp.panic ∷ []; effect = none; bump = false }

  -- The relation where the command goes through.
  abbrev pub Post :
      (Core F → Core F × Partial F → Type 0)
      → Core F
      → Core F × Result CmdError (Partial F)
      → Type 0
  Post P c (c', ok p) = P c (c', p)
  Post P c (c', err e) = Unit {0}

  pub Post-mono :
      (P Q : Core F → Core F × Partial F → Type 0) (c d : Core F)
      (r : Core F × Result CmdError (Partial F))
      → ((x : Core F × Partial F) → P d x → Q c x)
      → Post P d r
      → Post Q c r
  Post-mono P Q c d (c', ok p) f h = f (c', p) h
  Post-mono P Q c d (c', err e) f h = tt

module _ {F : Type 0} ⦃fl : Float F⦄ (P : Core F → Core F × Partial F → Type 0)
    (rules : Rules P) where
  set_solo-Post :
      (mix : MixId) (sources : List Source) (c : Core F) → Post P c (set_solo mix sources c)
  unfolding set_solo
  set_solo-Post mix sources c = elim (Result-cases (mix_at c mix)) [
    | inl (m, em) ↦
        rw (em, set_solo, ◌>>=◌)
          (elim (Result-cases (
            if ltb max_solo (length sources)
            then failure bad_value
            else solo_slots c.topo m sources [])) [
              | inl (new, en) ↦ rw (en, set_solo, ◌>>=◌) (rules.solo c mix m new em)
              | inr (x, en) ↦ rw (en, set_solo, ◌>>=◌) tt
            ])
    | inr (x, em) ↦ rw (em, set_solo, ◌>>=◌) tt
  ]

  start_listen-Post : (mix : MixId) (c : Core F) → Post P c (start_listen mix c)
  unfolding start_listen
  start_listen-Post mix c = elim (Result-cases (mix_at c mix)) [
    | inl (m, em) ↦ rw (em, start_listen, ◌>>=◌) (ground (arith, rules.kept c, rules.listen c m))
    | inr (x, em) ↦ rw (em, start_listen, ◌>>=◌) tt
  ]

  stop_listen-Post : (mix : MixId) (c : Core F) → Post P c (stop_listen mix c)
  unfolding stop_listen
  stop_listen-Post mix c = elim (Result-cases (mix_at c mix)) [
    | inl (m, em) ↦ rw (em, stop_listen, ◌>>=◌) (rules.stop c m)
    | inr (x, em) ↦ rw (em, stop_listen, ◌>>=◌) tt
  ]

  start_test-Post :
      (id : InputId) (hz dbfs ttl : F) (mask : Option (List Bool)) (l : Bool) (c : Core F)
      → Post P c (start_test id hz dbfs ttl mask l c)
  unfolding start_test
  start_test-Post id hz dbfs ttl mask l c = elim (Result-cases (input_at c id)) [
    | inl (i, ei) ↦
        rw (ei, start_test, ◌>>=◌)
          (elim (Result-cases (capped hz test_hz_range)) [
            | inl (y, ey) ↦
                rw (ey, start_test, ◌>>=◌)
                  (elim (Result-cases (capped dbfs test_dbfs_range)) [
                    | inl (d, ed) ↦
                        rw (ed, start_test, ◌>>=◌)
                          (elim (Result-cases (capped ttl test_ttl_range)) [
                            | inl (t, et) ↦ rw (et, start_test, ◌>>=◌) (rules.test c i _ mask l)
                            | inr (x, et) ↦ rw (et, start_test, ◌>>=◌) tt
                          ])
                    | inr (x, ed) ↦ rw (ed, start_test, ◌>>=◌) tt
                  ])
            | inr (x, ey) ↦ rw (ey, start_test, ◌>>=◌) tt
          ])
    | inr (x, ei) ↦ rw (ei, start_test, ◌>>=◌) tt
  ]

  set_eq-Post : (target : EqTarget) (eq : Eq F) (c : Core F) → Post P c (set_eq target eq c)
  unfolding set_eq
  set_eq-Post (EqTarget.input id) eq c = elim (Result-cases (input_at c id)) [
    | inl (i, ei) ↦ rw (ei, set_eq, ◌>>=◌) (rules.input c i _)
    | inr (x, ei) ↦ rw (ei, set_eq, ◌>>=◌) tt
  ]
  set_eq-Post (EqTarget.mix mix) eq c = elim (Result-cases (mix_at c mix)) [
    | inl (m, em) ↦ rw (em, set_eq, ◌>>=◌) (rules.out c m _)
    | inr (x, em) ↦ rw (em, set_eq, ◌>>=◌) tt
  ]
  set_eq-Post (EqTarget.group mix group) eq c = elim (Result-cases (mix_at c mix)) [
    | inl (m, em) ↦
        rw (em, set_eq, ◌>>=◌)
          (elim (Result-cases (group_at c group)) [
            | inl (g, eg) ↦ rw (eg, set_eq, ◌>>=◌) (rules.group c m g _)
            | inr (x, eg) ↦ rw (eg, set_eq, ◌>>=◌) tt
          ])
    | inr (x, em) ↦ rw (em, set_eq, ◌>>=◌) tt
  ]

  -- Every command that goes through stands in the relation.
  pub one-Post :
      (cmd : Cmd F) (c : Core F)
      → ((state : MixState F) → cmd ≡ Cmd.import_state state → P c (import_state state c))
      → (cmd ≡ Cmd.inject_fault → P c (c, with_fault))
      → Post P c (one cmd c)
  unfolding one
  one-Post (Cmd.set_input id trim_db muted processing) c imports injects =
      elim (Result-cases (input_at c id)) [
        | inl (i, ei) ↦
            rw (ei, one, ◌>>=◌)
              (elim (Result-cases (
                capped_or trim_db trim_range
                  (unwrap_or (get_elem? c.s.inputs i) default_input).trim_db)) [
                    | inl (t, et) ↦ rw (et, one, ◌>>=◌) (rules.input c i _)
                    | inr (x, et) ↦ rw (et, one, ◌>>=◌) tt
                  ])
        | inr (x, ei) ↦ rw (ei, one, ◌>>=◌) tt
      ]
  one-Post (Cmd.set_mix mix volume_db muted) c imports injects =
      elim (Result-cases (mix_at c mix)) [
        | inl (m, em) ↦
            rw (em, one, ◌>>=◌)
              (elim (Result-cases (capped_or volume_db fader_range (out c m).volume_db)) [
                | inl (v, ev) ↦ rw (ev, one, ◌>>=◌) (rules.out c m _)
                | inr (x, ev) ↦ rw (ev, one, ◌>>=◌) tt
              ])
        | inr (x, em) ↦ rw (em, one, ◌>>=◌) tt
      ]
  one-Post (Cmd.set_level mix source gain_db pan muted) c imports injects =
      elim (Result-cases (mix_at c mix)) [
        | inl (m, em) ↦
            rw (em, one, ◌>>=◌)
              (elim (Result-cases (slot_at c m source)) [
                | inl (k, ek) ↦
                    rw (ek, one, ◌>>=◌)
                      (elim (Result-cases (capped_or gain_db fader_range (level c m k).gain_db)) [
                        | inl (g, eg) ↦
                            rw (eg, one, ◌>>=◌)
                              (elim (Result-cases (capped_or pan pan_range (level c m k).pan)) [
                                | inl (p, ep) ↦ rw (ep, one, ◌>>=◌) (rules.level c m k _)
                                | inr (x, ep) ↦ rw (ep, one, ◌>>=◌) tt
                              ])
                        | inr (x, eg) ↦ rw (eg, one, ◌>>=◌) tt
                      ])
                | inr (x, ek) ↦ rw (ek, one, ◌>>=◌) tt
              ])
        | inr (x, em) ↦ rw (em, one, ◌>>=◌) tt
      ]
  one-Post (Cmd.set_group mix group gain_db muted) c imports injects =
      elim (Result-cases (mix_at c mix)) [
        | inl (m, em) ↦
            rw (em, one, ◌>>=◌)
              (elim (Result-cases (group_at c group)) [
                | inl (g, eg) ↦
                    rw (eg, one, ◌>>=◌)
                      (elim (Result-cases (capped_or gain_db fader_range (strip c m g).gain_db)) [
                        | inl (v, ev) ↦ rw (ev, one, ◌>>=◌) (rules.group c m g _)
                        | inr (x, ev) ↦ rw (ev, one, ◌>>=◌) tt
                      ])
                | inr (x, eg) ↦ rw (eg, one, ◌>>=◌) tt
              ])
        | inr (x, em) ↦ rw (em, one, ◌>>=◌) tt
      ]
  one-Post (Cmd.set_eq target e) c imports injects = elim (Bool-cases (eq_is_finite e)) [
    | inl p ↦ rw p (set_eq-Post target (cap_eq e) c)
    | inr p ↦ rw p tt
  ]
  one-Post (Cmd.set_limiter mix enabled limit_db) c imports injects =
      elim (Result-cases (mix_at c mix)) [
        | inl (m, em) ↦
            rw (em, one, ◌>>=◌)
              (elim (Result-cases (capped_or limit_db limit_range (out c m).limiter.limit_db)) [
                | inl (l, el) ↦ rw (el, one, ◌>>=◌) (rules.out c m _)
                | inr (x, el) ↦ rw (el, one, ◌>>=◌) tt
              ])
        | inr (x, em) ↦ rw (em, one, ◌>>=◌) tt
      ]
  one-Post (Cmd.reset_limiter_stats mix) c imports injects = elim (Result-cases (mix_at c mix)) [
    | inl (m, em) ↦ rw (em, one, ◌>>=◌) (rules.reset c mix m)
    | inr (x, em) ↦ rw (em, one, ◌>>=◌) tt
  ]
  one-Post (Cmd.set_solo mix sources) c imports injects = set_solo-Post mix sources c
  one-Post (Cmd.start_listen mix) c imports injects = start_listen-Post mix c
  one-Post (Cmd.stop_listen mix) c imports injects = stop_listen-Post mix c
  one-Post (Cmd.start_test_signal id hz dbfs ttl) c imports injects =
      ground (arith, start_test-Post id hz dbfs ttl none false c)
  one-Post (Cmd.hil_test_signal id hz dbfs ttl tx listen) c imports injects =
      elim (Result-cases (hil_mask c.topo c.hil tx)) [
        | inl (mask, em) ↦ ground (arith, start_test-Post id hz dbfs ttl (some mask) listen c)
        | inr (x, em) ↦ ground arith
      ]
  one-Post Cmd.stop_test_signal c imports injects = rules.stop_test c
  one-Post Cmd.inject_fault c imports injects = ground (arith, injects refl)
  one-Post (Cmd.batch ops) c imports injects = tt
  one-Post (Cmd.import_state state) c imports injects = imports state refl
  one-Post Cmd.get_state c imports injects = rules.effect c send_state (λ e. cc)
  one-Post Cmd.get_topology c imports injects = rules.effect c send_topology (λ e. cc)
  one-Post Cmd.save_now c imports injects = rules.effect c save (λ e. cc)
  one-Post Cmd.shutdown c imports injects = rules.effect c shutdown (λ e. cc)
  one-Post Cmd.ping c imports injects = rules.kept c
  one-Post Cmd.arm c imports injects = rules.arm c
