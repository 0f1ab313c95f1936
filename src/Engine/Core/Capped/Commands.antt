-- ===== src/Engine/Core/Capped/Commands.antt =====
-- Each command keeps the invariant.
use iemmixer.Base.{
  ◌≡◌, Bool, Option, none, some, List, refl, ok, Result-cases, inl, inr, unwrap_or, arith, subst,
  get_elem?, Bool-cases, false,
}
use iemmixer.Float.{Float, FloatLaws}
use iemmixer.Proto.State.{InputId, MixId, Source, EqTarget, Eq, default_input}
use iemmixer.Proto.Shape.{
  Range, trim_range, fader_range, pan_range, limit_range, cap_eq, eq_is_finite,
}
use iemmixer.Proto.Capped.{
  InRange, IsRange, EqCapped, cap-InRange, cap_eq-EqCapped, trim_IsRange, fader_IsRange,
  pan_IsRange, limit_IsRange,
}
use iemmixer.Proto.Msg.{Cmd}
use iemmixer.Engine.Core.Defs.{
  Core, M, ◌>>=◌, capped, capped_or, level, strip, out, input_at, mix_at, group_at, slot_at,
  hil_mask,
}
use iemmixer.Engine.Core.Setters.{set_solo, start_listen, stop_listen}
use iemmixer.Engine.Core.Commands.{
  test_hz_range, test_dbfs_range, test_ttl_range, start_test, set_eq, one,
}
use iemmixer.Engine.Core.Capped.Setters.{
  CoreCapped, input-InputCapped, level-LevelCapped, strip-GroupCapped, out-OutCapped,
  set_input-CoreCapped, set_out-CoreCapped, set_level-CoreCapped, set_group-CoreCapped,
  reconcile-LaidCapped,
}

module _ {F : Type 0} ⦃fl : Float F⦄ where
  abbrev pub Keeps : {A : Type 0} → M F A → Type 0
  Keeps m = (c : Core F) → CoreCapped c → CoreCapped (m c).0

  set_solo-Keeps : (mix : MixId) (sources : List Source) → Keeps (set_solo mix sources)
  unfolding set_solo
  set_solo-Keeps mix sources c h = ground arith

  start_listen-Keeps : (mix : MixId) → Keeps (start_listen mix)
  unfolding start_listen
  start_listen-Keeps mix c h = ground arith

  stop_listen-Keeps : (mix : MixId) → Keeps (stop_listen mix)
  unfolding stop_listen
  stop_listen-Keeps mix c h = ground arith

module _ {F : Type 0} ⦃fl : Float F⦄ (laws : FloatLaws F) where
  capped-InRange : (v w : F) (r : Range F) → IsRange r → capped v r ≡ ok w → InRange r w
  unfolding capped
  capped-InRange v w r g e = ground (arith, cap-InRange laws r v w g)

  capped_or-InRange :
      (v : Option F) (r : Range F) (x w : F)
      → IsRange r
      → InRange r x
      → capped_or v r x ≡ ok w
      → InRange r w
  unfolding capped_or
  capped_or-InRange none r x w g h e = subst (InRange r) (ground arith) h
  capped_or-InRange (some v) r x w g h e = capped-InRange v w r g e

  test_hz_IsRange : IsRange {F = F} test_hz_range
  test_hz_IsRange = record {
    finite_lo = laws.finite_lit 20 0 (omega arith);
    finite_hi = laws.finite_lit 20000 0 (omega arith);
    ordered = laws.lit_le 20 0 20000 0 refl;
  }

  test_dbfs_IsRange : IsRange {F = F} test_dbfs_range
  test_dbfs_IsRange = record {
    finite_lo = laws.finite_neg _ (laws.finite_lit 120 0 (omega arith));
    finite_hi = laws.finite_neg _ (laws.finite_lit 20 0 (omega arith));
    ordered = laws.neg_lit_le 120 0 20 0 refl;
  }

  test_ttl_IsRange : IsRange {F = F} test_ttl_range
  test_ttl_IsRange = record {
    finite_lo = laws.finite_lit 1 3 (omega arith);
    finite_hi = laws.finite_lit 120 0 (omega arith);
    ordered = laws.lit_le 1 3 120 0 refl;
  }

  start_test-Keeps :
      (id : InputId) (hz dbfs ttl : F) (mask : Option (List Bool)) (listen : Bool)
      → Keeps (start_test id hz dbfs ttl mask listen)
  unfolding start_test
  start_test-Keeps id hz dbfs ttl mask listen c h = elim (Result-cases (input_at c id)) [
    | inl (i, ei) ↦
        rw (ei, start_test, ◌>>=◌)
          (elim (Result-cases (capped hz test_hz_range)) [
            | inl (y, ex) ↦
                rw (ex, start_test, ◌>>=◌)
                  (elim (Result-cases (capped dbfs test_dbfs_range)) [
                    | inl (d, ed) ↦
                        rw (ed, start_test, ◌>>=◌)
                          (elim (Result-cases (capped ttl test_ttl_range)) [
                            | inl (t, et) ↦
                                rw (et, start_test, ◌>>=◌)
                                  (record {
                                    state = h.state;
                                    test = (
                                      capped-InRange hz y _ test_hz_IsRange ex,
                                      capped-InRange dbfs d _ test_dbfs_IsRange ed,
                                      capped-InRange ttl t _ test_ttl_IsRange et,
                                    );
                                  })
                            | inr (x, et) ↦ rw (et, start_test, ◌>>=◌) h
                          ])
                    | inr (x, ed) ↦ rw (ed, start_test, ◌>>=◌) h
                  ])
            | inr (x, ex) ↦ rw (ex, start_test, ◌>>=◌) h
          ])
    | inr (x, ei) ↦ rw (ei, start_test, ◌>>=◌) h
  ]

  set_eq-Keeps : (target : EqTarget) (e : Eq F) → EqCapped e → Keeps (set_eq target e)
  unfolding set_eq
  set_eq-Keeps (EqTarget.input id) e g c h = elim (Result-cases (input_at c id)) [
    | inl (i, ei) ↦
        rw (ei, set_eq, ◌>>=◌)
          (set_input-CoreCapped c i _ h
            (record { trim = (input-InputCapped laws c i h).trim; eq = g }))
    | inr (x, ei) ↦ rw (ei, set_eq, ◌>>=◌) h
  ]
  set_eq-Keeps (EqTarget.mix id) e g c h = elim (Result-cases (mix_at c id)) [
    | inl (m, em) ↦
        rw (em, set_eq, ◌>>=◌)
          (set_out-CoreCapped c m _ h (record {
            volume = (out-OutCapped laws c m h).volume;
            eq = g;
            limit = (out-OutCapped laws c m h).limit;
          }))
    | inr (x, em) ↦ rw (em, set_eq, ◌>>=◌) h
  ]
  set_eq-Keeps (EqTarget.group mix group) e g c h = elim (Result-cases (mix_at c mix)) [
    | inl (m, em) ↦
        rw (em, set_eq, ◌>>=◌)
          (elim (Result-cases (group_at c group)) [
            | inl (k, ek) ↦
                rw (ek, set_eq, ◌>>=◌)
                  (set_group-CoreCapped c m k _ h
                    (record { gain = (strip-GroupCapped laws c m k h).gain; eq = g }))
            | inr (x, ek) ↦ rw (ek, set_eq, ◌>>=◌) h
          ])
    | inr (x, em) ↦ rw (em, set_eq, ◌>>=◌) h
  ]

  pub one-Keeps : (cmd : Cmd F) → Keeps (one cmd)
  unfolding one
  one-Keeps (Cmd.set_input id trim_db muted processing) c h = elim (Result-cases (input_at c id)) [
    | inl (i, ei) ↦
        rw (ei, one, ◌>>=◌)
          (elim (Result-cases (
            capped_or trim_db trim_range
              (unwrap_or (get_elem? c.s.inputs i) default_input).trim_db)) [
                | inl (t, et) ↦
                    rw (et, one, ◌>>=◌)
                      (set_input-CoreCapped c i _ h (record {
                        trim =
                            capped_or-InRange trim_db _ _ t (trim_IsRange laws)
                              (input-InputCapped laws c i h).trim et;
                        eq = (input-InputCapped laws c i h).eq;
                      }))
                | inr (x, et) ↦ rw (et, one, ◌>>=◌) h
              ])
    | inr (x, ei) ↦ rw (ei, one, ◌>>=◌) h
  ]
  one-Keeps (Cmd.set_mix mix volume_db muted) c h = elim (Result-cases (mix_at c mix)) [
    | inl (m, em) ↦
        rw (em, one, ◌>>=◌)
          (elim (Result-cases (capped_or volume_db fader_range (out c m).volume_db)) [
            | inl (v, ev) ↦
                rw (ev, one, ◌>>=◌)
                  (set_out-CoreCapped c m _ h (record {
                    volume =
                        capped_or-InRange volume_db _ _ v (fader_IsRange laws)
                          (out-OutCapped laws c m h).volume ev;
                    eq = (out-OutCapped laws c m h).eq;
                    limit = (out-OutCapped laws c m h).limit;
                  }))
            | inr (x, ev) ↦ rw (ev, one, ◌>>=◌) h
          ])
    | inr (x, em) ↦ rw (em, one, ◌>>=◌) h
  ]
  one-Keeps (Cmd.set_level mix source gain_db pan muted) c h = elim (Result-cases (mix_at c mix)) [
    | inl (m, em) ↦
        rw (em, one, ◌>>=◌)
          (elim (Result-cases (slot_at c m source)) [
            | inl (k, ek) ↦
                rw (ek, one, ◌>>=◌)
                  (elim (Result-cases (capped_or gain_db fader_range (level c m k).gain_db)) [
                    | inl (g, eg) ↦
                        rw (eg, one, ◌>>=◌)
                          (elim (Result-cases (capped_or pan pan_range (level c m k).pan)) [
                            | inl (p, ep) ↦
                                rw (ep, one, ◌>>=◌)
                                  (set_level-CoreCapped c m k _ h (record {
                                    gain =
                                        capped_or-InRange gain_db _ _ g (fader_IsRange laws)
                                          (level-LevelCapped laws c m k h).gain eg;
                                    pan =
                                        capped_or-InRange pan _ _ p (pan_IsRange laws)
                                          (level-LevelCapped laws c m k h).pan ep;
                                  }))
                            | inr (x, ep) ↦ rw (ep, one, ◌>>=◌) h
                          ])
                    | inr (x, eg) ↦ rw (eg, one, ◌>>=◌) h
                  ])
            | inr (x, ek) ↦ rw (ek, one, ◌>>=◌) h
          ])
    | inr (x, em) ↦ rw (em, one, ◌>>=◌) h
  ]
  one-Keeps (Cmd.set_group mix group gain_db muted) c h = elim (Result-cases (mix_at c mix)) [
    | inl (m, em) ↦
        rw (em, one, ◌>>=◌)
          (elim (Result-cases (group_at c group)) [
            | inl (k, ek) ↦
                rw (ek, one, ◌>>=◌)
                  (elim (Result-cases (capped_or gain_db fader_range (strip c m k).gain_db)) [
                    | inl (g, eg) ↦
                        rw (eg, one, ◌>>=◌)
                          (set_group-CoreCapped c m k _ h (record {
                            gain =
                                capped_or-InRange gain_db _ _ g (fader_IsRange laws)
                                  (strip-GroupCapped laws c m k h).gain eg;
                            eq = (strip-GroupCapped laws c m k h).eq;
                          }))
                    | inr (x, eg) ↦ rw (eg, one, ◌>>=◌) h
                  ])
            | inr (x, ek) ↦ rw (ek, one, ◌>>=◌) h
          ])
    | inr (x, em) ↦ rw (em, one, ◌>>=◌) h
  ]
  one-Keeps (Cmd.set_eq target e) c h = elim (Bool-cases (eq_is_finite e)) [
    | inl p ↦ rw p (set_eq-Keeps target (cap_eq e) (cap_eq-EqCapped laws e) c h)
    | inr p ↦ rw p h
  ]
  one-Keeps (Cmd.set_limiter mix enabled limit_db) c h = elim (Result-cases (mix_at c mix)) [
    | inl (m, em) ↦
        rw (em, one, ◌>>=◌)
          (elim (Result-cases (capped_or limit_db limit_range (out c m).limiter.limit_db)) [
            | inl (l, el) ↦
                rw (el, one, ◌>>=◌)
                  (set_out-CoreCapped c m _ h (record {
                    volume = (out-OutCapped laws c m h).volume;
                    eq = (out-OutCapped laws c m h).eq;
                    limit =
                        capped_or-InRange limit_db _ _ l (limit_IsRange laws)
                          (out-OutCapped laws c m h).limit el;
                  }))
            | inr (x, el) ↦ rw (el, one, ◌>>=◌) h
          ])
    | inr (x, em) ↦ rw (em, one, ◌>>=◌) h
  ]
  one-Keeps (Cmd.set_solo mix sources) c h = set_solo-Keeps mix sources c h
  one-Keeps (Cmd.start_listen mix) c h = start_listen-Keeps mix c h
  one-Keeps (Cmd.stop_listen mix) c h = stop_listen-Keeps mix c h
  one-Keeps (Cmd.start_test_signal id hz dbfs ttl) c h =
      ground (arith, start_test-Keeps id hz dbfs ttl none false c h)
  one-Keeps (Cmd.hil_test_signal id hz dbfs ttl tx listen) c h =
      elim (Result-cases (hil_mask c.topo c.hil tx)) [
        | inl (mask, em) ↦ ground (arith, start_test-Keeps id hz dbfs ttl (some mask) listen c h)
        | inr (x, em) ↦ ground arith
      ]
  one-Keeps (Cmd.import_state state) c h = record {
    state = reconcile-LaidCapped laws c.topo state;
    test = h.test;
  }
  one-Keeps cmd c h = ground arith
