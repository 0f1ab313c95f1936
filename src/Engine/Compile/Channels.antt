-- ===== src/Engine/Compile/Channels.antt =====
-- The card channels of a compiled site (crates/iem-engine/src/topology.rs, `check_channels`).
use Prim.Native.String.{String}
use iemmixer.Base.{
  ℕ, suc, ◌≤◌, ◌<◌, ◌≡◌, refl, sym, ap, subst, ◌∙◌, inl, inr, true, false, ◌||◌, ◌&&◌, List, [],
  ◌∷◌, ◌++◌, arith, Bool-cases, ltb, ◌==◌, ==_iff, ==_refl, All, All-append, member, set_insert,
  member-set_insert, member-append, Distinct, Distinct-append, ok, ok_injective, and_then-ok,
}
use iemmixer.Proto.Shape.{TopologyInfo}
use iemmixer.Engine.Site.{SiteInput, SiteMix, Site}
use iemmixer.Engine.Topology.{Topology}
use iemmixer.Engine.Compile.{
  Inputs, Mixes, check_channels, compile_input, compile_inputs, compile_mix, compile_mixes,
  compile_heard, compile, one_or_two, input_taken, mix_taken, mix_heard,
}
use iemmixer.Engine.Compile.Parts.{compile-Parts}

-- A channel of the card's map.
abbrev pub OnCard : ℕ → ℕ → Type 0
OnCard channels ch = (0 < ch) × (ch ≤ channels)

-- What a strip's channels are, and what it makes of the channels in use.
record Taken (channels : ℕ) (used chs used' : List ℕ) : Type 0 where
  range : All (OnCard channels) chs
  distinct : Distinct chs
  fresh : (k : ℕ) → member k chs ≡ true → member k used ≡ false
  held : (k : ℕ) → member k used' ≡ (member k used || member k chs)

check_channels-Taken :
    (id : String) (chs : List ℕ) (channels : ℕ) (used used' : List ℕ)
    → check_channels id chs channels used ≡ ok used'
    → Taken channels used chs used'
unfolding check_channels
check_channels-Taken id [] channels used used' h = record {
  range = tt;
  distinct = tt;
  fresh = λ k e. cc;
  held = λ k. ap (member k) (sym (ok_injective _ _ h)) ∙ ground arith;
}
check_channels-Taken id (ch ∷ chs) channels used used' h =
    elim (Bool-cases (ch == 0 || ltb channels ch)) [
      | inl e ↦ absurd (cc (rw (e, check_channels) at h))
      | inr e ↦ elim (Bool-cases (member ch used)) [
        | inl q ↦ absurd (cc (rw (e, q, check_channels) at h))
        | inr q ↦
            let t : Taken channels (set_insert ch used) chs used' =
              check_channels-Taken id chs channels (set_insert ch used) used'
                (rw (e, q, check_channels) at h) in
            record {
              range = (ground (arith, e), t.range);
              distinct = (
                elim (Bool-cases (member ch chs)) [
                  | inl m ↦
                      absurd
                        (ground (arith, t.fresh ch m, member-set_insert ch ch used, ==_refl ch))
                  | inr m ↦ m
                ],
                t.distinct,
              );
              fresh = λ k m. elim (Bool-cases (k == ch)) [
                | inl s ↦ ap (λ j. member j used) ((==_iff k ch).0 s) ∙ q
                | inr s ↦ ground (arith, s, m, t.fresh k, member-set_insert k ch used)
              ];
              held = λ k. t.held k ∙ ground (arith, member-set_insert k ch used);
            }
      ]
    ]

-- The channels so far, and the same as a set.
record Held (channels : ℕ) (chs used : List ℕ) : Type 0 where
  range : All (OnCard channels) chs
  distinct : Distinct chs
  same : (k : ℕ) → member k used ≡ member k chs

Held-append :
    (channels : ℕ) (chs used new used' : List ℕ)
    → Held channels chs used
    → Taken channels used new used'
    → Held channels (chs ++ new) used'
Held-append channels chs used new used' h t = record {
  range = All-append _ chs new h.range t.range;
  distinct = Distinct-append chs new h.distinct t.distinct (λ k m. sym (h.same k) ∙ t.fresh k m);
  same = λ k. ground (arith, t.held k, h.same k, member-append k chs new);
}

input_taken-Held :
    (channels : ℕ) (i : SiteInput) (acc out : Inputs) (used : List ℕ)
    → Held channels (acc.rx ++ i.rx) used
    → input_taken i acc used ≡ ok out
    → Held channels out.rx out.used
input_taken-Held channels i acc out used h e = elim (Bool-cases (i.talkback && acc.talkback)) [
  | inl b ↦ absurd (cc (rw b at e))
  | inr b ↦ subst (λ (o : Inputs). Held channels o.rx o.used) (ok_injective _ out (rw b at e)) h
]

compile_input-Held :
    (channels : ℕ) (i : SiteInput) (acc out : Inputs)
    → Held channels acc.rx acc.used
    → compile_input channels i acc ≡ ok out
    → Held channels out.rx out.used
unfolding compile_input
compile_input-Held channels i acc out h e = elim (Bool-cases (one_or_two i.rx)) [
  | inr q ↦ absurd (cc (rw (q, compile_input) at e))
  | inl q ↦
      let (used, c, e') =
        and_then-ok (check_channels i.id i.rx channels acc.used) (input_taken i acc) out
          (rw (q, compile_input) at e) in
      input_taken-Held channels i acc out used
        (Held-append channels acc.rx acc.used i.rx used h
          (check_channels-Taken i.id i.rx channels acc.used used c))
        e'
]

compile_inputs-Held :
    (channels : ℕ) (is : List SiteInput) (acc out : Inputs)
    → Held channels acc.rx acc.used
    → compile_inputs channels is acc ≡ ok out
    → Held channels out.rx out.used
unfolding compile_inputs
compile_inputs-Held channels [] acc out h e = rw (sym (ok_injective _ _ e)) h
compile_inputs-Held channels (i ∷ is) acc out h e =
    let (next, c, e') = and_then-ok _ _ out e in
    compile_inputs-Held channels is next out (compile_input-Held channels i acc next h c) e'

compile_mix-Held :
    (channels m : ℕ) (mix : SiteMix) (acc out : Mixes)
    → Held channels acc.tx acc.used
    → compile_mix channels m mix acc ≡ ok out
    → Held channels out.tx out.used
unfolding compile_mix
compile_mix-Held channels m mix acc out h e = elim (Bool-cases (one_or_two mix.tx)) [
  | inr q ↦ absurd (cc (rw (q, compile_mix) at e))
  | inl q ↦
      let (used, c, e') =
        and_then-ok (check_channels mix.id mix.tx channels acc.used) (mix_taken m mix acc) out
          (rw (q, compile_mix) at e) in
      let (heard, d, e'') =
        and_then-ok (compile_heard mix.id mix.mixes acc.declared []) (mix_heard m mix acc used) out
          e' in
      subst (λ (o : Mixes). Held channels o.tx o.used) (ok_injective _ out e'')
        (Held-append channels acc.tx acc.used mix.tx used h
          (check_channels-Taken mix.id mix.tx channels acc.used used c))
]

compile_mixes-Held :
    (channels m : ℕ) (mixes : List SiteMix) (acc out : Mixes)
    → Held channels acc.tx acc.used
    → compile_mixes channels m mixes acc ≡ ok out
    → Held channels out.tx out.used
unfolding compile_mixes
compile_mixes-Held channels m [] acc out h e = rw (sym (ok_injective _ _ e)) h
compile_mixes-Held channels m (mix ∷ mixes) acc out h e =
    let (next, c, e') = and_then-ok _ _ out e in
    compile_mixes-Held channels (suc m) mixes next out
      (compile_mix-Held channels m mix acc next h c) e'

none-Held : (channels : ℕ) → Held channels [] []
none-Held channels = record { range = tt; distinct = tt; same = λ k. refl }

-- Where a site compiles, no two of its input channels are the same and neither are two of its output
-- channels, and each is one of the card's.
pub compile_channels :
    (hash : TopologyInfo → String) (site : Site) (topo : Topology)
    → compile hash site ≡ ok topo
    → (Distinct topo.rx × All (OnCard site.channels) topo.rx)
      × (Distinct topo.tx × All (OnCard site.channels) topo.tx)
compile_channels hash site topo h =
    let p = compile-Parts hash site topo h in
    let rx =
      compile_inputs-Held site.channels site.inputs _ p.inputs (none-Held site.channels)
        p.inputs_ok in
    let tx =
      compile_mixes-Held site.channels 0 site.mixes _ p.mixes (none-Held site.channels)
        p.mixes_ok in
    rw (sym p.topology) ((rx.distinct, rx.range), (tx.distinct, tx.range))
