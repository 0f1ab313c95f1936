-- ===== src/Engine/Core/Taps.antt =====
-- The two listen taps (crates/iem-engine/src/core.rs, `start_listen`: "the engineer's tap, and one
-- other mix's").
use iemmixer.Base.{
  ℕ, ◌==◌, ==_iff, ◌≡◌, ◌≢◌, refl, sym, ◌∙◌, inl, inr, Option, none, some, List, [], ◌∷◌, arith,
  if◌then◌else◌, Bool-cases, Given,
}
use iemmixer.Float.{Float}
use iemmixer.Proto.State.{MixState}
use iemmixer.Proto.Msg.{Cmd}
use iemmixer.Engine.Topology.{Topology}
use iemmixer.Engine.Core.Defs.{Core, Flags, new, with_hil}
use iemmixer.Engine.Core.Setters.{
  set_input, set_out, set_level, set_group, put_solo, put_listen, listen_slot, put_stop, stop_slots,
  holds,
}
use iemmixer.Engine.Core.Commands.{put_test, stop_test, import_state}
use iemmixer.Engine.Core.Apply.{apply}
use iemmixer.Engine.Core.Rules.{Rules}
use iemmixer.Engine.Core.Steps.{apply-Step}

abbrev stopped : ℕ → Option ℕ → Option ℕ
stopped m l = if holds l m then none else l

stopped-Given : (P : ℕ → Type 0) (m : ℕ) (l : Option ℕ) → Given P l → Given P (stopped m l)
stopped-Given P m l h = elim (Bool-cases (holds l m)) [ inl e ↦ rw e tt | inr e ↦ rw e h ]

stop_two :
    (F : Type 0) ⦃fl : Float F⦄ (m : ℕ) (a b : Option ℕ)
    → (stop_slots {F = F} m 0 (a ∷ b ∷ [])).0 ≡ stopped m a ∷ stopped m b ∷ []
unfolding stop_slots
stop_two F m a b = ground arith

module _ {F : Type 0} ⦃fl : Float F⦄ where
  -- The first tap is the engineer's mix or nothing, the second another mix or nothing.
  pub record TapsHeld (c : Core F) : Type 0 where
    pub first : Option ℕ
    pub second : Option ℕ
    pub taps : c.listen ≡ first ∷ second ∷ []
    pub engineer : Given (λ m. m ≡ c.topo.engineer) first
    pub another : Given (λ m. m ≢ c.topo.engineer) second

  abbrev Kept : Core F → Core F → Type 0
  Kept c d = TapsHeld c → TapsHeld d

  same_taps : (c d : Core F) → d.listen ≡ c.listen → d.topo ≡ c.topo → Kept c d
  same_taps c d e f h = record {
    first = h.first;
    second = h.second;
    taps = e ∙ h.taps;
    engineer = rw f h.engineer;
    another = rw f h.another;
  }

  put_listen-Kept : (c : Core F) (m : ℕ) → Kept c (put_listen m (listen_slot c m) c).0
  unfolding put_listen
  put_listen-Kept c m h = elim (Bool-cases (m == c.topo.engineer)) [
    | inl e ↦ record {
      first = some m;
      second = h.second;
      taps = rw (e, put_listen) (rw h.taps refl);
      engineer = (==_iff m c.topo.engineer).0 e;
      another = h.another;
    }
    | inr e ↦ record {
      first = h.first;
      second = some m;
      taps = rw (e, put_listen) (rw h.taps refl);
      engineer = h.engineer;
      another = λ q. cc (sym e ∙ (==_iff m c.topo.engineer).1 q);
    }
  ]

  put_stop-Kept : (c : Core F) (m : ℕ) → Kept c (put_stop m c).0
  unfolding put_stop
  put_stop-Kept c m h = record {
    first = stopped m h.first;
    second = stopped m h.second;
    taps = rw h.taps (stop_two F m h.first h.second);
    engineer = stopped-Given (λ m. m ≡ c.topo.engineer) m h.first h.engineer;
    another = stopped-Given (λ m. m ≢ c.topo.engineer) m h.second h.another;
  }

  Kept-Rules : Rules (λ (c : Core F) r. Kept c r.0)
  unfolding set_input set_out set_level set_group put_solo put_test stop_test
  Kept-Rules = record {
    kept = λ c h. h;
    effect = λ c e n h. h;
    arm = λ c h. h;
    reset = λ c mix m h. h;
    input = λ c i new. same_taps c (set_input c i new).0 (ground arith) (ground arith);
    out = λ c m new. same_taps c (set_out c m new).0 (ground arith) (ground arith);
    level = λ c m k new. same_taps c (set_level c m k new).0 (ground arith) (ground arith);
    group = λ c m g new. same_taps c (set_group c m g new).0 (ground arith) (ground arith);
    solo = λ c mix m new e. same_taps c (put_solo mix m new c).0 (ground arith) (ground arith);
    listen = put_listen-Kept;
    stop = put_stop-Kept;
    test = λ c i signal mask l. same_taps c (put_test i signal mask l c).0 refl refl;
    stop_test = λ c. same_taps c (stop_test c).0 (ground arith) (ground arith);
  }

  import-Kept : (c : Core F) (state : MixState F) → Kept c (import_state state c).0
  unfolding import_state
  import-Kept c state = same_taps c (import_state state c).0 refl refl

  -- Every request keeps the rule of the taps: the first is on the engineer's mix or off, the second
  -- on another mix or off, so that at most one mix besides the engineer's is listened to.
  pub apply-TapsHeld : (cmd : Cmd F) (c : Core F) → TapsHeld c → TapsHeld (apply cmd c).0
  apply-TapsHeld =
      apply-Step Kept (λ c h. h) (λ c d e f g h. g (f h)) Kept-Rules import-Kept
        (λ c n. same_taps c (record c { rev = n }) refl refl)

  pub new-TapsHeld :
      (topo : Topology) (state : MixState F) (rev : ℕ) (flags : Flags) (hil : List ℕ)
      → TapsHeld (with_hil (new topo state rev flags) hil)
  unfolding new with_hil
  new-TapsHeld topo state rev flags hil = record {
    first = none;
    second = none;
    taps = refl;
    engineer = tt;
    another = tt;
  }
