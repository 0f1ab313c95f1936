-- ===== src/Server/Mirror/Tells.antt =====
-- What a write tells: a mirror that follows the core before it and takes the changes that the write
-- names follows the core after it.
use iemmixer.Base.{
  ℕ, ◌≡◌, refl, sym, ap, ◌∙◌, subst, inl, inr, Bool, true, Option, none, some, List, [], ◌∷◌,
  if◌then◌else◌, get_elem?, insert, filter_map, unwrap_or, map_get, map_insert, map_remove, is_some,
  ok, ok_or, same, same_iff, Bool-cases,
}
use iemmixer.Float.{Float}
use iemmixer.Proto.State.{MixId, InputState, Level, MixGroup, MixOut, TestSignal}
use iemmixer.Engine.Topology.{MixNode, position, mix_index, source}
use iemmixer.Engine.Topology.Slots.{position-get}
use iemmixer.Engine.Core.{
  Core, Partial, solo_of, no_change, changed, with_effect, transient, state, is_nil, list_eq,
  listen_partial, mix_at, set_input, set_out, set_level, set_group, put_solo, put_listen, put_stop,
  stop_slots, put_test, stop_test, listen_slot, listened,
}
use iemmixer.Engine.Core.Cases.{set_input_cases, set_out_cases, set_level_cases, set_group_cases}
use iemmixer.Engine.Core.Rules.{Rules}
use iemmixer.Engine.Core.Revision.{stop_slots_quiet}
use iemmixer.Proto.Msg.{Change}
use iemmixer.Server.Mirror.{Mirror, change, change_all, soloed, put_level}
use iemmixer.Server.Mirror.Follows.{
  OneName, Follows, moved-Follows, input_state, entry_state, out-to_mix, group-to_mix, level-to_mix,
}
use iemmixer.Server.Mirror.Solos.{soloed-change, soloed-map_remove, soloed-map_insert, called_at}

ok_or-ok : {E A : Type 0} (e : E) (o : Option A) (a : A) → ok_or o e ≡ ok a → o ≡ some a
ok_or-ok e none a h = absurd cc
ok_or-ok e (some x) a h = cc

pub is_nil_lem : {A : Type 0} (xs : List A) → is_nil xs ≡ true → xs ≡ []
is_nil_lem [] h = refl
is_nil_lem (x ∷ xs) h = cc

module _ {F : Type 0} ⦃fl : Float F⦄ where
  pub record Tells (c : Core F) (r : Core F × Partial F) : Type 0 where
    pub topo : r.0.topo ≡ c.topo
    pub told :
        OneName c.topo → (m : Mirror F) → Follows c m → Follows r.0 (change_all r.1.changes m)

  pub quiet-Tells : (c : Core F) (p : Partial F) → p.changes ≡ [] → Tells c (c, p)
  unfolding change_all
  quiet-Tells c p e = record { topo = refl; told = λ one m h. rw e h }

  input-Tells : (c : Core F) (i : ℕ) (new : InputState F) → Tells c (set_input c i new)
  unfolding change_all changed transient
  input-Tells c i new =
      set_input_cases (Tells c) c i new (quiet-Tells c no_change refl) (λ old node h e _. record {
        topo = refl;
        told = λ one m f.
            moved-Follows c _ m _ f (input_state c m one f.state i node old new e h) refl refl;
      })

  out-Tells : (c : Core F) (m : ℕ) (new : MixOut F) → Tells c (set_out c m new)
  unfolding change_all changed transient
  out-Tells c m new =
      set_out_cases (Tells c) c m new (quiet-Tells c no_change refl) (λ rec node h e _. record {
        topo = refl;
        told = λ one mir f.
            moved-Follows c _ mir _ f
              (entry_state c mir one f.state m node rec (record rec { out = new })
                (λ x. record x { out = new }) e h (out-to_mix c.topo m rec new))
              refl refl;
      })

  level-Tells : (c : Core F) (m k : ℕ) (new : Level F) → Tells c (set_level c m k new)
  unfolding change_all changed transient
  level-Tells c m k new =
      set_level_cases (Tells c) c m k new (quiet-Tells c no_change refl) (λ rec old node s e q h g.
        record {
          topo = refl;
          told = λ one mir f.
              moved-Follows c _ mir _ f
                (entry_state c mir one f.state m node rec (record rec { levels = _ })
                  (put_level s new) e h (level-to_mix c.topo m k rec s old new one q g))
                refl refl;
        })

  group-Tells : (c : Core F) (m g : ℕ) (new : MixGroup F) → Tells c (set_group c m g new)
  unfolding change_all changed transient
  group-Tells c m g new =
      set_group_cases (Tells c) c m g new (quiet-Tells c no_change refl)
        (λ rec old node group e q h o. record {
          topo = refl;
          told = λ one mir f.
              moved-Follows c _ mir _ f
                (entry_state c mir one f.state m node rec (record rec { groups = _ })
                  (λ x. record x { groups = insert group.id new x.groups }) e h
                  (group-to_mix c.topo m g rec group old new one q o))
                refl refl;
        })

  -- A change of the taps, and of the test signal, on both sides.
  listen-Follows :
      (c : Core F) (m : Mirror F) (taps : List (Option ℕ))
      → Follows c m
      → Follows
          (record c { listen = taps })
          (change (Change.listen (listened (record c { listen = taps }))) m)
  unfolding change transient state
  listen-Follows c m taps f = record {
    state = f.state;
    solo = λ mix. f.solo mix;
    listen = refl;
    test_signal = f.test_signal;
  }

  pub test-Follows :
      (c : Core F) (m : Mirror F) (signal : Option (TestSignal F)) (hil : Bool)
      → Follows c m
      → Follows (record c { test = signal; hil_test = hil }) (change (Change.test_signal signal) m)
  unfolding change transient state
  test-Follows c m signal hil f = record {
    state = f.state;
    solo = λ mix. f.solo mix;
    listen = f.listen;
    test_signal = refl;
  }

  solos_held :
      (c : Core F) (mix id : MixId) (m : ℕ) (node : MixNode) (new : List ℕ)
      → OneName c.topo
      → get_elem? c.topo.mixes m ≡ some node
      → node.id ≡ mix
      → soloed id (
          filter_map
            (solo_of c)
            (if is_nil new then map_remove m c.solo else map_insert m new c.solo))
        ≡ (if same mix id then filter_map (source c.topo m) new else soloed id (transient c).solo)
  unfolding transient
  solos_held c mix id m node [] one e n =
      let (at, once) = called_at c mix m node one e n in soloed-map_remove c mix m at once id c.solo
  solos_held c mix id m node (k ∷ new) one e n =
      let (at, once) = called_at c mix m node one e n in
      soloed-map_insert c mix m at once id (k ∷ new) c.solo

  solo-Tells :
      (c : Core F) (mix : MixId) (m : ℕ) (new : List ℕ)
      → mix_at c mix ≡ ok m
      → Tells c (put_solo mix m new c)
  unfolding change_all change changed transient state put_solo mix_at mix_index
  solo-Tells c mix m new h = elim (Bool-cases (list_eq (unwrap_or (map_get m c.solo) []) new)) [
    | inl e ↦ rw e (quiet-Tells c no_change refl)
    | inr e ↦
        let (node, g, q) =
          position-get (λ (n : MixNode). same n.id mix) c.topo.mixes m
            (ok_or-ok _ (position (λ (n : MixNode). same n.id mix) c.topo.mixes) m h) in
        rw e (record {
          topo = refl;
          told = λ one mir f. record {
            state = f.state;
            solo = λ id.
                soloed-change mix id (filter_map (source c.topo m) new) mir.transient.solo
                ∙ ap (λ old. if same mix id then filter_map (source c.topo m) new else old)
                    (f.solo id)
                ∙ sym (solos_held c mix id m node new one g ((same_iff node.id mix).0 q));
            listen = f.listen;
            test_signal = f.test_signal;
          };
        })
  ]

  listen-Tells : (c : Core F) (m : ℕ) → Tells c (put_listen m (listen_slot c m) c)
  unfolding change_all change changed transient state put_listen listen_partial listened
  listen-Tells c m = record { topo = refl; told = λ one mir f. listen-Follows c mir _ f }

  stop-Tells : (c : Core F) (m : ℕ) → Tells c (put_stop m c)
  unfolding change_all change changed transient state put_stop listen_partial listened
  stop-Tells c m = elim (Bool-cases (is_nil (stop_slots {F = F} m 0 c.listen).1)) [
    | inl e ↦ rw e (
        subst (λ l. Tells c (record c { listen = l }, no_change))
          (sym (stop_slots_quiet m 0 c.listen (is_nil_lem _ e))) (quiet-Tells c no_change refl))
    | inr e ↦ rw e (record { topo = refl; told = λ one mir f. listen-Follows c mir _ f })
  ]

  test-Tells :
      (c : Core F) (i : ℕ) (signal : TestSignal F) (mask : Option (List Bool)) (l : Bool)
      → Tells c (put_test i signal mask l c)
  unfolding change_all change changed transient state put_test
  test-Tells c i signal mask l = record {
    topo = refl;
    told = λ one mir f. test-Follows c mir _ _ f;
  }

  stop_test-Tells : (c : Core F) → Tells c (stop_test c)
  unfolding change_all change changed transient state stop_test
  stop_test-Tells c = elim (Bool-cases (is_some c.test)) [
    | inl e ↦ rw e (record { topo = refl; told = λ one mir f. test-Follows c mir _ _ f })
    | inr e ↦ rw e (quiet-Tells c no_change refl)
  ]

  pub Tells-Rules : Rules Tells
  unfolding changed with_effect change_all change
  Tells-Rules = record {
    kept = λ c. quiet-Tells c no_change refl;
    effect = λ c e h. quiet-Tells c (with_effect e) refl;
    arm = λ c. quiet-Tells c _ refl;
    reset = λ c mix m. record { topo = refl; told = λ one mir f. f };
    input = input-Tells;
    out = out-Tells;
    level = level-Tells;
    group = group-Tells;
    solo = solo-Tells;
    listen = listen-Tells;
    stop = stop-Tells;
    test = test-Tells;
    stop_test = stop_test-Tells;
  }
