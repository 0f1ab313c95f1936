-- ===== src/Server/Mirror/Timers.antt =====
-- What the loop's own timers tell (crates/iem-engine/src/core.rs, `clear_solos`,
-- `end_test_signal`).
use iemmixer.Base.{
  ℕ, ◌≡◌, refl, sym, ap, ◌∙◌, inl, inr, none, some, List, [], ◌∷◌, if◌then◌else◌, get_elem?,
  map_remove, same, Option-cases, subst,
}
use mathlib.Core.List.{append-nil}
use iemmixer.Float.{Float}
use iemmixer.Proto.Msg.{Change}
use iemmixer.Engine.Topology.{MixNode}
use iemmixer.Engine.Core.{Core, Partial, no_change, gather, clear_from, state, transient}
use iemmixer.Server.Mirror.{change, change_all}
use iemmixer.Server.Mirror.Follows.{Follows}
use iemmixer.Server.Mirror.Solos.{
  called, soloed-change, soloed-map_remove, soloed-map_remove_unknown, called_at,
}
use iemmixer.Server.Mirror.Tells.{Tells}
use iemmixer.Server.Mirror.Requests.{Tells-gather}

module _ {F : Type 0} ⦃fl : Float F⦄ where
  -- A partial that names these changes.
  abbrev naming : List (Change F) → Partial F
  naming changes = record no_change { changes = changes }

  Tells-changes :
      (a d : Core F) (p q : Partial F) → p.changes ≡ q.changes → Tells a (d, p) → Tells a (d, q)
  Tells-changes a d p q e h = record {
    topo = h.topo;
    told = λ one m f. subst (λ cs. Follows d (change_all cs m)) e (h.told one m f);
  }

  -- The solo of a mix cleared, and told.
  cleared-Tells :
      (c : Core F) (m : ℕ) (node : MixNode)
      → get_elem? c.topo.mixes m ≡ some node
      → Tells c (record c { solo = map_remove m c.solo }, naming (Change.solo node.id [] ∷ []))
  unfolding change_all change transient state
  cleared-Tells c m node e = record {
    topo = refl;
    told = λ one mir f.
        let (at, once) = called_at c node.id m node one e refl in
        record {
          state = f.state;
          solo = λ id.
              soloed-change node.id id [] mir.transient.solo
              ∙ ap (λ old. if same node.id id then [] else old) (f.solo id)
              ∙ sym (soloed-map_remove c node.id m at once id c.solo);
          listen = f.listen;
          test_signal = f.test_signal;
        };
  }

  unknown-Tells :
      (c : Core F) (m : ℕ)
      → get_elem? c.topo.mixes m ≡ none
      → Tells c (record c { solo = map_remove m c.solo }, no_change)
  unfolding change_all transient state
  unknown-Tells c m e = record {
    topo = refl;
    told = λ one mir f. record {
      state = f.state;
      solo = λ id. f.solo id ∙ sym (soloed-map_remove_unknown c m id c.solo (rw (e, called) refl));
      listen = f.listen;
      test_signal = f.test_signal;
    };
  }

  pub clear_from-Tells :
      (ms : List ℕ) (a c : Core F) (p : Partial F) → Tells a (c, p) → Tells a (clear_from ms p c)
  unfolding clear_from
  clear_from-Tells [] a c p h = h
  clear_from-Tells (m ∷ ms) a c p h =
      let d : Core F = record c { solo = map_remove m c.solo } in
      elim (Option-cases (get_elem? c.topo.mixes m)) [
        | inl e ↦
            rw (e, clear_from)
              (clear_from-Tells ms a d _ (
                Tells-changes a d (gather p no_change) _ (append-nil p.changes)
                  (Tells-gather a c d p no_change h (unknown-Tells c m e))))
        | inr (node, e) ↦
            rw (e, clear_from)
              (clear_from-Tells ms a d _ (
                Tells-changes a d (gather p (naming (Change.solo node.id [] ∷ []))) _ refl (
                  Tells-gather a c d p (naming (Change.solo node.id [] ∷ [])) h
                    (cleared-Tells c m node e))))
      ]

  -- Clearing touches neither the revision nor the effect.
  pub clear_from_quiet :
      (ms : List ℕ) (c : Core F) (p : Partial F)
      → ((clear_from ms p c).0.rev ≡ c.rev) × ((clear_from ms p c).1.effect ≡ p.effect)
  unfolding clear_from
  clear_from_quiet [] c p = (refl, refl)
  clear_from_quiet (m ∷ ms) c p = clear_from_quiet ms (record c { solo = map_remove m c.solo }) _
