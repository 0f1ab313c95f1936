-- ===== src/Engine/Processor/Solos.antt =====
-- A solo and the listen taps as the processor holds them (crates/iem-engine/src/core.rs,
-- `set_solo`, `clear_solos`, `start_listen`, `stop_listen`).
use iemmixer.Base.{
  ℕ, ◌<◌, ◌≡◌, ◌≢◌, refl, sym, ap, ◌||◌, ◌∙◌, inl, inr, Bool-cases, Option, some, List, [], ◌∷◌,
  arith, length, get_elem?, set, map_from, map_from-update, map_from-set_any, length-map_from,
  renew_lem, map_option, map_get, ◌==◌, ◌%◌,
}
use mathlib.Core.Option.{some-injective}
use iemmixer.Float.{Float}
use iemmixer.Engine.Rt.{RtOp, ix}
use iemmixer.Engine.Dsp.{Gain}
use iemmixer.Engine.Processor.{MixTarget, steps, step}
use iemmixer.Engine.Processor.Mirror.{level_target, mix_target, targets}
use iemmixer.Engine.Processor.Rows.{new_levels, steps-level_ops}
use iemmixer.Engine.Processor.Laid.{Small, Laid, RowLaid}
use iemmixer.Engine.Core.{Core, MixRec, level_ops, silenced, stop_slots, holds, listen_slot}

module _ {F : Type 0} ⦃fl : Float F⦄ where
  -- The row of a mix, renewed, whatever solo and levels it had.
  pub new_levels-mix_target :
      (c : Core F) (solo : List (ℕ × List ℕ)) (m : ℕ) (old rec : MixRec F)
      → length old.levels ≡ length rec.levels
      → (new_levels c m 0 rec.levels (mix_target c.topo solo m old)).levels
        ≡ map_from (level_target c.solo m) 0 rec.levels
  new_levels-mix_target c solo m old rec w =
      renew_lem (λ k l _. level_target c.solo m k l) (level_target c.solo m) rec.levels
        (map_from (level_target solo m) 0 old.levels)
        (length-map_from (level_target solo m) 0 old.levels ∙ w) (λ n x y p q. refl)

  -- The commands of a mix's row, once its solo changed.
  pub solo_synced :
      (c : Core F) (m : ℕ) (rec : MixRec F) (solo : List (ℕ × List ℕ))
      → m < 65536
      → Laid c
      → Small c.topo
      → get_elem? c.s.mixes m ≡ some rec
      → ((n : ℕ) → n ≢ m → map_get n solo ≡ map_get n c.solo)
      → steps (level_ops (record c { solo = solo }) m) (targets c)
        ≡ targets (record c { solo = solo })
  solo_synced c m rec solo b h small e others =
      let c' : Core F = record c { solo = solo } in
      let row : RowLaid c.topo m rec = h.state.rows m rec e in
      steps-level_ops c' m rec (targets c) b (small.levels m) e row.width
      ∙ ap (λ (ms : List (MixTarget F)). record (targets c) { mixes = ms })
          (map_from-update (mix_target c.topo c.solo) (mix_target c.topo solo)
            (new_levels c' m 0 rec.levels) 0 m m c.s.mixes (omega arith)
            (λ n x q.
              ap
                (λ (held : Option (List ℕ)). record (mix_target c.topo c.solo n x) {
                  levels =
                      map_from
                        (λ k l. record (level_target c.solo n k l) {
                          muted = l.muted || silenced k held;
                        })
                        0 x.levels;
                })
                (sym (others n q)))
            (λ x q.
              let same : rec ≡ x = some-injective _ _ (sym e ∙ q) in
              ap (λ (ls : List (Gain F)). record (mix_target c.topo c.solo m x) { levels = ls })
                (ap
                    (λ (r : MixRec F).
                      (new_levels c' m 0 r.levels (mix_target c.topo c.solo m x)).levels)
                    same
                  ∙ new_levels-mix_target c' c.solo m x x refl)))

  -- The command of a tap that starts.
  pub listen_synced :
      (c : Core F) (m : ℕ)
      → step (RtOp.listen (listen_slot c m % 256) (some (ix m))) (targets c)
        ≡ targets (record c { listen = set c.listen (listen_slot c m) (some m) })
  unfolding step
  listen_synced c m = elim (Bool-cases (m == c.topo.engineer)) [
    | inl e ↦ rw e (
        ap (λ (ls : List (Option ℕ)). record (targets c) { listen = ls })
          (map_from-set_any (map_option ix) 0 0 c.listen (some m)))
    | inr e ↦ rw e (
        ap (λ (ls : List (Option ℕ)). record (targets c) { listen = ls })
          (map_from-set_any (map_option ix) 0 1 c.listen (some m)))
  ]

  -- The commands of the taps that stop.
  pub stop_synced :
      (c : Core F) (m : ℕ) (ls : List (Option ℕ))
      → length ls ≡ 2
      → steps
          (stop_slots m 0 ls).1
          (record (targets c) { listen = map_from (λ _. map_option ix) 0 ls })
        ≡ record (targets c) {
          listen = map_from (λ _. map_option ix) 0 (stop_slots {F = F} m 0 ls).0;
        }
  unfolding step stop_slots
  stop_synced c m [] h = absurd (omega (arith, h))
  stop_synced c m (a ∷ []) h = absurd (omega (arith, h))
  stop_synced c m (a ∷ b ∷ []) h = elim (Bool-cases (holds a m)) [
    | inl e ↦ elim (Bool-cases (holds b m)) [ inl f ↦ rw (e, f) refl | inr f ↦ rw (e, f) refl ]
    | inr e ↦ elim (Bool-cases (holds b m)) [ inl f ↦ rw (e, f) refl | inr f ↦ rw (e, f) refl ]
  ]
  stop_synced c m (a ∷ b ∷ d ∷ ls) h = absurd (omega (arith, h))
