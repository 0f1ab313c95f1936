-- ===== src/Server/Mirror/Runs.antt =====
-- A run of the control loop and the mirror of the server (crates/iem-engine/src/control.rs,
-- crates/iem-server/src/engine/mirror.rs): given every broadcast it stays in step, and given any of
-- them it never shows what the core did not hold.
use iemmixer.Base.{ℕ, zero, suc, Bool, ◌+◌, ◌≤◌, ◌<◌, ◌≡◌, refl, sym, ◌∙◌, subst, arith}
use iemmixer.Float.{Float}
use iemmixer.Proto.EngineMsg.{EngineMsg}
use iemmixer.Engine.Core.{Core}
use iemmixer.Engine.Control.Broadcasts.{Deed, announce, act, broadcast_all_whole}
use iemmixer.Server.Mirror.{Mirror}
use iemmixer.Server.Mirror.Follows.{OneName, Follows}
use iemmixer.Server.Mirror.Acts.{quiet, told, replaced, announce-Acts}
use iemmixer.Server.Mirror.History.{
  core_at, broadcasts, Encoded, mirror_at, InStep, announce-InStep, small_next,
}

module _ {F : Type 0} ⦃fl : Float F⦄ where
  module _ (deeds : ℕ → Deed F) (c : Core F) (one : OneName c.topo) where
    core_at-topo : (n : ℕ) → (core_at deeds c n).topo ≡ c.topo
    unfolding core_at
    core_at-topo zero = refl
    core_at-topo (suc n) = (announce-Acts (deeds n) (core_at deeds c n)).topo ∙ core_at-topo n

    pub names : (n : ℕ) → OneName (core_at deeds c n).topo
    names n = subst OneName (sym (core_at-topo n)) one

    -- One deed raises the revision by one at most.
    next_rev :
        (n : ℕ)
        → (core_at deeds c n).rev + 1 < 18446744073709551616
        → (core_at deeds c (suc n)).rev ≤ (core_at deeds c n).rev + 1
    unfolding core_at
    next_rev n b = elim ((announce-Acts (deeds n) (core_at deeds c n)).shows) [
      | quiet e r f ↦ omega (arith, r)
      | told origin changes e r f ↦ omega (arith, r, small_next (core_at deeds c n).rev b)
      | replaced e r ↦ omega (arith, r, small_next (core_at deeds c n).rev b)
    ]

    pub bounded : (n : ℕ) → c.rev + n < 18446744073709551616 → (core_at deeds c n).rev ≤ c.rev + n
    unfolding core_at
    bounded zero b = omega arith
    bounded (suc n) b =
        let ih = bounded n (omega (arith, b)) in
        omega (arith, ih, next_rev n (omega (arith, ih, b)))

    -- A mirror that is in step, and is given all that is broadcast, stays in step.
    pub mirror_at-InStep :
        (encodes : EngineMsg F → Bool) (m : Mirror F) (n : ℕ)
        → c.rev + n < 18446744073709551616
        → ((k : ℕ) → k < n → Encoded encodes deeds c k)
        → InStep c m
        → InStep (core_at deeds c n) (mirror_at encodes deeds c m n)
    unfolding core_at mirror_at broadcasts act
    mirror_at-InStep encodes m zero b h i = i
    mirror_at-InStep encodes m (suc n) b h i =
        let b' : c.rev + n < 18446744073709551616 = omega (arith, b) in
        rw
          (broadcast_all_whole encodes (announce (deeds n) (core_at deeds c n)).1
            (h n (omega arith)))
          (announce-InStep (deeds n) (core_at deeds c n) (mirror_at encodes deeds c m n) (names n)
            (omega (arith, b, bounded n b'))
            (mirror_at-InStep encodes m n b' (λ k l. h k (omega (arith, l))) i))

    -- What was shown at a moment is shown later, while the revision is the same.
    pub later :
        (k n j : ℕ)
        → j ≡ n + k
        → c.rev + j < 18446744073709551616
        → ((core_at deeds c n).rev ≤ (core_at deeds c j).rev)
          × ((core_at deeds c j).rev ≡ (core_at deeds c n).rev
              → (m : Mirror F) → Follows (core_at deeds c n) m
              → Follows (core_at deeds c j) m)
    unfolding core_at
    later zero n j e b =
        let q : n ≡ j = omega (arith, e) in
        subst
          (λ j.
            ((core_at deeds c n).rev ≤ (core_at deeds c j).rev)
            × ((core_at deeds c j).rev ≡ (core_at deeds c n).rev
                → (m : Mirror F) → Follows (core_at deeds c n) m
                → Follows (core_at deeds c j) m))
          q (omega arith, λ _ m f. f)
    later (suc k) n zero e b = absurd (omega (arith, e))
    later (suc k) n (suc j) e b =
        let (up, same) = later k n j (omega (arith, e)) (omega (arith, b)) in
        let small = bounded j (omega (arith, b)) in
        let next = small_next (core_at deeds c j).rev (omega (arith, b, small)) in
        elim ((announce-Acts (deeds j) (core_at deeds c j)).shows) [
          | quiet m r f ↦ (omega (arith, r, up), λ q m g. f (names j) m (same (sym r ∙ q) m g))
          | told origin changes m r f ↦
              (omega (arith, r, up, next), λ q. absurd (omega (arith, q, r, up, next)))
          | replaced m r ↦ (omega (arith, r, up, next), λ q. absurd (omega (arith, q, r, up, next)))
        ]
