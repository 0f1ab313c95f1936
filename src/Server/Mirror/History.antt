-- ===== src/Server/Mirror/History.antt =====
-- The engine and the server's mirror over a run of the control loop: the core after each of a
-- sequence of requests and timers, what is broadcast on the way, and a mirror that is given some of
-- it.
use iemmixer.Base.{
  ℕ, zero, suc, ◌+◌, ◌<◌, ◌≡◌, refl, sym, ◌∙◌, subst, inl, inr, true, false, not, ◌||◌, Option,
  List, [], ◌∷◌, Bool, All, arith, leb, ◌==◌, Bool-cases,
}
use iemmixer.Float.{Float}
use iemmixer.Proto.Msg.{Change}
use iemmixer.Proto.EngineMsg.{EngineMsg}
use iemmixer.Engine.Core.{Core, u64, transient}
use iemmixer.Engine.Control.Broadcasts.{Deed, announce, act, state_msg}
use iemmixer.Server.Mirror.{Mirror, change, change_all, apply, apply_delta}
use iemmixer.Server.Mirror.Follows.{OneName, Follows, moved-Follows}
use iemmixer.Server.Mirror.Acts.{quiet, told, replaced, announce-Acts}

pub small_next : (n : ℕ) → n + 1 < 18446744073709551616 → u64 (n + 1) ≡ n + 1
small_next n h = omega arith

module _ {F : Type 0} ⦃fl : Float F⦄ where
  unfoldable pub core_at : (ℕ → Deed F) → Core F → ℕ → Core F
  core_at deeds c zero = c
  core_at deeds c (suc n) = (announce (deeds n) (core_at deeds c n)).0

  -- What deed `n` makes the engine broadcast.
  unfoldable pub broadcasts : (EngineMsg F → Bool) → (ℕ → Deed F) → Core F → ℕ → List (EngineMsg F)
  broadcasts encodes deeds c n = (act encodes (deeds n) (core_at deeds c n)).1

  -- All that deed `n` has to broadcast encodes.
  abbrev pub Encoded : (EngineMsg F → Bool) → (ℕ → Deed F) → Core F → ℕ → Type 0
  Encoded encodes deeds c n =
      All (λ msg. encodes msg ≡ true) (announce (deeds n) (core_at deeds c n)).1

  -- A mirror that takes messages in turn.
  unfoldable pub apply_all : List (EngineMsg F) → Mirror F → Mirror F
  unfolding apply
  apply_all [] m = m
  apply_all (msg ∷ msgs) m = apply_all msgs (apply msg m).0

  -- The mirror after the first `n` deeds, given all that is broadcast.
  unfoldable pub mirror_at : (EngineMsg F → Bool) → (ℕ → Deed F) → Core F → Mirror F → ℕ → Mirror F
  unfolding apply_all broadcasts
  mirror_at encodes deeds c m zero = m
  mirror_at encodes deeds c m (suc n) =
      apply_all (broadcasts encodes deeds c n) (mirror_at encodes deeds c m n)

  -- The mirror is synced, at the core's revision, and shows its state.
  pub record InStep (c : Core F) (m : Mirror F) : Type 0 where
    pub synced : m.synced ≡ true
    pub rev : m.rev ≡ c.rev
    pub follows : Follows c m

  pub state_msg-InStep : (c : Core F) (m : Mirror F) → InStep c (apply (state_msg c) m).0
  unfolding apply state_msg transient
  state_msg-InStep c m = record {
    synced = refl;
    rev = refl;
    follows = record { state = refl; solo = λ mix. refl; listen = refl; test_signal = refl };
  }

  change-synced : (c : Change F) (m : Mirror F) → (change c m).synced ≡ m.synced
  unfolding change
  change-synced (Change.input id s) m = refl
  change-synced (Change.mix_out mix out) m = refl
  change-synced (Change.level mix source level) m = refl
  change-synced (Change.group mix group s) m = refl
  change-synced (Change.solo mix sources) m = refl
  change-synced (Change.listen listen) m = refl
  change-synced (Change.test_signal signal) m = refl
  change-synced (Change.limiter_stats_reset mix) m = refl

  change_all-synced : (cs : List (Change F)) (m : Mirror F) → (change_all cs m).synced ≡ m.synced
  unfolding change_all
  change_all-synced [] m = refl
  change_all-synced (c ∷ cs) m = change_all-synced cs (change c m) ∙ change-synced c m

  -- What a delta does to a mirror: nothing, the loss of its sync, or its changes.
  pub apply_delta_cases :
      (P : Mirror F → Type 0) (rev : ℕ) (origin : Option ℕ) (changes : List (Change F))
      (m : Mirror F)
      → P m
      → P (record m { synced = false })
      → (m.synced ≡ true → rev ≡ m.rev + 1 → P (record (change_all changes m) { rev = rev }))
      → P (apply_delta rev origin changes m).0
  unfolding apply_delta
  apply_delta_cases P rev origin changes m kept lost taken =
      elim (Bool-cases (not m.synced || leb rev m.rev)) [
        | inl e ↦ rw (e, apply_delta) kept
        | inr e ↦ elim (Bool-cases (rev == m.rev + 1)) [
          | inl q ↦ rw (e, q, apply_delta) (taken (ground (arith, e)) (ground (arith, q)))
          | inr q ↦ rw (e, q, apply_delta) lost
        ]
      ]

  -- The next delta is taken.
  apply_delta_next :
      (rev : ℕ) (origin : Option ℕ) (changes : List (Change F)) (m : Mirror F)
      → m.synced ≡ true
      → rev ≡ m.rev + 1
      → (apply_delta rev origin changes m).0 ≡ record (change_all changes m) { rev = rev }
  unfolding apply_delta
  apply_delta_next rev origin changes m s r =
      let old : (not m.synced || leb rev m.rev) ≡ false = ground (arith, s, r) in
      let next : (rev == m.rev + 1) ≡ true = ground (arith, r) in rw (old, next, apply_delta) refl

  pub taken-InStep :
      (d : Core F) (m : Mirror F) (changes : List (Change F))
      → m.synced ≡ true
      → Follows d (change_all changes m)
      → InStep d (record (change_all changes m) { rev = d.rev })
  taken-InStep d m changes s f = record {
    synced = change_all-synced changes m ∙ s;
    rev = refl;
    follows = moved-Follows d d (change_all changes m) _ f f.state refl refl;
  }

  -- One deed, and the mirror given all that it makes the engine broadcast.
  pub announce-InStep :
      (deed : Deed F) (c : Core F) (m : Mirror F)
      → OneName c.topo
      → c.rev + 1 < 18446744073709551616
      → InStep c m
      → InStep (announce deed c).0 (apply_all (announce deed c).1 m)
  unfolding apply_all apply
  announce-InStep deed c m one b i =
      let d : Core F = (announce deed c).0 in
      elim ((announce-Acts deed c).shows) [
        | quiet e r f ↦
            rw e (record { synced = i.synced; rev = i.rev ∙ sym r; follows = f one m i.follows })
        | told origin changes e r f ↦
            let r' : d.rev ≡ m.rev + 1 = omega (arith, r, i.rev, small_next c.rev b) in
            rw e (
              subst (λ m. InStep d m) (sym (apply_delta_next d.rev origin changes m i.synced r'))
                (taken-InStep d m changes i.synced (f one m i.follows)))
        | replaced e r ↦ rw e (state_msg-InStep d m)
      ]
