-- ===== src/Server/Mirror/Genuine.antt =====
-- A mirror that is given messages of the engine in any order, some lost and some twice
-- (crates/iem-server/src/engine/mirror.rs, `Mirror::apply`).
use iemmixer.Base.{
  refl, ℕ, suc, ◌+◌, ◌-◌, ◌≤◌, ◌<◌, ◌≡◌, sym, ◌∙◌, subst, inl, inr, ◌⊎◌, Bool, true, false, List,
  [], ◌∷◌, arith, All, Bool-cases, leb,
}
use iemmixer.Float.{Float}
use iemmixer.Proto.EngineMsg.{EngineMsg}
use iemmixer.Engine.Core.{Core, state, transient}
use iemmixer.Engine.Control.Broadcasts.{Deed, announce, act, broadcast_all, state_msg}
use iemmixer.Server.Mirror.{Mirror, apply}
use iemmixer.Server.Mirror.Follows.{OneName, Follows, moved-Follows}
use iemmixer.Server.Mirror.Acts.{quiet, told, replaced, announce-Acts}
use iemmixer.Server.Mirror.History.{
  core_at, broadcasts, apply_all, InStep, state_msg-InStep, apply_delta_cases, taken-InStep,
  small_next,
}
use iemmixer.Server.Mirror.Runs.{names, bounded, later}

module _ {F : Type 0} where
  abbrev pub carries_state : EngineMsg F → Bool
  carries_state (EngineMsg.state rev state transient) = true
  carries_state (EngineMsg.delta rev origin changes) = true
  carries_state _ = false

  abbrev pub Among : EngineMsg F → List (EngineMsg F) → Type 0
  Among msg [] = ⊥
  Among msg (x ∷ xs) = (msg ≡ x) ⊎ Among msg xs

  -- What is broadcast was announced.
  Among-broadcast_all :
      (encodes : EngineMsg F → Bool) (msg : EngineMsg F) (msgs : List (EngineMsg F))
      → Among msg (broadcast_all encodes msgs)
      → Among msg msgs
  Among-broadcast_all encodes msg [] a = a
  Among-broadcast_all encodes msg (x ∷ xs) a = elim (Bool-cases (encodes x)) [
    | inr e ↦ inr (Among-broadcast_all encodes msg xs (rw e at a))
    | inl e ↦ elim (rw e at a) [
      | inl q ↦ inl q
      | inr b ↦ inr (Among-broadcast_all encodes msg xs b)
    ]
  ]

module _ {F : Type 0} ⦃fl : Float F⦄ where
  -- A message that the engine may send in its first `last` deeds: the core's state at some moment, a
  -- broadcast, or a message of another kind.
  pub data Genuine (encodes : EngineMsg F → Bool) (deeds : ℕ → Deed F) (c : Core F) (last : ℕ)
      (msg : EngineMsg F) : Type 0 where
    whole :
        (n : ℕ) → n ≤ last → msg ≡ state_msg (core_at deeds c n) → Genuine encodes deeds c last msg
    sent :
        (n : ℕ)
        → n < last
        → Among msg (broadcasts encodes deeds c n)
        → Genuine encodes deeds c last msg
    apart : carries_state msg ≡ false → Genuine encodes deeds c last msg

  -- The core's state at some moment of the run is what the mirror shows, with its revision.
  pub record Shown (deeds : ℕ → Deed F) (c : Core F) (last : ℕ) (m : Mirror F) : Type 0 where
    pub moment : ℕ
    pub past : moment ≤ last
    pub rev : m.rev ≡ (core_at deeds c moment).rev
    pub follows : Follows (core_at deeds c moment) m

  module _ (encodes : EngineMsg F → Bool) (deeds : ℕ → Deed F) (c : Core F) (last : ℕ)
      (one : OneName c.topo) (small : c.rev + last < 18446744073709551616) where
    abbrev Right : Mirror F → Type 0
    Right m = m.synced ≡ true → Shown deeds c last m

    InStep-Shown :
        (n : ℕ) (m : Mirror F) → n ≤ last → InStep (core_at deeds c n) m → Shown deeds c last m
    InStep-Shown n m b i = record { moment = n; past = b; rev = i.rev; follows = i.follows }

    alike-Shown :
        (m n : Mirror F)
        → Shown deeds c last m
        → n.state ≡ m.state
        → n.transient ≡ m.transient
        → n.rev ≡ m.rev
        → Shown deeds c last n
    alike-Shown m n i s t r = record {
      moment = i.moment;
      past = i.past;
      rev = r ∙ i.rev;
      follows = moved-Follows _ _ m n i.follows (s ∙ i.follows.state) t refl;
    }

    apart-Right :
        (msg : EngineMsg F) (m : Mirror F)
        → carries_state msg ≡ false
        → Right m
        → Right (apply msg m).0
    unfolding apply
    apart-Right (EngineMsg.hello h) m e r = λ s. alike-Shown m _ (r s) refl refl refl
    apart-Right (EngineMsg.topology t) m e r = λ s. alike-Shown m _ (r s) refl refl refl
    apart-Right (EngineMsg.state rev state transient) m e r = cc
    apart-Right (EngineMsg.delta rev origin changes) m e r = cc
    apart-Right (EngineMsg.reply x) m e r = r
    apart-Right (EngineMsg.meters x) m e r = r
    apart-Right (EngineMsg.status x) m e r = r
    apart-Right (EngineMsg.saved x y) m e r = r
    apart-Right (EngineMsg.alarm x) m e r = r
    apart-Right (EngineMsg.driver_released x) m e r = r
    apart-Right EngineMsg.superseded m e r = r

    state-Right :
        (n : ℕ) (m : Mirror F) → n ≤ last → Right (apply (state_msg (core_at deeds c n)) m).0
    state-Right n m b = λ s. InStep-Shown n _ b (state_msg-InStep (core_at deeds c n) m)

    -- A mirror at the revision before deed `n` shows the core at that moment.
    moment-Follows :
        (n : ℕ) (m : Mirror F) (i : Shown deeds c last m)
        → n < last
        → m.rev ≡ (core_at deeds c n).rev
        → (core_at deeds c (suc n)).rev ≡ (core_at deeds c n).rev + 1
        → Follows (core_at deeds c n) m
    moment-Follows n m i b q r = elim (Bool-cases (leb i.moment n)) [
      | inl e ↦
          let k : n ≡ i.moment + (n - i.moment) = ground (arith, e) in
          let (up, same) =
            later deeds c one (n - i.moment) i.moment n k (omega (arith, b, small)) in
          same (sym q ∙ i.rev) m i.follows
      | inr e ↦
          let k : i.moment ≡ suc n + (i.moment - suc n) = ground (arith, e) in
          let (up, same) =
            later deeds c one (i.moment - suc n) (suc n) i.moment k
              (omega (arith, i.past, small)) in
          absurd (omega (arith, up, r, q, i.rev))
    ]

    sent-Right :
        (n : ℕ) (msg : EngineMsg F) (m : Mirror F)
        → n < last
        → Among msg (broadcasts encodes deeds c n)
        → Right m
        → Right (apply msg m).0
    unfolding broadcasts core_at act apply
    sent-Right n msg m b from r =
        let d : Core F = core_at deeds c n in
        let a = Among-broadcast_all encodes msg (announce (deeds n) d).1 from in
        let room = bounded deeds c one n (omega (arith, b, small)) in
        let next = small_next d.rev (omega (arith, b, small, room)) in
        elim ((announce-Acts (deeds n) d).shows) [
          | quiet e q f ↦ absurd (rw e at a)
          | replaced e q ↦ elim (rw e at a) [
            | inl k ↦
                subst (λ msg. Right (apply msg m).0) (sym k)
                  (state-Right (suc n) m (omega (arith, b)))
            | inr k ↦ absurd k
          ]
          | told origin changes e q f ↦ elim (rw e at a) [
            | inl k ↦
                let d' : Core F = (announce (deeds n) d).0 in
                subst (λ msg. Right (apply msg m).0) (sym k)
                  (apply_delta_cases Right d'.rev origin changes m r (λ s. absurd cc)
                    (λ s v _.
                      let q' : m.rev ≡ d.rev = omega (arith, v, q, next) in
                      InStep-Shown (suc n) _ (omega (arith, b)) (
                        taken-InStep d' m changes s
                          (f (names deeds c one n) m (moment-Follows n m (r s) b q' (q ∙ next))))))
            | inr k ↦ absurd k
          ]
        ]

    genuine-Right :
        (msgs : List (EngineMsg F)) (m : Mirror F)
        → All (Genuine encodes deeds c last) msgs
        → Right m
        → Right (apply_all msgs m)
    unfolding apply_all
    genuine-Right [] m a r = r
    genuine-Right (msg ∷ msgs) m (g, a) r = genuine-Right msgs (apply msg m).0 a (elim g [
      | whole n b e ↦ subst (λ msg. Right (apply msg m).0) (sym e) (state-Right n m b)
      | sent n b x ↦ sent-Right n msg m b x r
      | apart e ↦ apart-Right msg m e r
    ])

    pub apply_all-Shown :
        (msgs : List (EngineMsg F)) (m : Mirror F)
        → All (Genuine encodes deeds c last) msgs
        → m.synced ≡ false
        → (apply_all msgs m).synced ≡ true
        → Shown deeds c last (apply_all msgs m)
    apply_all-Shown msgs m a s = genuine-Right msgs m a (λ t. absurd cc)
