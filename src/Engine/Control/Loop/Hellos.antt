-- ===== src/Engine/Control/Loop/Hellos.antt =====
-- A hello, and every other message, leaves the connections in order
-- (crates/iem-engine/src/control/connections.rs, `hello`; control/requests.rs, `frame`).
use iemmixer.Base.{
  ℕ, ◌≡◌, refl, sym, ap, ◌∙◌, subst, inl, inr, true, Option, none, some, arith, ◌==◌, ==_iff,
  is_some, map_get, map_get-remove, Bool-cases, Option-cases,
}
use mathlib.Core.Option.{some-injective}
use iemmixer.Float.{Float}
use iemmixer.Proto.Msg.{Role, control, observe, supervisor}
use iemmixer.Proto.EngineMsg.{EngineMsg}
use iemmixer.Engine.Control.Loop.{
  Outside, Control, other_than, drop_peer, send, negotiate, proto_version,
}
use iemmixer.Engine.Control.Loop.Handlers.{
  supersede, take_control, take_supervision, greet, on_hello,
}
use iemmixer.Engine.Control.Loop.Kept.{Kept, parts-Kept, reply-Kept, supersede-Kept, welcome-Kept}
use iemmixer.Engine.Control.Loop.Seats.{
  Seated, Seated-Kept, drop_peer-Seated, length-set_role, get-set_role, supersede_elsewhere,
  supersede_controller,
}

module _ {F : Type 0} ⦃fl : Float F⦄ (o : Outside F) (now : ℕ) where
  supervisor-Kept : (who : Option ℕ) → Kept {F = F} (λ s. s.supervisor ≡ who)
  unfolding drop_peer
  supervisor-Kept who =
      parts-Kept (λ core peers controller lost supervised. supervised ≡ who)
        (λ now id s h. ground (arith, h))

  drop_peer_gone : (id : ℕ) (s : Control F) → map_get id (drop_peer now id s).peers ≡ none
  unfolding drop_peer
  drop_peer_gone id s = ground (arith, map_get-remove id id s.peers)

  -- The old supervisor is gone.
  supersede_supervisor :
      (id k : ℕ) (s : Control F) (taken : Option ℕ)
      → s.supervisor ≡ taken
      → Seated s
      → map_get k (supersede o now (other_than taken id) s).peers ≡ some (some supervisor)
      → k ≡ id
  unfolding supersede
  supersede_supervisor id k s none e h q = absurd (cc (sym e ∙ h.supervises k q))
  supersede_supervisor id k s (some old) e h q =
      let t : Control F = supersede o now (other_than (some old) id) s in
      let i : Seated t = supersede-Kept Seated Seated-Kept o now (other_than (some old) id) s h in
      let kept : t.supervisor ≡ some old =
        supersede-Kept (λ s. s.supervisor ≡ some old) (supervisor-Kept (some old)) o now
          (other_than (some old) id) s e in
      let it : k ≡ old = some-injective _ _ (sym (i.supervises k q) ∙ kept) in
      elim (Bool-cases (old == id)) [
        | inl b ↦ it ∙ (==_iff old id).0 b
        | inr b ↦
            let gone : map_get old t.peers ≡ none =
              rw (b, supersede) (drop_peer_gone old (send o now old EngineMsg.superseded s)) in
            absurd (cc (sym (subst (λ j. map_get j t.peers ≡ some (some supervisor)) it q) ∙ gone))
      ]

  take_control-Seated :
      (id : ℕ) (s : Control F)
      → is_some (map_get id s.peers) ≡ true
      → Seated s
      → Seated (take_control o now id control s)
  take_control-Seated id s there h =
      let t : Control F = supersede o now (other_than s.controller id) s in
      let i : Seated t = supersede-Kept Seated Seated-Kept o now (other_than s.controller id) s h in
      record {
        few = i.few;
        controls = λ k q. elim (supersede_controller o now id s s.controller refl) [
          | inl n ↦ absurd (cc (sym n ∙ i.controls k q))
          | inr n ↦ sym n ∙ i.controls k q
        ];
        supervises = i.supervises;
        there = λ k q.
            subst (λ k. is_some (map_get k t.peers) ≡ true) (some-injective _ _ q)
              (ap is_some (supersede_elsewhere o now s.controller id s) ∙ there);
        grace = λ q. refl;
      }

  take_supervision-Seated :
      (id : ℕ) (s : Control F) → Seated s → Seated (take_supervision o now id supervisor s)
  take_supervision-Seated id s h =
      let i = supersede-Kept Seated Seated-Kept o now (other_than s.supervisor id) s h in
      record {
        few = i.few;
        controls = i.controls;
        supervises = λ k q. ap some (sym (supersede_supervisor id k s s.supervisor refl h q));
        there = i.there;
        grace = i.grace;
      }

  greet-Seated :
      (id proto : ℕ) (role : Role) (s : Control F)
      → (role ≡ control → s.controller ≡ some id)
      → (role ≡ supervisor → s.supervisor ≡ some id)
      → Seated s
      → Seated (greet o now id proto role s)
  greet-Seated id proto role s c v h = elim (Option-cases (map_get id s.peers)) [
    | inl e ↦ rw (e, greet) h
    | inr (old, e) ↦
        rw (e, greet)
          (welcome-Kept Seated Seated-Kept o now id proto role _ (record {
            few = omega (arith, h.few, length-set_role id role s.peers);
            controls = λ k q. elim (Bool-cases (k == id)) [
              | inl b ↦
                  c (ground (arith, q, b, get-set_role k id role s.peers))
                  ∙ ap some (sym ((==_iff k id).0 b))
              | inr b ↦ h.controls k (ground (arith, q, b, get-set_role k id role s.peers))
            ];
            supervises = λ k q. elim (Bool-cases (k == id)) [
              | inl b ↦
                  v (ground (arith, q, b, get-set_role k id role s.peers))
                  ∙ ap some (sym ((==_iff k id).0 b))
              | inr b ↦ h.supervises k (ground (arith, q, b, get-set_role k id role s.peers))
            ];
            there = λ k q. ground (arith, h.there k q, get-set_role k id role s.peers);
            grace = h.grace;
          }))
  ]

  greeted-Seated :
      (id proto : ℕ) (role : Role) (s : Control F)
      → is_some (map_get id s.peers) ≡ true
      → Seated s
      → Seated (
          greet o now id proto role (take_supervision o now id role (take_control o now id role s)))
  greeted-Seated id proto control s t h =
      greet-Seated id proto control _ (λ e. refl) (λ e. absurd cc) (take_control-Seated id s t h)
  greeted-Seated id proto observe s t h =
      greet-Seated id proto observe s (λ e. absurd cc) (λ e. absurd cc) h
  greeted-Seated id proto supervisor s t h =
      greet-Seated id proto supervisor _ (λ e. absurd cc) (λ e. refl)
        (take_supervision-Seated id s h)

  pub on_hello-Seated :
      (id proto : ℕ) (role : Role) (s : Control F)
      → is_some (map_get id s.peers) ≡ true
      → Seated s
      → Seated (on_hello o now id proto role s)
  unfolding on_hello
  on_hello-Seated id proto role s t h = elim (Option-cases (negotiate proto_version proto)) [
    | inl e ↦
        rw (e, on_hello)
          (drop_peer-Seated now id _ (reply-Kept Seated Seated-Kept o now id 0 _ s h))
    | inr (spoken, e) ↦ rw (e, on_hello) (greeted-Seated id spoken role s t h)
  ]
