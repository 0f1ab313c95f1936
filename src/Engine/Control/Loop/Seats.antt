-- ===== src/Engine/Control/Loop/Seats.antt =====
-- The connections and their roles (crates/iem-engine/src/control.rs, control/connections.rs): eight
-- at most, one controller and one supervisor among them.
use iemmixer.Base.{
  ℕ, suc, ◌≤◌, ◌≡◌, refl, ap, ◌∙◌, inl, inr, ◌⊎◌, true, false, Option, none, some, List, [], ◌∷◌,
  arith, if◌then◌else◌, ◌==◌, ==_iff, length, is_some, map_get, map_insert, map_remove,
  map_get-remove, Bool-cases, Option-cases, map_option,
}
use iemmixer.Float.{Float}
use iemmixer.Proto.Msg.{Role, control, supervisor}
use iemmixer.Proto.EngineMsg.{EngineMsg}
use iemmixer.Engine.Control.Loop.{
  Outside, Control, set_role, is_it, other_than, drop_peer, write, send,
}
use iemmixer.Engine.Control.Loop.Handlers.{supersede}
use iemmixer.Engine.Control.Loop.Kept.{Kept, parts-Kept, send-Kept}

abbrev pub Peers : Type 0
Peers = List (ℕ × Option Role)

-- At most eight connections; whoever has the control role is the controller, whoever has the
-- supervisor's the supervisor; the controller is connected, and the grace runs only without one.
pub record Seats (peers : List (ℕ × Option Role)) (controller lost supervised : Option ℕ)
    : Type 0 where
  pub few : length peers ≤ 8
  pub controls : (id : ℕ) → map_get id peers ≡ some (some control) → controller ≡ some id
  pub supervises : (id : ℕ) → map_get id peers ≡ some (some supervisor) → supervised ≡ some id
  pub there : (id : ℕ) → controller ≡ some id → is_some (map_get id peers) ≡ true
  pub grace : is_some controller ≡ true → lost ≡ none

module _ {V : Type 0} where
  pub length-map_insert :
      (k : ℕ) (v : V) (m : List (ℕ × V)) → length (map_insert k v m) ≤ suc (length m)
  length-map_insert k v [] = omega arith
  length-map_insert k v ((j, w) ∷ m) = ground (arith, length-map_insert k v m)

  length-map_remove : (k : ℕ) (m : List (ℕ × V)) → length (map_remove k m) ≤ length m
  length-map_remove k [] = omega arith
  length-map_remove k ((j, w) ∷ m) = ground (arith, length-map_remove k m)

pub length-set_role : (id : ℕ) (r : Role) (ps : Peers) → length (set_role id r ps) ≡ length ps
length-set_role id r [] = refl
length-set_role id r ((j, w) ∷ ps) = ap suc (length-set_role id r ps)

pub get-set_role :
    (k id : ℕ) (r : Role) (ps : Peers)
    → map_get k (set_role id r ps)
      ≡ (if k == id then map_option (λ _. some r) (map_get k ps) else map_get k ps)
get-set_role k id r [] = ground arith
get-set_role k id r ((j, w) ∷ ps) = ground (arith, get-set_role k id r ps)

module _ {F : Type 0} where
  abbrev pub Seated : Control F → Type 0
  Seated s = Seats s.peers s.controller s.controller_lost s.supervisor

  pub drop_peer-Seated : (now id : ℕ) (s : Control F) → Seated s → Seated (drop_peer now id s)
  unfolding drop_peer
  drop_peer-Seated now id s h = elim (Bool-cases (is_it s.controller id)) [
    | inl e ↦ rw e (record {
      few = omega (arith, h.few, length-map_remove id s.peers);
      controls = λ k q. ground (arith, map_get-remove k id s.peers, h.controls k, q);
      supervises = λ k q. ground (arith, map_get-remove k id s.peers, h.supervises k, q);
      there = λ k q. cc;
      grace = λ q. cc;
    })
    | inr e ↦ rw e (record {
      few = omega (arith, h.few, length-map_remove id s.peers);
      controls = λ k q. ground (arith, map_get-remove k id s.peers, h.controls k, q);
      supervises = λ k q. ground (arith, map_get-remove k id s.peers, h.supervises k, q);
      there = λ k q. ground (arith, map_get-remove k id s.peers, h.there k q, q);
      grace = h.grace;
    })
  ]

  pub Seated-Kept : Kept {F = F} Seated
  Seated-Kept =
      parts-Kept (λ core peers controller lost supervised. Seats peers controller lost supervised)
        (drop_peer-Seated)

  -- A write to one connection leaves the others.
  drop_peer_elsewhere :
      (now old id : ℕ) (s : Control F)
      → (id == old) ≡ false
      → map_get id (drop_peer now old s).peers ≡ map_get id s.peers
  unfolding drop_peer
  drop_peer_elsewhere now old id s n = ground (arith, n, map_get-remove id old s.peers)

  module _ (o : Outside F) (now : ℕ) where
    send_elsewhere :
        (old id : ℕ) (msg : EngineMsg F) (s : Control F)
        → (id == old) ≡ false
        → map_get id (send o now old msg s).peers ≡ map_get id s.peers
    unfolding send write
    send_elsewhere old id msg s n = elim (Bool-cases (o.encodes msg)) [
      | inr e ↦ rw e refl
      | inl e ↦ elim (Option-cases (map_get old s.peers)) [
        | inl q ↦ rw (e, q, write) refl
        | inr (r, q) ↦ elim (Bool-cases (o.breaks old s.writes)) [
          | inl b ↦
              rw (e, q, write, b)
                (drop_peer_elsewhere now old id (record s { writes = suc s.writes }) n)
          | inr b ↦ rw (e, q, write, b) refl
        ]
      ]
    ]

    module _ ⦃fl : Float F⦄ where
      -- A connection stays while another is superseded.
      pub supersede_elsewhere :
          (taken : Option ℕ) (id : ℕ) (s : Control F)
          → map_get id (supersede o now (other_than taken id) s).peers ≡ map_get id s.peers
      unfolding supersede
      supersede_elsewhere none id s = refl
      supersede_elsewhere (some old) id s = elim (Bool-cases (old == id)) [
        | inl e ↦ rw e refl
        | inr e ↦
            let n : (id == old) ≡ false = ground (arith, e) in
            rw e (
              drop_peer_elsewhere now old id (send o now old EngineMsg.superseded s) n
              ∙ send_elsewhere old id EngineMsg.superseded s n)
      ]

      abbrev Gone : ℕ → Control F → Type 0
      Gone old s = (s.controller ≡ none) ⊎ (s.controller ≡ some old)

      dropped-Gone : (old now' id : ℕ) (s : Control F) → Gone old s → Gone old (drop_peer now' id s)
      unfolding drop_peer
      dropped-Gone old now' id s h = elim (Bool-cases (is_it s.controller id)) [
        | inl e ↦ rw e (inl refl)
        | inr e ↦ rw e h
      ]

      Gone-Kept : (old : ℕ) → Kept {F = F} (Gone old)
      Gone-Kept old =
          parts-Kept
            (λ core peers controller lost supervised. (controller ≡ none) ⊎ (controller ≡ some old))
            (dropped-Gone old)

      -- The old controller is no controller any more.
      pub supersede_controller :
          (id : ℕ) (s : Control F) (taken : Option ℕ)
          → s.controller ≡ taken
          → ((supersede o now (other_than taken id) s).controller ≡ none)
            ⊎ ((supersede o now (other_than taken id) s).controller ≡ some id)
      unfolding supersede drop_peer
      supersede_controller id s none q = inl q
      supersede_controller id s (some old) q = elim (Bool-cases (old == id)) [
        | inl e ↦ rw e (inr (q ∙ ap some ((==_iff old id).0 e)))
        | inr e ↦
            let t : Control F = send o now old EngineMsg.superseded s in
            elim (send-Kept (Gone old) (Gone-Kept old) o now old EngineMsg.superseded s (inr q)) [
              | inl g ↦ rw (e, g) (inl refl)
              | inr g ↦ rw (e, g) (ground arith)
            ]
      ]
