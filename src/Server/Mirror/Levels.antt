-- ===== src/Server/Mirror/Levels.antt =====
-- The levels that the core writes for a mix, one for each of its slots, and a write of one of them.
use Prim.Native.String.{String}
use iemmixer.Base.{
  ℕ, zero, suc, ◌+◌, ◌≤◌, ◌≡◌, ◌≢◌, refl, sym, ap, ◌∙◌, subst, inl, inr, Bool, true, none, some,
  List, [], ◌∷◌, arith, get_elem?, set, lookup, insert, is_some, lookup-insert, same_iff,
  Option-cases,
}
use iemmixer.Float.{Float}
use iemmixer.Proto.State.{Source, Level, MixOut, Mix}
use iemmixer.Engine.Topology.{Topology, source}
use iemmixer.Engine.Core.{put_levels, mix_level}
use iemmixer.Server.Mirror.{put_level}

module _ {V : Type 0} where
  insert-insert :
      (k : String) (v w : V) (m : List (String × V)) → insert k v (insert k w m) ≡ insert k v m
  insert-insert k v w [] = ground (arith, same_iff k k)
  insert-insert k v w ((j, u) ∷ m) = ground (arith, same_iff k k, insert-insert k v w m)

  insert_comm :
      (k j : String) (v w : V) (m : List (String × V))
      → k ≢ j
      → is_some (lookup k m) ≡ true
      → insert k v (insert j w m) ≡ insert j w (insert k v m)
  insert_comm k j v w [] n p = cc
  insert_comm k j v w ((i, u) ∷ m) n p = ground (
    arith,
    same_iff k j,
    same_iff j k,
    same_iff i j,
    same_iff i k,
    same_iff k k,
    same_iff j j,
    insert_comm k j v w m n,
  )

module _ {F : Type 0} ⦃fl : Float F⦄ where
  abbrev present : Source → Mix F → Bool
  present s mix = is_some (mix_level mix s)

  put_level-put_level :
      (s : Source) (new old : Level F) (mix : Mix F)
      → put_level s new (put_level s old mix) ≡ put_level s new mix
  put_level-put_level (Source.input id) new old mix =
      ap (λ ls. record mix { inputs = ls }) (insert-insert id new old mix.inputs)
  put_level-put_level (Source.mix id) new old mix =
      ap (λ ls. record mix { mixes = ls }) (insert-insert id new old mix.mixes)

  put_level_comm :
      (s r : Source) (new l : Level F) (mix : Mix F)
      → s ≢ r
      → present s mix ≡ true
      → put_level s new (put_level r l mix) ≡ put_level r l (put_level s new mix)
  unfolding mix_level
  put_level_comm (Source.input id) (Source.input j) new l mix n p =
      ap (λ ls. record mix { inputs = ls })
        (insert_comm id j new l mix.inputs (λ e. n (ap Source.input e)) p)
  put_level_comm (Source.mix id) (Source.mix j) new l mix n p =
      ap (λ ls. record mix { mixes = ls })
        (insert_comm id j new l mix.mixes (λ e. n (ap Source.mix e)) p)
  put_level_comm (Source.input id) (Source.mix j) new l mix n p = refl
  put_level_comm (Source.mix id) (Source.input j) new l mix n p = refl

  present_put : (s : Source) (l : Level F) (mix : Mix F) → present s (put_level s l mix) ≡ true
  unfolding mix_level
  present_put (Source.input id) l mix =
      ground (arith, same_iff id id, lookup-insert id id l mix.inputs)
  present_put (Source.mix id) l mix =
      ground (arith, same_iff id id, lookup-insert id id l mix.mixes)

  present_later :
      (s r : Source) (l : Level F) (mix : Mix F)
      → present s mix ≡ true
      → present s (put_level r l mix) ≡ true
  unfolding mix_level
  present_later (Source.input id) (Source.input j) l mix p =
      ground (arith, lookup-insert j id l mix.inputs)
  present_later (Source.mix id) (Source.mix j) l mix p =
      ground (arith, lookup-insert j id l mix.mixes)
  present_later (Source.input id) (Source.mix j) l mix p = p
  present_later (Source.mix id) (Source.input j) l mix p = p

  module _ (topo : Topology) (m : ℕ) where
    put_levels_present :
        (k : ℕ) (s : Source) (l : Level F) (ls : List (Level F)) (mix : Mix F)
        → source topo m k ≡ some s
        → put_levels topo m k (l ∷ ls) mix ≡ put_levels topo m (suc k) ls (put_level s l mix)
    unfolding put_levels
    put_levels_present k (Source.input id) l ls mix e = rw (e, put_levels) refl
    put_levels_present k (Source.mix id) l ls mix e = rw (e, put_levels) refl

    put_levels_absent :
        (k : ℕ) (l : Level F) (ls : List (Level F)) (mix : Mix F)
        → source topo m k ≡ none
        → put_levels topo m k (l ∷ ls) mix ≡ put_levels topo m (suc k) ls mix
    unfolding put_levels
    put_levels_absent k l ls mix e = rw (e, put_levels) refl

    -- A function of the mix that commutes with the write of every slot.
    put_levels_comm :
        (g : Mix F → Mix F) (P : Mix F → Type 0) (k : ℕ) (ls : List (Level F)) (mix : Mix F)
        → ((j : ℕ) (r : Source) (l : Level F) (x : Mix F)
            → k ≤ j
            → source topo m j ≡ some r
            → P x
            → P (put_level r l x) × (g (put_level r l x) ≡ put_level r l (g x)))
        → P mix
        → g (put_levels topo m k ls mix) ≡ put_levels topo m k ls (g mix)
    unfolding put_levels
    put_levels_comm g P k [] mix h p = refl
    put_levels_comm g P k (l ∷ ls) mix h p = elim (Option-cases (source topo m k)) [
      | inl e ↦
          ap g (put_levels_absent k l ls mix e)
          ∙ put_levels_comm g P (suc k) ls mix (λ j r l x b. h j r l x (omega (arith, b))) p
          ∙ sym (put_levels_absent k l ls (g mix) e)
      | inr (s, e) ↦
          let (p', q) = h k s l mix (omega arith) e p in
          ap g (put_levels_present k s l ls mix e)
          ∙ put_levels_comm g P (suc k) ls (put_level s l mix)
              (λ j r l x b. h j r l x (omega (arith, b))) p'
          ∙ ap (put_levels topo m (suc k) ls) q
          ∙ sym (put_levels_present k s l ls (g mix) e)
    ]

    put_level-out :
        (r : Source) (l : Level F) (x : Mix F) (o : MixOut F)
        → record (put_level r l x) { out = o } ≡ put_level r l (record x { out = o })
    put_level-out (Source.input id) l x o = refl
    put_level-out (Source.mix id) l x o = refl

    pub put_levels-out :
        (o : MixOut F) (k : ℕ) (ls : List (Level F)) (mix : Mix F)
        → record (put_levels topo m k ls mix) { out = o }
          ≡ put_levels topo m k ls (record mix { out = o })
    put_levels-out o k ls mix =
        put_levels_comm (λ x. record x { out = o }) (λ x. Unit {0}) k ls mix
          (λ j r l x b e p. (tt, put_level-out r l x o)) tt

    -- A write of the source of slot `i` is a write of that slot.
    pub put_level-put_levels :
        ((k j : ℕ) (s : Source) → source topo m k ≡ some s → source topo m j ≡ some s → k ≡ j)
        → (k i : ℕ) (ls : List (Level F)) (mix : Mix F) (s : Source) (old new : Level F)
        → source topo m (k + i) ≡ some s
        → get_elem? ls i ≡ some old
        → put_level s new (put_levels topo m k ls mix) ≡ put_levels topo m k (set ls i new) mix
    put_level-put_levels once k i [] mix s old new e h = absurd cc
    put_level-put_levels once k zero (l ∷ ls) mix s old new e h =
        let here : source topo m k ≡ some s =
          subst (λ j. source topo m j ≡ some s) (omega arith) e in
        ap (put_level s new) (put_levels_present k s l ls mix here)
        ∙ put_levels_comm (put_level s new) (λ x. present s x ≡ true) (suc k) ls (put_level s l mix)
            (λ j r l x b f p. (
              present_later s r l x p,
              put_level_comm s r new l x
                  (λ q. absurd (omega (arith, b, once j k s (f ∙ ap some (sym q)) here))) p,
            ))
            (present_put s l mix)
        ∙ ap (put_levels topo m (suc k) ls) (put_level-put_level s new l mix)
        ∙ sym (put_levels_present k s new ls mix here)
    put_level-put_levels once k (suc i) (l ∷ ls) mix s old new e h =
        let later : source topo m (suc k + i) ≡ some s =
          subst (λ j. source topo m j ≡ some s) (omega arith) e in
        elim (Option-cases (source topo m k)) [
          | inl n ↦
              ap (put_level s new) (put_levels_absent k l ls mix n)
              ∙ put_level-put_levels once (suc k) i ls mix s old new later h
              ∙ sym (put_levels_absent k l (set ls i new) mix n)
          | inr (r, n) ↦
              ap (put_level s new) (put_levels_present k r l ls mix n)
              ∙ put_level-put_levels once (suc k) i ls (put_level r l mix) s old new later h
              ∙ sym (put_levels_present k r l (set ls i new) mix n)
        ]
