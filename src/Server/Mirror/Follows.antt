-- ===== src/Server/Mirror/Follows.antt =====
-- A mirror that shows a core's state, and a write of one entity seen by both.
use Prim.Native.String.{String}
use iemmixer.Base.{
  ℕ, suc, ◌≡◌, refl, sym, ap, ◌∙◌, subst, some, List, [], ◌∷◌, map, arith, get_elem?, set, lookup,
  insert, collect, unwrap_or,
}
use iemmixer.Float.{Float}
use iemmixer.Proto.State.{
  MixState, InputId, MixId, Source, InputState, Level, MixGroup, MixOut, Mix,
}
use iemmixer.Proto.Msg.{Change}
use iemmixer.Engine.Topology.{Topology, InputNode, GroupNode, MixNode, source}
use iemmixer.Engine.Compile.Names.{AllDifferent}
use iemmixer.Engine.Core.{
  Core, MixRec, zip_with, put_levels, to_mix, to_mixes, to_state, state, transient, put_mix,
  put_input,
}
use iemmixer.Server.Mirror.{Mirror, soloed, entry, put_level, default_mix, change}
use iemmixer.Server.Mirror.Rows.{rows, collect-rows, lookup-rows, insert-rows}
use iemmixer.Server.Mirror.Levels.{put_levels-out, put_level-put_levels}

-- An id names one entity of its kind, and a source stands in one slot of a mix.
pub record OneName (t : Topology) : Type 0 where
  pub inputs : AllDifferent (map (λ (n : InputNode). n.id) t.inputs)
  pub groups : AllDifferent (map (λ (n : GroupNode). n.id) t.groups)
  pub mixes : AllDifferent (map (λ (n : MixNode). n.id) t.mixes)
  pub slots : (m k j : ℕ) (s : Source) → source t m k ≡ some s → source t m j ≡ some s → k ≡ j

zip_with-rows :
    {A B : Type 0} (name : A → String) (k : ℕ) (nodes : List A) (xs : List B)
    → zip_with (λ (n : A) (x : B). (name n, x)) nodes xs ≡ rows name (λ _ x. x) k nodes xs
zip_with-rows name k [] xs = refl
zip_with-rows name k (n ∷ nodes) [] = refl
zip_with-rows name k (n ∷ nodes) (x ∷ xs) =
    ap (λ r. (name n, x) ∷ r) (zip_with-rows name (suc k) nodes xs)

collect-zip_with :
    {A B : Type 0} (name : A → String) (nodes : List A) (xs : List B)
    → AllDifferent (map name nodes)
    → collect [] (zip_with (λ (n : A) (x : B). (name n, x)) nodes xs)
      ≡ rows name (λ _ x. x) 0 nodes xs
collect-zip_with name nodes xs d =
    ap (collect []) (zip_with-rows name 0 nodes xs) ∙ collect-rows name (λ _ x. x) 0 nodes xs d

-- An insert under the name of entity `i` is a write of entity `i`.
insert-collect :
    {A B : Type 0} (name : A → String) (nodes : List A) (xs : List B) (i : ℕ) (node : A) (x new : B)
    → AllDifferent (map name nodes)
    → get_elem? nodes i ≡ some node
    → get_elem? xs i ≡ some x
    → insert (name node) new (collect [] (zip_with (λ (n : A) (x : B). (name n, x)) nodes xs))
      ≡ collect [] (zip_with (λ (n : A) (x : B). (name n, x)) nodes (set xs i new))
insert-collect name nodes xs i node x new d e h =
    ap (insert (name node) new) (collect-zip_with name nodes xs d)
    ∙ insert-rows name (λ _ x. x) 0 i i nodes xs node x new (omega arith) d e h
    ∙ sym (collect-zip_with name nodes (set xs i new) d)

module _ {F : Type 0} ⦃fl : Float F⦄ where
  -- What the server reads of the core it reads of the mirror: the state and the taps as they are,
  -- and of each mix its soloed sources.
  pub record Follows (c : Core F) (m : Mirror F) : Type 0 where
    pub state : m.state ≡ state c
    pub solo : (mix : MixId) → soloed mix m.transient.solo ≡ soloed mix (transient c).solo
    pub listen : m.transient.listen ≡ (transient c).listen
    pub test_signal : m.transient.test_signal ≡ (transient c).test_signal

  -- The state may change on both sides; the rest stays.
  pub moved-Follows :
      (c d : Core F) (m n : Mirror F)
      → Follows c m
      → n.state ≡ state d
      → n.transient ≡ m.transient
      → transient d ≡ transient c
      → Follows d n
  moved-Follows c d m n f s t u = record {
    state = s;
    solo = λ mix. rw (t, u) (f.solo mix);
    listen = rw (t, u) f.listen;
    test_signal = rw (t, u) f.test_signal;
  }

  to_mixes-rows :
      (t : Topology) (k : ℕ) (nodes : List MixNode) (recs : List (MixRec F))
      → to_mixes t k nodes recs ≡ rows (λ (n : MixNode). n.id) (to_mix t) k nodes recs
  unfolding to_mixes
  to_mixes-rows t k [] recs = refl
  to_mixes-rows t k (n ∷ nodes) [] = refl
  to_mixes-rows t k (n ∷ nodes) (r ∷ recs) =
      ap (λ rs. (n.id, to_mix t k r) ∷ rs) (to_mixes-rows t (suc k) nodes recs)

  collect-to_mixes :
      (t : Topology) (recs : List (MixRec F))
      → OneName t
      → collect [] (to_mixes t 0 t.mixes recs)
        ≡ rows (λ (n : MixNode). n.id) (to_mix t) 0 t.mixes recs
  collect-to_mixes t recs one =
      ap (collect []) (to_mixes-rows t 0 t.mixes recs)
      ∙ collect-rows (λ (n : MixNode). n.id) (to_mix t) 0 t.mixes recs one.mixes

  -- An entry changed in place, in the map of the mixes.
  insert-to_mixes :
      (t : Topology) (recs : List (MixRec F)) (m : ℕ) (node : MixNode) (rec new : MixRec F)
      (f : Mix F → Mix F)
      → OneName t
      → get_elem? t.mixes m ≡ some node
      → get_elem? recs m ≡ some rec
      → f (to_mix t m rec) ≡ to_mix t m new
      → insert node.id
          (f (unwrap_or (lookup node.id (collect [] (to_mixes t 0 t.mixes recs))) default_mix))
          (collect [] (to_mixes t 0 t.mixes recs))
        ≡ collect [] (to_mixes t 0 t.mixes (set recs m new))
  insert-to_mixes t recs m node rec new f one e h q =
      let here = λ (n : MixNode). n.id in
      let found : lookup node.id (collect [] (to_mixes t 0 t.mixes recs)) ≡ some (to_mix t m rec) =
        ap (lookup node.id) (collect-to_mixes t recs one)
        ∙ lookup-rows here (to_mix t) 0 m t.mixes recs node rec one.mixes e h
        ∙ ap (λ j. some (to_mix t j rec)) (omega arith) in
      ap
        (λ o. insert node.id (f (unwrap_or o default_mix)) (collect [] (to_mixes t 0 t.mixes recs)))
        found
      ∙ ap (λ x. insert node.id x (collect [] (to_mixes t 0 t.mixes recs))) q
      ∙ ap (insert node.id (to_mix t m new)) (collect-to_mixes t recs one)
      ∙ insert-rows here (to_mix t) 0 m m t.mixes recs node rec new (omega arith) one.mixes e h
      ∙ sym (collect-to_mixes t (set recs m new) one)

  module _ (c : Core F) (mirror : Mirror F) (one : OneName c.topo)
      (shown : mirror.state ≡ state c) where
    pub input_state :
        (i : ℕ) (node : InputNode) (old new : InputState F)
        → get_elem? c.topo.inputs i ≡ some node
        → get_elem? c.s.inputs i ≡ some old
        → (change (Change.input node.id new) mirror).state ≡ state (put_input c i new)
    unfolding change state to_state
    input_state i node old new e h =
        ap (λ (s : MixState F). record s { inputs = insert node.id new s.inputs }) shown
        ∙ ap
            (λ (xs : List (InputId × InputState F)).
              let r : MixState F = record {
                inputs = xs;
                mixes = collect [] (to_mixes c.topo 0 c.topo.mixes c.s.mixes);
              } in
              r)
            (insert-collect (λ (n : InputNode). n.id) c.topo.inputs c.s.inputs i node old new
              one.inputs e h)

    pub entry_state :
        (m : ℕ) (node : MixNode) (rec new : MixRec F) (f : Mix F → Mix F)
        → get_elem? c.topo.mixes m ≡ some node
        → get_elem? c.s.mixes m ≡ some rec
        → f (to_mix c.topo m rec) ≡ to_mix c.topo m new
        → (entry node.id f mirror).state ≡ state (put_mix c m new)
    unfolding state to_state
    entry_state m node rec new f e h q =
        ap
          (λ (s : MixState F). record s {
            mixes = insert node.id (f (unwrap_or (lookup node.id s.mixes) default_mix)) s.mixes;
          })
          shown
        ∙ ap (λ (xs : List (MixId × Mix F)). record (state c) { mixes = xs })
            (insert-to_mixes c.topo c.s.mixes m node rec new f one e h q)

  pub out-to_mix :
      (t : Topology) (m : ℕ) (rec : MixRec F) (o : MixOut F)
      → record (to_mix t m rec) { out = o } ≡ to_mix t m (record rec { out = o })
  unfolding to_mix
  out-to_mix t m rec o =
      ap
        (λ (x : Mix F). record x {
          groups = collect [] (zip_with (λ (g : GroupNode) s. (g.id, s)) t.groups rec.groups);
        })
        (put_levels-out t m o 0 rec.levels
          (record { out = rec.out; inputs = []; groups = []; mixes = [] }))

  pub group-to_mix :
      (t : Topology) (m g : ℕ) (rec : MixRec F) (node : GroupNode) (old new : MixGroup F)
      → OneName t
      → get_elem? t.groups g ≡ some node
      → get_elem? rec.groups g ≡ some old
      → record (to_mix t m rec) { groups = insert node.id new (to_mix t m rec).groups }
        ≡ to_mix t m (record rec { groups = set rec.groups g new })
  unfolding to_mix
  group-to_mix t m g rec node old new one e h =
      ap (λ gs. record (to_mix t m rec) { groups = gs })
        (insert-collect (λ (n : GroupNode). n.id) t.groups rec.groups g node old new one.groups e h)

  put_level-groups :
      (s : Source) (l : Level F) (x : Mix F) (gs : _)
      → put_level s l (record x { groups = gs }) ≡ record (put_level s l x) { groups = gs }
  put_level-groups (Source.input id) l x gs = refl
  put_level-groups (Source.mix id) l x gs = refl

  pub level-to_mix :
      (t : Topology) (m k : ℕ) (rec : MixRec F) (s : Source) (old new : Level F)
      → OneName t
      → source t m k ≡ some s
      → get_elem? rec.levels k ≡ some old
      → put_level s new (to_mix t m rec) ≡ to_mix t m (record rec { levels = set rec.levels k new })
  unfolding to_mix
  level-to_mix t m k rec s old new one e h =
      let gs = collect [] (zip_with (λ (g : GroupNode) s. (g.id, s)) t.groups rec.groups) in
      let start : Mix F = record { out = rec.out; inputs = []; groups = []; mixes = [] } in
      put_level-groups s new (put_levels t m 0 rec.levels start) gs
      ∙ ap (λ (x : Mix F). record x { groups = gs })
          (put_level-put_levels t m (one.slots m) 0 k rec.levels start s old new
            (subst (λ j. source t m j ≡ some s) (omega arith) e) h)
