-- ===== src/Engine/Core/Capped/Setters.antt =====
-- The invariant, that the layout of a shaped state meets it and that the writes keep it.
use iemmixer.Base.{
  ℕ, suc, ◌≡◌, Option, none, some, List, [], ◌∷◌, All, All-set, All-get, All-map, get_elem?,
  range_from, arith, Values, lookup-Given, Given, Given-any, Given-unwrap_or, Given-bind_option,
  Given-map_option, get_elem?-Given, unwrap_or,
}
use iemmixer.Float.{Float, FloatLaws}
use iemmixer.Proto.State.{
  MixId, Source, InputState, Level, MixGroup, MixOut, Mix, MixState, TestSignal, default_input,
}
use iemmixer.Proto.Capped.{
  InRange, InputCapped, LevelCapped, GroupCapped, OutCapped, MixCapped, default_input-InputCapped,
  default_level-LevelCapped, default_group-GroupCapped, default_out-OutCapped,
}
use iemmixer.Proto.Capped.Shape.{reconcile-StateCapped}
use iemmixer.Engine.Topology.{Topology, MixNode, source, info, levels}
use iemmixer.Engine.Core.State.{
  MixRec, Reconciled, mix_level, lay_level, lay_mix, lay_mixes, reconcile,
}
use iemmixer.Engine.Core.Cases.{set_out_cases, set_level_cases, set_group_cases}
use iemmixer.Engine.Core.Defs.{Core, level, strip, out}
use iemmixer.Engine.Core.Setters.{set_input, set_out, set_level, set_group, put_mix}
use iemmixer.Engine.Core.Commands.{test_hz_range, test_dbfs_range, test_ttl_range}

module _ {F : Type 0} ⦃fl : Float F⦄ where
  pub record RecCapped (rec : MixRec F) : Type 0 where
    pub out : OutCapped rec.out
    pub levels : All LevelCapped rec.levels
    pub groups : All GroupCapped rec.groups

  pub record LaidCapped (s : Reconciled F) : Type 0 where
    pub inputs : All InputCapped s.inputs
    pub mixes : All RecCapped s.mixes

  abbrev pub TestCapped : Option (TestSignal F) → Type 0
  TestCapped none = Unit {0}
  TestCapped (some t) =
      InRange test_hz_range t.hz × InRange test_dbfs_range t.dbfs × InRange test_ttl_range t.ttl_s

  pub record CoreCapped (c : Core F) : Type 0 where
    pub state : LaidCapped c.s
    pub test : TestCapped c.test

module _ {F : Type 0} ⦃fl : Float F⦄ (laws : FloatLaws F) where
  mix_level-Given : (x : Mix F) (s : Source) → MixCapped x → Given LevelCapped (mix_level x s)
  unfolding mix_level
  mix_level-Given x (Source.input id) h = lookup-Given LevelCapped id x.inputs h.inputs
  mix_level-Given x (Source.mix id) h = lookup-Given LevelCapped id x.mixes h.mixes

  lay_level-LevelCapped :
      (topo : Topology) (m : ℕ) (mix : Option (Mix F)) (k : ℕ)
      → Given MixCapped mix
      → LevelCapped (lay_level topo m mix k)
  unfolding lay_level mix_level
  lay_level-LevelCapped topo m mix k h =
      Given-unwrap_or LevelCapped _ _
        (Given-bind_option (λ s. Unit {0}) LevelCapped (source topo m k) _
          (Given-any (source topo m k))
          λ s _.
            Given-bind_option MixCapped LevelCapped mix (λ x. mix_level x s) h
              λ x g. mix_level-Given x s g)
        (default_level-LevelCapped laws)

  lay_mix-RecCapped :
      (topo : Topology) (m : ℕ) (mix : Option (Mix F))
      → Given MixCapped mix
      → RecCapped (lay_mix topo m mix)
  unfolding lay_mix
  lay_mix-RecCapped topo m mix h = record {
    out =
        Given-unwrap_or OutCapped _ _ (Given-map_option MixCapped OutCapped _ mix h (λ x g. g.out))
          (default_out-OutCapped laws);
    levels =
        All-map LevelCapped _ (range_from 0 (levels topo m))
          λ k. lay_level-LevelCapped topo m mix k h;
    groups = All-map GroupCapped _ topo.groups λ g.
        Given-unwrap_or GroupCapped _ _
          (Given-bind_option MixCapped GroupCapped mix _ h
            λ x e. lookup-Given GroupCapped g.id x.groups e.groups)
          (default_group-GroupCapped laws);
  }

  lay_mixes-All :
      (topo : Topology) (mixes : List (MixId × Mix F)) (m : ℕ) (nodes : List MixNode)
      → Values MixCapped mixes
      → All RecCapped (lay_mixes topo mixes m nodes)
  unfolding lay_mixes
  lay_mixes-All topo mixes m [] h = tt
  lay_mixes-All topo mixes m (node ∷ nodes) h = (
    lay_mix-RecCapped topo m _ (lookup-Given MixCapped node.id mixes h),
    lay_mixes-All topo mixes (suc m) nodes h,
  )

  pub reconcile-LaidCapped :
      (topo : Topology) (state : MixState F) → LaidCapped (reconcile topo state).0
  unfolding reconcile
  reconcile-LaidCapped topo state =
      let shaped = reconcile-StateCapped laws (info topo) state in
      record {
        inputs = All-map InputCapped _ topo.inputs λ n.
            Given-unwrap_or InputCapped _ _ (lookup-Given InputCapped n.id _ shaped.inputs)
              (default_input-InputCapped laws);
        mixes = lay_mixes-All topo _ 0 topo.mixes shaped.mixes;
      }

  pub input-InputCapped :
      (c : Core F) (i : ℕ)
      → CoreCapped c
      → InputCapped (unwrap_or (get_elem? c.s.inputs i) default_input)
  input-InputCapped c i h =
      Given-unwrap_or InputCapped _ _ (get_elem?-Given InputCapped c.s.inputs i h.state.inputs)
        (default_input-InputCapped laws)

  pub level-LevelCapped : (c : Core F) (m k : ℕ) → CoreCapped c → LevelCapped (level c m k)
  unfolding level
  level-LevelCapped c m k h =
      Given-unwrap_or LevelCapped _ _
        (Given-bind_option RecCapped LevelCapped (get_elem? c.s.mixes m) _
          (get_elem?-Given RecCapped c.s.mixes m h.state.mixes)
          λ r g. get_elem?-Given LevelCapped r.levels k g.levels)
        (default_level-LevelCapped laws)

  pub strip-GroupCapped : (c : Core F) (m g : ℕ) → CoreCapped c → GroupCapped (strip c m g)
  unfolding strip
  strip-GroupCapped c m g h =
      Given-unwrap_or GroupCapped _ _
        (Given-bind_option RecCapped GroupCapped (get_elem? c.s.mixes m) _
          (get_elem?-Given RecCapped c.s.mixes m h.state.mixes)
          λ r e. get_elem?-Given GroupCapped r.groups g e.groups)
        (default_group-GroupCapped laws)

  pub out-OutCapped : (c : Core F) (m : ℕ) → CoreCapped c → OutCapped (out c m)
  unfolding out
  out-OutCapped c m h =
      Given-unwrap_or OutCapped _ _
        (Given-map_option RecCapped OutCapped _ (get_elem? c.s.mixes m)
          (get_elem?-Given RecCapped c.s.mixes m h.state.mixes) (λ r g. g.out))
        (default_out-OutCapped laws)

module _ {F : Type 0} ⦃fl : Float F⦄ where
  put_mix-CoreCapped :
      (c : Core F) (m : ℕ) (rec : MixRec F)
      → CoreCapped c
      → RecCapped rec
      → CoreCapped (put_mix c m rec)
  put_mix-CoreCapped c m rec h g = record {
    state = record {
      inputs = h.state.inputs;
      mixes = All-set RecCapped c.s.mixes m rec h.state.mixes g;
    };
    test = h.test;
  }

  rec-RecCapped :
      (c : Core F) (m : ℕ) (rec : MixRec F)
      → CoreCapped c
      → get_elem? c.s.mixes m ≡ some rec
      → RecCapped rec
  rec-RecCapped c m rec h e = All-get RecCapped c.s.mixes m rec h.state.mixes e

  pub set_input-CoreCapped :
      (c : Core F) (i : ℕ) (new : InputState F)
      → CoreCapped c
      → InputCapped new
      → CoreCapped (set_input c i new).0
  unfolding set_input
  set_input-CoreCapped c i new h g =
      ground (arith, All-set InputCapped c.s.inputs i new h.state.inputs g)

  pub set_out-CoreCapped :
      (c : Core F) (m : ℕ) (new : MixOut F)
      → CoreCapped c
      → OutCapped new
      → CoreCapped (set_out c m new).0
  set_out-CoreCapped c m new h g =
      set_out_cases (λ r. CoreCapped r.0) c m new h
        λ rec node e _ _.
          let old = rec-RecCapped c m rec h e in
          put_mix-CoreCapped c m _ h (record { out = g; levels = old.levels; groups = old.groups })

  pub set_level-CoreCapped :
      (c : Core F) (m k : ℕ) (new : Level F)
      → CoreCapped c
      → LevelCapped new
      → CoreCapped (set_level c m k new).0
  set_level-CoreCapped c m k new h g =
      set_level_cases (λ r. CoreCapped r.0) c m k new h
        λ rec _ node s _ _ e _.
          let old = rec-RecCapped c m rec h e in
          put_mix-CoreCapped c m _ h (record {
            out = old.out;
            levels = All-set LevelCapped rec.levels k new old.levels g;
            groups = old.groups;
          })

  pub set_group-CoreCapped :
      (c : Core F) (m g : ℕ) (new : MixGroup F)
      → CoreCapped c
      → GroupCapped new
      → CoreCapped (set_group c m g new).0
  set_group-CoreCapped c m g new h capped =
      set_group_cases (λ r. CoreCapped r.0) c m g new h
        λ rec _ node group _ _ e _.
          let old = rec-RecCapped c m rec h e in
          put_mix-CoreCapped c m _ h (record {
            out = old.out;
            levels = old.levels;
            groups = All-set GroupCapped rec.groups g new old.groups capped;
          })
