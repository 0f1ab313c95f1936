-- ===== src/Engine/Core/Revision.antt =====
-- The revision grows exactly when a request changed something, and nothing changes silently.
use iemmixer.Base.{
  ℕ, suc, ◌+◌, not, ◌||◌, ◌≡◌, ◌≢◌, refl, ◌⊎◌, inl, inr, true, false, arith, Option, none, some,
  List, [], ◌∷◌, ◌++◌, ok, err, Bool, Result, Result-cases, Bool-cases, sym, ap, ◌∙◌, unwrap_or,
  ltb, length,
}
use iemmixer.Float.{Float}
use iemmixer.Proto.State.{MixState}
use iemmixer.Proto.Msg.{Cmd, Cmds, nil, cons, CmdError}
use iemmixer.Engine.Core.Defs.{
  Core, Partial, Outcome, Effect, M, ◌>>=◌, imported, no_effect, send_state, send_topology, save,
  shutdown, no_change, changed, with_effect, finish, u64, is_nil, max_batch, max_cmds_per_block,
}
use iemmixer.Engine.Core.Setters.{
  set_input, set_out, set_level, set_group, put_solo, put_listen, stop_slots, put_stop,
  listen_partial,
}
use iemmixer.Engine.Core.Commands.{put_test, stop_test, import_state, one}
use iemmixer.Engine.Core.Apply.{
  batchable, batch_ops, batch, commit, batch_or_one, apply, gather, length_cmds,
}
use iemmixer.Engine.Core.Rules.{Rules, Post, Post-mono, one-Post}

abbrev pub is_imported : Option Effect → Bool
is_imported (some imported) = true
is_imported _ = false

is_nil-append {ℓ} :
    {A : Type ℓ} (xs ys : List A) → not (is_nil (xs ++ ys)) ≡ (not (is_nil xs) || not (is_nil ys))
is_nil-append [] ys = refl
is_nil-append (x ∷ xs) ys = refl

told_cases :
    {A : Type 0} (b : Bool) (xs : List A) (e : Option Effect)
    → b ≡ (not (is_nil xs) || is_imported e)
    → ((b ≡ true) × ((xs ≢ []) ⊎ (unwrap_or e no_effect ≡ imported)))
      ⊎ ((b ≡ false) × (xs ≡ []) × (unwrap_or e no_effect ≢ imported))
told_cases b (x ∷ xs) e h = inl (h, inl (λ q. cc))
told_cases b [] (some imported) h = inl (h, inr refl)
told_cases b [] none h = inr (h, refl, λ q. cc)
told_cases b [] (some no_effect) h = inr (h, refl, λ q. cc)
told_cases b [] (some send_state) h = inr (h, refl, λ q. cc)
told_cases b [] (some send_topology) h = inr (h, refl, λ q. cc)
told_cases b [] (some save) h = inr (h, refl, λ q. cc)
told_cases b [] (some shutdown) h = inr (h, refl, λ q. cc)

module _ {F : Type 0} ⦃fl : Float F⦄ where
  -- A command leaves the topology and the revision alone, asks for a new revision exactly when it
  -- names a change or imported a state, and changes nothing otherwise.
  pub record Honest (c : Core F) (r : Core F × Partial F) : Type 0 where
    pub topo : r.0.topo ≡ c.topo
    pub rev : r.0.rev ≡ c.rev
    pub silent : r.1.bump ≡ false → r.0 ≡ c
    pub told : r.1.bump ≡ (not (is_nil r.1.changes) || is_imported r.1.effect)

  pub stop_slots_quiet :
      (m slot : ℕ) (ls : List (Option ℕ))
      → (stop_slots {F = F} m slot ls).1 ≡ []
      → (stop_slots {F = F} m slot ls).0 ≡ ls
  unfolding stop_slots
  stop_slots_quiet m slot [] e = refl
  stop_slots_quiet m slot (l ∷ ls) e = ground (arith, stop_slots_quiet m (suc slot) ls)

  input-Honest : (c : Core F) (i : ℕ) (new : _) → Honest c (set_input c i new)
  unfolding set_input
  input-Honest c i new = ground arith

  out-Honest : (c : Core F) (m : ℕ) (new : _) → Honest c (set_out c m new)
  unfolding set_out
  out-Honest c m new = ground arith

  level-Honest : (c : Core F) (m k : ℕ) (new : _) → Honest c (set_level c m k new)
  unfolding set_level
  level-Honest c m k new = ground arith

  group-Honest : (c : Core F) (m g : ℕ) (new : _) → Honest c (set_group c m g new)
  unfolding set_group
  group-Honest c m g new = ground arith

  stop-Honest : (c : Core F) (m : ℕ) → Honest c (put_stop m c)
  unfolding put_stop
  stop-Honest c m = ground (arith, stop_slots_quiet m 0 c.listen)

  Honest-Rules : Rules Honest
  unfolding changed with_effect put_solo put_listen put_test stop_test
  Honest-Rules = record {
    kept = λ c. ground arith;
    effect = λ c e h. ground arith;
    arm = λ c. ground arith;
    reset = λ c mix m. ground arith;
    input = input-Honest;
    out = out-Honest;
    level = level-Honest;
    group = group-Honest;
    solo = λ c mix m new e. ground arith;
    listen = λ c m. ground arith;
    stop = stop-Honest;
    test = λ c i signal mask l. ground arith;
    stop_test = λ c. ground arith;
  }

  -- A command that is no import asks for a new revision exactly when it names a change.
  abbrev pub Plain : Core F → Core F × Partial F → Type 0
  Plain c r = is_imported r.1.effect ≡ false

  Plain-Rules : Rules Plain
  unfolding changed with_effect set_input set_out set_level set_group put_solo put_listen put_stop
      listen_partial put_test stop_test
  Plain-Rules = record {
    kept = λ c. refl;
    effect = λ c e h. ground arith;
    arm = λ c. refl;
    reset = λ c mix m. refl;
    input = λ c i new. ground arith;
    out = λ c m new. ground arith;
    level = λ c m k new. ground arith;
    group = λ c m g new. ground arith;
    solo = λ c mix m new e. ground arith;
    listen = λ c m. ground arith;
    stop = λ c m. ground arith;
    test = λ c i signal mask l. ground arith;
    stop_test = λ c. ground arith;
  }

  -- No import stands in a batch.
  pub batchable_imports :
      {P : Type 0} (op : Cmd F) (state : MixState F)
      → batchable op ≡ true
      → op ≡ Cmd.import_state state
      → P
  unfolding batchable
  batchable_imports op state b e = absurd (cc (sym b ∙ ap batchable e))

  import-Honest : (c : Core F) (state : MixState F) → Honest c (import_state state c)
  unfolding import_state
  import-Honest c state = ground arith

  -- A batch from what it has gathered so far.
  record Gathered (c : Core F) (all : Partial F) (r : Core F × Partial F) : Type 0 where
    topo : r.0.topo ≡ c.topo
    rev : r.0.rev ≡ c.rev
    silent : r.1.bump ≡ false → (r.0 ≡ c) × (all.bump ≡ false)
    told : all.bump ≡ not (is_nil all.changes) → r.1.bump ≡ not (is_nil r.1.changes)
    effect : r.1.effect ≡ all.effect

  Gathered-trans :
      (c d : Core F) (all p : Partial F) (r : Core F × Partial F)
      → Honest c (d, p)
      → Plain c (d, p)
      → Gathered d (gather all p) r
      → Gathered c all r
  Gathered-trans c d all p r h n g = record {
    topo = g.topo ∙ h.topo;
    rev = g.rev ∙ h.rev;
    silent = λ q. ground (arith, h.silent, g.silent q);
    told = λ q. ground (arith, h.told, is_nil-append all.changes p.changes, g.told);
    effect = g.effect;
  }

  batch_ops-Gathered :
      (ops : Cmds F) (all : Partial F) (c : Core F)
      → Post (λ c. Gathered c all) c (batch_ops ops all c)
  unfolding batch_ops
  batch_ops-Gathered nil all c = record {
    topo = refl;
    rev = refl;
    silent = λ q. (refl, q);
    told = λ q. q;
    effect = refl;
  }
  batch_ops-Gathered (cons op ops) all c = elim (Bool-cases (batchable op)) [
    | inr b ↦ rw (b, batch_ops) tt
    | inl b ↦ elim (Result-cases (one op c).1) [
      | inr (x, e) ↦ rw (b, batch_ops, ◌>>=◌, e) tt
      | inl (p, e) ↦
          rw (b, batch_ops, ◌>>=◌, e)
            ((Post-mono (λ d. Gathered d (gather all p)) (λ c. Gathered c all) c (one op c).0 _
              (λ r g.
                Gathered-trans c (one op c).0 all p r
                  (rw e at (
                    one-Post Honest Honest-Rules op c (λ s i. batchable_imports op s b i)
                      (λ _. ground arith)))
                  (rw e at (
                    one-Post Plain Plain-Rules op c (λ s i. batchable_imports op s b i)
                      (λ _. refl)))
                  g)
              (batch_ops-Gathered ops (gather all p) (one op c).0)))
    ]
  ]

  commit-Honest :
      (c : Core F) (r : Core F × Result CmdError (Partial F))
      → Post (λ c. Gathered c no_change) c r
      → Post Honest c (commit c r)
  commit-Honest c (next, err x) g = tt
  commit-Honest c (next, ok all) g = elim (Bool-cases (ltb max_cmds_per_block (length all.rt))) [
    | inl b ↦ rw b tt
    | inr b ↦ rw b (record {
      topo = g.topo;
      rev = g.rev;
      silent = λ q. (g.silent q).0;
      told = ground (arith, g.told refl, g.effect);
    })
  ]

  batch-Honest : (ops : Cmds F) (c : Core F) → Post Honest c (batch ops c)
  unfolding batch
  batch-Honest ops c = elim (Bool-cases (ltb max_batch (length_cmds ops))) [
    | inl b ↦ rw b tt
    | inr b ↦ rw b (commit-Honest c _ (batch_ops-Gathered ops no_change c))
  ]

  pub request-Honest : (cmd : Cmd F) (c : Core F) → Post Honest c (batch_or_one cmd c)
  request-Honest (Cmd.batch ops) c = batch-Honest ops c
  request-Honest cmd c =
      one-Post Honest Honest-Rules cmd c (λ state _. import-Honest c state) (λ _. ground arith)

  commit-Plain :
      (c : Core F) (r : Core F × Result CmdError (Partial F))
      → Post (λ c. Gathered c no_change) c r
      → Post Plain c (commit c r)
  commit-Plain c (next, err x) g = tt
  commit-Plain c (next, ok all) g = elim (Bool-cases (ltb max_cmds_per_block (length all.rt))) [
    | inl b ↦ rw b tt
    | inr b ↦ rw b (ap is_imported g.effect)
  ]

  -- Only an import asks for the whole state to be broadcast.
  pub request-Plain :
      (cmd : Cmd F) (c : Core F)
      → ((s : MixState F) → cmd ≢ Cmd.import_state s)
      → Post Plain c (batch_or_one cmd c)
  unfolding batch
  request-Plain (Cmd.batch ops) c n = elim (Bool-cases (ltb max_batch (length_cmds ops))) [
    | inl b ↦ rw b tt
    | inr b ↦ rw b (commit-Plain c _ (batch_ops-Gathered ops no_change c))
  ]
  request-Plain cmd c n = one-Post Plain Plain-Rules cmd c (λ s e. absurd (n s e)) (λ _. refl)

  abbrev pub Told : Core F → Core F → Outcome F → Type 0
  Told c c' o =
      (o.rev ≡ c'.rev)
      × (((o.changes ≡ []) × (o.effect ≢ imported) × (c' ≡ c))
          ⊎ (((o.changes ≢ []) ⊎ (o.effect ≡ imported)) × (o.rev ≡ u64 (c.rev + 1))))

  end-Told :
      (c d : Core F) (p : Partial F) (o : Outcome F)
      → Honest c (d, p)
      → (finish p d).1 ≡ ok o
      → Told c (finish p d).0 o
  unfolding finish
  end-Told c d p o h e = elim (told_cases p.bump p.changes p.effect h.told) [
    | inl (b, w) ↦ ground (arith, h.rev, h.silent)
    | inr (b, n, w) ↦ ground (arith, h.silent)
  ]

  finish-Told :
      (m : M F (Partial F)) (c : Core F) (o : Outcome F)
      → Post Honest c (m c)
      → ((m >>= finish) c).1 ≡ ok o
      → Told c ((m >>= finish) c).0 o
  finish-Told m c o h e = elim (Result-cases (m c).1) [
    | inl (p, q) ↦ rw (q, ◌>>=◌) (end-Told c (m c).0 p o (rw q at h) (rw (q, ◌>>=◌) at e))
    | inr (x, q) ↦ absurd (cc (rw (q, ◌>>=◌) at e))
  ]

  -- A request that goes through answers with the core's revision. Either it named no change and
  -- imported nothing, and the core is as it was; or it changed something or imported a state, and
  -- the revision has grown by one.
  pub apply_revision :
      (cmd : Cmd F) (c : Core F) (o : Outcome F)
      → (apply cmd c).1 ≡ ok o
      → (o.rev ≡ (apply cmd c).0.rev)
        × (((o.changes ≡ []) × (o.effect ≢ imported) × ((apply cmd c).0 ≡ c))
            ⊎ (((o.changes ≢ []) ⊎ (o.effect ≡ imported)) × (o.rev ≡ u64 (c.rev + 1))))
  unfolding apply
  apply_revision cmd c o e = finish-Told (batch_or_one cmd) c o (request-Honest cmd c) e
