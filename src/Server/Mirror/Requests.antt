-- ===== src/Server/Mirror/Requests.antt =====
-- A mirror that takes the changes of a request, of a cleared solo or of an ended test signal.
use iemmixer.Base.{
  ◌≡◌, ◌≢◌, refl, sym, ◌∙◌, subst, inl, inr, List, [], ◌∷◌, ◌++◌, ltb, length, Result, ok, err,
  Result-cases, Bool-cases,
}
use iemmixer.Float.{Float}
use iemmixer.Proto.State.{MixState}
use iemmixer.Proto.Msg.{Cmd, Cmds, nil, cons, CmdError, Change}
use iemmixer.Engine.Core.{
  Core, Partial, ◌>>=◌, no_change, max_batch, max_cmds_per_block, one, batchable, batch_ops, batch,
  commit, batch_or_one, gather, length_cmds,
}
use iemmixer.Engine.Core.Rules.{Post, one-Post}
use iemmixer.Engine.Core.Revision.{batchable_imports}
use iemmixer.Server.Mirror.{Mirror, change, change_all}
use iemmixer.Server.Mirror.Follows.{OneName, Follows}
use iemmixer.Server.Mirror.Tells.{Tells, Tells-Rules, quiet-Tells}

module _ {F : Type 0} ⦃fl : Float F⦄ where
  pub change_all-append :
      (xs ys : List (Change F)) (m : Mirror F)
      → change_all (xs ++ ys) m ≡ change_all ys (change_all xs m)
  unfolding change_all
  change_all-append [] ys m = refl
  change_all-append (x ∷ xs) ys m = change_all-append xs ys (change x m)

  -- What an operation of a batch tells after those before it.
  pub Tells-gather :
      (a c d : Core F) (all p : Partial F)
      → Tells a (c, all)
      → Tells c (d, p)
      → Tells a (d, gather all p)
  Tells-gather a c d all p h g = record {
    topo = g.topo ∙ h.topo;
    told = λ one m f.
        subst (Follows d) (sym (change_all-append all.changes p.changes m))
          (g.told (subst OneName (sym h.topo) one) (change_all all.changes m) (h.told one m f));
  }

  batch_ops-Tells :
      (ops : Cmds F) (a c : Core F) (all : Partial F)
      → Tells a (c, all)
      → Post (λ _. Tells a) c (batch_ops ops all c)
  unfolding batch_ops
  batch_ops-Tells nil a c all h = h
  batch_ops-Tells (cons op ops) a c all h = elim (Bool-cases (batchable op)) [
    | inr b ↦ rw (b, batch_ops) tt
    | inl b ↦ elim (Result-cases (one op c).1) [
      | inr (x, e) ↦ rw (b, batch_ops, ◌>>=◌, e) tt
      | inl (p, e) ↦
          rw (b, batch_ops, ◌>>=◌, e)
            (batch_ops-Tells ops a (one op c).0 (gather all p) (
              Tells-gather a c (one op c).0 all p h (
                rw e at (
                  one-Post Tells Tells-Rules op c (λ s i. batchable_imports op s b i)
                    (λ _. quiet-Tells c _ refl)))))
    ]
  ]

  commit-Tells :
      (c : Core F) (r : Core F × Result CmdError (Partial F))
      → Post (λ _. Tells c) c r
      → Post Tells c (commit c r)
  commit-Tells c (d, err x) h = tt
  commit-Tells c (d, ok all) h = elim (Bool-cases (ltb max_cmds_per_block (length all.rt))) [
    | inl b ↦ rw b tt
    | inr b ↦ rw b h
  ]

  -- A request that is no import.
  pub request-Tells :
      (cmd : Cmd F) (c : Core F)
      → ((s : MixState F) → cmd ≢ Cmd.import_state s)
      → Post Tells c (batch_or_one cmd c)
  unfolding batch change_all
  request-Tells (Cmd.batch ops) c n = elim (Bool-cases (ltb max_batch (length_cmds ops))) [
    | inl b ↦ rw (b, batch) tt
    | inr b ↦
        rw (b, batch)
          (commit-Tells c (batch_ops ops no_change c)
            (batch_ops-Tells ops c c no_change (record { topo = refl; told = λ one m f. f })))
  ]
  request-Tells cmd c n =
      one-Post Tells Tells-Rules cmd c (λ s e. absurd (n s e)) (λ _. quiet-Tells c _ refl)
