-- ===== src/Engine/Core/Steps.antt =====
-- What every write keeps, every request keeps: the rules of the commands carried over batches and
-- the end of a request.
use iemmixer.Base.{ℕ, Result, ok, err, Result-cases, Bool-cases, inl, inr, ltb, length}
use iemmixer.Float.{Float}
use iemmixer.Proto.State.{MixState}
use iemmixer.Proto.Msg.{Cmd, Cmds, nil, cons, CmdError}
use iemmixer.Engine.Core.Defs.{
  Core, Partial, ◌>>=◌, no_change, finish, max_batch, max_cmds_per_block,
}
use iemmixer.Engine.Core.Commands.{import_state, one}
use iemmixer.Engine.Core.Apply.{
  batchable, batch_ops, batch, commit, batch_or_one, apply, gather, length_cmds,
}
use iemmixer.Engine.Core.Rules.{Rules, Post, Post-mono, one-Post}
use iemmixer.Engine.Core.Atomic.{apply_error_unchanged}

module _ {F : Type 0} ⦃fl : Float F⦄ (R : Core F → Core F → Type 0) (same : (c : Core F) → R c c)
    (next : (c d e : Core F) → R c d → R d e → R c e) (rules : Rules (λ c r. R c r.0))
    (imports : (c : Core F) (state : MixState F) → R c (import_state state c).0)
    (revised : (c : Core F) (n : ℕ) → R c (record c { rev = n })) where
  one-Step : (cmd : Cmd F) (c : Core F) → Post (λ c r. R c r.0) c (one cmd c)
  one-Step cmd c = one-Post (λ c r. R c r.0) rules cmd c (λ state _. imports c state) (λ _. same c)

  batch_ops-Step :
      (ops : Cmds F) (all : Partial F) (c : Core F) → Post (λ c r. R c r.0) c (batch_ops ops all c)
  unfolding batch_ops
  batch_ops-Step nil all c = same c
  batch_ops-Step (cons op ops) all c = elim (Bool-cases (batchable op)) [
    | inr b ↦ rw (b, batch_ops) tt
    | inl b ↦ elim (Result-cases (one op c).1) [
      | inr (x, e) ↦ rw (b, batch_ops, ◌>>=◌, e) tt
      | inl (p, e) ↦
          rw (b, batch_ops, ◌>>=◌, e)
            (Post-mono (λ d r. R d r.0) (λ c r. R c r.0) c (one op c).0
              (batch_ops ops (gather all p) (one op c).0)
              (λ r g. next c (one op c).0 r.0 (rw e at (one-Step op c)) g)
              (batch_ops-Step ops (gather all p) (one op c).0))
    ]
  ]

  commit-Step :
      (c : Core F) (r : Core F × Result CmdError (Partial F))
      → Post (λ c r. R c r.0) c r
      → Post (λ c r. R c r.0) c (commit c r)
  commit-Step c (d, err x) h = tt
  commit-Step c (d, ok all) h = elim (Bool-cases (ltb max_cmds_per_block (length all.rt))) [
    | inl b ↦ rw b tt
    | inr b ↦ rw b h
  ]

  request-Step : (cmd : Cmd F) (c : Core F) → Post (λ c r. R c r.0) c (batch_or_one cmd c)
  unfolding batch
  request-Step (Cmd.batch ops) c = elim (Bool-cases (ltb max_batch (length_cmds ops))) [
    | inl b ↦ rw (b, batch) tt
    | inr b ↦
        rw (b, batch) (commit-Step c (batch_ops ops no_change c) (batch_ops-Step ops no_change c))
  ]
  request-Step cmd c = one-Step cmd c

  -- Every request relates the core before and after it.
  pub apply-Step : (cmd : Cmd F) (c : Core F) → R c (apply cmd c).0
  unfolding apply finish
  apply-Step cmd c = elim (Result-cases (apply cmd c).1) [
    | inr (x, e) ↦ rw (apply_error_unchanged cmd c x e) (same c)
    | inl (o, e) ↦ elim (Result-cases (batch_or_one cmd c).1) [
      | inr (x, q) ↦ absurd (cc (rw (apply, ◌>>=◌, q) at e))
      | inl (p, q) ↦
          rw (apply, ◌>>=◌, q)
            (next c (batch_or_one cmd c).0 _ (rw (Post, q) at (request-Step cmd c))
              (revised (batch_or_one cmd c).0 _))
    ]
  ]
