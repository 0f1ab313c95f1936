-- ===== src/Server/Mirror/Acts.antt =====
-- What a request or a timer of the control loop does to the core, as its broadcasts show it.
use iemmixer.Base.{
  ℕ, ◌+◌, ◌≡◌, ◌≢◌, refl, sym, ap, ◌∙◌, subst, inl, inr, true, false, not, Option, none, some, List,
  [], ◌∷◌, map, Result, ok, err, Result-cases, Bool-cases, Option-cases, is_some, unwrap_or, arith,
}
use iemmixer.Float.{Float}
use iemmixer.Proto.State.{MixState}
use iemmixer.Proto.Msg.{Cmd, CmdError, Change}
use iemmixer.Proto.EngineMsg.{EngineMsg}
use iemmixer.Engine.Core.{
  Core, Partial, Outcome, Effect, no_effect, send_state, send_topology, save, shutdown, imported,
  ◌>>=◌, no_change, changed, is_nil, finish, u64, failure, import_state, one, batch_or_one, apply,
  clear_from, clear_solos, end_test_signal, state, transient,
}
use iemmixer.Engine.Core.Atomic.{apply_error_unchanged}
use iemmixer.Engine.Core.Rules.{Post}
use iemmixer.Engine.Core.Revision.{Honest, is_imported, Plain, request-Honest, request-Plain}
use iemmixer.Engine.Control.{request, refusal}
use iemmixer.Engine.Control.Broadcasts.{
  Deed, asked, solo_grace_over, test_signal_over, state_msg, publish, effect_msgs, answer, announce,
}
use iemmixer.Server.Mirror.{Mirror, change, change_all}
use iemmixer.Server.Mirror.Follows.{OneName, Follows, moved-Follows}
use iemmixer.Server.Mirror.Tells.{Tells, is_nil_lem, quiet-Tells, test-Follows}
use iemmixer.Server.Mirror.Requests.{request-Tells}
use iemmixer.Server.Mirror.Timers.{clear_from-Tells, clear_from_quiet}

module _ {F : Type 0} ⦃fl : Float F⦄ where
  -- Nothing to show; or a revision and its changes; or a revision and the whole state.
  pub data Shows (c d : Core F) (msgs : List (EngineMsg F)) : Type 0 where
    quiet :
        msgs ≡ []
        → d.rev ≡ c.rev
        → (OneName c.topo → (m : Mirror F) → Follows c m → Follows d m)
        → Shows c d msgs
    told :
        (origin : Option ℕ) (changes : List (Change F))
        → msgs ≡ EngineMsg.delta d.rev origin changes ∷ []
        → d.rev ≡ u64 (c.rev + 1)
        → (OneName c.topo → (m : Mirror F) → Follows c m → Follows d (change_all changes m))
        → Shows c d msgs
    replaced : msgs ≡ state_msg d ∷ [] → d.rev ≡ u64 (c.rev + 1) → Shows c d msgs

  pub record Acts (c : Core F) (r : Core F × List (EngineMsg F)) : Type 0 where
    pub topo : r.0.topo ≡ c.topo
    pub shows : Shows c r.0 r.1

  revised : (c : Core F) (m : Mirror F) (n : ℕ) → Follows c m → Follows (record c { rev = n }) m
  unfolding state transient
  revised c m n f = moved-Follows c (record c { rev = n }) m m f f.state refl refl

  no_effect_msgs :
      (e : Option Effect) (c : Core F)
      → is_imported e ≡ false
      → effect_msgs (unwrap_or e no_effect) c ≡ []
  no_effect_msgs none c h = refl
  no_effect_msgs (some no_effect) c h = refl
  no_effect_msgs (some send_state) c h = refl
  no_effect_msgs (some send_topology) c h = refl
  no_effect_msgs (some save) c h = refl
  no_effect_msgs (some shutdown) c h = refl
  no_effect_msgs (some imported) c h = cc

  finish-Acts :
      (c d : Core F) (p : Partial F) (origin : Option ℕ)
      → d.rev ≡ c.rev
      → Tells c (d, p)
      → p.bump ≡ not (is_nil p.changes)
      → is_imported p.effect ≡ false
      → Acts c (answer origin (finish p d))
  unfolding finish publish change_all
  finish-Acts c d p origin r t b e = elim (Bool-cases (is_nil p.changes)) [
    | inl n ↦
        let still : p.bump ≡ false = b ∙ ap not n in
        rw (n, still, no_effect_msgs p.effect _ e)
          (record {
            topo = t.topo;
            shows = quiet refl r (λ one m f.
                revised d m d.rev
                  (subst (λ cs. Follows d (change_all cs m)) (is_nil_lem _ n) (t.told one m f)));
          })
    | inr n ↦
        let grown : p.bump ≡ true = b ∙ ap not n in
        rw (n, grown, no_effect_msgs p.effect _ e)
          (record {
            topo = t.topo;
            shows =
                told origin p.changes refl (ap (λ k. u64 (k + 1)) r)
                  (λ one m f. revised d (change_all p.changes m) _ (t.told one m f));
          })
  ]

  -- A request that fails.
  failed-Acts :
      (c : Core F) (r : Core F × Result CmdError (Outcome F)) (x : CmdError) (origin : Option ℕ)
      → r.1 ≡ err x
      → r.0 ≡ c
      → Acts c (answer origin r)
  failed-Acts c (d, ok o) x origin h q = absurd cc
  failed-Acts c (d, err y) x origin h q = record {
    topo = ap (λ (c : Core F). c.topo) q;
    shows =
        quiet refl (ap (λ (c : Core F). c.rev) q) (λ one m f. subst (λ e. Follows e m) (sym q) f);
  }

  plain-Acts :
      (c : Core F) (cmd : Cmd F) (origin : Option ℕ)
      → ((s : MixState F) → cmd ≢ Cmd.import_state s)
      → Acts c (answer origin (apply cmd c))
  unfolding apply
  plain-Acts c cmd origin n = elim (Result-cases (batch_or_one cmd c).1) [
    | inl (p, e) ↦
        let h : Honest c ((batch_or_one cmd c).0, p) = rw (e, Post) at (request-Honest cmd c) in
        let q : Plain c ((batch_or_one cmd c).0, p) = rw (e, Post) at (request-Plain cmd c n) in
        rw (e, ◌>>=◌)
          (finish-Acts c (batch_or_one cmd c).0 p origin h.rev
            (rw (e, Post) at (request-Tells cmd c n)) (ground (arith, h.told, q)) q)
    | inr (x, e) ↦
        let f : (apply cmd c).1 ≡ err x = rw (e, ◌>>=◌) refl in
        failed-Acts c (apply cmd c) x origin f (apply_error_unchanged cmd c x f)
  ]

  apply-Acts : (c : Core F) (cmd : Cmd F) (origin : Option ℕ) → Acts c (answer origin (apply cmd c))
  unfolding apply one import_state finish publish
  apply-Acts c (Cmd.import_state s) origin = record { topo = refl; shows = replaced refl refl }
  apply-Acts c cmd origin = plain-Acts c cmd origin (λ s e. absurd cc)

  clear-Acts : (c : Core F) → Acts c (answer none (clear_solos c))
  unfolding clear_solos
  clear-Acts c =
      let ms = map (λ (e : ℕ × List ℕ). e.0) c.solo in
      let t = clear_from-Tells ms c c no_change (quiet-Tells c no_change refl) in
      let (r, e) = clear_from_quiet ms c no_change in
      finish-Acts c (clear_from ms no_change c).0 _ none r (record { topo = t.topo; told = t.told })
        refl (ap is_imported e)

  ended-Acts : (c : Core F) → Acts c (answer none (end_test_signal c))
  unfolding end_test_signal changed change_all change state transient
  ended-Acts c = elim (Bool-cases (is_some c.test)) [
    | inl e ↦ rw e (
        finish-Acts c (record c { test = none }) (changed (Change.test_signal none ∷ []) []) none
          refl (record { topo = refl; told = λ one m f. test-Follows c m none c.hil_test f }) refl
          refl)
    | inr e ↦ rw e (finish-Acts c c no_change none refl (quiet-Tells c no_change refl) refl refl)
  ]

  -- Whatever is asked by whomever, and whenever a timer runs out.
  pub announce-Acts : (deed : Deed F) (c : Core F) → Acts c (announce deed c)
  unfolding announce request
  announce-Acts (asked role origin cmd) c = elim (Option-cases (refusal role cmd)) [
    | inl e ↦ rw (e, request) (apply-Acts c cmd origin)
    | inr (x, e) ↦ rw (e, request) (failed-Acts c (c, failure x) _ origin refl refl)
  ]
  announce-Acts solo_grace_over c = clear-Acts c
  announce-Acts test_signal_over c = ended-Acts c
