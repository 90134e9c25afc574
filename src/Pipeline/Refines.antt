-- ===== src/Pipeline/Refines.antt =====
-- The stages of packages/core/src/pipeline/turn-pipeline.ts that touch the kernel, in their order,
-- against the turns of Journal.Live.
use rpenginext.Common.{
  ◌≡◌, refl, sym, ◌∙◌, ap, subst, none, some, List, [], ◌∷◌, ◌++◌, append-nil, String,
}
use rpenginext.Contracts.{ok, WorldState, StateCommand, JournalEntry}
use rpenginext.Kernel.{StateKernel, DryApplyResult, begin_turn, dry_apply, commit_on, commit}
use rpenginext.Journal.Live.{Turn, materialize, entry_of, play}
use rpenginext.Pipeline.{TurnPipeline, TurnScratch}
use rpenginext.Pipeline.Validate.{Workspace, stage_validate}
use rpenginext.Pipeline.Validate.Outcomes.{Validates, stage_validate-Validates}
use rpenginext.Pipeline.Materialize.{stage_materialize}
use rpenginext.Pipeline.Materialize.Outcomes.{Extends, Materializes, stage_materialize-Materializes}
use rpenginext.Pipeline.Commit.{CommitDeps, CommitState, stage_commit}
use rpenginext.Pipeline.Commit.Outcomes.{Commits, stage_commit-Commits, view_of_open}

-- The step of the specification for the commands after the narrative.
materialize-Extends :
    (pipeline : TurnPipeline) (w out : Workspace) (extra : List StateCommand)
    → Extends pipeline extra w out
    → (more : List StateCommand) × (materialize extra w.kernel ≡ (ok more, out.kernel))
      × (out.scratch.accepted_commands ≡ w.scratch.accepted_commands ++ more)
unfolding materialize
materialize-Extends pipeline w out [] (k, accepted) =
    ([], λ i. (ok [], sym k i), accepted ∙ sym (append-nil w.scratch.accepted_commands))
materialize-Extends pipeline w out (c ∷ cs) (a, v, ran, accepted, checked) =
    (a.accepted_commands, rw ran refl, accepted)

commit-opened :
    (k : StateKernel) (d : WorldState)
    → k.draft ≡ some d
    → commit k ≡ (ok d, record k { authoritative = d; draft = none; open_turn_id = none })
unfolding commit commit_on
commit-opened k d opened = rw opened refl

abbrev turn_of :
    String → TurnScratch → String → String → List StateCommand → List StateCommand → Turn
turn_of id scratch passage_id at cs extra = record {
  turn_id = id;
  input = scratch.raw_action;
  proposed = cs;
  materialized = extra;
  passage_id = passage_id;
  timestamp = at;
}

-- The four calls of the kernel are the ones of a turn of the specification.
play_of :
    (t : Turn) (k k₁ k₂ k₃ k₄ : StateKernel) (s0 d : WorldState) (a : DryApplyResult)
    (more : List StateCommand)
    → begin_turn t.turn_id k ≡ (ok s0, k₁)
    → dry_apply t.proposed k₁ ≡ (ok a, k₂)
    → materialize t.materialized k₂ ≡ (ok more, k₃)
    → commit k₃ ≡ (ok d, k₄)
    → play t k ≡ (ok (entry_of t s0 (a.accepted_commands ++ more) k₃), k₄)
unfolding play
play_of t k k₁ k₂ k₃ k₄ s0 d a more began ran extended ended =
    rw began (rw ran (rw extended (rw ended refl)))

-- The four stages succeeded one after another, on the workspaces that they left; the narrative
-- between the second and the third wrote neither the kernel nor the accepted commands.
pub record Stages {S : Type 0} (pipeline : TurnPipeline) (deps : CommitDeps S) (at id : String)
    (k : StateKernel) (out : CommitState S) : Type 0 where
  pub s0 : WorldState
  pub begun : Workspace
  pub validated : Workspace
  pub narrated : Workspace
  pub before : CommitState S
  pub began : begin_turn id k ≡ (ok s0, begun.kernel)
  pub validation : stage_validate pipeline.index begun ≡ (ok tt, validated)
  pub narration :
      (narrated.kernel ≡ validated.kernel)
      × (narrated.scratch.accepted_commands ≡ validated.scratch.accepted_commands)
  pub materialization : stage_materialize pipeline narrated ≡ (ok tt, before.workspace)
  pub commitment : stage_commit deps at before ≡ (ok tt, out)

-- A turn of the specification with the same kernel before and after, and the same accepted commands.
pub record IsPlayed (id : String) (k k' : StateKernel) (accepted : List StateCommand) : Type 0 where
  pub turn : Turn
  pub entry : JournalEntry
  pub same_id : turn.turn_id ≡ id
  pub played : play turn k ≡ (ok entry, k')
  pub commands : entry.commands ≡ accepted
  pub next_revision : entry.next_revision ≡ k'.authoritative.meta.revision

-- Where the begin of the kernel's turn, the validation, the materialization and the commit succeed one
-- after another, they do to the kernel what a turn of the journal's specification does, whose entry
-- has the commands that the turn accepted and ends at the published revision.
pub Stages-IsPlayed :
    {S : Type 0} (pipeline : TurnPipeline) (deps : CommitDeps S) (at id : String) (k : StateKernel)
    (out : CommitState S) (s : Stages pipeline deps at id k out)
    → IsPlayed id k out.workspace.kernel s.before.workspace.scratch.accepted_commands
Stages-IsPlayed pipeline deps at id k out s =
    let (cs, resolved, v) =
      subst (Validates pipeline.index s.begun) s.validation
        (stage_validate-Validates pipeline.index s.begun) in
    let (extra, permitted, x) =
      subst (Materializes pipeline s.narrated) s.materialization
        (stage_materialize-Materializes pipeline s.narrated) in
    let h = subst (Commits deps at s.before) s.commitment (stage_commit-Commits deps at s.before) in
    let (more, extended, accepted) =
      materialize-Extends pipeline s.narrated s.before.workspace extra x in
    let t = turn_of id s.begun.scratch h.passage.id at cs extra in
    let k₃ = s.before.workspace.kernel in
    let ended = commit-opened k₃ h.draft h.opened in
    record {
      turn = t;
      entry = entry_of t s.s0 (v.applied.accepted_commands ++ more) k₃;
      same_id = refl;
      played = rw h.published (
          play_of t k s.begun.kernel s.narrated.kernel k₃ _ s.s0 h.draft v.applied more s.began
            (v.ran ∙ (λ i. (ok v.applied, sym s.narration.0 i))) extended ended);
      commands = sym (accepted ∙ ap (λ l. l ++ more) (s.narration.1 ∙ v.accepted));
      next_revision =
          ap (λ (d : WorldState). d.meta.revision)
            (view_of_open k₃ h.draft h.opened
              ∙ sym (ap (λ (x : StateKernel). x.authoritative) h.published));
    }
