-- ===== src/Pipeline/Materialize.antt =====
-- `stageMaterialize` of packages/core/src/pipeline/turn-pipeline.ts: the commands that follow the
-- narrative, applied to the draft that the validation left.
pub mod Outcomes
use mathlib.Core.List
use rpenginext.Common.{◌≡◌, refl, Bool, true, false, Option, none, some, List, [], ◌∷◌, map, String}
use rpenginext.Contracts.{JsonObject, Result, ok, err, ⊤, WorldState, StateCommand, Passage}
use rpenginext.Kernel.{StateKernel, DryApplyResult, get_draft_view, dry_apply}
use rpenginext.Pipeline.{
  Owned, Dialogue, ContributedCommand, ContributionIndex, TurnPipeline, TurnScratch,
}
use rpenginext.Pipeline.Steps.{Step, then_on, ◌>>=◌, ◌>>◌, done, lift, modify, read}
use rpenginext.Pipeline.Commands.{stamp, check_command_permissions, run_dialogue}
use rpenginext.Pipeline.Validate.{
  Workspace, on_kernel, validate_commands, check_invariant_ports, set_accepted,
}

abbrev pub on_scratch : {A : Type 0} → Step TurnScratch A → Step Workspace A
on_scratch step w = let (r, s) = step w.scratch in (r, record w { scratch = s })

abbrev pub set_open : Bool → TurnScratch → TurnScratch
set_open opened s = record s { propose_open = opened }

module _ (pipeline : TurnPipeline) where
  -- The loop over the contributors, which gathers `extraCommands`.
  unfoldable pub gather :
      List (Owned (Dialogue (List ContributedCommand)))
      → List StateCommand
      → Step TurnScratch (List StateCommand)
  gather [] extra = done extra
  gather (owned ∷ rest) extra = do
    commands ← run_dialogue pipeline owned.value
    lift (check_command_permissions pipeline (map (stamp owned.module_id) commands))
    gather rest (List.◌++◌ extra (map (stamp owned.module_id) commands))

  -- Without a contributor the stage returns before it opens the window. `try { ... } finally { scratch.proposeOpen = false; }`
  unfoldable pub gather_open :
      List (Owned (Dialogue (List ContributedCommand))) → Step TurnScratch (List StateCommand)
  unfolding gather
  gather_open [] s = (ok [], s)
  gather_open (owned ∷ rest) s =
      let (r, t) = gather (owned ∷ rest) [] (set_open true s) in (r, set_open false t)

  abbrev pub post_contributions :
      Passage → JsonObject → Workspace → List (Owned (Dialogue (List ContributedCommand)))
  post_contributions passage intent w =
      map
        (λ owned. record {
          module_id = owned.module_id;
          value =
              owned.value passage intent (get_draft_view w.kernel) w.scratch.raw_action
                w.scratch.kind;
        })
        pipeline.index.post_narrative_contributors

  abbrev pub after_extra : DryApplyResult → Step Workspace ⊤
  after_extra applied = do
    w ← read
    modify (set_accepted (List.◌++◌ w.scratch.accepted_commands applied.accepted_commands))
    lift (check_invariant_ports pipeline.index.invariant_ports applied.draft)

  unfoldable pub apply_extra : List StateCommand → Step Workspace ⊤
  apply_extra [] = done tt
  apply_extra (c ∷ cs) = do
    w ← read
    lift (validate_commands pipeline.index.command_validators (c ∷ cs) (get_draft_view w.kernel))
    applied ← on_kernel (dry_apply (c ∷ cs))
    after_extra applied

  unfoldable pub materialize_for : Passage → JsonObject → Step Workspace ⊤
  unfolding gather_open apply_extra
  materialize_for passage intent = do
    w ← read
    extra ← on_scratch (gather_open (post_contributions passage intent w))
    apply_extra extra

  unfoldable pub materialize_when : Option Passage → Option JsonObject → Step Workspace ⊤
  unfolding materialize_for
  materialize_when (some passage) (some intent) = materialize_for passage intent
  materialize_when none intent = done tt
  materialize_when (some passage) none = done tt

  unfoldable pub stage_materialize : Step Workspace ⊤
  unfolding materialize_when
  stage_materialize = do w ← read; materialize_when w.scratch.passage w.scratch.intent
