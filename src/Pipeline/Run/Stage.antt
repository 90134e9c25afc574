-- ===== src/Pipeline/Run/Stage.antt =====
-- `stageBody` and `runStage` of packages/core/src/pipeline/turn-pipeline.ts, with the stages that have
-- no module of their own.
use mathlib.Core.List
use Prim.Native.String.{◌++◌}
use rpenginext.Common.{Bool, true, false, Option, none, some, List, [], ◌∷◌, String}
use rpenginext.Contracts.{Result, ok, err, ⊤, WorldState, Passage}
use rpenginext.ConflictPaths.{trim}
use rpenginext.Kernel.{get_draft_view}
use rpenginext.Pipeline.{TurnKind, player, system, restore, TurnScratch}
use rpenginext.Pipeline.Steps.{Step, ◌>>=◌, ◌>>◌, done, lift, modify, read}
use rpenginext.Pipeline.Stages.{StageId, stage_name}
use rpenginext.Pipeline.Interceptors.{InterceptorWhen, get_interceptors, run_interceptor_list}
use rpenginext.Pipeline.Commands.{stage_propose}
use rpenginext.Pipeline.Validate.{Workspace, stage_validate}
use rpenginext.Pipeline.Materialize.{on_scratch, stage_materialize}
use rpenginext.Pipeline.Commit.{PendingSystemTurn, CommitState, stage_commit}
use rpenginext.Pipeline.Dispatch.{allowed}
use rpenginext.Pipeline.Guard.{stage_guard}
use rpenginext.Pipeline.Agents.{drain_queued_agents, contribute_tasks, stage_begin, stage_plan}
use rpenginext.Pipeline.Narrate.{write_narrative}
use rpenginext.Pipeline.Run.Types.{
  NarrativeTask, TurnDeps, TurnEvent, stage_started, stage_finished, TurnRun, or_empty,
  propose_opens, agent_opens, agent_queue_opens, set_windows, is_plan, set_normalized, set_intent,
  set_prose, set_passage, observe, or_text, or_nonempty, check_passage,
}

-- `ctx.stateView` is the draft.
abbrev pub on_view : {A : Type 0} → (WorldState → Step TurnScratch A) → Step Workspace A
on_view step w = on_scratch (step (get_draft_view w.kernel)) w

module _ {S A : Type 0} where
  abbrev pub on_workspace : Step Workspace A → Step (CommitState S) A
  on_workspace step c = let (r, w) = step c.workspace in (r, record c { workspace = w })

  abbrev pub on_state : Step (CommitState S) A → Step (TurnRun S) A
  on_state step t = let (r, c) = step t.state in (r, record t { state = c })

  abbrev pub in_scratch : Step TurnScratch A → Step (TurnRun S) A
  in_scratch step = on_state (on_workspace (on_scratch step))

abbrev pub emit : {S : Type 0} → TurnEvent → TurnRun S → TurnRun S
emit e t = record t { log = List.◌++◌ t.log (e ∷ []) }

abbrev pub requested : List (Result (List PendingSystemTurn)) → List PendingSystemTurn
requested [] = []
requested (ok ts ∷ rest) = List.◌++◌ ts (requested rest)
requested (err e ∷ rest) = requested rest

abbrev pub schedule : {S : Type 0} → List PendingSystemTurn → TurnRun S → TurnRun S
schedule ts t = record t {
  scheduled = List.◌++◌ t.scheduled (allowed t.state.workspace.scratch.kind ts);
}

module _ {S : Type 0} (deps : TurnDeps S) where
  abbrev pub stage_normalize : WorldState → Step TurnScratch ⊤
  stage_normalize draft = do
    s ← read
    action ← lift (deps.ports.normalize s draft)
    modify (set_normalized action)

  abbrev pub stage_intent : WorldState → Step TurnScratch ⊤
  stage_intent draft = do
    s ← read
    i ← lift (deps.ports.interpret s draft)
    modify (set_intent i.0 i.1)

  abbrev pub guarded : Step TurnScratch ⊤
  guarded = do s ← read; stage_guard deps.ports.guards (or_empty s.normalized) (or_empty s.intent)

  abbrev pub planned : Step TurnScratch ⊤
  planned = do s ← read; stage_plan deps.ports.execute deps.ports.plans (or_empty s.intent)

  abbrev pub proposed : Step TurnScratch ⊤
  proposed = do s ← read; stage_propose deps.pipeline deps.command_id (or_empty s.intent)

  abbrev pub write_prose : NarrativeTask → Result String
  write_prose task =
      (write_narrative deps.max_narrative_critic_retries task.critics deps.critic_policy
        task.write).0

  unfoldable pub narrate_when : TurnKind → WorldState → Step TurnScratch ⊤
  unfolding trim contribute_tasks drain_queued_agents
  narrate_when restore draft = modify (λ s.
      set_prose (or_text s.narrative_prose "(restore) session views rebuilt without narrative.") s)
  narrate_when system draft =
      modify (λ s.
        set_prose ("(system) " ++ or_nonempty (trim (or_text s.raw_action.text "")) "system") s)
  narrate_when player draft = do
    s ← read
    contribute_tasks (or_empty s.intent) "narrate" deps.ports.plans.agent_task_contributors
    drain_queued_agents deps.ports.execute
    t ← read
    task ← lift (deps.ports.brief t draft)
    prose ← lift (write_prose task)
    modify (set_prose prose)

  unfoldable pub stage_narrate : WorldState → Step TurnScratch ⊤
  unfolding narrate_when
  stage_narrate draft = do s ← read; narrate_when s.kind draft

  unfoldable pub stage_present : WorldState → Step TurnScratch ⊤
  stage_present draft = do
    s ← read
    prose ← lift (deps.ports.assemble (or_text s.narrative_prose "") draft)
    lift (check_passage prose)
    shown ← lift (deps.ports.visible_state draft)
    modify (
        set_passage (record {
          id = deps.passage_id;
          turn_id = s.turn_id;
          prose = prose;
          visible_state = shown;
        }))

  unfoldable pub after_passage : Option Passage → Step (TurnRun S) ⊤
  after_passage none = done tt
  after_passage (some p) = do
    in_scratch (modify (observe deps.ports.after_commit))
    modify (schedule (requested deps.ports.schedulers))

  unfoldable pub stage_after : Step (TurnRun S) ⊤
  unfolding after_passage
  stage_after t = after_passage t.state.workspace.scratch.passage t

  unfoldable pub stage_body : StageId → Step (TurnRun S) ⊤
  unfolding stage_narrate stage_present stage_after
  stage_body StageId.begin = in_scratch (stage_begin deps.ports.turn_setups)
  stage_body StageId.normalize = on_state (on_workspace (on_view stage_normalize))
  stage_body StageId.intent = on_state (on_workspace (on_view stage_intent))
  stage_body StageId.guard = in_scratch guarded
  stage_body StageId.plan = in_scratch planned
  stage_body StageId.propose = in_scratch proposed
  stage_body StageId.validate_commands =
      on_state (on_workspace (stage_validate deps.pipeline.index))
  stage_body StageId.narrate = on_state (on_workspace (on_view stage_narrate))
  stage_body StageId.present =
      on_state (on_workspace (on_view stage_present >> stage_materialize deps.pipeline))
  stage_body StageId.commit = on_state (stage_commit deps.commits deps.at)
  stage_body StageId.after = stage_after
  stage_body StageId.end = done tt

  unfoldable pub run_named : String → InterceptorWhen → Step (TurnRun S) ⊤
  run_named name when =
      in_scratch
        (run_interceptor_list deps.pipeline (get_interceptors name when deps.ports.interceptors))

  unfoldable pub run_interceptors : StageId → InterceptorWhen → Step (TurnRun S) ⊤
  unfolding run_named
  run_interceptors StageId.begin InterceptorWhen.before =
      run_named "begin" InterceptorWhen.before >> run_named "turn.begin" InterceptorWhen.before
  run_interceptors stage when = run_named (stage_name stage) when

  abbrev pub drain_when : Bool → Step (TurnRun S) ⊤
  drain_when true = in_scratch (drain_queued_agents deps.ports.execute)
  drain_when false = done tt

  abbrev pub drains_before : StageId → Bool
  drains_before stage = elim (is_plan stage) [ true ↦ false | false ↦ agent_queue_opens stage ]

  unfoldable pub settle_body : StageId → Result ⊤ × TurnRun S → Result ⊤ × TurnRun S
  unfolding run_interceptors
  settle_body stage (ok u, t) =
      (run_interceptors stage InterceptorWhen.after >> drain_when (agent_queue_opens stage)) t
  settle_body stage (err e, t) = (err e, (run_interceptors stage InterceptorWhen.on_error t).1)

  unfoldable pub run_inner : StageId → Step (TurnRun S) ⊤
  unfolding run_interceptors stage_body settle_body
  run_inner stage = do
    run_interceptors stage InterceptorWhen.before
    drain_when (drains_before stage)
    λ t. settle_body stage (stage_body stage t)

  abbrev pub set_open : Bool → Bool → Bool → TurnRun S → TurnRun S
  set_open p a q t = (in_scratch (modify (set_windows p a q)) t).1

  abbrev pub finish_stage : StageId → Result ⊤ × TurnRun S → Result ⊤ × TurnRun S
  finish_stage stage (ok u, t) =
      (ok tt, set_open false false false (emit (stage_finished stage true) t))
  finish_stage stage (err e, t) =
      (err e, set_open false false false (emit (stage_finished stage false) t))

  abbrev pub start_stage : StageId → TurnRun S → TurnRun S
  start_stage stage t =
      emit (stage_started stage)
        (set_open (propose_opens stage) (agent_opens stage) (agent_queue_opens stage) t)

  unfoldable pub run_stage : StageId → Step (TurnRun S) ⊤
  unfolding run_inner
  run_stage stage t = finish_stage stage (run_inner stage (start_stage stage t))
