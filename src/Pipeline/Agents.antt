-- ===== src/Pipeline/Agents.antt =====
-- The stages of packages/core/src/pipeline/turn-pipeline.ts that ask agents: `drainQueuedAgents`,
-- `stageBegin` and `stagePlan`. What `orchestrator.executeMany` gives for a task is a function of the
-- task.
use mathlib.Core.List
use Prim.Native.String.{◌++◌}
use rpenginext.Common.{
  Bool, true, false, Option, none, some, List, [], ◌∷◌, map, String, Dict, insert,
}
use rpenginext.Contracts.{
  JsonObject, JsonValue, obj, str, field, end, Result, err, Failure, ⊤, PlayerAction,
}
use rpenginext.Pipeline.{TurnKind, player, system, restore, Owned, AgentTask, TurnScratch}
use rpenginext.Pipeline.Steps.{Step, ◌>>=◌, ◌>>◌, done, lift, modify, read}
use rpenginext.Pipeline.Interceptors.{stamp_task_requester}

-- An agent's error has a code, a message and details, as a failure has.
pub data AgentResult : Type 0 where
  succeeded : JsonObject → AgentResult
  failed : Failure → AgentResult

abbrev details_field : Option JsonValue → JsonObject
details_field none = end
details_field (some d) = field "details" d end

abbrev error_object : Failure → JsonObject
error_object e =
    field "code" (str e.code) (field "message" (str e.message) (details_field e.details))

abbrev agent_failed : AgentTask → Failure → Failure
agent_failed task e = record {
  code = "AGENT_FAILED";
  message = e.message;
  details = some (obj (error_object e));
  caused_by = some (task.requester_id ∷ []);
}

abbrev pub task_key : AgentTask → String
task_key task = "agent." ++ (task.type ++ ("." ++ task.task_id))

abbrev pub store_result : String → JsonObject → TurnScratch → TurnScratch
store_result key answer s = record s { extras = insert key answer s.extras }

-- The body of the loop over the results, with `task.constraints.optional`.
unfoldable pub settle_result : Bool → AgentTask → AgentResult → Step TurnScratch ⊤
settle_result optional task (succeeded answer) = modify (store_result (task_key task) answer)
settle_result true task (failed e) = done tt
settle_result false task (failed e) = lift (err (agent_failed task e))

unfoldable pub settle_results : List (AgentTask × AgentResult) → Step TurnScratch ⊤
unfolding settle_result
settle_results [] = done tt
settle_results ((task, result) ∷ rest) =
    settle_result task.optional task result >> settle_results rest

abbrev pub clear_queue : TurnScratch → TurnScratch
clear_queue s = record s { queued_tasks = [] }

abbrev pub set_planned : String → JsonObject → TurnScratch → TurnScratch
set_planned module_id artifacts s = record s {
  plan_artifacts = insert module_id artifacts s.plan_artifacts;
}

abbrev pub set_salience : String → JsonObject → TurnScratch → TurnScratch
set_salience module_id answer s = record s {
  extras = insert ("salience." ++ module_id) answer s.extras;
}

abbrev pub queue_tasks : String → List AgentTask → TurnScratch → TurnScratch
queue_tasks module_id tasks s = record s {
  queued_tasks = List.◌++◌ s.queued_tasks (map (stamp_task_requester module_id) tasks);
}

module _ (execute : AgentTask → AgentResult) where
  -- A turn that restores runs no agent: its tasks are dropped.
  unfoldable pub run_tasks : TurnKind → List AgentTask → Step TurnScratch ⊤
  unfolding settle_results
  run_tasks restore tasks = done tt
  run_tasks player tasks = settle_results (map (λ t. (t, execute t)) tasks)
  run_tasks system tasks = settle_results (map (λ t. (t, execute t)) tasks)

  unfoldable pub drain_queued_agents : Step TurnScratch ⊤
  unfolding run_tasks
  drain_queued_agents = do s ← read; modify clear_queue; run_tasks s.kind s.queued_tasks

-- `Object.assign(scratch.extras, result.value.extras)`
abbrev pub assign : Dict JsonObject → Dict JsonObject → Dict JsonObject
assign [] extras = extras
assign ((k, v) ∷ more) extras = assign more (insert k v extras)

abbrev pub assign_extras : Dict JsonObject → TurnScratch → TurnScratch
assign_extras more s = record s { extras = assign more s.extras }

-- Extras that are missing are the empty dictionary.
unfoldable pub stage_begin : List (Owned (Result (Dict JsonObject))) → Step TurnScratch ⊤
stage_begin [] = done tt
stage_begin (o ∷ setups) = do more ← lift o.value; modify (assign_extras more); stage_begin setups

pub record Plan : Type 0 where
  pub artifacts : JsonObject
  pub suggested_tasks : List AgentTask

-- What the plan stage calls; the handlers take the intent.
pub record PlanPorts : Type 0 where
  pub salience_providers : List (Owned (JsonObject → Result JsonObject))
  pub planners : List (Owned (JsonObject → Result Plan))
  pub agent_task_contributors :
      List (Owned (String → JsonObject → TurnKind → PlayerAction → Result (List AgentTask)))

module _ (intent : JsonObject) where
  unfoldable pub provide_salience :
      List (Owned (JsonObject → Result JsonObject)) → Step TurnScratch ⊤
  provide_salience [] = done tt
  provide_salience (o ∷ os) = do
    answer ← lift (o.value intent)
    modify (set_salience o.module_id answer)
    provide_salience os

  unfoldable pub make_plans : List (Owned (JsonObject → Result Plan)) → Step TurnScratch ⊤
  make_plans [] = done tt
  make_plans (o ∷ os) = do
    plan ← lift (o.value intent)
    modify (set_planned o.module_id plan.artifacts)
    modify (queue_tasks o.module_id plan.suggested_tasks)
    make_plans os

  unfoldable pub contribute_tasks :
      String
      → List (Owned (String → JsonObject → TurnKind → PlayerAction → Result (List AgentTask)))
      → Step TurnScratch ⊤
  contribute_tasks stage [] = done tt
  contribute_tasks stage (o ∷ os) = do
    s ← read
    tasks ← lift (o.value stage intent s.kind s.raw_action)
    modify (queue_tasks o.module_id tasks)
    contribute_tasks stage os

module _ (execute : AgentTask → AgentResult) (ports : PlanPorts) where
  unfoldable pub plan_when : TurnKind → JsonObject → Step TurnScratch ⊤
  unfolding provide_salience make_plans contribute_tasks drain_queued_agents
  plan_when restore intent = done tt
  plan_when kind intent = do
    provide_salience intent ports.salience_providers
    make_plans intent ports.planners
    contribute_tasks intent "plan" ports.agent_task_contributors
    drain_queued_agents execute

  unfoldable pub stage_plan : JsonObject → Step TurnScratch ⊤
  unfolding plan_when
  stage_plan intent = do s ← read; plan_when s.kind intent
