-- ===== src/Pipeline/Interceptors.antt =====
-- `runInterceptorList` and `applyInterceptorEffect` of packages/core/src/pipeline/turn-pipeline.ts. A
-- handler answers with its list of effects, as `normalizeEffects` gives it; the error that an
-- `onError` interceptor is given is a part of the handler.
pub mod Effects
use Prim.Native.String.{◌++◌}
use mathlib.Core.List
use rpenginext.Common.{
  ◌≡◌, refl, Bool, true, false, not, ◌&&◌, Option, none, some, List, [], ◌∷◌, map, filter, String,
  ◌==◌, Dict, lookup, insert, if◌then◌else◌,
}
use rpenginext.Contracts.{
  JsonObject, end, spread, Result, ok, err, Failure, failure_caused_by, ⊤, StateCommand,
}
use rpenginext.Contracts.Permissions.{has_permission}
use rpenginext.Pipeline.{Dialogue, ContributedCommand, Owned, AgentTask, TurnPipeline, TurnScratch}
use rpenginext.Pipeline.Steps.{Step, then_on, ◌>>=◌, ◌>>◌, done, lift, modify}
use rpenginext.Pipeline.Commands.{stamp, push, check_command_permissions, run_dialogue}

pub data InterceptorEffect : Type 0 where
  reject : Failure → InterceptorEffect
  warn : String → InterceptorEffect
  patch_extras : String → JsonObject → InterceptorEffect
  enqueue_agent_task : AgentTask → InterceptorEffect
  enqueue_commands : List ContributedCommand → InterceptorEffect

pub data InterceptorWhen : Type 0 where
  before after on_error : InterceptorWhen

pub record StageInterceptor : Type 0 where
  pub stage : String
  pub when : InterceptorWhen
  pub permission : Option String
  pub handle : Dialogue (List InterceptorEffect)

abbrev same_when : InterceptorWhen → InterceptorWhen → Bool
same_when before before = true
same_when after after = true
same_when on_error on_error = true
same_when _ _ = false

-- packages/core/src/registry/contribution-index.ts, `getInterceptors`
abbrev pub get_interceptors :
    String → InterceptorWhen → List (Owned StageInterceptor) → List (Owned StageInterceptor)
get_interceptors stage when = filter (λ i. (i.value.stage == stage) && same_when i.value.when when)

abbrev pub stamp_task_requester : String → AgentTask → AgentTask
stamp_task_requester module_id task =
    if (task.requester_kind == "module") && not (task.requester_id == "")
    then task
    else record task { requester_kind = "module"; requester_id = module_id }

abbrev or_empty : Option JsonObject → JsonObject
or_empty none = end
or_empty (some o) = o

abbrev pub patch : String → JsonObject → TurnScratch → TurnScratch
patch namespace fields s = record s {
  extras = insert namespace (spread (or_empty (lookup namespace s.extras)) fields) s.extras;
}

abbrev pub add_warning : String → TurnScratch → TurnScratch
add_warning message s = record s { warnings = List.◌++◌ s.warnings (message ∷ []) }

abbrev pub queue_task : AgentTask → TurnScratch → TurnScratch
queue_task task s = record s { queued_tasks = List.◌++◌ s.queued_tasks (task ∷ []) }

abbrev queue_shut : String → Failure
queue_shut module_id =
    failure_caused_by "INTERNAL"
      ("enqueueAgentTask from module "
        ++ (module_id ++ " is only allowed on plan/propose/narrate stages"))
      (module_id ∷ [])

abbrev window_shut : String → Failure
window_shut module_id =
    failure_caused_by "INTERNAL"
      ("enqueueCommands from module "
        ++ (module_id ++ " is only allowed during propose/validate window"))
      (module_id ∷ [])

abbrev lacks : String → String → Failure
lacks module_id token =
    failure_caused_by "PERMISSION_DENIED"
      ("module " ++ (module_id ++ (" lacks interceptor permission " ++ token))) (module_id ∷ [])

unfoldable pub enqueue_task : Bool → String → AgentTask → Step TurnScratch ⊤
enqueue_task false module_id task = lift (err (queue_shut module_id))
enqueue_task true module_id task = modify (queue_task (stamp_task_requester module_id task))

module _ (pipeline : TurnPipeline) where
  unfoldable pub enqueue : Bool → String → List ContributedCommand → Step TurnScratch ⊤
  enqueue false module_id commands = lift (err (window_shut module_id))
  enqueue true module_id commands = do
    lift (check_command_permissions pipeline (map (stamp module_id) commands))
    modify (push (map (stamp module_id) commands))

  unfoldable pub apply_interceptor_effect : InterceptorEffect → String → Step TurnScratch ⊤
  unfolding enqueue_task enqueue
  apply_interceptor_effect (reject f) module_id = lift (err f)
  apply_interceptor_effect (warn message) module_id = modify (add_warning message)
  apply_interceptor_effect (patch_extras namespace fields) module_id =
      modify (patch namespace fields)
  apply_interceptor_effect (enqueue_agent_task task) module_id =
      λ s. enqueue_task s.agent_queue_open module_id task s
  apply_interceptor_effect (enqueue_commands commands) module_id =
      λ s. enqueue s.propose_open module_id commands s

  unfoldable pub apply_effects : List InterceptorEffect → String → Step TurnScratch ⊤
  unfolding apply_interceptor_effect
  apply_effects [] module_id = done tt
  apply_effects (e ∷ es) module_id =
      apply_interceptor_effect e module_id >> apply_effects es module_id

  -- `if (owned.value.permission)`: an empty text is no permission.
  abbrev pub check_interceptor : String → Option String → Result ⊤
  check_interceptor module_id none = ok tt
  check_interceptor module_id (some token) =
      if token == ""
      then ok tt
      else if has_permission (pipeline.get_module_permissions module_id) token
      then ok tt
      else err (lacks module_id token)

  unfoldable pub run_interceptor_list : List (Owned StageInterceptor) → Step TurnScratch ⊤
  unfolding apply_effects
  run_interceptor_list [] = done tt
  run_interceptor_list (owned ∷ rest) = do
    lift (check_interceptor owned.module_id owned.value.permission)
    effects ← run_dialogue pipeline owned.value.handle
    apply_effects effects owned.module_id
    run_interceptor_list rest
