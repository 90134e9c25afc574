-- ===== src/Agents/Orchestrator/Executed.antt =====
-- How `execute` of packages/core/src/agents/agent-orchestrator.ts ends.
use rpenginext.Common.{◌≡◌, Bool, true, false, none, String}
use rpenginext.Contracts.{JsonObject, ok, Failure}
use rpenginext.Agents.{TokenUsage, TaskResult, answered, refused}
use rpenginext.Agents.Tools.{ToolState}
use rpenginext.Agents.Orchestrator.{
  OrchestratorTask, Orchestrator, validate_output, may_call, set_active,
}

-- How a task ends: refused for want of a permission with nothing run, answered with what the schema of
-- its type made of an answer, or failed.
pub data IsExecuted {W : Type 0} (o : Orchestrator W) (task : OrchestratorTask) (s : ToolState W)
    : TaskResult × ToolState W → Type 0 where
  denied :
      (f : Failure)
      → may_call o task.requester_kind o.get_module_permissions task ≡ false
      → f.code ≡ "PERMISSION_DENIED"
      → IsExecuted o task s (refused task.task_id f false, s)
  valid :
      (raw : JsonObject) {value : JsonObject} (usage : TokenUsage) (t : ToolState W)
      → may_call o task.requester_kind o.get_module_permissions task ≡ true
      → validate_output o task raw ≡ ok value
      → IsExecuted o task s (answered task.task_id value usage, set_active o none t)
  failed :
      (id : String) (f : Failure) (again : Bool) (t : ToolState W)
      → may_call o task.requester_kind o.get_module_permissions task ≡ true
      → IsExecuted o task s (refused id f again, set_active o none t)

module _ {W : Type 0} (o : Orchestrator W) (task : OrchestratorTask) (s : ToolState W) where
  abbrev Ends : TaskResult × ToolState W → Type 0
  Ends out = IsExecuted o task s (out.0, set_active o none out.1)
