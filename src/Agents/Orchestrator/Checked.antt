-- ===== src/Agents/Orchestrator/Checked.antt =====
-- What `execute` of packages/core/src/agents/agent-orchestrator.ts lets a task do.
use rpenginext.Common.{
  ◌≡◌, refl, sym, subst, Bool, true, false, Option, none, some, List, map, String, Dict, lookup,
  if◌then◌else◌,
}
use rpenginext.Contracts.{JsonObject, Result, ok, err}
use rpenginext.Agents.{
  LlmMessage, LlmCompletionRequest, LlmCompletionResponse, TokenUsage, TaskResult, answered,
  refused,
}
use rpenginext.Agents.ToolLoop.{or_else, allowlist}
use rpenginext.Agents.ToolLoop.Requests.{run_tool_calling_task-requests}
use rpenginext.Agents.Tools.{ToolState, ToolCall, AgentToolDefinition, invoke_tool}
use rpenginext.Agents.Tools.Allowed.{IsAllowed, IsInvoked, declined, ran, invoke_tool-IsInvoked}
use rpenginext.Agents.Orchestrator.{
  OrchestratorTask, AgentsRuntimeMode, mock, llm, LlmAdapter, Orchestrator, with_default_repairs,
  known_tools, or_list, collect_repair_hints, validate_output, tool_options, messages_of,
  try_tool_calling_task, adapt, scripted, has_port, invoke_in, may_call, retries, settle_validated,
  settle_raw, set_active, execute_when, execute,
}

-- What may touch the world in a task with these tools keeps `P`.
pub record AllKeep {W : Type 0} (o : Orchestrator W) (tools : List String) (P : W → Type 0)
    : Type 0 where
  pub ports :
      (complete : LlmCompletionRequest → W → Result LlmCompletionResponse × W)
      (r : LlmCompletionRequest) (w : W)
      → o.llm_port ≡ some complete
      → P w
      → P (complete r w).1
  pub adapters :
      (a : LlmAdapter W) (t : OrchestratorTask) (w : W)
      → o.llm_adapter ≡ some a
      → P w
      → P (a.perform t w).1
  pub scripts :
      (type : String) (script : OrchestratorTask → W → TaskResult × W) (t : OrchestratorTask)
      (w : W)
      → o.mock_script type ≡ some script
      → P w
      → P (script t w).1
  pub hints :
      (type issue : String) (w : W) → P w → P (collect_repair_hints o.hint_providers type issue w).1
  pub handlers :
      (id : String) (args : JsonObject) (call : ToolCall W) (w : W)
      → IsAllowed o.index id args (some tools) call
      → P w
      → P (call.handler.invoke call.parsed_args w).1

listed_tools :
    (tools : Dict AgentToolDefinition) (list : Option (List String))
    → or_else list (map (λ t. t.name) (known_tools tools (or_list list))) ≡ or_list list
listed_tools tools none = refl
listed_tools tools (some l) = refl

module _ {W : Type 0} (o : Orchestrator W) (task : OrchestratorTask) (P : W → Type 0)
    (keep : AllKeep o (or_list task.constraints.tools) P) where
  invoked-keeps :
      (id : String) (args : JsonObject) (before after : W) (answer : Result JsonObject)
      → IsInvoked o.index id args (some (or_list task.constraints.tools)) before answer after
      → P before
      → P after
  invoked-keeps id args before after answer (declined f) p = p
  invoked-keeps id args before after answer (ran call allowed e) p =
      keep.handlers id args call before allowed p

  tool-keeps :
      (id : String) (args : JsonObject) (list : List String) (s : ToolState W)
      → list ≡ or_list task.constraints.tools
      → P s.world
      → P (invoke_tool o.index id args (some list) s).1.world
  tool-keeps id args list s e p =
      subst (λ l. P (invoke_tool o.index id args (some l) s).1.world) (sym e)
        (invoked-keeps id args s.world _ _
          (invoke_tool-IsInvoked o.index id args (some (or_list task.constraints.tools)) s).0 p)

  try_tool_calling_task-keeps :
      (port : Option (LlmCompletionRequest → W → Result LlmCompletionResponse × W)) (context : Bool)
      (build : Option (OrchestratorTask → List LlmMessage))
      (otherwise : ToolState W → TaskResult × ToolState W)
      → o.llm_port ≡ port
      → ((s : ToolState W) → P s.world → P (otherwise s).1.world)
      → (s : ToolState W) → P s.world
      → P (try_tool_calling_task o port context build task otherwise s).1.world
  unfolding try_tool_calling_task
  try_tool_calling_task-keeps none context build otherwise e rest s p = rest s p
  try_tool_calling_task-keeps (some complete) false build otherwise e rest s p = rest s p
  try_tool_calling_task-keeps (some complete) true none otherwise e rest s p = rest s p
  try_tool_calling_task-keeps (some complete) true (some build) otherwise e rest s p =
      let prepared = with_default_repairs task o.max_repair_attempts in
      let opts = tool_options o complete (build prepared) prepared in
      (run_tool_calling_task-requests opts (λ n t. P t.world) s
        (λ n r u request h. keep.ports complete r u.world e h)
        (λ n c u h.
          tool-keeps c.name c.args (allowlist opts) u
            (listed_tools o.index.agent_tools task.constraints.tools) h)
        (λ n issues u h. keep.hints task.type issues u.world h) p).2

  either-keeps :
      (b : Bool) (x y : TaskResult × ToolState W)
      → P x.1.world
      → P y.1.world
      → P (if b then x else y).1.world
  either-keeps true x y p q = p
  either-keeps false x y p q = q

  adapt-keeps :
      (adapter : Option (LlmAdapter W)) (otherwise : ToolState W → TaskResult × ToolState W)
      → o.llm_adapter ≡ adapter
      → ((s : ToolState W) → P s.world → P (otherwise s).1.world)
      → (s : ToolState W) → P s.world
      → P (adapt o adapter task otherwise s).1.world
  adapt-keeps none otherwise e rest s p = rest s p
  adapt-keeps (some a) otherwise e rest s p =
      either-keeps (a.supports task.type) _ _
        (keep.adapters a (with_default_repairs task o.max_repair_attempts) s.world e p) (rest s p)

  scripted-keeps :
      (script : Option (OrchestratorTask → W → TaskResult × W))
      (otherwise : ToolState W → TaskResult × ToolState W)
      → o.mock_script task.type ≡ script
      → ((s : ToolState W) → P s.world → P (otherwise s).1.world)
      → (s : ToolState W) → P s.world
      → P (scripted o script task otherwise s).1.world
  scripted-keeps none otherwise e rest s p = rest s p
  scripted-keeps (some script) otherwise e rest s p = keep.scripts task.type script task s.world e p

  has_port-keeps :
      (port : Option (LlmCompletionRequest → W → Result LlmCompletionResponse × W))
      (next : ToolState W → TaskResult × ToolState W)
      → ((s : ToolState W) → P s.world → P (next s).1.world)
      → (s : ToolState W) → P s.world
      → P (has_port o port next task s).1.world
  has_port-keeps none next rest s p = p
  has_port-keeps (some port) next rest s p = rest s p

  invoke_in-keeps :
      (mode : AgentsRuntimeMode) (s : ToolState W) → P s.world → P (invoke_in o mode task s).1.world
  unfolding invoke_in
  invoke_in-keeps mock =
      scripted-keeps (o.mock_script task.type) _ refl (adapt-keeps o.llm_adapter _ refl (λ s p. p))
  invoke_in-keeps llm = adapt-keeps o.llm_adapter _ refl (
      try_tool_calling_task-keeps o.llm_port o.has_context
        (messages_of o (lookup task.type o.agent_task_types)) _ refl
        (has_port-keeps o.llm_port _ (scripted-keeps (o.mock_script task.type) _ refl (λ s p. p))))

  settle_validated-keeps :
      (r : Result JsonObject) (usage : TokenUsage) (again : Bool) (s : ToolState W)
      → P s.world
      → P (settle_validated o task r usage again s).1.world
  unfolding settle_validated
  settle_validated-keeps (ok value) usage again s p = p
  settle_validated-keeps (err f) usage false s p = p
  settle_validated-keeps (err f) usage true s p = invoke_in-keeps o.mode s p

  settle_raw-keeps :
      (out : TaskResult × ToolState W) → P out.1.world → P (settle_raw o task out).1.world
  unfolding settle_raw
  settle_raw-keeps (refused id f again, s) p = p
  settle_raw-keeps (answered id answer usage, s) p =
      settle_validated-keeps (validate_output o task answer) usage
        (retries o o.mode o.max_repair_attempts) s p

  execute_when-keeps :
      (may : Bool) (s : ToolState W) → P s.world → P (execute_when o may task s).1.world
  unfolding execute_when
  execute_when-keeps false s p = p
  execute_when-keeps true s p =
      let t = set_active o (some task.task_id) s in
      settle_raw-keeps (invoke_in o o.mode task t) (invoke_in-keeps o.mode t p)

-- Whatever holds of the world holds after a task too, if the model, the adapter, the mock script and
-- the hints keep it, and so does each handler of a registered tool that the task lists, that the turn
-- permits, and that is called with arguments of its schema: nothing else can touch the world.
pub execute-keeps :
    {W : Type 0} (o : Orchestrator W) (task : OrchestratorTask) (P : W → Type 0) (s : ToolState W)
    → AllKeep o (or_list task.constraints.tools) P
    → P s.world
    → P (execute o task s).1.world
unfolding execute
execute-keeps o task P s keep p =
    execute_when-keeps o task P keep (may_call o task.requester_kind o.get_module_permissions task)
      s p
