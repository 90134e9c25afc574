-- ===== src/Agents/Orchestrator.antt =====
-- packages/core/src/agents/agent-orchestrator.ts: `execute` of a task, with the mode `llm` or `mock`, and
-- the task whose model may call tools. The adapter of the standard tasks, the mock script, the
-- providers of hints and the schemas are parameters; the events, the logs and the audit are left out.
mod Types
pub mod Checked
pub mod Executed
unfoldable pub use Types.*
use mathlib.Core.List
use Prim.Native.String.{◌++◌}
use rpenginext.Common.{
  ℕ, zero, suc, Bool, true, false, not, ◌&&◌, Option, none, some, List, [], ◌∷◌, String, ◌==◌, ltb,
  Dict, lookup, if◌then◌else◌,
}
use rpenginext.Contracts.{
  JsonObject, JsonValue, str, bool, field, end, Result, ok, err, Failure, failure, failure_details,
  Parsed, success, issues,
}
use rpenginext.Contracts.Permissions.{has_permission, agent_call_permission}
use rpenginext.Agents.{
  LlmToolDefinition, LlmMessage, LlmCompletionRequest, LlmCompletionResponse, AgentTaskConstraints,
  TokenUsage, TaskResult, answered, refused,
}
use rpenginext.Agents.ToolLoop.{ToolLoopOptions, LoopState, run_tool_calling_task}
use rpenginext.Agents.Tools.{AgentToolDefinition, ToolIndex, ToolState, invoke_tool, passes}

abbrev larger : ℕ → ℕ → ℕ
larger a b = if ltb a b then b else a

abbrev pub with_default_repairs : OrchestratorTask → ℕ → OrchestratorTask
with_default_repairs task fallback = record task {
  constraints = record (task.constraints) {
    max_repair_attempts = larger task.constraints.max_repair_attempts fallback;
  };
}

abbrev parameters_of : Option JsonObject → JsonObject
parameters_of (some p) = p
parameters_of none = field "type" (str "object") (field "additionalProperties" (bool true) end)

abbrev pub to_llm_tool_definition : AgentToolDefinition → LlmToolDefinition
to_llm_tool_definition d = record {
  name = d.id;
  description = d.description;
  parameters = parameters_of d.parameters_json_schema;
}

abbrev pub or_list : Option (List String) → List String
or_list none = []
or_list (some l) = l

-- `map`, then the filter of what is not `null`
abbrev pub known_tools : Dict AgentToolDefinition → List String → List LlmToolDefinition
known_tools tools [] = []
known_tools tools (id ∷ ids) = elim (lookup id tools) [
  | none ↦ known_tools tools ids
  | some d ↦ to_llm_tool_definition d ∷ known_tools tools ids
]

module _ {W : Type 0} where
  abbrev pub on_world : {A : Type 0} → (W → A × W) → ToolState W → A × ToolState W
  on_world f s = ((f s.world).0, record s { world = (f s.world).1 })

  -- What a provider adds, and what the others do.
  abbrev add_hints : Option (List String) × W → (W → List String × W) → List String × W
  add_hints (none, w) rest = rest w
  add_hints (some hints, w) rest = (List.◌++◌ hints (rest w).0, (rest w).1)

  unfoldable pub collect_repair_hints :
      List (String → String → W → Option (List String) × W) → String → String → W → List String × W
  collect_repair_hints [] type issue w = ([], w)
  collect_repair_hints (provide ∷ more) type issue w =
      add_hints (provide type issue w) (collect_repair_hints more type issue)

module _ {W : Type 0} (o : Orchestrator W) where
  abbrev pub schema_of :
      Option AgentTaskTypeDefinition → String → Option (JsonObject → Parsed JsonObject)
  schema_of none type = o.builtin_output_schema type
  schema_of (some d) type = some d.output_schema

  abbrev pub checked_by :
      Option (JsonObject → Parsed JsonObject) → String → JsonObject → Result JsonObject
  checked_by none type answer = ok answer
  checked_by (some schema) type answer =
      passes (schema answer) ("agent output failed schema for " ++ type)

  unfoldable pub validate_output : OrchestratorTask → JsonObject → Result JsonObject
  validate_output task answer =
      checked_by (schema_of (lookup task.type o.agent_task_types) task.type) task.type answer

  unfoldable pub tool_options :
      (LlmCompletionRequest → W → Result LlmCompletionResponse × W)
      → List LlmMessage
      → OrchestratorTask
      → ToolLoopOptions (ToolState W)
  unfolding invoke_tool collect_repair_hints validate_output
  tool_options complete messages task = record {
    complete = λ r. on_world (complete r);
    model = o.default_model;
    task_id = task.task_id;
    task_type = task.type;
    constraints = task.constraints;
    messages = messages;
    tools = known_tools o.index.agent_tools (or_list task.constraints.tools);
    invoke_tool = λ name args list. invoke_tool o.index name args (some list);
    max_tool_rounds = task.constraints.max_tool_rounds;
    validate_output = validate_output task;
    get_repair_hints =
        some (λ type issue. on_world (collect_repair_hints o.hint_providers type issue));
    parse_json_object = o.parse_json_object;
    stringify = o.stringify;
    truncate = o.truncate;
  }

  abbrev pub no_result : String → String → OrchestratorTask → ToolState W → TaskResult × ToolState W
  no_result code message task s = (refused task.task_id (failure code message) false, s)

  abbrev finished : TaskResult × LoopState (ToolState W) → TaskResult × ToolState W
  finished (r, s) = (r, s.world)

  -- `tryToolCallingTask`; `otherwise` is what follows where it gives `null`.
  abbrev pub messages_of :
      Option AgentTaskTypeDefinition → Option (OrchestratorTask → List LlmMessage)
  messages_of none = none
  messages_of (some d) = d.build_messages

  unfoldable pub try_tool_calling_task :
      Option (LlmCompletionRequest → W → Result LlmCompletionResponse × W)
      → Bool
      → Option (OrchestratorTask → List LlmMessage)
      → OrchestratorTask
      → (ToolState W → TaskResult × ToolState W)
      → ToolState W
      → TaskResult × ToolState W
  unfolding tool_options run_tool_calling_task
  try_tool_calling_task none context build task otherwise s = otherwise s
  try_tool_calling_task (some complete) false build task otherwise s = otherwise s
  try_tool_calling_task (some complete) true none task otherwise s = otherwise s
  try_tool_calling_task (some complete) true (some build) task otherwise s =
      let prepared = with_default_repairs task o.max_repair_attempts in
      finished (run_tool_calling_task (tool_options complete (build prepared) prepared) s)

  abbrev pub adapt :
      Option (LlmAdapter W)
      → OrchestratorTask
      → (ToolState W → TaskResult × ToolState W)
      → ToolState W
      → TaskResult × ToolState W
  adapt none task otherwise s = otherwise s
  adapt (some a) task otherwise s =
      if a.supports task.type
      then on_world (a.perform (with_default_repairs task o.max_repair_attempts)) s
      else otherwise s

  abbrev pub scripted :
      Option (OrchestratorTask → W → TaskResult × W)
      → OrchestratorTask
      → (ToolState W → TaskResult × ToolState W)
      → ToolState W
      → TaskResult × ToolState W
  scripted none task otherwise s = otherwise s
  scripted (some script) task otherwise s = on_world (script task) s

  abbrev pub has_port :
      Option (LlmCompletionRequest → W → Result LlmCompletionResponse × W)
      → (ToolState W → TaskResult × ToolState W)
      → OrchestratorTask
      → ToolState W
      → TaskResult × ToolState W
  has_port none next task s =
      no_result "NO_ADAPTER" "agents.mode=llm but no LlmPort was provided" task s
  has_port (some port) next task s = next s

  unfoldable pub invoke_in :
      AgentsRuntimeMode → OrchestratorTask → ToolState W → TaskResult × ToolState W
  unfolding try_tool_calling_task
  invoke_in mock task = scripted (o.mock_script task.type) task (
      adapt o.llm_adapter task (
        no_result "NO_HANDLER" ("no mock agent handler registered for task type " ++ task.type)
          task))
  invoke_in llm task = adapt o.llm_adapter task (
      try_tool_calling_task o.llm_port o.has_context
        (messages_of (lookup task.type o.agent_task_types)) task
        (has_port o.llm_port
          (scripted (o.mock_script task.type) task
            (no_result "NO_ADAPTER" ("no LLM adapter for task type " ++ task.type) task))
          task))

  unfoldable pub may_call : String → Option (String → List String) → OrchestratorTask → Bool
  may_call kind none task = true
  may_call kind (some grants) task =
      if kind == "module"
      then has_permission (grants task.requester_id) (agent_call_permission task.type)
      else true

  abbrev pub invalid_output : OrchestratorTask → Failure → TaskResult
  invalid_output task f =
      refused task.task_id (failure_details "SCHEMA_INVALID" f.message f.details) false

  abbrev pub retry_answer : OrchestratorTask → Failure → Result JsonObject → TokenUsage → TaskResult
  retry_answer task first (ok value) usage = answered task.task_id value usage
  retry_answer task first (err f) usage = invalid_output task first

  -- After the second try of a mock, `first` is the failure of the first.
  unfoldable pub settle_retry : OrchestratorTask → Failure → TaskResult → TaskResult
  unfolding validate_output
  settle_retry task first (refused id f again) = invalid_output task first
  settle_retry task first (answered id answer usage) =
      retry_answer task first (validate_output task answer) usage

  abbrev pub retries : AgentsRuntimeMode → ℕ → Bool
  retries mock (suc n) = true
  retries mode n = false

  unfoldable pub settle_validated :
      OrchestratorTask
      → Result JsonObject
      → TokenUsage
      → Bool
      → ToolState W
      → TaskResult × ToolState W
  unfolding settle_retry invoke_in
  settle_validated task (ok value) usage again s = (answered task.task_id value usage, s)
  settle_validated task (err f) usage false s = (invalid_output task f, s)
  settle_validated task (err f) usage true s =
      let second = invoke_in o.mode task s in (settle_retry task f second.0, second.1)

  unfoldable pub settle_raw : OrchestratorTask → TaskResult × ToolState W → TaskResult × ToolState W
  unfolding settle_validated validate_output
  settle_raw task (refused id f again, s) = (refused id f again, s)
  settle_raw task (answered id answer usage, s) =
      settle_validated task (validate_output task answer) usage
        (retries o.mode o.max_repair_attempts) s

  abbrev pub set_active : Option String → ToolState W → ToolState W
  set_active id s = record s { active_task_id = id }

  unfoldable pub execute_when : Bool → OrchestratorTask → ToolState W → TaskResult × ToolState W
  unfolding settle_raw invoke_in
  execute_when false task s =
      no_result "PERMISSION_DENIED"
        ("module " ++ (task.requester_id ++ (" lacks " ++ agent_call_permission task.type))) task s
  execute_when true task s =
      let out = settle_raw task (invoke_in o.mode task (set_active (some task.task_id) s)) in
      (out.0, set_active none out.1)

  unfoldable pub execute : OrchestratorTask → ToolState W → TaskResult × ToolState W
  unfolding execute_when may_call
  execute task s = execute_when (may_call task.requester_kind o.get_module_permissions task) task s
