-- ===== src/Agents/Orchestrator/Types.antt =====
-- The tasks, the modes and the options of packages/core/src/agents/agent-orchestrator.ts.
use rpenginext.Common.{ℕ, Bool, Option, List, String, Dict}
use rpenginext.Contracts.{JsonObject, Result, Parsed}
use rpenginext.Agents.{
  LlmMessage, LlmCompletionRequest, LlmCompletionResponse, AgentTaskConstraints, TaskResult,
}
use rpenginext.Agents.Tools.{ToolIndex}

-- `AgentTask`, without the turn's id and the rounds of criticism.
pub record OrchestratorTask : Type 0 where
  pub task_id : String
  pub type : String
  pub input : JsonObject
  pub constraints : AgentTaskConstraints
  pub requester_kind : String
  pub requester_id : String

pub data AgentsRuntimeMode : Type 0 where
  mock llm : AgentsRuntimeMode

pub record AgentTaskTypeDefinition : Type 0 where
  pub output_schema : JsonObject → Parsed JsonObject
  pub build_messages : Option (OrchestratorTask → List LlmMessage)

pub record LlmAdapter (W : Type 0) : Type 0 where
  pub supports : String → Bool
  pub perform : OrchestratorTask → W → TaskResult × W

pub record Orchestrator (W : Type 0) : Type 0 where
  pub index : ToolIndex W
  pub has_context : Bool
  pub agent_task_types : Dict AgentTaskTypeDefinition
  -- `none` is a failure or an exception
  pub hint_providers : List (String → String → W → Option (List String) × W)
  pub llm_port : Option (LlmCompletionRequest → W → Result LlmCompletionResponse × W)
  pub llm_adapter : Option (LlmAdapter W)
  pub mock_script : String → Option (OrchestratorTask → W → TaskResult × W)
  pub mode : AgentsRuntimeMode
  pub get_module_permissions : Option (String → List String)
  pub default_model : String
  pub max_repair_attempts : ℕ
  pub builtin_output_schema : String → Option (JsonObject → Parsed JsonObject)
  pub parse_json_object : String → Result JsonObject
  pub stringify : JsonObject → String
  pub truncate : String → String
