-- ===== src/Agents/ToolLoop/Types.antt =====
-- The options and the state of `runToolCallingTask` of packages/core/src/agents/tool-loop.ts.
use rpenginext.Common.{ℕ, Option, List, String}
use rpenginext.Contracts.{JsonObject, Result}
use rpenginext.Agents.{
  LlmToolDefinition, LlmMessage, LlmCompletionRequest, TokenUsage, LlmCompletionResponse,
  AgentTaskConstraints, TaskResult,
}

pub record ToolLoopOptions (S : Type 0) : Type 0 where
  pub complete : LlmCompletionRequest → S → Result LlmCompletionResponse × S
  pub model : String
  pub task_id : String
  pub task_type : String
  pub constraints : AgentTaskConstraints
  pub messages : List LlmMessage
  pub tools : List LlmToolDefinition
  -- a tool's name, its arguments and the allowed names
  pub invoke_tool : String → JsonObject → List String → S → Result JsonObject × S
  pub max_tool_rounds : Option ℕ
  pub validate_output : JsonObject → Result JsonObject
  pub get_repair_hints : Option (String → String → S → List String × S)
  pub parse_json_object : String → Result JsonObject
  pub stringify : JsonObject → String
  pub truncate : String → String

pub record LoopState (S : Type 0) : Type 0 where
  pub messages : List LlmMessage
  pub last_raw : String
  pub last_issues : String
  pub total_usage : TokenUsage
  pub world : S

-- How the rounds of an attempt end: with a result of the task, or with the number of rounds left.
pub data RoundsEnd : Type 0 where
  returned : TaskResult → RoundsEnd
  left_off : ℕ → RoundsEnd
