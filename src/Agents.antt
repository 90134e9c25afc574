-- ===== src/Agents.antt =====
-- packages/contracts/src/agents/llm-port.ts and task.ts: what is exchanged with a language model. An
-- absent list of calls is an empty one, an absent count of tokens is 0. A request's temperature,
-- time-out, format and turn, which a task fixes, are left out, and so are whether a task is optional and
-- the audit bag of a result.
pub mod ToolLoop
pub mod Tools
pub mod Orchestrator
pub mod Parallel
mod Tests
use rpenginext.Common.{ℕ, Bool, Option, List, String}
use rpenginext.Contracts.{JsonObject, Failure}

pub record LlmToolDefinition : Type 0 where
  pub name : String
  pub description : String
  pub parameters : JsonObject

pub record LlmToolCall : Type 0 where
  pub id : String
  pub name : String
  pub args : JsonObject

-- A message by its role; `assistant_calls` is one of the assistant with tool calls, `tool_message` has
-- the id and the name of the call that it answers.
pub data LlmMessage : Type 0 where
  system_message user_message assistant_message : String → LlmMessage
  assistant_calls : String → List LlmToolCall → LlmMessage
  tool_message : String → String → String → LlmMessage

pub data LlmToolChoice : Type 0 where
  auto no_tool : LlmToolChoice

pub record LlmCompletionRequest : Type 0 where
  pub model : String
  pub messages : List LlmMessage
  pub tools : List LlmToolDefinition
  pub tool_choice : LlmToolChoice
  pub task_id : String
  pub task_type : String
  pub tool_round : ℕ
  pub repair_attempt : ℕ

pub record TokenUsage : Type 0 where
  pub prompt_tokens : ℕ
  pub completion_tokens : ℕ
  pub total_tokens : ℕ

pub record LlmCompletionResponse : Type 0 where
  pub text : String
  pub usage : Option TokenUsage
  pub tool_calls : List LlmToolCall

pub record AgentTaskConstraints : Type 0 where
  pub max_repair_attempts : ℕ
  pub tools : Option (List String)
  pub max_tool_rounds : Option ℕ

-- An agent's result with the task's id: an error is a failure and whether it may be tried again.
pub data TaskResult : Type 0 where
  answered : String → JsonObject → TokenUsage → TaskResult
  refused : String → Failure → Bool → TaskResult
