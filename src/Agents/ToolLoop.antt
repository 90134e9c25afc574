-- ===== src/Agents/ToolLoop.antt =====
-- packages/core/src/agents/tool-loop.ts: rounds of a model that calls tools, within attempts to repair
-- its answer. `S` is what the model and the tools act on. The reading of a JSON text
-- (`parseJsonObject`), the writing of one, and the cut of a long text are parameters.
mod Types
pub mod Requests
pub mod Outcomes
unfoldable pub use Types.*
use mathlib.Core.List
use Prim.Native.String.{◌++◌}
use rpenginext.Common.{
  ℕ, zero, suc, ◌+◌, Bool, true, false, Option, none, some, List, [], ◌∷◌, map, String, ◌==◌, ltb,
  if◌then◌else◌,
}
use rpenginext.Contracts.{
  JsonObject, JsonValue, obj, str, bool, field, end, Result, ok, err, Failure, failure_details,
  or_text, show,
}
use rpenginext.Contracts.{◌>>=◌}
use rpenginext.Agents.{
  LlmToolDefinition, LlmToolCall, LlmMessage, user_message, assistant_message, assistant_calls,
  tool_message, LlmToolChoice, auto, no_tool, LlmCompletionRequest, TokenUsage,
  LlmCompletionResponse, AgentTaskConstraints, TaskResult, answered, refused,
}

abbrev pub or_else : {A : Type 0} → Option A → A → A
or_else none d = d
or_else (some a) d = a

abbrev at_least_one : ℕ → ℕ
at_least_one zero = 1
at_least_one (suc n) = suc n

abbrev accumulate_usage : Option TokenUsage → TokenUsage → TokenUsage
accumulate_usage none total = total
accumulate_usage (some u) total = record {
  prompt_tokens = total.prompt_tokens + u.prompt_tokens;
  completion_tokens = total.completion_tokens + u.completion_tokens;
  total_tokens = total.total_tokens + u.total_tokens;
}

abbrev join_lines : List String → String
join_lines [] = ""
join_lines (l ∷ []) = l
join_lines (l ∷ m ∷ ls) = l ++ ("\n" ++ join_lines (m ∷ ls))

abbrev hint_lines : List String → List String
hint_lines [] = []
hint_lines (h ∷ hs) = "Additional repair hints:" ∷ map (λ hint. "- " ++ hint) (h ∷ hs)

abbrev pub build_repair_content : String → List String → String
build_repair_content issues hints = join_lines (
    "Your previous JSON failed validation or the tool loop stalled."
    ∷ "Return ONLY valid final JSON for the task (no markdown fences)."
    ∷ ("Issues: " ++ issues)
    ∷ hint_lines hints)

abbrev tool_answer : Result JsonObject → JsonObject
tool_answer (ok answer) = answer
tool_answer (err f) =
    field "ok" (bool false) (field "error" (str f.message) (field "code" (str f.code) end))

module _ {S : Type 0} where
  abbrev pub say : List LlmMessage → LoopState S → LoopState S
  say more s = record s { messages = List.◌++◌ s.messages more }

  abbrev pub ask_hints :
      Option (String → String → S → List String × S) → String → String → S → List String × S
  ask_hints none type issues w = ([], w)
  ask_hints (some provide) type issues w = provide type issues w

module _ {S : Type 0} (o : ToolLoopOptions S) where
  abbrev pub max_rounds : ℕ
  max_rounds = at_least_one (or_else o.max_tool_rounds (or_else o.constraints.max_tool_rounds 4))

  abbrev pub allowlist : List String
  allowlist = or_else o.constraints.tools (map (λ t. t.name) o.tools)

  abbrev tool_choice_of : List LlmToolDefinition → LlmToolChoice
  tool_choice_of [] = no_tool
  tool_choice_of (t ∷ ts) = auto

  abbrev pub request : ℕ → ℕ → List LlmMessage → LlmCompletionRequest
  request round attempt messages = record {
    model = o.model;
    messages = messages;
    tools = o.tools;
    tool_choice = tool_choice_of o.tools;
    task_id = o.task_id;
    task_type = o.task_type;
    tool_round = round;
    repair_attempt = attempt;
  }

  abbrev pub answer_call : LlmToolCall → Result JsonObject × S → LoopState S → LoopState S
  answer_call call (r, w) s =
      say (tool_message call.id call.name (o.stringify (tool_answer r)) ∷ [])
        (record s { world = w })

  unfoldable pub call_tools : List LlmToolCall → LoopState S → LoopState S
  call_tools [] s = s
  call_tools (call ∷ calls) s =
      call_tools calls (answer_call call (o.invoke_tool call.name call.args allowlist s.world) s)

  -- `parseJsonObject`, then `validateOutput`: the first failure is the one that is told.
  abbrev pub read_answer : String → Result JsonObject
  read_answer text = o.parse_json_object text >>= o.validate_output

  unfoldable pub settle_answer : Result JsonObject → ℕ → LoopState S → RoundsEnd × LoopState S
  settle_answer (ok answer) left s = (returned (answered o.task_id answer s.total_usage), s)
  settle_answer (err f) left s = (left_off left, record s { last_issues = f.message })

  -- What follows a completion: the answers to its calls and the next round, or the end of the rounds.
  unfoldable pub settle_calls :
      List LlmToolCall
      → String
      → ℕ
      → (LoopState S → RoundsEnd × LoopState S)
      → LoopState S
      → RoundsEnd × LoopState S
  unfolding call_tools settle_answer
  settle_calls [] text left next s =
      settle_answer (read_answer text) left (record s { last_raw = text })
  settle_calls (c ∷ cs) text left next s =
      next (call_tools (c ∷ cs) (say (assistant_calls text (c ∷ cs) ∷ []) s))

  abbrev pub llm_failure : Failure → Failure
  llm_failure f = failure_details (or_text f.code "AGENT_FAILED") f.message f.details

  unfoldable pub settle_completion :
      Result LlmCompletionResponse × S
      → ℕ
      → (LoopState S → RoundsEnd × LoopState S)
      → LoopState S
      → RoundsEnd × LoopState S
  unfolding settle_calls
  settle_completion (err f, w) left next s =
      (returned (refused o.task_id (llm_failure f) (f.code == "TIMEOUT")), record s { world = w })
  settle_completion (ok c, w) left next s =
      settle_calls c.tool_calls c.text left next
        (record s { world = w; total_usage = accumulate_usage c.usage s.total_usage })

  -- `round` rounds were made, `left` are left.
  unfoldable pub run_rounds : ℕ → ℕ → ℕ → LoopState S → RoundsEnd × LoopState S
  unfolding settle_completion
  run_rounds zero round attempt s = (left_off 0, s)
  run_rounds (suc left) round attempt s =
      settle_completion (o.complete (request (suc round) attempt s.messages) s.world) left
        (run_rounds left (suc round) attempt) s

  abbrev pub repair_with : List String × S → LoopState S → LoopState S
  repair_with (hints, w) s =
      say
        (assistant_message s.last_raw
          ∷ user_message (build_repair_content s.last_issues hints)
          ∷ [])
        (record s { world = w })

  unfoldable pub prepare : ℕ → LoopState S → LoopState S
  prepare zero s = s
  prepare (suc n) s = repair_with (ask_hints o.get_repair_hints o.task_type s.last_issues s.world) s

  unfoldable pub note_stall : ℕ → LoopState S → LoopState S
  note_stall zero s = record s {
    last_issues = or_text s.last_issues ("max tool rounds exceeded (" ++ (show max_rounds ++ ")"));
  }
  note_stall (suc n) s = s

  abbrev pub out_of_repairs : LoopState S → Failure
  out_of_repairs s =
      failure_details "SCHEMA_INVALID"
        ("tool-calling task " ++ (o.task_type ++ " failed after repairs"))
        (some (
          obj (
            field "lastIssues" (str s.last_issues)
              (field "lastRaw" (str (o.truncate s.last_raw)) end))))

  unfoldable pub next_attempt :
      RoundsEnd × LoopState S → (LoopState S → TaskResult × LoopState S) → TaskResult × LoopState S
  unfolding note_stall
  next_attempt (returned r, s) next = (r, s)
  next_attempt (left_off left, s) next = next (note_stall left s)

  unfoldable pub run_attempts : ℕ → ℕ → LoopState S → TaskResult × LoopState S
  unfolding run_rounds prepare next_attempt
  run_attempts zero attempt s = (refused o.task_id (out_of_repairs s) false, s)
  run_attempts (suc left) attempt s =
      next_attempt (run_rounds max_rounds 0 attempt (prepare attempt s))
        (run_attempts left (suc attempt))

  abbrev pub start_loop : S → LoopState S
  start_loop w = record {
    messages = o.messages;
    last_raw = "";
    last_issues = "";
    total_usage = record { prompt_tokens = 0; completion_tokens = 0; total_tokens = 0 };
    world = w;
  }

  unfoldable pub run_tool_calling_task : S → TaskResult × LoopState S
  unfolding run_attempts
  run_tool_calling_task w = run_attempts (suc o.constraints.max_repair_attempts) 0 (start_loop w)
