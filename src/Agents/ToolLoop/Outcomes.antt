-- ===== src/Agents/ToolLoop/Outcomes.antt =====
-- How the loop of packages/core/src/agents/tool-loop.ts ends.
use rpenginext.Common.{◌≡◌, false, [], ◌==◌}
use rpenginext.Contracts.{JsonObject, ok, err, Failure, ⊤}
use rpenginext.Agents.{
  LlmCompletionRequest, LlmCompletionResponse, TokenUsage, TaskResult, answered, refused,
}
use rpenginext.Agents.ToolLoop.{
  ToolLoopOptions, LoopState, RoundsEnd, returned, left_off, read_answer, llm_failure,
  out_of_repairs,
}

-- A result is the answer of a completion without calls that reads as JSON and passes the schema, the
-- failure of a completion, or the failure after the last attempt.
pub data IsOutcome {S : Type 0} (o : ToolLoopOptions S) : TaskResult → Type 0 where
  passed :
      (r : LlmCompletionRequest) (w : S) (c : LlmCompletionResponse) {reply : JsonObject}
      (usage : TokenUsage)
      → (o.complete r w).0 ≡ ok c
      → c.tool_calls ≡ []
      → read_answer o c.text ≡ ok reply
      → IsOutcome o (answered o.task_id reply usage)
  broken :
      (r : LlmCompletionRequest) (w : S) (f : Failure)
      → (o.complete r w).0 ≡ err f
      → IsOutcome o (refused o.task_id (llm_failure o f) (f.code == "TIMEOUT"))
  exhausted : (s : LoopState S) → IsOutcome o (refused o.task_id (out_of_repairs o s) false)

module _ {S : Type 0} (o : ToolLoopOptions S) where
  abbrev EndsWell : RoundsEnd → Type 0
  EndsWell (returned r) = IsOutcome o r
  EndsWell (left_off left) = ⊤
