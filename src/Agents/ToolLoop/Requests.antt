-- ===== src/Agents/ToolLoop/Requests.antt =====
-- The requests that packages/core/src/agents/tool-loop.ts sends to a model: how many, and with which
-- transcripts.
use native.Mathlib.Nat.{mul-suc}
use rpenginext.Common.{
  ℕ, zero, suc, ◌+◌, ◌*◌, ◌≤◌, ◌≡◌, sym, ◌∙◌, List, [], ◌∷◌, ◌++◌, append-nil, append_assoc, String,
  arith,
}
use rpenginext.Contracts.{JsonObject, Result, ok, err}
use rpenginext.Agents.{
  LlmToolCall, LlmMessage, user_message, assistant_message, assistant_calls, tool_message,
  LlmCompletionRequest, LlmCompletionResponse, TaskResult,
}
use rpenginext.Agents.ToolLoop.{
  ToolLoopOptions, LoopState, RoundsEnd, returned, left_off, say, ask_hints, max_rounds, allowlist,
  request, answer_call, call_tools, read_answer, settle_answer, settle_calls, settle_completion,
  run_rounds, prepare, note_stall, next_attempt, run_attempts, start_loop, run_tool_calling_task,
  build_repair_content, accumulate_usage, tool_answer,
}

-- Each call is answered once, in the order of the calls.
pub data Answers : List LlmToolCall → List LlmMessage → Type 0 where
  nothing : Answers [] []
  answer :
      {c : LlmToolCall} {calls : List LlmToolCall} {more : List LlmMessage} (text : String)
      → Answers calls more
      → Answers (c ∷ calls) (tool_message c.id c.name text ∷ more)

-- What the task began with, then calls with their answers, and answers with the advice to repair them.
pub data IsTranscript (start : List LlmMessage) : List LlmMessage → Type 0 where
  opened : IsTranscript start start
  repaired :
      {before : List LlmMessage} (raw advice : String)
      → IsTranscript start before
      → IsTranscript start (before ++ assistant_message raw ∷ user_message advice ∷ [])
  called :
      {before after answers : List LlmMessage} {calls : List LlmToolCall} (text : String)
      → IsTranscript start before
      → Answers calls answers
      → after ≡ before ++ assistant_calls text calls ∷ answers
      → IsTranscript start after

pub record IsRequest {S : Type 0} (o : ToolLoopOptions S) (r : LlmCompletionRequest) : Type 0 where
  pub transcript : IsTranscript o.messages r.messages
  pub counted : r.tool_round ≤ max_rounds o
  pub numbered : r.repair_attempt ≤ o.constraints.max_repair_attempts

call_tools-Answers :
    {S : Type 0} (o : ToolLoopOptions S) (calls : List LlmToolCall) (s : LoopState S)
    → (answers : List LlmMessage) × Answers calls answers
      × ((call_tools o calls s).messages ≡ s.messages ++ answers)
unfolding call_tools
call_tools-Answers o [] s = ([], nothing, sym (append-nil s.messages))
call_tools-Answers o (c ∷ cs) s =
    let r = o.invoke_tool c.name c.args (allowlist o) s.world in
    let later = call_tools-Answers o cs (answer_call o c r s) in
    let m = tool_message c.id c.name (o.stringify (tool_answer r.0)) in
    (
      m ∷ later.0,
      answer (o.stringify (tool_answer r.0)) later.1,
      later.2 ∙ append_assoc s.messages (m ∷ []) later.0,
    )

-- `P n w`: the world `w` was reached with `n` requests.
module _ {S : Type 0} (o : ToolLoopOptions S) (P : ℕ → S → Type 0)
    (completes : (n : ℕ) (r : LlmCompletionRequest) (w : S)
      → IsRequest o r
      → P n w
      → P (suc n) (o.complete r w).1)
    (invokes : (n : ℕ) (c : LlmToolCall) (w : S)
      → P n w
      → P n (o.invoke_tool c.name c.args (allowlist o) w).1)
    (hints : (n : ℕ) (issues : String) (w : S)
      → P n w
      → P n (ask_hints o.get_repair_hints o.task_type issues w).1) where
  record IsLive (n : ℕ) (s : LoopState S) : Type 0 where
    transcript : IsTranscript o.messages s.messages
    reached : P n s.world

  abbrev Reached : ℕ → LoopState S → Type 0
  Reached top s = (n : ℕ) × (n ≤ top) × IsLive n s

  weaker : (low top : ℕ) (s : LoopState S) → low ≤ top → Reached low s → Reached top s
  weaker low top s h (n, l, live) = (n, omega arith, live)

  call_tools-reaches :
      (n : ℕ) (calls : List LlmToolCall) (s : LoopState S)
      → P n s.world
      → P n (call_tools o calls s).world
  unfolding call_tools
  call_tools-reaches n [] s p = p
  call_tools-reaches n (c ∷ cs) s p =
      let r = o.invoke_tool c.name c.args (allowlist o) s.world in
      call_tools-reaches n cs (answer_call o c r s) (invokes n c s.world p)

  settle_answer-IsLive :
      (r : Result JsonObject) (left n : ℕ) (s : LoopState S)
      → IsLive n s
      → IsLive n (settle_answer o r left s).1
  unfolding settle_answer
  settle_answer-IsLive (ok reply) left n s live = live
  settle_answer-IsLive (err f) left n s live = record {
    transcript = live.transcript;
    reached = live.reached;
  }

  module _ (left n : ℕ) (next : LoopState S → RoundsEnd × LoopState S)
      (later : (s : LoopState S) → IsLive n s → Reached (n + left) (next s).1) where
    settle_calls-Reached :
        (calls : List LlmToolCall) (text : String) (s : LoopState S)
        → IsLive n s
        → Reached (n + left) (settle_calls o calls text left next s).1
    unfolding settle_calls
    settle_calls-Reached [] text s live = (
      n,
      omega arith,
      settle_answer-IsLive (read_answer o text) left n (record s { last_raw = text })
          (record { transcript = live.transcript; reached = live.reached }),
    )
    settle_calls-Reached (c ∷ cs) text s live =
        let said = say (assistant_calls text (c ∷ cs) ∷ []) s in
        let answers = call_tools-Answers o (c ∷ cs) said in
        later (call_tools o (c ∷ cs) said) (record {
          transcript =
              called text live.transcript (answers.1) (
                answers.2 ∙ append_assoc s.messages (assistant_calls text (c ∷ cs) ∷ []) answers.0);
          reached = call_tools-reaches n (c ∷ cs) said live.reached;
        })

    settle_completion-Reached :
        (c : Result LlmCompletionResponse × S) (s : LoopState S)
        → IsTranscript o.messages s.messages
        → P n c.1
        → Reached (n + left) (settle_completion o c left next s).1
    unfolding settle_completion
    settle_completion-Reached (err f, w) s t p =
        (n, omega arith, record { transcript = t; reached = p })
    settle_completion-Reached (ok c, w) s t p =
        settle_calls-Reached c.tool_calls c.text
          (record s { world = w; total_usage = accumulate_usage c.usage s.total_usage })
          (record { transcript = t; reached = p })

  run_rounds-Reached :
      (left round attempt n : ℕ) (s : LoopState S)
      → left + round ≡ max_rounds o
      → attempt ≤ o.constraints.max_repair_attempts
      → IsLive n s
      → Reached (n + left) (run_rounds o left round attempt s).1
  unfolding run_rounds
  run_rounds-Reached zero round attempt n s e a live = (n, omega arith, live)
  run_rounds-Reached (suc left) round attempt n s e a live =
      let r = request o (suc round) attempt s.messages in
      let sent =
        completes n r s.world
          (record { transcript = live.transcript; counted = omega (arith, e); numbered = a })
          live.reached in
      let out =
        settle_completion o (o.complete r s.world) left (run_rounds o left (suc round) attempt) s in
      weaker (suc n + left) (n + suc left) out.1 (omega arith) (
        settle_completion-Reached left (suc n) (run_rounds o left (suc round) attempt)
          (λ u h. run_rounds-Reached left (suc round) attempt (suc n) u (omega (arith, e)) a h)
          (o.complete r s.world) s live.transcript sent)

  prepare-IsLive : (attempt n : ℕ) (s : LoopState S) → IsLive n s → IsLive n (prepare o attempt s)
  unfolding prepare
  prepare-IsLive zero n s live = live
  prepare-IsLive (suc k) n s live =
      let h = ask_hints o.get_repair_hints o.task_type s.last_issues s.world in
      record {
        transcript = repaired s.last_raw (build_repair_content s.last_issues h.0) live.transcript;
        reached = hints n s.last_issues s.world live.reached;
      }

  note_stall-IsLive : (left n : ℕ) (s : LoopState S) → IsLive n s → IsLive n (note_stall o left s)
  unfolding note_stall
  note_stall-IsLive zero n s live = record { transcript = live.transcript; reached = live.reached }
  note_stall-IsLive (suc left) n s live = live

  next_attempt-Reached :
      (out : RoundsEnd × LoopState S) (top more : ℕ) (next : LoopState S → TaskResult × LoopState S)
      → Reached top out.1
      → ((n : ℕ) (s : LoopState S) → n ≤ top → IsLive n s → Reached (top + more) (next s).1)
      → Reached (top + more) (next_attempt o out next).1
  unfolding next_attempt
  next_attempt-Reached (returned r, s) top more next (n, l, live) later = (n, omega arith, live)
  next_attempt-Reached (left_off left, s) top more next (n, l, live) later =
      later n (note_stall o left s) l (note_stall-IsLive left n s live)

  run_attempts-Reached :
      (left attempt n : ℕ) (s : LoopState S)
      → left + attempt ≡ suc o.constraints.max_repair_attempts
      → IsLive n s
      → Reached (n + max_rounds o * left) (run_attempts o left attempt s).1
  unfolding run_attempts
  run_attempts-Reached zero attempt n s e live = (n, omega arith, live)
  run_attempts-Reached (suc left) attempt n s e live =
      let next = run_attempts o left (suc attempt) in
      let out = run_rounds o (max_rounds o) 0 attempt (prepare o attempt s) in
      let rounds =
        run_rounds-Reached (max_rounds o) 0 attempt n (prepare o attempt s) (omega arith)
          (omega (arith, e)) (prepare-IsLive attempt n s live) in
      weaker (n + max_rounds o + max_rounds o * left) (n + max_rounds o * suc left)
        (next_attempt o out next).1 (omega (arith, mul-suc (max_rounds o) left))
        (next_attempt-Reached out (n + max_rounds o) (max_rounds o * left) next rounds (λ m u l h.
          weaker (m + max_rounds o * left) (n + max_rounds o + max_rounds o * left) (next u).1
            (omega (arith, l)) (run_attempts-Reached left (suc attempt) m u (omega (arith, e)) h)))

-- A task ends after at most as many requests as there are rounds in all attempts. Each request has a
-- transcript in which the messages of the task stand first and every message with calls is followed by
-- one answer to each of them, in their order; its round and its attempt are within their limits. Said
-- for anything that holds of the number of requests and the world of the model and the tools: it
-- holds at the end if it holds at the beginning, such a request keeps it, and so do the tools, called
-- with the names that the task allows, and the hints.
pub run_tool_calling_task-requests :
    {S : Type 0} (o : ToolLoopOptions S) (P : ℕ → S → Type 0) (w : S)
    → ((n : ℕ) (r : LlmCompletionRequest) (u : S)
        → IsRequest o r
        → P n u
        → P (suc n) (o.complete r u).1)
    → ((n : ℕ) (c : LlmToolCall) (u : S)
        → P n u
        → P n (o.invoke_tool c.name c.args (allowlist o) u).1)
    → ((n : ℕ) (issues : String) (u : S)
        → P n u
        → P n (ask_hints o.get_repair_hints o.task_type issues u).1)
    → P 0 w
    → (n : ℕ) × (n ≤ max_rounds o * suc o.constraints.max_repair_attempts)
      × P n (run_tool_calling_task o w).1.world
unfolding run_tool_calling_task
run_tool_calling_task-requests o P w completes invokes hints p =
    let out =
      run_attempts-Reached o P completes invokes hints (suc o.constraints.max_repair_attempts) 0 0
        (start_loop o w) (omega arith) (record { transcript = opened; reached = p }) in
    (out.0, omega (arith, out.1), out.2.reached)
