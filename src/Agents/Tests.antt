-- ===== src/Agents/Tests.antt =====
-- Tools and tasks at a model that calls one tool and then answers. The world is the number of knocks.
use rpenginext.Common.{
  ℕ, suc, ◌≤◌, ◌≡◌, refl, ap, subst, true, none, some, [], ◌∷◌, ltb, if◌then◌else◌, arith,
}
use rpenginext.Contracts.{⊤, JsonObject, bool, field, end, Result, ok, Parsed, success}
use rpenginext.Contracts.Permissions.{has_permission, permission_covers, agent_call_permission}
use rpenginext.Agents.{user_message, LlmCompletionRequest, LlmCompletionResponse}
use rpenginext.Agents.ToolLoop.{ToolLoopOptions, run_tool_calling_task}
use rpenginext.Agents.ToolLoop.Requests.{run_tool_calling_task-requests}
use rpenginext.Agents.Tools.{
  AgentToolDefinition, AgentToolHandler, replied, ToolIndex, ToolState, invoke_tool,
}
use rpenginext.Agents.Orchestrator.{
  OrchestratorTask, llm, Orchestrator, tool_options, collect_repair_hints, execute,
}
use rpenginext.Agents.Parallel.{
  set_result, take, leave, store, started, stepped, Reaches, IsAnswered, Reaches-IsAnswered,
}
use rpenginext.Agents.Orchestrator.Checked.{AllKeep, execute-keeps}

abbrev done_object : JsonObject
done_object = field "stored" (bool true) end

abbrev any_object : JsonObject → Parsed JsonObject
any_object o = success o

-- It knocks at the door, and adds one.
abbrev knock : AgentToolHandler ℕ
knock = record { id = "knock"; invoke = λ args n. (replied (ok end), suc n) }

abbrev knock_tool : AgentToolDefinition
knock_tool = record {
  id = "knock";
  description = "Knocks at the door.";
  args_schema = any_object;
  result_schema = any_object;
  permission = some "state:propose:doors";
  parameters_json_schema = none;
}

abbrev index : ToolIndex ℕ
index = record {
  agent_tools = ("knock", knock_tool) ∷ [];
  agent_tool_handlers = knock ∷ [];
  granted = "state:propose:*" ∷ [];
  now_ms = λ n. 7;
}

-- The model asks for a knock in its first round, and then it answers.
abbrev model : LlmCompletionRequest → ℕ → Result LlmCompletionResponse × ℕ
model r n = (
  ok (record {
    text = "{}";
    usage = none;
    tool_calls =
        if ltb r.tool_round 2 then record { id = "c1"; name = "knock"; args = end } ∷ [] else [];
  }),
  n,
)

abbrev orchestrator : Orchestrator ℕ
orchestrator = record {
  index = index;
  has_context = true;
  agent_task_types =
      (
        "door.knock",
        record {
          output_schema = any_object;
          build_messages = some (λ t. user_message "Knock." ∷ []);
        },
      )
      ∷ [];
  hint_providers = [];
  llm_port = some model;
  llm_adapter = none;
  mock_script = λ type. none;
  mode = llm;
  get_module_permissions = some (λ id. "agent:call:*" ∷ []);
  default_model = "small";
  max_repair_attempts = 1;
  builtin_output_schema = λ type. none;
  parse_json_object = λ text. ok done_object;
  stringify = λ o. "{}";
  truncate = λ t. t;
}

abbrev task : OrchestratorTask
task = record {
  task_id = "a1";
  type = "door.knock";
  input = end;
  constraints = record {
    max_repair_attempts = 0;
    tools = some ("knock" ∷ []);
    max_tool_rounds = some 2;
  };
  requester_kind = "module";
  requester_id = "doors";
}

abbrev before : ToolState ℕ
before = record { world = 0; last_tool_calls = []; active_task_id = none }

knocked : (execute orchestrator task before).1.world ≡ 1
unfolding execute has_permission permission_covers agent_call_permission
knocked = refl

abbrev options : ToolLoopOptions (ToolState ℕ)
options = tool_options orchestrator model (user_message "Knock." ∷ []) task

-- A model whose world is the number of its requests.
abbrev counting : ToolLoopOptions ℕ
counting = record {
  complete = λ r n. ((model r n).0, suc n);
  model = "small";
  task_id = "a1";
  task_type = "door.knock";
  constraints = task.constraints;
  messages = user_message "Knock." ∷ [];
  tools = [];
  invoke_tool = λ name args list n. (ok end, n);
  max_tool_rounds = none;
  validate_output = λ o. ok o;
  get_repair_hints = none;
  parse_json_object = λ text. ok done_object;
  stringify = λ o. "{}";
  truncate = λ t. t;
}

run_tool_calling_task-requests_example :
    (n : ℕ) × (n ≤ 2) × (n ≡ (run_tool_calling_task counting 0).1.world)
run_tool_calling_task-requests_example =
    run_tool_calling_task-requests counting (λ n w. n ≡ w) 0 (λ n r u request e. ap suc e)
      (λ n c u e. e) (λ n issues u e. e) refl

-- A task without tools.
abbrev quiet : OrchestratorTask
quiet = record task { constraints = record (task.constraints) { tools = none } }

quiet-AllKeep : AllKeep orchestrator [] (λ w. w ≡ 0)
unfolding collect_repair_hints
quiet-AllKeep = record {
  ports = λ complete r w e p. subst (λ port. elim port [ none ↦ ⊤ | some c ↦ (c r w).1 ≡ 0 ]) e p;
  adapters = λ a t w e p. absurd (cc e);
  scripts = λ type script t w e p. absurd (cc e);
  hints = λ type issue w p. p;
  handlers = λ id args call w allowed p. absurd (cc (allowed.listed));
}

execute-keeps_example : (execute orchestrator quiet before).1.world ≡ 0
execute-keeps_example = execute-keeps orchestrator quiet (λ w. w ≡ 0) before quiet-AllKeep refl

-- Two workers and two tasks whose answers are their places; the second answer comes first.
abbrev Place : ℕ → ℕ → Type 0
Place i r = i ≡ r

both : Reaches Place 2 4 (record {
  idle = 0;
  next = 4;
  running = [];
  results = set_result 0 0 (set_result 1 1 (λ i. none));
})
both =
    stepped
      (stepped
        (stepped
          (stepped
            (stepped (stepped started (take 1 refl (omega arith))) (take 0 refl (omega arith)))
            (store [] (0 ∷ []) 1 1 refl refl))
          (store [] [] 0 0 refl refl))
        (leave 1 refl (omega arith)))
      (leave 0 refl (omega arith))

Reaches-IsAnswered_example : IsAnswered Place 2 1 (some 1)
Reaches-IsAnswered_example = Reaches-IsAnswered Place 2 4 _ 1 both refl (omega arith)
