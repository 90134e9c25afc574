-- ===== src/Agents/Tools.antt =====
-- packages/core/src/agents/agent-orchestrator.ts: `invokeTool`. `W` is what the handlers of the modules
-- act on; a handler replies or throws. The clock is read from `W`; durations are left out.
pub mod Allowed
use mathlib.Core.List
use Prim.Native.String.{◌++◌}
use rpenginext.Common.{
  ℕ, Bool, true, false, Option, none, some, List, [], ◌∷◌, String, ◌==◌, any, Dict, lookup,
  if◌then◌else◌,
}
use rpenginext.Contracts.{
  JsonObject, JsonValue, str, Result, ok, err, Failure, failure, failure_details, ⊤, show, ◌>>=◌,
  ◌>>◌, Parsed, success, issues,
}
use rpenginext.Contracts.Permissions.{has_permission}

pub record AgentToolDefinition : Type 0 where
  pub id : String
  pub description : String
  pub args_schema : JsonObject → Parsed JsonObject
  pub result_schema : JsonObject → Parsed JsonObject
  pub permission : Option String
  pub parameters_json_schema : Option JsonObject

pub data ToolReply : Type 0 where
  replied : Result JsonObject → ToolReply
  threw : String → ToolReply

pub record AgentToolHandler (W : Type 0) : Type 0 where
  pub id : String
  pub invoke : JsonObject → W → ToolReply × W

pub record ToolInvokeRecord : Type 0 where
  pub tool_name : String
  pub call_id : String
  pub args : JsonObject
  pub result : Option JsonObject
  pub error : Option String
  pub parent_task_id : Option String

pub record ToolIndex (W : Type 0) : Type 0 where
  pub agent_tools : Dict AgentToolDefinition
  pub agent_tool_handlers : List (AgentToolHandler W)
  -- the grants of `ctx.permissions`
  pub granted : List String
  pub now_ms : W → ℕ

pub record ToolState (W : Type 0) : Type 0 where
  pub world : W
  pub last_tool_calls : List ToolInvokeRecord
  pub active_task_id : Option String

abbrev pub passes : Parsed JsonObject → String → Result JsonObject
passes (success parsed) message = ok parsed
passes (issues flat) message = err (failure_details "SCHEMA_INVALID" message (some flat))

abbrev pub is_permitted : List String → Option String → Bool
is_permitted granted none = true
is_permitted granted (some p) = if p == "" then true else has_permission granted p

-- `find`
abbrev pub find_handler :
    {W : Type 0} → String → List (AgentToolHandler W) → Option (AgentToolHandler W)
find_handler id [] = none
find_handler id (h ∷ hs) = if h.id == id then some h else find_handler id hs

abbrev pub is_listed : Option (List String) → String → Bool
is_listed none id = true
is_listed (some list) id = any (λ name. name == id) list

-- What a call needs before its handler runs.
pub record ToolCall (W : Type 0) : Type 0 where
  pub definition : AgentToolDefinition
  pub parsed_args : JsonObject
  pub handler : AgentToolHandler W

module _ {W : Type 0} (index : ToolIndex W) where
  abbrev pub permission_text : Option String → String
  permission_text none = ""
  permission_text (some p) = p

  -- The guards of a call, from the last one to the first.
  unfoldable pub with_handler :
      String → AgentToolDefinition → JsonObject → Option (AgentToolHandler W) → Result (ToolCall W)
  with_handler id definition parsed none =
      err (failure "INTERNAL" ("no handler registered for tool " ++ id))
  with_handler id definition parsed (some handler) =
      ok (record { definition = definition; parsed_args = parsed; handler = handler })

  unfoldable pub with_args : String → AgentToolDefinition → Parsed JsonObject → Result (ToolCall W)
  unfolding with_handler
  with_args id definition (issues flat) =
      err (failure_details "SCHEMA_INVALID" ("invalid args for tool " ++ id) (some flat))
  with_args id definition (success parsed) =
      with_handler id definition parsed (find_handler id index.agent_tool_handlers)

  unfoldable pub with_permission :
      String → JsonObject → AgentToolDefinition → Bool → Result (ToolCall W)
  unfolding with_args
  with_permission id args definition false = err (
      failure "PERMISSION_DENIED"
        ("missing permission " ++ (permission_text definition.permission ++ (" for tool " ++ id))))
  with_permission id args definition true = with_args id definition (definition.args_schema args)

  unfoldable pub with_definition :
      String → JsonObject → Option AgentToolDefinition → Result (ToolCall W)
  unfolding with_permission
  with_definition id args none = err (failure "INTERNAL" ("unknown agent tool: " ++ id))
  with_definition id args (some definition) =
      with_permission id args definition (is_permitted index.granted definition.permission)

  unfoldable pub with_listed : String → JsonObject → Bool → Result (ToolCall W)
  unfolding with_definition
  with_listed id args false =
      err (failure "PERMISSION_DENIED" ("tool " ++ (id ++ " is not on the task allowlist")))
  with_listed id args true = with_definition id args (lookup id index.agent_tools)

  unfoldable pub prepare_call : String → JsonObject → Option (List String) → Result (ToolCall W)
  unfolding with_listed
  prepare_call id args allowlist = with_listed id args (is_listed allowlist id)

  -- The record of a call, whose answer is its result or its error.
  abbrev pub record_call :
      String → String → JsonObject → Result JsonObject → ToolState W → ToolState W
  record_call id call_id args answer s = record s {
    last_tool_calls = List.◌++◌ s.last_tool_calls (
        record {
          tool_name = id;
          call_id = call_id;
          args = args;
          result = elim answer [ ok value ↦ some value | err f ↦ none ];
          error = elim answer [ ok value ↦ none | err f ↦ some f.message ];
          parent_task_id = s.active_task_id;
        }
        ∷ []);
  }

  abbrev pub answer_of : AgentToolDefinition → String → ToolReply → Result JsonObject
  answer_of definition id (replied (err f)) = err f
  answer_of definition id (replied (ok value)) =
      passes (definition.result_schema value) ("tool " ++ (id ++ " returned invalid result"))
  answer_of definition id (threw e) =
      err (failure_details "MODULE_ERROR" ("tool " ++ (id ++ " threw")) (some (str e)))

  unfoldable pub settle_call :
      String
      → String
      → AgentToolDefinition
      → JsonObject
      → ToolReply × W
      → ToolState W
      → Result JsonObject × ToolState W
  settle_call id call_id definition parsed (reply, w) s =
      let answer = answer_of definition id reply in
      (answer, record_call id call_id parsed answer (record s { world = w }))

  unfoldable pub run_call :
      String
      → String
      → JsonObject
      → Result (ToolCall W)
      → ToolState W
      → Result JsonObject × ToolState W
  unfolding settle_call
  run_call id call_id args (err f) s = (err f, record_call id call_id args (err f) s)
  run_call id call_id args (ok call) s =
      settle_call id call_id call.definition call.parsed_args
        (call.handler.invoke call.parsed_args s.world) s

  unfoldable pub invoke_tool :
      String → JsonObject → Option (List String) → ToolState W → Result JsonObject × ToolState W
  unfolding prepare_call run_call
  invoke_tool id args allowlist s =
      let call_id = "tool_" ++ (id ++ ("_" ++ show (index.now_ms s.world))) in
      run_call id call_id args (prepare_call id args allowlist) s
