-- ===== src/Agents/Tools/Allowed.antt =====
-- Which handlers `invokeTool` of packages/core/src/agents/agent-orchestrator.ts runs, and what it records.
use rpenginext.Common.{
  ◌+◌, ◌≡◌, refl, subst, Bool, true, false, Option, none, some, List, length, length-append, String,
  lookup,
}
use rpenginext.Contracts.{
  JsonObject, Result, ok, err, Failure, ok-injective, Parsed, success, issues,
}
use rpenginext.Agents.Tools.{
  AgentToolDefinition, AgentToolHandler, ToolIndex, ToolState, ToolCall, is_permitted, find_handler,
  is_listed, with_handler, with_args, with_permission, with_definition, with_listed, prepare_call,
  settle_call, run_call, invoke_tool, answer_of,
}

pub record IsAllowed {W : Type 0} (index : ToolIndex W) (id : String) (args : JsonObject)
    (allowlist : Option (List String)) (call : ToolCall W) : Type 0 where
  pub listed : is_listed allowlist id ≡ true
  pub registered : lookup id index.agent_tools ≡ some call.definition
  pub permitted : is_permitted index.granted call.definition.permission ≡ true
  pub parsed : call.definition.args_schema args ≡ success call.parsed_args
  pub handled : find_handler id index.agent_tool_handlers ≡ some call.handler

module _ {W : Type 0} (index : ToolIndex W) (id : String) (args : JsonObject)
    (allowlist : Option (List String)) (call : ToolCall W) where
  module _ (listed : is_listed allowlist id ≡ true) where
    module _ (d : AgentToolDefinition) (registered : lookup id index.agent_tools ≡ some d) where
      with_handler-IsAllowed :
          (a : JsonObject) (h : Option (AgentToolHandler W))
          → is_permitted index.granted d.permission ≡ true
          → d.args_schema args ≡ success a
          → find_handler id index.agent_tool_handlers ≡ h
          → with_handler index id d a h ≡ ok call
          → IsAllowed index id args allowlist call
      unfolding with_handler
      with_handler-IsAllowed a none permitted parsed handled e = cc
      with_handler-IsAllowed a (some h) permitted parsed handled e =
          subst (IsAllowed index id args allowlist) (ok-injective e) (record {
            listed = listed;
            registered = registered;
            permitted = permitted;
            parsed = parsed;
            handled = handled;
          })

      with_args-IsAllowed :
          (a : Parsed JsonObject)
          → is_permitted index.granted d.permission ≡ true
          → d.args_schema args ≡ a
          → with_args index id d a ≡ ok call
          → IsAllowed index id args allowlist call
      unfolding with_args
      with_args-IsAllowed (issues flat) permitted parsed e = cc
      with_args-IsAllowed (success a) permitted parsed e =
          with_handler-IsAllowed a (find_handler id index.agent_tool_handlers) permitted parsed refl
            e

      with_permission-IsAllowed :
          (b : Bool)
          → is_permitted index.granted d.permission ≡ b
          → with_permission index id args d b ≡ ok call
          → IsAllowed index id args allowlist call
      unfolding with_permission
      with_permission-IsAllowed false permitted e = cc
      with_permission-IsAllowed true permitted e =
          with_args-IsAllowed (d.args_schema args) permitted refl e

    with_definition-IsAllowed :
        (d : Option AgentToolDefinition)
        → lookup id index.agent_tools ≡ d
        → with_definition index id args d ≡ ok call
        → IsAllowed index id args allowlist call
    unfolding with_definition
    with_definition-IsAllowed none registered e = cc
    with_definition-IsAllowed (some d) registered e =
        with_permission-IsAllowed d registered (is_permitted index.granted d.permission) refl e

  with_listed-IsAllowed :
      (b : Bool)
      → is_listed allowlist id ≡ b
      → with_listed index id args b ≡ ok call
      → IsAllowed index id args allowlist call
  unfolding with_listed
  with_listed-IsAllowed false listed e = cc
  with_listed-IsAllowed true listed e =
      with_definition-IsAllowed listed (lookup id index.agent_tools) refl e

-- The two ways of a call: it is refused before its handler, with the world as it was, or the handler of
-- an allowed call ran once, and its reply passed the result's schema where the call succeeds.
pub data IsInvoked {W : Type 0} (index : ToolIndex W) (id : String) (args : JsonObject)
    (allowlist : Option (List String)) (before : W) : Result JsonObject → W → Type 0 where
  declined : (f : Failure) → IsInvoked index id args allowlist before (err f) before
  ran :
      (call : ToolCall W) {answer : Result JsonObject}
      → IsAllowed index id args allowlist call
      → answer ≡ answer_of index call.definition id (call.handler.invoke call.parsed_args before).0
      → IsInvoked index id args allowlist before answer
          (call.handler.invoke call.parsed_args before).1

module _ {W : Type 0} (index : ToolIndex W) (id : String) (args : JsonObject)
    (allowlist : Option (List String)) (s : ToolState W) where
  abbrev Records : Result JsonObject × ToolState W → Type 0
  Records out =
      IsInvoked index id args allowlist s.world out.0 out.1.world
      × (length out.1.last_tool_calls ≡ length s.last_tool_calls + 1)

  run_call-Records :
      (call_id : String) (prepared : Result (ToolCall W))
      → prepare_call index id args allowlist ≡ prepared
      → Records (run_call index id call_id args prepared s)
  unfolding run_call settle_call prepare_call
  run_call-Records call_id (err f) e = (declined f, length-append s.last_tool_calls _)
  run_call-Records call_id (ok call) e = (
    ran call (with_listed-IsAllowed index id args allowlist call (is_listed allowlist id) refl e)
        refl,
    length-append s.last_tool_calls _,
  )

pub invoke_tool-IsInvoked :
    {W : Type 0} (index : ToolIndex W) (id : String) (args : JsonObject)
    (allowlist : Option (List String)) (s : ToolState W)
    → let out = invoke_tool index id args allowlist s in
      IsInvoked index id args allowlist s.world out.0 out.1.world
      × (length out.1.last_tool_calls ≡ length s.last_tool_calls + 1)
unfolding invoke_tool
invoke_tool-IsInvoked index id args allowlist s =
    run_call-Records index id args allowlist s _ (prepare_call index id args allowlist) refl
