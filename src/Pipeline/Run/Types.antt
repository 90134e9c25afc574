-- ===== src/Pipeline/Run/Types.antt =====
-- The state of a turn, what it calls, and the small functions of `run` and of the stages of
-- packages/core/src/pipeline/turn-pipeline.ts.
use mathlib.Core.List
use rpenginext.Common.{
  ℕ, Bool, true, false, ◌||◌, Option, none, some, List, [], ◌∷◌, String, Dict, contains,
  if◌then◌else◌, ◌==◌,
}
use rpenginext.Contracts.{JsonObject, Result, ok, err, Failure, failure, ⊤, WorldState, Passage}
use rpenginext.Pipeline.{Outcome, Owned, TurnPipeline, AgentTask, TurnScratch}
use rpenginext.Pipeline.Stages.{StageId}
use rpenginext.Pipeline.Interceptors.{StageInterceptor}
use rpenginext.Pipeline.Commit.{TurnFailure, PendingSystemTurn, CommitDeps, CommitState}
use rpenginext.Pipeline.Guard.{GuardPorts}
use rpenginext.Pipeline.Agents.{AgentResult, PlanPorts}
use rpenginext.Pipeline.Narrate.{RepairRound, CriticPolicy, Critic}

-- How the agent answers the task of the narrative, and its critics.
pub record NarrativeTask : Type 0 where
  pub write : ℕ → List RepairRound → Result String
  pub critics : List Critic

-- What the stages call that is not in the other modules.
pub record TurnPorts : Type 0 where
  pub turn_setups : List (Owned (Result (Dict JsonObject)))
  pub normalize : TurnScratch → WorldState → Result JsonObject
  -- the intent and the warnings
  pub interpret : TurnScratch → WorldState → Result (JsonObject × List String)
  pub guards : GuardPorts
  pub plans : PlanPorts
  -- the brief, from the modules' answers
  pub brief : TurnScratch → WorldState → Result NarrativeTask
  pub assemble : String → WorldState → Result String
  pub visible_state : WorldState → Result (Option JsonObject)
  pub execute : AgentTask → AgentResult
  pub interceptors : List (Owned StageInterceptor)
  -- what the hooks leave in the extras
  pub on_rejected : TurnFailure → Dict JsonObject → Dict JsonObject
  pub after_commit : Dict JsonObject → Dict JsonObject
  pub schedulers : List (Result (List PendingSystemTurn))

-- `command_id`, `passage_id` and `at` are what the generators and the clock give.
pub record TurnDeps (S : Type 0) : Type 0 where
  pub pipeline : TurnPipeline
  pub ports : TurnPorts
  pub commits : CommitDeps S
  pub max_narrative_critic_retries : ℕ
  pub critic_policy : CriticPolicy
  pub command_id : String
  pub passage_id : String
  pub at : String

pub data TurnEvent : Type 0 where
  turn_started : String → TurnEvent
  stage_started : StageId → TurnEvent
  stage_finished : StageId → Bool → TurnEvent
  turn_rejected : TurnFailure → TurnEvent

-- The turn's scratch, kernel, session and store, and what `run` keeps beside them. The events of a
-- commit are in `state`.
pub record TurnRun (S : Type 0) : Type 0 where
  pub state : CommitState S
  pub outcome : Outcome
  pub failure : Option TurnFailure
  pub scheduled : List PendingSystemTurn
  pub log : List TurnEvent

abbrev pub or_empty : Option JsonObject → JsonObject
or_empty none = JsonObject.end
or_empty (some o) = o

abbrev pub is_turn_failure_code : String → Bool
is_turn_failure_code code = contains code (
    "GUARD_REJECTED" ∷ "INVALID_INPUT" ∷ "COMMAND_INVALID" ∷ "COMMAND_CONFLICT" ∷ "AGENT_FAILED"
    ∷ "TIMEOUT" ∷ "INTERNAL" ∷ "PERMISSION_DENIED" ∷ "INVARIANT_FAILED" ∷ "PRESENT_FAILED"
    ∷ "PERSISTENCE_FAILED" ∷ "AMBIGUOUS_TARGET" ∷ "MODULE_ERROR" ∷ [])

abbrev pub map_failure_code : String → String
map_failure_code code =
    if (code == "NO_HANDLER") || (code == "NO_ADAPTER") then "AGENT_FAILED" else code

abbrev pub to_turn_failure : String → Failure → String → TurnFailure
to_turn_failure turn_id error stage = record {
  turn_id = turn_id;
  failure = record error {
    code = if is_turn_failure_code error.code then error.code else map_failure_code error.code;
  };
  stage = some stage;
}

-- The windows that `runStage` opens.
abbrev pub propose_opens : StageId → Bool
propose_opens StageId.propose = true
propose_opens StageId.validate_commands = true
propose_opens _ = false

abbrev pub agent_opens : StageId → Bool
agent_opens StageId.normalize = true
agent_opens StageId.plan = true
agent_opens StageId.narrate = true
agent_opens StageId.propose = true
agent_opens _ = false

abbrev pub agent_queue_opens : StageId → Bool
agent_queue_opens StageId.plan = true
agent_queue_opens StageId.propose = true
agent_queue_opens StageId.narrate = true
agent_queue_opens _ = false

abbrev pub set_windows : Bool → Bool → Bool → TurnScratch → TurnScratch
set_windows p a q s = record s { propose_open = p; agent_open = a; agent_queue_open = q }

abbrev pub is_plan : StageId → Bool
is_plan StageId.plan = true
is_plan _ = false

abbrev pub set_normalized : JsonObject → TurnScratch → TurnScratch
set_normalized action s = record s { normalized = some action }

abbrev pub set_intent : JsonObject → List String → TurnScratch → TurnScratch
set_intent intent ws s = record s { intent = some intent; warnings = List.◌++◌ s.warnings ws }

abbrev pub set_prose : String → TurnScratch → TurnScratch
set_prose prose s = record s { narrative_prose = some prose }

abbrev pub set_passage : Passage → TurnScratch → TurnScratch
set_passage p s = record s { passage = some p }

abbrev pub observe : (Dict JsonObject → Dict JsonObject) → TurnScratch → TurnScratch
observe hook s = record s { extras = hook s.extras }

abbrev pub or_text : Option String → String → String
or_text none other = other
or_text (some t) other = t

abbrev pub or_nonempty : String → String → String
or_nonempty t other = if t == "" then other else t

abbrev pub check_passage : String → Result ⊤
check_passage prose =
    if prose == "" then err (failure "PRESENT_FAILED" "passage prose is empty") else ok tt
