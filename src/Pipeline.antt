-- ===== src/Pipeline.antt =====
-- packages/core/src/pipeline/turn-pipeline.ts: the stages of a turn that collect the commands, apply
-- them to the draft and publish it. A handler of a module is a parameter. One that is given a
-- context may call `ctx.propose` any number of times before it answers, and goes on with what the
-- call returned: a `Dialogue`. What else a handler reads (agents, read models, extras) is a part of
-- the handler; the handlers of `resolveConflicts`, validators, invariant ports and simulators make
-- no call of `ctx.propose` here. The tracer, the logs and the locks of the stages' time are left out.
pub mod Steps
pub mod Stages
pub mod Commands
pub mod Permitted
pub mod Interceptors
pub mod Conflicts
pub mod Validate
pub mod Materialize
pub mod Commit
pub mod Refines
pub mod Dispatch
pub mod Guard
pub mod Agents
pub mod Narrate
pub mod Normalize
pub mod Run
mod Tests
use rpenginext.Common.{
  ℕ, ◌≡◌, refl, Bool, true, false, Option, none, some, List, [], ◌∷◌, ◌++◌, map, String,
  if◌then◌else◌, Dict,
}
use rpenginext.Contracts.{
  JsonObject, Result, ok, err, Failure, failure, ⊤, WorldState, StateCommand, CommandSource,
  module_source, PlayerAction, Passage, CommandDefinition, JsonValue, TurnPersistenceUnit,
  EnabledModuleRef, PendingSystemTurnSnapshot, SystemTurnMode, SessionSnapshot, JournalEntry,
}
use rpenginext.ConflictPaths.{ConflictKeyDefinition}

pub data TurnKind : Type 0 where
  player system restore : TurnKind

pub data Outcome : Type 0 where
  pending committed rejected : Outcome

pub data Dialogue (A : Type 0) : Type 0 where
  answers : Result A → Dialogue A
  proposes : List StateCommand → (Result ⊤ → Dialogue A) → Dialogue A

-- A command as a contributor gives it: its source may be missing.
pub record ContributedCommand : Type 0 where
  pub command_id : String
  pub type : String
  pub slice : String
  pub payload : JsonObject
  pub reason : Option String
  pub source : Option CommandSource

pub data Verdict : Type 0 where
  accepts : Verdict
  refuses : String → Verdict

pub record Owned (A : Type 0) : Type 0 where
  pub module_id : String
  pub value : A

-- The lists of the contribution index that these stages read. An intent is a JSON object.
pub record ContributionIndex : Type 0 where
  pub transition_contributors :
      List (Owned (JsonObject → PlayerAction → TurnKind → Dialogue (List ContributedCommand)))
  pub command_decorators : List (Owned (List StateCommand → Dialogue (List StateCommand)))
  pub conflict_keys : List (Owned ConflictKeyDefinition)
  pub conflict_resolvers :
      List (Owned (String → List StateCommand → WorldState → Result (List StateCommand)))
  pub command_validators : List (Owned (StateCommand → WorldState → Result Verdict))
  pub invariant_ports : List (Owned (WorldState → Result Verdict))
  pub draft_simulators : List (Owned (WorldState → List StateCommand → Result ⊤))
  pub post_narrative_contributors : List (
      Owned (
        Passage
        → JsonObject
        → WorldState
        → PlayerAction
        → TurnKind
        → Dialogue (List ContributedCommand)))

pub record TurnPipeline : Type 0 where
  pub index : ContributionIndex
  pub get_module_permissions : String → List String

-- A task for an agent; what else it holds is in `input`.
pub record AgentTask : Type 0 where
  pub task_id : String
  pub type : String
  pub input : JsonObject
  pub requester_kind : String
  pub requester_id : String
  pub optional : Bool

pub record TurnScratch : Type 0 where
  pub turn_id : String
  pub kind : TurnKind
  pub raw_action : PlayerAction
  pub s0 : WorldState
  pub normalized : Option JsonObject
  pub intent : Option JsonObject
  pub proposed_commands : List StateCommand
  pub accepted_commands : List StateCommand
  pub warnings : List String
  pub narrative_prose : Option String
  pub passage : Option Passage
  pub propose_open : Bool
  pub extras : Dict JsonObject
  pub queued_tasks : List AgentTask
  pub plan_artifacts : Dict JsonObject
  pub agent_open : Bool
  pub agent_queue_open : Bool
