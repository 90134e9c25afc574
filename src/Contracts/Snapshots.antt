-- ===== src/Contracts/Snapshots.antt =====
-- packages/contracts/src/persistence: what a session stores.
use rpenginext.Common.{ℕ, Option, List, String, Dict}
use rpenginext.Contracts.Json.{JsonObject}
use rpenginext.Contracts.World.{WorldState}
use rpenginext.Contracts.Turns.{Passage, JournalEntry}

pub record EnabledModuleRef : Type 0 where
  pub id : String
  pub version : String

pub data SystemTurnMode : Type 0 where
  inline background : SystemTurnMode

pub record PendingSystemTurnSnapshot : Type 0 where
  pub reason : String
  pub payload : Option JsonObject
  pub requested_by_module_id : String
  pub mode : SystemTurnMode

pub record EngineVersions : Type 0 where
  pub core_version : String
  pub contracts_version : String

pub record SessionSnapshot : Type 0 where
  pub format_version : ℕ
  pub session_id : String
  pub created_at : String
  pub updated_at : String
  pub engine : EngineVersions
  pub enabled_modules : List EnabledModuleRef
  pub state : WorldState
  pub last_passage_id : Option String
  pub passages : List Passage
  pub idempotency : Dict String
  pub meta : Option JsonObject
  pub pending_system_turns : List PendingSystemTurnSnapshot

pub record SessionMeta : Type 0 where
  pub session_id : String
  pub updated_at : String
  pub title : Option String
  pub meta : Option JsonObject

pub record TurnPersistenceUnit : Type 0 where
  pub snapshot : SessionSnapshot
  pub journal_entries : List JournalEntry
