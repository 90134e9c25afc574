-- ===== src/Contracts/World.antt =====
-- packages/contracts/src/state and modules/catalogs.ts: the world state, the commands that change
-- it, and what is registered about them. `deepClone` and `deepFreeze` are the identity on values.
use rpenginext.Common.{ℕ, Option, none, [], String, Dict}
use rpenginext.Contracts.Json.{JsonValue, JsonObject, end}
use rpenginext.Contracts.Results.{Result, ⊤}

pub record CoreStateSlice : Type 0 where
  pub turn_index : ℕ
  pub revision : ℕ
  pub clock : String
  pub flags : JsonObject
  pub passage_cursor : Option String

pub record WorldMeta : Type 0 where
  pub schema_version : ℕ
  pub revision : ℕ
  pub updated_at_turn_id : Option String

pub record WorldState : Type 0 where
  pub meta : WorldMeta
  pub core : CoreStateSlice
  pub slices : Dict JsonObject

abbrev pub create_empty_world_state : String → ℕ → WorldState
create_empty_world_state clock version = record {
  meta = record { schema_version = version; revision = 0; updated_at_turn_id = none };
  core = record { turn_index = 0; revision = 0; clock = clock; flags = end; passage_cursor = none };
  slices = [];
}

pub data CommandSourceKind : Type 0 where
  module_source agent_source core_source system_source : CommandSourceKind

pub record CommandSource : Type 0 where
  pub kind : CommandSourceKind
  pub id : String

pub record StateCommand : Type 0 where
  pub command_id : String
  pub type : String
  pub slice : String
  pub payload : JsonObject
  pub reason : Option String
  pub source : CommandSource

-- What `safeParse` of a schema answers: the parsed data, or the flattened list of issues.
pub data Parsed (A : Type 0) : Type 0 where
  success : A → Parsed A
  issues : JsonValue → Parsed A

pub record CommandDefinition : Type 0 where
  pub type : String
  pub slice : String
  pub safe_parse : JsonObject → Parsed JsonObject
  pub apply : WorldState → StateCommand → Result WorldState
  pub validate : Option (WorldState → StateCommand → Result ⊤)

pub record InvariantDefinition : Type 0 where
  pub id : String
  pub check : WorldState → Result ⊤
