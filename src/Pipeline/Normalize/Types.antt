-- ===== src/Pipeline/Normalize/Types.antt =====
-- What `stageNormalize` of packages/core/src/pipeline/turn-pipeline.ts exchanges with the modules.
use rpenginext.Common.{ℕ, Bool, Option, List, String}
use rpenginext.Contracts.{JsonObject, JsonValue, Result, PlayerAction}

pub record NormalizedAction : Type 0 where
  pub action_type : String
  pub raw : PlayerAction
  pub text : Option String
  pub targets : List String
  pub confidence : Option ℕ
  pub extras : JsonObject

-- `Partial<NormalizedAction>`
pub record ActionPatch : Type 0 where
  pub action_type : Option String
  pub text : Option String
  pub targets : Option (List String)
  pub confidence : Option ℕ
  pub extras : Option JsonObject

pub record Classified : Type 0 where
  pub action_type : String
  pub confidence : ℕ

pub record Candidate : Type 0 where
  pub ref : String
  pub entity_id : String
  pub confidence : ℕ

-- `EntityResolver`
abbrev pub Resolver : Type 0
Resolver = String → NormalizedAction → Result (List Candidate)

pub record NormalizePorts : Type 0 where
  pub trim : String → String
  pub input_normalizers : List (PlayerAction → Result ActionPatch)
  pub action_classifiers : List (PlayerAction → Result (List Classified))
  pub entity_resolvers : List Resolver
  pub disambiguation_providers : List (String → List Candidate → Result (List JsonValue))
  pub enable_action_interpret : Bool
  pub interpret : String → List String → JsonObject → Result ActionPatch
  pub action_types : List String
