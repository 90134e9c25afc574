-- ===== src/Scene/Types.antt =====
-- The data of packages/modules/scene-controller/src/schema.ts.
use rpenginext.Common.{ℕ, Bool, Option, List, String}

pub data LoopLevel : Type 0 where
  calm soft hard : LoopLevel

-- 0 to 3 in their order.
pub data Urgency : Type 0 where
  fine approaching exhausted mandatory : Urgency

pub data SceneOutcome : Type 0 where
  resolved transitioned : SceneOutcome

-- A scene's type is a text.
pub record SceneInfo : Type 0 where
  pub id : String
  pub label : String
  pub type : String
  pub beat : ℕ
  pub started_at_turn_id : String
  pub last_confirm_turn_id : String
  pub last_progress : ℕ

pub record SceneRecord : Type 0 where
  pub id : String
  pub label : String
  pub type : String
  pub beats : ℕ
  pub outcome : SceneOutcome
  pub ended_at_turn_id : String

pub record Verdict : Type 0 where
  pub same_scene : Bool
  pub label : Option String
  pub type : Option String
  pub progress : ℕ
  pub stall : Bool
  pub repeat : Bool
  pub loop : LoopLevel
  pub urgency : Urgency
  pub resolved : Bool
  pub resolution_hint : Option String

pub record Counters : Type 0 where
  pub player_turns : ℕ
  pub probes : ℕ
  pub resolved_scenes : ℕ
  pub scenes : ℕ

pub record SceneControllerSlice : Type 0 where
  pub current : Option SceneInfo
  pub loop_level : LoopLevel
  pub consecutive_stalls : ℕ
  pub high_progress_beats : ℕ
  pub last_verdict : Option Verdict
  pub last_turn_id : Option String
  pub history : List SceneRecord
  pub counters : Counters
