-- ===== src/Contracts/Turns.antt =====
-- packages/contracts/src/turn and persistence: player actions, passages and journal entries.
use rpenginext.Common.{ℕ, Option, List, String}
use rpenginext.Contracts.Json.{JsonObject}
use rpenginext.Contracts.World.{StateCommand}

pub data ActionKind : Type 0 where
  free_text system_action : ActionKind

pub record PlayerAction : Type 0 where
  pub client_action_id : Option String
  pub kind : ActionKind
  pub text : Option String
  pub payload : Option JsonObject

pub record Passage : Type 0 where
  pub id : String
  pub turn_id : String
  pub prose : String
  pub visible_state : Option JsonObject

pub record JournalEntry : Type 0 where
  pub turn_id : String
  pub prev_revision : ℕ
  pub next_revision : ℕ
  pub input : PlayerAction
  pub commands : List StateCommand
  pub passage_id : String
  pub timestamp : String
