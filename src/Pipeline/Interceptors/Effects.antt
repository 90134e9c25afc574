-- ===== src/Pipeline/Interceptors/Effects.antt =====
-- What interceptors can do to a turn (packages/core/src/pipeline/turn-pipeline.ts).
use rpenginext.Common.{◌≡◌, Bool, true, List, [], ◌++◌, String, All, ◌⊎◌}
use rpenginext.Contracts.{StateCommand}
use rpenginext.Pipeline.{AgentTask, TurnPipeline, TurnScratch}
use rpenginext.Pipeline.Permitted.{IsPermitted}

-- A window: what came through it, if anything did, came while it was open.
abbrev pub Through {ℓ} : {A : Type ℓ} → Bool → List A → Type ℓ
Through window added = (window ≡ true) ⊎ (added ≡ [])

module _ (pipeline : TurnPipeline) where
  -- From `s` to `t` permitted commands, tasks and warnings were added behind those that were there,
  -- commands and tasks only while their windows were open; the windows, the accepted commands and the
  -- passage are as they were.
  pub record IsExtended (s t : TurnScratch) : Type 0 where
    pub commands : List StateCommand
    pub tasks : List AgentTask
    pub messages : List String
    pub proposed : t.proposed_commands ≡ s.proposed_commands ++ commands
    pub permitted : All (IsPermitted pipeline) commands
    pub proposal_window : Through s.propose_open commands
    pub queued : t.queued_tasks ≡ s.queued_tasks ++ tasks
    pub task_window : Through s.agent_queue_open tasks
    pub warned : t.warnings ≡ s.warnings ++ messages
    pub accepted : t.accepted_commands ≡ s.accepted_commands
    pub passage : t.passage ≡ s.passage
    pub propose_open : t.propose_open ≡ s.propose_open
    pub agent_queue_open : t.agent_queue_open ≡ s.agent_queue_open
