-- ===== src/Pipeline/Run/Outcomes.antt =====
-- How a turn of packages/core/src/pipeline/turn-pipeline.ts ends, whatever its stages, handlers and
-- agents do.
use rpenginext.Common.{◌≡◌, ◌≢◌, some}
use rpenginext.Contracts.{Result, WorldState}
use rpenginext.Kernel.{StateKernel, discard}
use rpenginext.Pipeline.Commit.{TurnResult, committed_turn, rejected_turn, CommitState}
use rpenginext.Pipeline.Run.{TurnDeps, TurnRun, push_scheduled}
use rpenginext.Pipeline.Run.Published.{state_base, idle_base, IsPublished}

module _ {S : Type 0} (deps : TurnDeps S) (c : CommitState S) where
  -- How the turn ended, by its result.
  abbrev pub EndsAs : TurnResult → TurnRun S → Type 0
  EndsAs (committed_turn id session_id revision passage commands warnings) t =
      (u : TurnRun S) × IsPublished deps c u
      × (t ≡ push_scheduled u)
      × (revision ≡ t.state.workspace.kernel.authoritative.meta.revision)
  EndsAs (rejected_turn id session_id reason warnings) t =
      (state_base t.state ≡ idle_base t.state)
      × (reason.stage ≢ some "commit" → state_base t.state ≡ idle_base c)

  abbrev Begins : Result WorldState × StateKernel → Type 0
  Begins (r, k) = discard k ≡ discard c.workspace.kernel
