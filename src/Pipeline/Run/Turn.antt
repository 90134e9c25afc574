-- ===== src/Pipeline/Run/Turn.antt =====
-- `run`, `finishCommitted` and `finishRejected` of packages/core/src/pipeline/turn-pipeline.ts.
use mathlib.Core.List
use rpenginext.Common.{Option, none, some, List, [], ◌∷◌, String}
use rpenginext.Contracts.{Result, ok, err, failure, ⊤, WorldState, Passage}
use rpenginext.Kernel.{StateKernel, begin_turn, discard}
use rpenginext.Pipeline.{Outcome, pending, committed, rejected}
use rpenginext.Pipeline.Steps.{modify}
use rpenginext.Pipeline.Stages.{StageId, stage_ids, stage_name}
use rpenginext.Pipeline.Interceptors.{InterceptorWhen}
use rpenginext.Pipeline.Commit.{TurnFailure, TurnResult, committed_turn, rejected_turn, CommitState}
use rpenginext.Pipeline.Run.Types.{
  TurnDeps, turn_started, turn_rejected, TurnRun, to_turn_failure, observe,
}
use rpenginext.Pipeline.Run.Stage.{in_scratch, emit, run_named, run_stage}

-- A committed turn has a passage.
abbrev pub passage_of : Option Passage → Passage
passage_of (some p) = p
passage_of none = record { id = ""; turn_id = ""; prose = ""; visible_state = none }

abbrev pub failure_of : String → Option TurnFailure → TurnFailure
failure_of id (some f) = f
failure_of id none = record {
  turn_id = id;
  failure = failure "INTERNAL" "turn rejected";
  stage = none;
}

abbrev pub unended : String → TurnFailure
unended id = record {
  turn_id = id;
  failure = failure "INTERNAL" "turn ended without commit";
  stage = some "end";
}

module _ {S : Type 0} where
  abbrev pub turn_id : TurnRun S → String
  turn_id t = t.state.workspace.scratch.turn_id

  abbrev pub set_kernel : StateKernel → TurnRun S → TurnRun S
  set_kernel k t = record t {
    state = record (t.state) { workspace = record (t.state.workspace) { kernel = k } };
  }

  abbrev pub discard_draft : TurnRun S → TurnRun S
  discard_draft t = set_kernel (discard t.state.workspace.kernel) t

  abbrev pub reject : TurnFailure → TurnRun S → TurnRun S
  reject f t = record t { failure = some f; outcome = rejected }

  -- `session.pendingSystemTurns.push(...scratch.scheduledSystemTurns)`
  abbrev pub push_scheduled : TurnRun S → TurnRun S
  push_scheduled t = record t {
    state = record (t.state) {
      session = record (t.state.session) {
        pending_system_turns = List.◌++◌ t.state.session.pending_system_turns t.scheduled;
      };
    };
  }

  unfoldable pub finish_committed : TurnRun S → TurnResult × TurnRun S
  finish_committed t =
      let scratch = t.state.workspace.scratch in
      (
        committed_turn scratch.turn_id t.state.session.session_id
            t.state.workspace.kernel.authoritative.meta.revision (passage_of scratch.passage)
            scratch.accepted_commands scratch.warnings,
        t,
      )

  unfoldable pub finish_rejected : TurnRun S → TurnResult × TurnRun S
  finish_rejected t =
      let f = failure_of (turn_id t) t.failure in
      let scratch = t.state.workspace.scratch in
      (
        rejected_turn scratch.turn_id t.state.session.session_id f scratch.warnings,
        emit (turn_rejected f) (discard_draft t),
      )

module _ {S : Type 0} (deps : TurnDeps S) where
  abbrev pub succeed : StageId → TurnRun S → TurnRun S
  succeed StageId.commit t = record t { outcome = committed }
  succeed stage t = t

  -- What the loop does after a stage.
  unfoldable pub settle_stage : StageId → Result ⊤ × TurnRun S → TurnRun S
  settle_stage stage (ok u, t) = succeed stage t
  settle_stage stage (err e, t) =
      let f = to_turn_failure (turn_id t) e (stage_name stage) in
      (in_scratch (modify (observe (deps.ports.on_rejected f))) (discard_draft (reject f t))).1

  -- One round of the loop: `break` is every later round at the outcome rejected.
  unfoldable pub visit : Outcome → StageId → TurnRun S → TurnRun S
  unfolding settle_stage run_stage
  visit rejected stage t = t
  visit committed StageId.after t = (run_stage deps StageId.after t).1
  visit committed stage t = t
  visit pending StageId.end t = t
  visit pending StageId.after t = t
  visit pending stage t = settle_stage stage (run_stage deps stage t)

  unfoldable pub run_stages : List StageId → TurnRun S → TurnRun S
  unfolding visit
  run_stages [] t = t
  run_stages (stage ∷ rest) t = run_stages rest (visit t.outcome stage t)

  unfoldable pub finish : Outcome → TurnRun S → TurnResult × TurnRun S
  unfolding finish_committed finish_rejected
  finish committed t = finish_committed (push_scheduled t)
  finish rejected t = finish_rejected t
  finish pending t = finish_rejected (discard_draft (reject (unended (turn_id t)) t))

  -- The interceptors of the end, whatever they answer.
  unfoldable pub end_turn : TurnRun S → TurnResult × TurnRun S
  unfolding run_named finish
  end_turn t =
      let u =
        (run_named deps "end" InterceptorWhen.after
          (run_named deps "turn.end" InterceptorWhen.after t).1).1 in
      finish u.outcome u

  unfoldable pub run_begun : Result WorldState × StateKernel → TurnRun S → TurnResult × TurnRun S
  unfolding run_stages end_turn finish_rejected
  run_begun (ok s0, k) t = end_turn (run_stages stage_ids (set_kernel k t))
  run_begun (err e, k) t =
      finish_rejected (reject (to_turn_failure (turn_id t) e "begin") (set_kernel k t))

  -- The turn from the state that `run` makes for it.
  unfoldable pub run : TurnRun S → TurnResult × TurnRun S
  unfolding run_begun
  run t =
      run_begun (begin_turn (turn_id t) t.state.workspace.kernel)
        (emit (turn_started (turn_id t)) t)

  abbrev pub start : CommitState S → TurnRun S
  start c = record { state = c; outcome = pending; failure = none; scheduled = []; log = [] }

  unfoldable pub run_turn : CommitState S → TurnResult × TurnRun S
  unfolding run
  run_turn c = run (start c)
