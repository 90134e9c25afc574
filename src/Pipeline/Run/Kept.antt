-- ===== src/Pipeline/Run/Kept.antt =====
-- What the steps of a turn of packages/core/src/pipeline/turn-pipeline.ts leave alone: a stage before
-- the commit changes at most the scratch and the draft, the stage after it at most the scratch.
use rpenginext.Common.{◌≡◌, refl, ◌∙◌, Bool, true, false, Option, none, some, List, String}
use rpenginext.Contracts.{Result, ok, err, ⊤, Passage}
use rpenginext.Kernel.{StateKernel, discard}
use rpenginext.Pipeline.{Outcome, TurnScratch}
use rpenginext.Pipeline.Steps.{Step, ◌>>◌, modify, Keeps, Keeps->>=}
use rpenginext.Pipeline.Stages.{StageId, stage_name}
use rpenginext.Pipeline.Interceptors.{InterceptorWhen, get_interceptors, run_interceptor_list}
use rpenginext.Pipeline.Agents.{drain_queued_agents}
use rpenginext.Pipeline.Validate.{Workspace, stage_validate}
use rpenginext.Pipeline.Materialize.{stage_materialize}
use rpenginext.Pipeline.Commit.{TurnFailure, SessionTurnState, CommitEvent}
use rpenginext.Pipeline.Run.{
  TurnDeps, TurnRun, on_view, on_workspace, on_state, in_scratch, drain_when, after_passage,
  stage_after, stage_body, run_named, run_interceptors, settle_body, run_inner, finish_stage,
  start_stage, run_stage, emit, TurnEvent, stage_started, stage_finished, propose_opens,
  agent_opens, agent_queue_opens, set_windows, set_open, drains_before, stage_present,
}
use rpenginext.Pipeline.Run.Draft.{dropped, stage_validate-Keeps, stage_materialize-Keeps}

abbrev pub Ground : Type 0 → Type 0
Ground S = StateKernel × S × SessionTurnState × List CommitEvent × Outcome × Option TurnFailure

module _ {S : Type 0} where
  -- The kernel, the store, the session, the events of commits, and how the turn stands.
  abbrev pub beneath : TurnRun S → Ground S
  beneath t = (
    t.state.workspace.kernel, t.state.store, t.state.session, t.state.events, t.outcome, t.failure,
  )

  -- The same once the draft is dropped: where a turn that is rejected goes back to.
  abbrev pub rollback : TurnRun S → Ground S
  rollback t = (
    discard t.state.workspace.kernel,
    t.state.store,
    t.state.session,
    t.state.events,
    t.outcome,
    t.failure,
  )

on_workspace-Keeps :
    {S : Type 0} (step : Step Workspace ⊤)
    → Keeps dropped step
    → Keeps (rollback {S = S}) (on_state (on_workspace step))
on_workspace-Keeps step h t = λ i.
    (h t.state.workspace i, t.state.store, t.state.session, t.state.events, t.outcome, t.failure)

module _ {S : Type 0} (deps : TurnDeps S) where
  -- A view of the state that no step on the scratch and no event of a stage changes.
  pub record IsBeneath (v : TurnRun S → Ground S) : Type 0 where
    pub scratches : (step : Step TurnScratch ⊤) → Keeps v (in_scratch step)
    pub logs : (t : TurnRun S) (e : TurnEvent) → v (emit e t) ≡ v t

  module _ (v : TurnRun S → Ground S) (h : IsBeneath v) where
    pub run_named-Keeps :
        (name : String) (when : InterceptorWhen) → Keeps v (run_named deps name when)
    unfolding run_named
    run_named-Keeps name when =
        h.scratches
          (run_interceptor_list deps.pipeline (get_interceptors name when deps.ports.interceptors))

    pub run_interceptors-Keeps :
        (stage : StageId) (when : InterceptorWhen) → Keeps v (run_interceptors deps stage when)
    unfolding run_interceptors
    run_interceptors-Keeps StageId.begin InterceptorWhen.before =
        Keeps->>= v {A = ⊤} {B = ⊤} (run_named deps "begin" InterceptorWhen.before)
          (λ u. run_named deps "turn.begin" InterceptorWhen.before)
          (run_named-Keeps "begin" InterceptorWhen.before)
          (λ u. run_named-Keeps "turn.begin" InterceptorWhen.before)
    run_interceptors-Keeps stage when = run_named-Keeps (stage_name stage) when

    drain_when-Keeps : (b : Bool) → Keeps v (drain_when deps b)
    drain_when-Keeps true = h.scratches (drain_queued_agents deps.ports.execute)
    drain_when-Keeps false = λ t. refl

    pub settle_body-Keeps :
        (stage : StageId) (o : Result ⊤ × TurnRun S) → v (settle_body deps stage o).1 ≡ v o.1
    unfolding settle_body
    settle_body-Keeps stage (ok u, t) =
        Keeps->>= v {A = ⊤} {B = ⊤} (run_interceptors deps stage InterceptorWhen.after)
          (λ w. drain_when deps (agent_queue_opens stage))
          (run_interceptors-Keeps stage InterceptorWhen.after)
          (λ w. drain_when-Keeps (agent_queue_opens stage)) t
    settle_body-Keeps stage (err e, t) = run_interceptors-Keeps stage InterceptorWhen.on_error t

    windows-Keeps : (p a q : Bool) (t : TurnRun S) → v (set_open deps p a q t) ≡ v t
    windows-Keeps p a q t = h.scratches (modify (set_windows p a q)) t

    pub finish_stage-Keeps :
        (stage : StageId) (o : Result ⊤ × TurnRun S) → v (finish_stage deps stage o).1 ≡ v o.1
    finish_stage-Keeps stage (ok u, t) =
        windows-Keeps false false false (emit (stage_finished stage true) t)
        ∙ h.logs t (stage_finished stage true)
    finish_stage-Keeps stage (err e, t) =
        windows-Keeps false false false (emit (stage_finished stage false) t)
        ∙ h.logs t (stage_finished stage false)

    pub start_stage-Keeps : (stage : StageId) (t : TurnRun S) → v (start_stage deps stage t) ≡ v t
    start_stage-Keeps stage t =
        h.logs (set_open deps (propose_opens stage) (agent_opens stage) (agent_queue_opens stage) t)
          (stage_started stage)
        ∙ windows-Keeps (propose_opens stage) (agent_opens stage) (agent_queue_opens stage) t

    run_inner-Keeps :
        (stage : StageId) → Keeps v (stage_body deps stage) → Keeps v (run_inner deps stage)
    unfolding run_inner
    run_inner-Keeps stage body =
        Keeps->>= v {A = ⊤} {B = ⊤} (run_interceptors deps stage InterceptorWhen.before)
          (λ u.
            drain_when deps (drains_before deps stage)
            >> (λ t. settle_body deps stage (stage_body deps stage t)))
          (run_interceptors-Keeps stage InterceptorWhen.before)
          (λ u.
            Keeps->>= v {A = ⊤} {B = ⊤} (drain_when deps (drains_before deps stage))
              (λ w t. settle_body deps stage (stage_body deps stage t))
              (drain_when-Keeps (drains_before deps stage))
              (λ w x. settle_body-Keeps stage (stage_body deps stage x) ∙ body x))

    pub run_stage-Keeps :
        (stage : StageId) → Keeps v (stage_body deps stage) → Keeps v (run_stage deps stage)
    unfolding run_stage
    run_stage-Keeps stage body t =
        finish_stage-Keeps stage (run_inner deps stage (start_stage deps stage t))
        ∙ (run_inner-Keeps stage body (start_stage deps stage t) ∙ start_stage-Keeps stage t)

  pub beneath-IsBeneath : IsBeneath beneath
  beneath-IsBeneath = record { scratches = λ step t. refl; logs = λ t e. refl }

  pub rollback-IsBeneath : IsBeneath rollback
  rollback-IsBeneath = record { scratches = λ step t. refl; logs = λ t e. refl }

  -- The stage is neither the commit nor the one after it.
  abbrev pub IsEarly : StageId → Type 0
  IsEarly StageId.commit = ⊥
  IsEarly StageId.after = ⊥
  IsEarly stage = ⊤

  present-Keeps : Keeps dropped (on_view (stage_present deps) >> stage_materialize deps.pipeline)
  present-Keeps =
      Keeps->>= dropped {A = ⊤} {B = ⊤} (on_view (stage_present deps))
        (λ u. stage_materialize deps.pipeline) (λ w. refl)
        (λ u. stage_materialize-Keeps deps.pipeline)

  stage_body-Keeps : (stage : StageId) → IsEarly stage → Keeps rollback (stage_body deps stage)
  unfolding stage_body
  stage_body-Keeps StageId.validate_commands h =
      on_workspace-Keeps (stage_validate deps.pipeline.index)
        (stage_validate-Keeps deps.pipeline.index)
  stage_body-Keeps StageId.present h =
      on_workspace-Keeps (on_view (stage_present deps) >> stage_materialize deps.pipeline)
        present-Keeps
  stage_body-Keeps StageId.commit h = absurd h
  stage_body-Keeps StageId.after h = absurd h
  stage_body-Keeps StageId.begin h = λ t. refl
  stage_body-Keeps StageId.normalize h = λ t. refl
  stage_body-Keeps StageId.intent h = λ t. refl
  stage_body-Keeps StageId.guard h = λ t. refl
  stage_body-Keeps StageId.plan h = λ t. refl
  stage_body-Keeps StageId.propose h = λ t. refl
  stage_body-Keeps StageId.narrate h = λ t. refl
  stage_body-Keeps StageId.end h = λ t. refl

  -- A stage before the commit, with its interceptors, changes of all this at most the draft.
  pub run_stage-early : (stage : StageId) → IsEarly stage → Keeps rollback (run_stage deps stage)
  run_stage-early stage h =
      run_stage-Keeps rollback rollback-IsBeneath stage (stage_body-Keeps stage h)

  after_passage-Keeps : (p : Option Passage) → Keeps beneath (after_passage deps p)
  unfolding after_passage
  after_passage-Keeps none = λ t. refl
  after_passage-Keeps (some p) = λ t. refl

  after-Keeps : Keeps beneath (stage_body deps StageId.after)
  unfolding stage_body stage_after
  after-Keeps t = after_passage-Keeps t.state.workspace.scratch.passage t

  -- The stage after the commit changes nothing of it.
  pub run_stage-after : Keeps beneath (run_stage deps StageId.after)
  run_stage-after = run_stage-Keeps beneath beneath-IsBeneath StageId.after after-Keeps
