-- ===== src/Pipeline/Run/Published.antt =====
-- What a commit stage of packages/core/src/pipeline/turn-pipeline.ts that succeeded has published.
use rpenginext.Common.{◌≡◌, refl, ◌∙◌, ap, false, List, arith}
use rpenginext.Contracts.{Result, ok, err, ⊤}
use rpenginext.Kernel.{StateKernel, discard}
use rpenginext.Pipeline.Steps.{then_on, ◌>>◌}
use rpenginext.Pipeline.Stages.{StageId}
use rpenginext.Pipeline.Interceptors.{InterceptorWhen}
use rpenginext.Pipeline.Commit.{SessionTurnState, CommitEvent, CommitState, stage_commit}
use rpenginext.Pipeline.Commit.Outcomes.{IsCommitted, Commits, stage_commit-Commits}
use rpenginext.Pipeline.Run.{
  TurnDeps, TurnRun, stage_body, run_interceptors, settle_body, drain_when, run_inner, finish_stage,
  start_stage, run_stage,
}
use rpenginext.Pipeline.Run.Kept.{
  Ground, beneath, rollback, beneath-IsBeneath, run_interceptors-Keeps, settle_body-Keeps,
  finish_stage-Keeps, start_stage-Keeps,
}

abbrev pub Base : Type 0 → Type 0
Base S = StateKernel × S × SessionTurnState × List CommitEvent

module _ {S : Type 0} where
  abbrev pub state_base : CommitState S → Base S
  state_base c = (c.workspace.kernel, c.store, c.session, c.events)

  -- With the draft dropped.
  abbrev pub idle_base : CommitState S → Base S
  idle_base c = (discard c.workspace.kernel, c.store, c.session, c.events)

  pub idle_of_rollback :
      (t u : TurnRun S) → rollback t ≡ rollback u → idle_base t.state ≡ idle_base u.state
  idle_of_rollback t u h = ap (λ (g : Ground S). (g.0, g.1, g.2, g.3)) h

  pub base_of_beneath :
      (t u : TurnRun S) → beneath t ≡ beneath u → state_base t.state ≡ state_base u.state
  base_of_beneath t u h = ap (λ (g : Ground S). (g.0, g.1, g.2, g.3)) h

  pub idle_of_base : (c d : CommitState S) → state_base c ≡ state_base d → idle_base c ≡ idle_base d
  idle_of_base c d h = ap (λ (b : Base S). (discard b.0, b.1, b.2, b.3)) h

module _ {S : Type 0} (deps : TurnDeps S) where
  -- The commit stage published on the way from `c`, and since then nothing changed.
  pub record IsPublished (c : CommitState S) (t : TurnRun S) : Type 0 where
    pub before : CommitState S
    pub out : CommitState S
    pub based : idle_base before ≡ idle_base c
    pub commitment : IsCommitted deps.commits deps.at before out
    pub left : state_base t.state ≡ state_base out

  pub IsPublished-trans :
      (c : CommitState S) (t u : TurnRun S)
      → IsPublished c t
      → state_base u.state ≡ state_base t.state
      → IsPublished c u
  IsPublished-trans c t u h same = record {
    before = h.before;
    out = h.out;
    based = h.based;
    commitment = h.commitment;
    left = same ∙ h.left;
  }

  IsPublished-settle_body :
      (c : CommitState S) (y : TurnRun S) (o : Result ⊤ × CommitState S)
      → idle_base y.state ≡ idle_base c
      → Commits deps.commits deps.at y.state o
      → (settle_body deps StageId.commit (o.0, record y { state = o.1 })).0 ≡ ok tt
      → IsPublished c (settle_body deps StageId.commit (o.0, record y { state = o.1 })).1
  unfolding settle_body
  IsPublished-settle_body c y (err e, d) based h passed = absurd (ground arith)
  IsPublished-settle_body c y (ok u, d) based h passed = record {
    before = y.state;
    out = d;
    based = based;
    commitment = h;
    left =
        base_of_beneath (settle_body deps StageId.commit (ok u, record y { state = d })).1
          (record y { state = d })
          (settle_body-Keeps deps beneath (beneath-IsBeneath deps) StageId.commit
            (ok u, record y { state = d }));
  }

  IsPublished-run_inner :
      (c : CommitState S) (x : TurnRun S) (o : Result ⊤ × TurnRun S)
      → idle_base x.state ≡ idle_base c
      → beneath o.1 ≡ beneath x
      → (then_on o (λ u.
          drain_when deps false
          >> (λ t. settle_body deps StageId.commit (stage_body deps StageId.commit t)))).0
        ≡ ok tt
      → IsPublished c
          (then_on o (λ u.
            drain_when deps false
            >> (λ t. settle_body deps StageId.commit (stage_body deps StageId.commit t)))).1
  unfolding stage_body
  IsPublished-run_inner c x (err e, y) based same passed = absurd (ground arith)
  IsPublished-run_inner c x (ok u, y) based same passed =
      IsPublished-settle_body c y (stage_commit deps.commits deps.at y.state)
        (idle_of_base y.state x.state (base_of_beneath y x same) ∙ based)
        (stage_commit-Commits deps.commits deps.at y.state) passed

  IsPublished-finish_stage :
      (c : CommitState S) (o : Result ⊤ × TurnRun S)
      → (o.0 ≡ ok tt → IsPublished c o.1)
      → (finish_stage deps StageId.commit o).0 ≡ ok tt
      → IsPublished c (finish_stage deps StageId.commit o).1
  IsPublished-finish_stage c (err e, t) h passed = absurd (ground arith)
  IsPublished-finish_stage c (ok tt, t) h passed = IsPublished-trans c t _ (h refl) (
      base_of_beneath (finish_stage deps StageId.commit (ok tt, t)).1 t
        (finish_stage-Keeps deps beneath (beneath-IsBeneath deps) StageId.commit (ok tt, t)))

  -- A commit stage that succeeds, interceptors included, published.
  pub run_stage-IsPublished :
      (c : CommitState S) (t : TurnRun S)
      → idle_base t.state ≡ idle_base c
      → (run_stage deps StageId.commit t).0 ≡ ok tt
      → IsPublished c (run_stage deps StageId.commit t).1
  unfolding run_stage run_inner
  run_stage-IsPublished c t based =
      let x = start_stage deps StageId.commit t in
      let started : state_base x.state ≡ state_base t.state =
        base_of_beneath x t
          (start_stage-Keeps deps beneath (beneath-IsBeneath deps) StageId.commit t) in
      IsPublished-finish_stage c (run_inner deps StageId.commit x) (
        IsPublished-run_inner c x (run_interceptors deps StageId.commit InterceptorWhen.before x)
          (idle_of_base x.state t.state started ∙ based)
          (run_interceptors-Keeps deps beneath (beneath-IsBeneath deps) StageId.commit
            InterceptorWhen.before x))
