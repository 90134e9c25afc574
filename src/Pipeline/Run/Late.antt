-- ===== src/Pipeline/Run/Late.antt =====
-- An interceptor after the commit stage of packages/core/src/pipeline/turn-pipeline.ts that rejects.
use rpenginext.Common.{◌≡◌, refl, sym, ◌∙◌, ap, subst}
use rpenginext.Contracts.{ok, err, Failure}
use rpenginext.Kernel.{discard}
use rpenginext.Pipeline.{rejected, pending}
use rpenginext.Pipeline.Stages.{StageId}
use rpenginext.Pipeline.Interceptors.{InterceptorWhen}
use rpenginext.Pipeline.Commit.{CommitState, stage_commit}
use rpenginext.Pipeline.Commit.Outcomes.{IsCommitted, Commits, stage_commit-Commits}
use rpenginext.Pipeline.Run.{
  TurnDeps, TurnRun, stage_body, run_interceptors, settle_body, run_inner, start_stage, run_stage,
  settle_stage, visit,
}
use rpenginext.Pipeline.Run.Kept.{beneath, beneath-IsBeneath, run_interceptors-Keeps}
use rpenginext.Pipeline.Run.Published.{state_base, idle_of_base, base_of_beneath}

module _ {S : Type 0} (deps : TurnDeps S) where
  -- The commit stage on the way published; the interceptors after it rejected.
  pub record IsRefusedLate (t : TurnRun S) (e : Failure) : Type 0 where
    pub ready : TurnRun S
    pub out : CommitState S
    pub refusing : TurnRun S
    pub before :
        run_interceptors deps StageId.commit InterceptorWhen.before
          (start_stage deps StageId.commit t)
        ≡ (ok tt, ready)
    pub committed : stage_commit deps.commits deps.at ready.state ≡ (ok tt, out)
    pub after :
        run_interceptors deps StageId.commit InterceptorWhen.after (record ready { state = out })
        ≡ (err e, refusing)

  inner-refused :
      (t : TurnRun S) (e : Failure) (h : IsRefusedLate t e)
      → run_inner deps StageId.commit (start_stage deps StageId.commit t) ≡ (err e, h.refusing)
  unfolding run_inner stage_body settle_body
  inner-refused t e h = rw h.before (rw h.committed (rw h.after refl))

  -- When an interceptor after a commit that succeeded rejects, the turn counts as rejected, although
  -- the draft was flushed and is the published state: kernel, store, session and commit events are
  -- those that the commit left.
  pub visit-refused_late :
      (t : TurnRun S) (e : Failure) (h : IsRefusedLate t e)
      → ((visit deps pending StageId.commit t).outcome ≡ rejected)
        × IsCommitted deps.commits deps.at h.ready.state h.out
        × (state_base (visit deps pending StageId.commit t).state ≡ state_base h.out)
  unfolding visit run_stage settle_stage discard
  visit-refused_late t e h =
      let c =
        subst (Commits deps.commits deps.at h.ready.state) h.committed
          (stage_commit-Commits deps.commits deps.at h.ready.state) in
      let same : state_base h.refusing.state ≡ state_base h.out =
        base_of_beneath h.refusing (record (h.ready) { state = h.out })
          (subst (λ o. beneath o.1 ≡ beneath (record (h.ready) { state = h.out })) h.after
            (run_interceptors-Keeps deps beneath (beneath-IsBeneath deps) StageId.commit
              InterceptorWhen.after (record (h.ready) { state = h.out }))) in
      let idle : discard h.out.workspace.kernel ≡ h.out.workspace.kernel =
        ap discard c.published ∙ sym c.published in
      let left =
        idle_of_base h.refusing.state h.out same
        ∙ (λ i. (idle i, h.out.store, h.out.session, h.out.events)) in
      (rw (inner-refused t e h) refl, c, rw (inner-refused t e h) left)
