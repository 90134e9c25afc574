-- ===== src/Pipeline/Run/Standing.antt =====
-- How a turn of packages/core/src/pipeline/turn-pipeline.ts stands between its stages.
use rpenginext.Common.{◌≡◌, ◌≢◌, refl, sym, ◌∙◌, ap, subst, some, List, [], ◌∷◌, ◌⊎◌, inl, inr}
use rpenginext.Contracts.{Result, ok, err, Failure, ⊤}
use rpenginext.Kernel.{discard}
use rpenginext.Pipeline.{Outcome, pending, committed, rejected}
use rpenginext.Pipeline.Stages.{StageId, stage_name}
use rpenginext.Pipeline.Commit.{TurnFailure, CommitState}
use rpenginext.Pipeline.Run.{
  TurnDeps, TurnRun, to_turn_failure, run_stage, turn_id, settle_stage, succeed, visit, run_stages,
}
use rpenginext.Pipeline.Run.Kept.{
  Ground, beneath, rollback, IsEarly, run_stage-early, run_stage-after,
}
use rpenginext.Pipeline.Run.Published.{
  state_base, idle_base, idle_of_rollback, base_of_beneath, idle_of_base, IsPublished,
  IsPublished-trans, run_stage-IsPublished,
}

abbrev outcome_of_ground : {S : Type 0} → Ground S → Outcome
outcome_of_ground g = g.4

module _ {S : Type 0} (deps : TurnDeps S) (c : CommitState S) where
  pub record IsPending (t : TurnRun S) : Type 0 where
    pub outcome : t.outcome ≡ pending
    pub based : idle_base t.state ≡ idle_base c

  pub record HasCommitted (t : TurnRun S) : Type 0 where
    pub outcome : t.outcome ≡ committed
    pub published : IsPublished deps c t

  -- A turn that failed outside the commit stage is where it began, with no draft.
  pub record IsRejected (t : TurnRun S) : Type 0 where
    pub outcome : t.outcome ≡ rejected
    pub reason : TurnFailure
    pub failed : t.failure ≡ some reason
    pub idle : state_base t.state ≡ idle_base t.state
    pub restored : reason.stage ≢ some "commit" → idle_base t.state ≡ idle_base c

  abbrev pub Stands : TurnRun S → Type 0
  Stands t = IsPending t ⊎ HasCommitted t ⊎ IsRejected t

  -- `settle_stage` on a failure of the stage.
  failed :
      (stage : StageId) (e : Failure) (t : TurnRun S)
      → (some (stage_name stage) ≢ some "commit" → idle_base t.state ≡ idle_base c)
      → IsRejected (settle_stage deps stage (err e, t))
  unfolding settle_stage discard
  failed stage e t h = record {
    outcome = refl;
    reason = to_turn_failure (turn_id t) e (stage_name stage);
    failed = refl;
    idle = refl;
    restored = λ n. h n;
  }

  succeed-early : (stage : StageId) (t : TurnRun S) → IsEarly deps stage → succeed deps stage t ≡ t
  succeed-early StageId.begin t h = refl
  succeed-early StageId.normalize t h = refl
  succeed-early StageId.intent t h = refl
  succeed-early StageId.guard t h = refl
  succeed-early StageId.plan t h = refl
  succeed-early StageId.propose t h = refl
  succeed-early StageId.validate_commands t h = refl
  succeed-early StageId.narrate t h = refl
  succeed-early StageId.present t h = refl
  succeed-early StageId.commit t h = absurd h
  succeed-early StageId.after t h = absurd h
  succeed-early StageId.end t h = refl

  settle-early :
      (stage : StageId) (t : TurnRun S) (o : Result ⊤ × TurnRun S)
      → IsEarly deps stage
      → IsPending t
      → rollback o.1 ≡ rollback t
      → Stands (settle_stage deps stage o)
  unfolding settle_stage
  settle-early stage t (ok u, v) early h same = rw (succeed-early stage v early) (
      inl (record {
        outcome = ap outcome_of_ground same ∙ h.outcome;
        based = idle_of_rollback v t same ∙ h.based;
      }))
  settle-early stage t (err e, v) early h same =
      inr (inr (failed stage e v (λ n. idle_of_rollback v t same ∙ h.based)))

  early :
      (stage : StageId) (t : TurnRun S)
      → IsEarly deps stage
      → IsPending t
      → Stands (settle_stage deps stage (run_stage deps stage t))
  early stage t h p =
      settle-early stage t (run_stage deps stage t) h p (run_stage-early deps stage h t)

  settle-commit :
      (o : Result ⊤ × TurnRun S)
      → (o.0 ≡ ok tt → IsPublished deps c o.1)
      → Stands (settle_stage deps StageId.commit o)
  unfolding settle_stage
  settle-commit (ok tt, t) h =
      inr (inl (record { outcome = refl; published = IsPublished-trans deps c t _ (h refl) refl }))
  settle-commit (err e, t) h = inr (inr (failed StageId.commit e t (λ n. absurd (n refl))))

  visit-pending :
      (stage : StageId) (t : TurnRun S) → IsPending t → Stands (visit deps pending stage t)
  unfolding visit
  visit-pending StageId.begin t h = early StageId.begin t tt h
  visit-pending StageId.normalize t h = early StageId.normalize t tt h
  visit-pending StageId.intent t h = early StageId.intent t tt h
  visit-pending StageId.guard t h = early StageId.guard t tt h
  visit-pending StageId.plan t h = early StageId.plan t tt h
  visit-pending StageId.propose t h = early StageId.propose t tt h
  visit-pending StageId.validate_commands t h = early StageId.validate_commands t tt h
  visit-pending StageId.narrate t h = early StageId.narrate t tt h
  visit-pending StageId.present t h = early StageId.present t tt h
  visit-pending StageId.commit t h =
      settle-commit (run_stage deps StageId.commit t) (run_stage-IsPublished deps c t h.based)
  visit-pending StageId.after t h = inl h
  visit-pending StageId.end t h = inl h

  visit-committed :
      (stage : StageId) (t : TurnRun S) → HasCommitted t → Stands (visit deps committed stage t)
  unfolding visit
  visit-committed StageId.after t h =
      let same = run_stage-after deps t in
      let u = (run_stage deps StageId.after t).1 in
      inr (
        inl (record {
          outcome = ap (λ (g : Ground S). g.4) same ∙ h.outcome;
          published = IsPublished-trans deps c t u h.published (base_of_beneath u t same);
        }))
  visit-committed StageId.begin t h = inr (inl h)
  visit-committed StageId.normalize t h = inr (inl h)
  visit-committed StageId.intent t h = inr (inl h)
  visit-committed StageId.guard t h = inr (inl h)
  visit-committed StageId.plan t h = inr (inl h)
  visit-committed StageId.propose t h = inr (inl h)
  visit-committed StageId.validate_commands t h = inr (inl h)
  visit-committed StageId.narrate t h = inr (inl h)
  visit-committed StageId.present t h = inr (inl h)
  visit-committed StageId.commit t h = inr (inl h)
  visit-committed StageId.end t h = inr (inl h)

  visit-Stands :
      (stage : StageId) (t : TurnRun S) → Stands t → Stands (visit deps t.outcome stage t)
  visit-Stands stage t (inl h) =
      subst (λ o. Stands (visit deps o stage t)) (sym h.outcome) (visit-pending stage t h)
  visit-Stands stage t (inr (inl h)) =
      subst (λ o. Stands (visit deps o stage t)) (sym h.outcome) (visit-committed stage t h)
  visit-Stands stage t (inr (inr h)) =
      subst (λ o. Stands (visit deps o stage t)) (sym h.outcome) (visited stage)
    where
      visited : (s : StageId) → Stands (visit deps rejected s t)
      visited s = unfold visit in inr (inr h)

  pub run_stages-Stands :
      (stages : List StageId) (t : TurnRun S) → Stands t → Stands (run_stages deps stages t)
  unfolding run_stages
  run_stages-Stands [] t h = h
  run_stages-Stands (stage ∷ rest) t h =
      run_stages-Stands rest (visit deps t.outcome stage t) (visit-Stands stage t h)

  -- A step on the scratch, such as the interceptors of the end.
  pub beneath-Stands : (t u : TurnRun S) → beneath u ≡ beneath t → Stands t → Stands u
  unfolding discard
  beneath-Stands t u same (inl h) = inl (record {
    outcome = ap (λ (g : Ground S). g.4) same ∙ h.outcome;
    based = idle_of_base u.state t.state (base_of_beneath u t same) ∙ h.based;
  })
  beneath-Stands t u same (inr (inl h)) = inr (
      inl (record {
        outcome = ap (λ (g : Ground S). g.4) same ∙ h.outcome;
        published = IsPublished-trans deps c t u h.published (base_of_beneath u t same);
      }))
  beneath-Stands t u same (inr (inr h)) =
      let base = base_of_beneath u t same in
      let idle = idle_of_base u.state t.state base in
      inr (
        inr (record {
          outcome = ap (λ (g : Ground S). g.4) same ∙ h.outcome;
          reason = h.reason;
          failed = ap (λ (g : Ground S). g.5) same ∙ h.failed;
          idle = base ∙ (h.idle ∙ sym idle);
          restored = λ n. idle ∙ h.restored n;
        }))
