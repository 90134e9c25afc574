-- ===== src/Pipeline/Run/Draft.antt =====
-- The stages of packages/core/src/pipeline/turn-pipeline.ts that write the draft leave the kernel under
-- it alone.
use rpenginext.Common.{◌≡◌, refl, ap, Option, none, some, List, [], ◌∷◌}
use rpenginext.Contracts.{JsonObject, Result, ok, err, ⊤, StateCommand, Passage}
use rpenginext.Kernel.{StateKernel, DryApplyResult, get_draft_view, dry_apply, discard}
use rpenginext.Kernel.Atomic.{Applies, dry_apply-Applies}
use rpenginext.Pipeline.{TurnPipeline, ContributionIndex}
use rpenginext.Pipeline.Steps.{Step, then_on, ◌>>=◌, lift, Keeps, Keeps->>=}
use rpenginext.Pipeline.Conflicts.{resolve_conflicts}
use rpenginext.Pipeline.Validate.{
  Workspace, on_kernel, stage_validate, validate_resolved, after_apply, set_accepted, set_proposed,
  validate_commands, check_invariant_ports, simulate_draft,
}
use rpenginext.Pipeline.Materialize.{
  on_scratch, gather_open, post_contributions, after_extra, apply_extra, materialize_for,
  materialize_when, stage_materialize,
}

abbrev pub dropped : Workspace → StateKernel
dropped w = discard w.kernel

dropped-Applies :
    (cs : List StateCommand) (k : StateKernel) (o : Result DryApplyResult × StateKernel)
    → Applies cs k o
    → discard o.1 ≡ discard k
unfolding discard
dropped-Applies cs k (err e, k') same = ap discard same
dropped-Applies cs k (ok r, k') (d, opened, ran, moved) = ap discard moved

dry_apply-Keeps : (cs : List StateCommand) → Keeps dropped (on_kernel (dry_apply cs))
dry_apply-Keeps cs w =
    dropped-Applies cs w.kernel (dry_apply cs w.kernel) (dry_apply-Applies cs w.kernel)

-- A result and a rest that keeps the kernel under the draft.
fallible :
    {A B : Type 0} (r : Result A) (w : Workspace) (rest : A → Step Workspace B)
    → ((a : A) → Keeps dropped (rest a))
    → discard (then_on (r, w) rest).1.kernel ≡ discard w.kernel
fallible (ok a) w rest later = later a w
fallible (err e) w rest later = refl

after_apply-Keeps :
    (index : ContributionIndex) (a : DryApplyResult) → Keeps dropped (after_apply index a)
after_apply-Keeps index a w =
    fallible {A = ⊤} {B = ⊤} (check_invariant_ports index.invariant_ports a.draft)
      (set_accepted a.accepted_commands w)
      (λ v. lift (simulate_draft index.draft_simulators a.draft a.accepted_commands)) (λ v x. refl)

validate_resolved-Keeps :
    (index : ContributionIndex) (cs : List StateCommand)
    → Keeps dropped (validate_resolved index cs)
validate_resolved-Keeps index cs w =
    fallible {A = ⊤} {B = ⊤}
      (validate_commands index.command_validators cs (get_draft_view w.kernel)) (set_proposed cs w)
      (λ v. on_kernel (dry_apply cs) >>= after_apply index)
      (λ v.
        Keeps->>= dropped {A = DryApplyResult} {B = ⊤} (on_kernel (dry_apply cs))
          (after_apply index) (dry_apply-Keeps cs) (after_apply-Keeps index))

pub stage_validate-Keeps : (index : ContributionIndex) → Keeps dropped (stage_validate index)
unfolding stage_validate
stage_validate-Keeps index w =
    fallible {A = List StateCommand} {B = ⊤}
      (resolve_conflicts index w.scratch.proposed_commands (get_draft_view w.kernel)) w
      (validate_resolved index) (validate_resolved-Keeps index)

module _ (pipeline : TurnPipeline) where
  after_extra-Keeps : (a : DryApplyResult) → Keeps dropped (after_extra pipeline a)
  after_extra-Keeps a w = refl

  apply_extra-Keeps : (cs : List StateCommand) → Keeps dropped (apply_extra pipeline cs)
  unfolding apply_extra
  apply_extra-Keeps [] = λ w. refl
  apply_extra-Keeps (c ∷ cs) = λ w.
      fallible {A = ⊤} {B = ⊤}
        (validate_commands pipeline.index.command_validators (c ∷ cs) (get_draft_view w.kernel)) w
        (λ v. on_kernel (dry_apply (c ∷ cs)) >>= after_extra pipeline)
        (λ v.
          Keeps->>= dropped {A = DryApplyResult} {B = ⊤} (on_kernel (dry_apply (c ∷ cs)))
            (after_extra pipeline) (dry_apply-Keeps (c ∷ cs)) after_extra-Keeps)

  materialize_for-Keeps :
      (p : Passage) (intent : JsonObject) → Keeps dropped (materialize_for pipeline p intent)
  unfolding materialize_for
  materialize_for-Keeps p intent w =
      Keeps->>= dropped {A = List StateCommand} {B = ⊤}
        (on_scratch (gather_open pipeline (post_contributions pipeline p intent w)))
        (apply_extra pipeline) (λ x. refl) apply_extra-Keeps w

  materialize_when-Keeps :
      (p : Option Passage) (intent : Option JsonObject)
      → Keeps dropped (materialize_when pipeline p intent)
  unfolding materialize_when
  materialize_when-Keeps (some p) (some intent) = materialize_for-Keeps p intent
  materialize_when-Keeps none intent = λ w. refl
  materialize_when-Keeps (some p) none = λ w. refl

  pub stage_materialize-Keeps : Keeps dropped (stage_materialize pipeline)
  unfolding stage_materialize
  stage_materialize-Keeps w = materialize_when-Keeps w.scratch.passage w.scratch.intent w
