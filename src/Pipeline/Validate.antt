-- ===== src/Pipeline/Validate.antt =====
-- `stageValidate` of packages/core/src/pipeline/turn-pipeline.ts: conflicts, validators, the dry run
-- on the draft, invariant ports and simulators.
pub mod Outcomes
use rpenginext.Common.{
  ◌≡◌, refl, ◌∙◌, ap, subst, Bool, true, false, Option, none, some, List, [], ◌∷◌, String, All,
  arith, inl, inr,
}
use rpenginext.Contracts.{Result, ok, err, Failure, failure_caused_by, ⊤, WorldState, StateCommand}
use rpenginext.Kernel.{StateKernel, DryApplyResult, get_draft_view, dry_apply}
use rpenginext.Pipeline.{
  Owned, Verdict, accepts, refuses, ContributionIndex, TurnPipeline, TurnScratch,
}
use rpenginext.Pipeline.Steps.{Step, then_on, ◌>>=◌, ◌>>◌, done, lift, modify, read}
use rpenginext.Pipeline.Conflicts.{resolve_conflicts}

-- What the stages after the proposals read and write.
pub record Workspace : Type 0 where
  pub scratch : TurnScratch
  pub kernel : StateKernel

abbrev pub on_kernel : {A : Type 0} → (StateKernel → Result A × StateKernel) → Step Workspace A
on_kernel method w = let (r, k) = method w.kernel in (r, record w { kernel = k })

-- `if (!result.ok) return result; if (!result.value.ok) return err(...)`
unfoldable pub settle : String → String → Result Verdict → Result ⊤
settle code module_id (err e) = err e
settle code module_id (ok accepts) = ok tt
settle code module_id (ok (refuses reason)) = err (failure_caused_by code reason (module_id ∷ []))

-- `first` and then `second`, if `first` is no failure.
abbrev pub both : Result ⊤ → Result ⊤ → Result ⊤
both (ok tt) second = second
both (err e) second = err e

unfoldable pub validate_command :
    List (Owned (StateCommand → WorldState → Result Verdict)) → StateCommand → WorldState → Result ⊤
unfolding settle
validate_command [] command draft = ok tt
validate_command (v ∷ vs) command draft =
    both (settle "COMMAND_INVALID" v.module_id (v.value command draft))
      (validate_command vs command draft)

unfoldable pub validate_commands :
    List (Owned (StateCommand → WorldState → Result Verdict))
    → List StateCommand
    → WorldState
    → Result ⊤
unfolding validate_command
validate_commands vs [] draft = ok tt
validate_commands vs (c ∷ cs) draft =
    both (validate_command vs c draft) (validate_commands vs cs draft)

unfoldable pub check_invariant_ports :
    List (Owned (WorldState → Result Verdict)) → WorldState → Result ⊤
unfolding settle
check_invariant_ports [] draft = ok tt
check_invariant_ports (p ∷ ps) draft =
    both (settle "INVARIANT_FAILED" p.module_id (p.value draft)) (check_invariant_ports ps draft)

unfoldable pub simulate_draft :
    List (Owned (WorldState → List StateCommand → Result ⊤))
    → WorldState
    → List StateCommand
    → Result ⊤
simulate_draft [] draft cs = ok tt
simulate_draft (s ∷ ss) draft cs = both (s.value draft cs) (simulate_draft ss draft cs)

abbrev pub set_proposed : List StateCommand → Workspace → Workspace
set_proposed cs w = record w { scratch = record (w.scratch) { proposed_commands = cs } }

abbrev pub set_accepted : List StateCommand → Workspace → Workspace
set_accepted cs w = record w { scratch = record (w.scratch) { accepted_commands = cs } }

module _ (index : ContributionIndex) where
  abbrev pub after_apply : DryApplyResult → Step Workspace ⊤
  after_apply applied = do
    modify (set_accepted applied.accepted_commands)
    lift (check_invariant_ports index.invariant_ports applied.draft)
    lift (simulate_draft index.draft_simulators applied.draft applied.accepted_commands)

  -- The stage from the resolved commands on.
  abbrev pub validate_resolved : List StateCommand → Step Workspace ⊤
  validate_resolved resolved = do
    modify (set_proposed resolved)
    w ← read
    lift (validate_commands index.command_validators resolved (get_draft_view w.kernel))
    applied ← on_kernel (dry_apply resolved)
    after_apply applied

  unfoldable pub stage_validate : Step Workspace ⊤
  stage_validate = do
    w ← read
    resolved ← lift (resolve_conflicts index w.scratch.proposed_commands (get_draft_view w.kernel))
    validate_resolved resolved
