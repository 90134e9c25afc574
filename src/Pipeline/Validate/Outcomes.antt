-- ===== src/Pipeline/Validate/Outcomes.antt =====
-- How `stageValidate` of packages/core/src/pipeline/turn-pipeline.ts ends.
use rpenginext.Common.{◌≡◌, refl, sym, ◌∙◌, ap, List}
use rpenginext.Contracts.{Result, ok, err, ⊤, StateCommand}
use rpenginext.Kernel.{StateKernel, DryApplyResult, get_draft_view, dry_apply}
use rpenginext.Kernel.Atomic.{authoritative-dry_apply}
use rpenginext.Pipeline.{ContributionIndex}
use rpenginext.Pipeline.Steps.{then_on, ◌>>=◌, lift}
use rpenginext.Pipeline.Conflicts.{resolve_conflicts}
use rpenginext.Pipeline.Validate.{
  Workspace, on_kernel, validate_commands, check_invariant_ports, simulate_draft, set_proposed,
  set_accepted, after_apply, validate_resolved, stage_validate,
}

module _ (index : ContributionIndex) where
  -- The parts of a success from the resolved commands `cs` on.
  pub record IsValidated (w : Workspace) (cs : List StateCommand) (out : Workspace) : Type 0 where
    pub applied : DryApplyResult
    pub validated : validate_commands index.command_validators cs (get_draft_view w.kernel) ≡ ok tt
    pub ran : dry_apply cs w.kernel ≡ (ok applied, out.kernel)
    pub accepted : out.scratch.accepted_commands ≡ applied.accepted_commands
    pub checked : check_invariant_ports index.invariant_ports applied.draft ≡ ok tt

  abbrev Ends : Workspace → List StateCommand → Result ⊤ × Workspace → Type 0
  Ends w cs (ok u, out) = IsValidated w cs out
  Ends w cs (err f, out) = out.kernel.authoritative ≡ w.kernel.authoritative

  -- After the dry run: its result `a` on the kernel `k`.
  checked-Ends :
      (w : Workspace) (cs : List StateCommand) (a : DryApplyResult) (k : StateKernel)
      → validate_commands index.command_validators cs (get_draft_view w.kernel) ≡ ok tt
      → dry_apply cs w.kernel ≡ (ok a, k)
      → (r : Result ⊤) → check_invariant_ports index.invariant_ports a.draft ≡ r
      → (simulated : Result ⊤)
      → let out = set_accepted a.accepted_commands (record (set_proposed cs w) { kernel = k }) in
        Ends w cs (then_on (r, out) (λ _. lift simulated))
  checked-Ends w cs a k v ran (ok tt) e (ok u) = record {
    applied = a;
    validated = v;
    ran = ran;
    accepted = refl;
    checked = e;
  }
  checked-Ends w cs a k v ran (ok tt) e (err f) =
      sym (ap (λ (o : Result DryApplyResult × StateKernel). o.1.authoritative) ran)
      ∙ authoritative-dry_apply cs w.kernel
  checked-Ends w cs a k v ran (err f) e simulated =
      sym (ap (λ (o : Result DryApplyResult × StateKernel). o.1.authoritative) ran)
      ∙ authoritative-dry_apply cs w.kernel

  applied-Ends :
      (w : Workspace) (cs : List StateCommand) (o : Result DryApplyResult × StateKernel)
      → validate_commands index.command_validators cs (get_draft_view w.kernel) ≡ ok tt
      → dry_apply cs w.kernel ≡ o
      → Ends w cs (then_on (o.0, record (set_proposed cs w) { kernel = o.1 }) (after_apply index))
  applied-Ends w cs (ok a, k) v ran =
      checked-Ends w cs a k v ran _ refl
        (simulate_draft index.draft_simulators a.draft a.accepted_commands)
  applied-Ends w cs (err f, k) v ran =
      sym (ap (λ (o : Result DryApplyResult × StateKernel). o.1.authoritative) ran)
      ∙ authoritative-dry_apply cs w.kernel

  validated-Ends :
      (w : Workspace) (cs : List StateCommand) (r : Result ⊤)
      → validate_commands index.command_validators cs (get_draft_view w.kernel) ≡ r
      → Ends w cs
          (then_on (r, set_proposed cs w) (λ _. on_kernel (dry_apply cs) >>= after_apply index))
  validated-Ends w cs (ok tt) v = applied-Ends w cs (dry_apply cs w.kernel) v refl
  validated-Ends w cs (err f) v = refl

  -- How the whole stage ends on `w`.
  abbrev pub Validates : Workspace → Result ⊤ × Workspace → Type 0
  Validates w (ok u, out) =
      (cs : List StateCommand) × (resolve_conflicts index w.scratch.proposed_commands
          (get_draft_view w.kernel)
        ≡ ok cs)
      × IsValidated w cs out
  Validates w (err f, out) = out.kernel.authoritative ≡ w.kernel.authoritative

  resolved-Validates :
      (w : Workspace) (cs : List StateCommand) (o : Result ⊤ × Workspace)
      → resolve_conflicts index w.scratch.proposed_commands (get_draft_view w.kernel) ≡ ok cs
      → Ends w cs o
      → Validates w o
  resolved-Validates w cs (ok u, out) e h = (cs, e, h)
  resolved-Validates w cs (err f, out) e h = h

  from-Validates :
      (w : Workspace) (r : Result (List StateCommand))
      → resolve_conflicts index w.scratch.proposed_commands (get_draft_view w.kernel) ≡ r
      → Validates w (then_on (r, w) (validate_resolved index))
  from-Validates w (ok cs) e =
      resolved-Validates w cs (validate_resolved index cs w) e (validated-Ends w cs _ refl)
  from-Validates w (err f) e = refl

  pub stage_validate-Validates : (w : Workspace) → Validates w (stage_validate index w)
  unfolding stage_validate
  stage_validate-Validates w =
      from-Validates w
        (resolve_conflicts index w.scratch.proposed_commands (get_draft_view w.kernel)) refl
