-- ===== src/Pipeline/Materialize/Outcomes.antt =====
-- How `stageMaterialize` of packages/core/src/pipeline/turn-pipeline.ts ends.
use rpenginext.Common.{
  ◌≡◌, refl, sym, ◌∙◌, ap, true, false, Option, none, some, List, [], ◌∷◌, ◌++◌, map, All,
  All-append,
}
use rpenginext.Contracts.{JsonObject, Result, ok, err, ⊤, StateCommand, Passage}
use rpenginext.Kernel.{StateKernel, DryApplyResult, get_draft_view, dry_apply}
use rpenginext.Kernel.Atomic.{authoritative-dry_apply}
use rpenginext.Pipeline.{
  Owned, Dialogue, ContributedCommand, ContributionIndex, TurnPipeline, TurnScratch,
}
use rpenginext.Pipeline.Steps.{Step, then_on, ◌>>=◌}
use rpenginext.Pipeline.Commands.{stamp, check_command_permissions, run_dialogue}
use rpenginext.Pipeline.Permitted.{
  IsPermitted, check-IsPermitted, Adds, Adds-none, Adds-trans, run_dialogue-Adds,
}
use rpenginext.Pipeline.Validate.{
  Workspace, on_kernel, validate_commands, check_invariant_ports, set_accepted,
}
use rpenginext.Pipeline.Materialize.{
  on_scratch, set_open, gather, gather_open, post_contributions, after_extra, apply_extra,
  materialize_for, materialize_when, stage_materialize,
}

module _ (pipeline : TurnPipeline) where
  abbrev index : ContributionIndex
  index = pipeline.index

  -- The commands that were gathered are permitted, and the loop wrote to the proposals alone.
  abbrev Gathers : TurnScratch → Result (List StateCommand) × TurnScratch → Type 0
  Gathers s (ok extra, t) = All (IsPermitted pipeline) extra × Adds pipeline s t
  Gathers s (err f, t) = Adds pipeline s t

  Gathers-later :
      (s t : TurnScratch) (o : Result (List StateCommand) × TurnScratch)
      → Adds pipeline s t
      → Gathers t o
      → Gathers s o
  Gathers-later s t (ok extra, u) h g = (g.0, Adds-trans pipeline s t u h g.1)
  Gathers-later s t (err f, u) h g = Adds-trans pipeline s t u h g

  checked-Gathers :
      (cs : List StateCommand) (r : Result ⊤) (rest : Step TurnScratch (List StateCommand))
      (t : TurnScratch)
      → check_command_permissions pipeline cs ≡ r
      → (All (IsPermitted pipeline) cs → Gathers t (rest t))
      → Gathers t (then_on (r, t) (λ _. rest))
  checked-Gathers cs (ok u) rest t e later = later (check-IsPermitted pipeline cs e)
  checked-Gathers cs (err f) rest t e later = Adds-none pipeline t

  asked-Gathers :
      (s : TurnScratch) (o : Result (List ContributedCommand) × TurnScratch)
      (rest : List ContributedCommand → Step TurnScratch (List StateCommand))
      → Adds pipeline s o.1
      → ((commands : List ContributedCommand) (t : TurnScratch) → Gathers t (rest commands t))
      → Gathers s (then_on o rest)
  asked-Gathers s (ok commands, t) rest h later =
      Gathers-later s t (rest commands t) h (later commands t)
  asked-Gathers s (err f, t) rest h later = h

  gather-Gathers :
      (owners : List (Owned (Dialogue (List ContributedCommand)))) (extra : List StateCommand)
      (s : TurnScratch)
      → All (IsPermitted pipeline) extra
      → Gathers s (gather pipeline owners extra s)
  unfolding gather
  gather-Gathers [] extra s h = (h, Adds-none pipeline s)
  gather-Gathers (owned ∷ rest) extra s h =
      asked-Gathers s (run_dialogue pipeline owned.value s) _
        (run_dialogue-Adds pipeline owned.value s)
        (λ commands t.
          let cs = map (stamp owned.module_id) commands in
          checked-Gathers cs _ (gather pipeline rest (extra ++ cs)) t refl (λ permitted.
            gather-Gathers rest (extra ++ cs) t
              (All-append (IsPermitted pipeline) extra cs h permitted)))

  -- What the commands that follow the narrative did.
  abbrev pub Extends : List StateCommand → Workspace → Workspace → Type 0
  Extends [] w out =
      (out.kernel ≡ w.kernel) × (out.scratch.accepted_commands ≡ w.scratch.accepted_commands)
  Extends (c ∷ cs) w out =
      (a : DryApplyResult) × (validate_commands index.command_validators (c ∷ cs)
          (get_draft_view w.kernel)
        ≡ ok tt)
      × (dry_apply (c ∷ cs) w.kernel ≡ (ok a, out.kernel))
      × (out.scratch.accepted_commands ≡ w.scratch.accepted_commands ++ a.accepted_commands)
      × (check_invariant_ports index.invariant_ports a.draft ≡ ok tt)

  abbrev Ends : Workspace → List StateCommand → Result ⊤ × Workspace → Type 0
  Ends w cs (ok u, out) = Extends cs w out
  Ends w cs (err f, out) = out.kernel.authoritative ≡ w.kernel.authoritative

  checked-Ends :
      (w : Workspace) (c : StateCommand) (cs : List StateCommand) (a : DryApplyResult)
      (k : StateKernel)
      → validate_commands index.command_validators (c ∷ cs) (get_draft_view w.kernel) ≡ ok tt
      → dry_apply (c ∷ cs) w.kernel ≡ (ok a, k)
      → (r : Result ⊤) → check_invariant_ports index.invariant_ports a.draft ≡ r
      → Ends w (c ∷ cs) (
        r,
        set_accepted (w.scratch.accepted_commands ++ a.accepted_commands) (record w { kernel = k }),
      )
  checked-Ends w c cs a k v ran (ok u) e = (a, v, ran, refl, e)
  checked-Ends w c cs a k v ran (err f) e =
      sym (ap (λ (o : Result DryApplyResult × StateKernel). o.1.authoritative) ran)
      ∙ authoritative-dry_apply (c ∷ cs) w.kernel

  applied-Ends :
      (w : Workspace) (c : StateCommand) (cs : List StateCommand)
      (o : Result DryApplyResult × StateKernel)
      → validate_commands index.command_validators (c ∷ cs) (get_draft_view w.kernel) ≡ ok tt
      → dry_apply (c ∷ cs) w.kernel ≡ o
      → Ends w (c ∷ cs) (then_on (o.0, record w { kernel = o.1 }) (after_extra pipeline))
  applied-Ends w c cs (ok a, k) v ran = checked-Ends w c cs a k v ran _ refl
  applied-Ends w c cs (err f, k) v ran =
      sym (ap (λ (o : Result DryApplyResult × StateKernel). o.1.authoritative) ran)
      ∙ authoritative-dry_apply (c ∷ cs) w.kernel

  validated-Ends :
      (w : Workspace) (c : StateCommand) (cs : List StateCommand) (r : Result ⊤)
      → validate_commands index.command_validators (c ∷ cs) (get_draft_view w.kernel) ≡ r
      → Ends w
          (c ∷ cs)
          (then_on (r, w) (λ _. on_kernel (dry_apply (c ∷ cs)) >>= after_extra pipeline))
  validated-Ends w c cs (ok u) v = applied-Ends w c cs (dry_apply (c ∷ cs) w.kernel) v refl
  validated-Ends w c cs (err f) v = refl

  apply_extra-Ends :
      (cs : List StateCommand) (w : Workspace) → Ends w cs (apply_extra pipeline cs w)
  unfolding apply_extra
  apply_extra-Ends [] w = (refl, refl)
  apply_extra-Ends (c ∷ cs) w = validated-Ends w c cs _ refl

  -- How the whole stage ends on `w`.
  abbrev pub Materializes : Workspace → Result ⊤ × Workspace → Type 0
  Materializes w (ok u, out) =
      (extra : List StateCommand) × All (IsPermitted pipeline) extra × Extends extra w out
  Materializes w (err f, out) = out.kernel.authoritative ≡ w.kernel.authoritative

  -- The commands were applied to `w` with another scratch that has accepted the same.
  extended :
      (w : Workspace) (t : TurnScratch) (cs : List StateCommand) (o : Result ⊤ × Workspace)
      → t.accepted_commands ≡ w.scratch.accepted_commands
      → All (IsPermitted pipeline) cs
      → Ends (record w { scratch = t }) cs o
      → Materializes w o
  extended w t [] (ok u, out) same p (k, accepted) = ([], p, (k, accepted ∙ same))
  extended w t (c ∷ cs) (ok u, out) same p (a, v, ran, accepted, checked) =
      (c ∷ cs, p, (a, v, ran, accepted ∙ ap (λ l. l ++ a.accepted_commands) same, checked))
  extended w t cs (err f, out) same p h = h

  gathered-Materializes :
      (w : Workspace) (o : Result (List StateCommand) × TurnScratch)
      → Gathers (set_open true w.scratch) o
      → Materializes w
          (then_on (o.0, record w { scratch = set_open false o.1 }) (apply_extra pipeline))
  gathered-Materializes w (ok extra, t) (p, (added, q, same)) =
      let t' = set_open false t in
      extended w t' extra (apply_extra pipeline extra (record w { scratch = t' }))
        (ap (λ (s : TurnScratch). s.accepted_commands) same) p
        (apply_extra-Ends extra (record w { scratch = t' }))
  gathered-Materializes w (err f, t) h = refl

  opened-Materializes :
      (owners : List (Owned (Dialogue (List ContributedCommand)))) (w : Workspace)
      → Materializes w (then_on (on_scratch (gather_open pipeline owners) w) (apply_extra pipeline))
  unfolding gather_open
  opened-Materializes [] w =
      extended w w.scratch [] (apply_extra pipeline [] w) refl tt (apply_extra-Ends [] w)
  opened-Materializes (owned ∷ rest) w =
      gathered-Materializes w (gather pipeline (owned ∷ rest) [] (set_open true w.scratch))
        (gather-Gathers (owned ∷ rest) [] (set_open true w.scratch) tt)

  when-Materializes :
      (passage : Option Passage) (intent : Option JsonObject) (w : Workspace)
      → Materializes w (materialize_when pipeline passage intent w)
  unfolding materialize_when materialize_for
  when-Materializes none intent w = ([], tt, (refl, refl))
  when-Materializes (some passage) none w = ([], tt, (refl, refl))
  when-Materializes (some passage) (some intent) w =
      opened-Materializes (post_contributions pipeline passage intent w) w

  pub stage_materialize-Materializes :
      (w : Workspace) → Materializes w (stage_materialize pipeline w)
  unfolding stage_materialize
  stage_materialize-Materializes w = when-Materializes w.scratch.passage w.scratch.intent w
