-- ===== src/Pipeline/Permitted.antt =====
-- Who may propose what: `checkCommandPermissions` and `stagePropose` of
-- packages/core/src/pipeline/turn-pipeline.ts over packages/contracts/src/modules/permissions.ts.
use rpenginext.Common.{
  ◌≡◌, refl, ap, Bool, true, false, List, [], ◌∷◌, ◌++◌, map, String, All, All-append, arith,
  append-nil, append_assoc, sym, ◌∙◌,
}
use rpenginext.Contracts.{JsonObject, Result, ok, err, ⊤, StateCommand, module_source}
use rpenginext.Contracts.Permissions.{has_permission, propose_permission_for_slice}
use rpenginext.Pipeline.{
  Dialogue, answers, proposes, ContributedCommand, Owned, TurnPipeline, TurnScratch,
}
use rpenginext.Pipeline.Steps.{Step, then_on, ◌>>◌, modify}
use rpenginext.Pipeline.Commands.{
  stamp, push, check_command_permissions, pushed, propose_when, propose, run_dialogue,
  contribute_all, decorate_all, advance, contributions, check_proposed, stage_propose,
}

module _ (pipeline : TurnPipeline) where
  -- A module holds the permission for the slice of its command; other sources need none.
  abbrev pub IsPermitted : StateCommand → Type 0
  IsPermitted c =
      c.source.kind ≡ module_source
      → has_permission (pipeline.get_module_permissions c.source.id)
          (propose_permission_for_slice c.slice)
        ≡ true

  pub check-IsPermitted :
      (cs : List StateCommand) → check_command_permissions pipeline cs ≡ ok tt → All IsPermitted cs
  unfolding check_command_permissions
  check-IsPermitted [] h = tt
  check-IsPermitted (c ∷ cs) h = (λ from_module. ground arith, check-IsPermitted cs (ground arith))

  -- From `s` to `t` some permitted commands went to the end of the list, and nothing else changed.
  abbrev pub Adds : TurnScratch → TurnScratch → Type 0
  Adds s t = (added : List StateCommand) × All IsPermitted added × (t ≡ push added s)

  pub Adds-none : (s : TurnScratch) → Adds s s
  Adds-none s =
      ([], tt, λ i. record s { proposed_commands = sym (append-nil s.proposed_commands) i })

  pub Adds-trans : (s t u : TurnScratch) → Adds s t → Adds t u → Adds s u
  Adds-trans s t u (a, pa, ea) (b, pb, eb) = (
    a ++ b,
    All-append IsPermitted a b pa pb,
    eb
        ∙ (ap (push b) ea
            ∙ ap (λ l. record s { proposed_commands = l }) (append_assoc s.proposed_commands a b)),
  )

  pushed-Adds :
      (cs : List StateCommand) (r : Result ⊤) (s : TurnScratch)
      → check_command_permissions pipeline cs ≡ r
      → Adds s (pushed pipeline cs r s).1
  pushed-Adds cs (ok tt) s e = (cs, check-IsPermitted cs e, refl)
  pushed-Adds cs (err f) s e = Adds-none s

  propose_when-Adds :
      (opened : Bool) (cs : List StateCommand) (s : TurnScratch)
      → Adds s (propose_when pipeline opened cs s).1
  unfolding propose_when
  propose_when-Adds true cs s = pushed-Adds cs (check_command_permissions pipeline cs) s refl
  propose_when-Adds false cs s = Adds-none s

  propose-Adds : (cs : List StateCommand) (s : TurnScratch) → Adds s (propose pipeline cs s).1
  unfolding propose
  propose-Adds cs s = propose_when-Adds s.propose_open cs s

  -- Whatever a handler calls and answers, a failure included.
  pub run_dialogue-Adds :
      {A : Type 0} (d : Dialogue A) (s : TurnScratch) → Adds s (run_dialogue pipeline d s).1
  unfolding run_dialogue
  run_dialogue-Adds (answers r) s = Adds-none s
  run_dialogue-Adds (proposes cs rest) s =
      let (r, t) = propose pipeline cs s in
      Adds-trans s t (run_dialogue pipeline (rest r) t).1 (propose-Adds cs s)
        (run_dialogue-Adds (rest r) t)

  Adds-then_on :
      {A B : Type 0} (o : Result A × TurnScratch) (rest : A → Step TurnScratch B) (s : TurnScratch)
      → Adds s o.1
      → ((a : A) (u : TurnScratch) → Adds u (rest a u).1)
      → Adds s (then_on o rest).1
  Adds-then_on (ok a, u) rest s h later = Adds-trans s u (rest a u).1 h (later a u)
  Adds-then_on (err f, u) rest s h later = h

  stamped-Adds :
      (cs : List StateCommand) (r : Result ⊤) (rest : Step TurnScratch ⊤) (u : TurnScratch)
      → check_command_permissions pipeline cs ≡ r
      → ((t : TurnScratch) → Adds t (rest t).1)
      → Adds u (then_on (r, u) (λ _. modify (push cs) >> rest)).1
  stamped-Adds cs (ok tt) rest u e later =
      Adds-trans u (push cs u) (rest (push cs u)).1 (cs, check-IsPermitted cs e, refl)
        (later (push cs u))
  stamped-Adds cs (err f) rest u e later = Adds-none u

  -- However the contributors' handlers call `propose` and answer, and also when one of them fails:
  -- what they add to the proposed commands stands behind those that were there, every command of it
  -- is one whose source holds the permission for its slice, and nothing else of the turn changes.
  pub contribute_all-Adds :
      (owners : List (Owned (Dialogue (List ContributedCommand)))) (s : TurnScratch)
      → Adds s (contribute_all pipeline owners s).1
  unfolding contribute_all
  contribute_all-Adds [] s = Adds-none s
  contribute_all-Adds (owned ∷ rest) s =
      Adds-then_on (run_dialogue pipeline owned.value s) _ s (run_dialogue-Adds owned.value s)
        (λ commands u.
          stamped-Adds (map (stamp owned.module_id) commands) _ (contribute_all pipeline rest) u
            refl (contribute_all-Adds rest))

  Leaves : Result ⊤ × TurnScratch → Type 0
  Leaves o = o.0 ≡ ok tt → All IsPermitted o.1.proposed_commands

  Leaves-then_on :
      {A : Type 0} (o : Result A × TurnScratch) (rest : A → Step TurnScratch ⊤)
      → ((a : A) (u : TurnScratch) → Leaves (rest a u))
      → Leaves (then_on o rest)
  unfolding Leaves
  Leaves-then_on (ok a, u) rest later h = later a u h
  Leaves-then_on (err f, u) rest later h = absurd (ground arith)

  -- A proposal stage that succeeds leaves only permitted commands, whatever the contributors and the
  -- decorators proposed and answered.
  pub stage_propose-IsPermitted :
      (command_id : String) (intent : JsonObject) (s : TurnScratch)
      → (stage_propose pipeline command_id intent s).0 ≡ ok tt
      → All IsPermitted (stage_propose pipeline command_id intent s).1.proposed_commands
  unfolding stage_propose Leaves
  stage_propose-IsPermitted command_id intent s =
      let decorators = pipeline.index.command_decorators in
      let s₁ = advance pipeline command_id s in
      Leaves-then_on (contribute_all pipeline (contributions pipeline intent s₁) s₁)
        (λ _. decorate_all pipeline decorators >> check_proposed pipeline)
        (λ _ u.
          Leaves-then_on (decorate_all pipeline decorators u) (λ _. check_proposed pipeline)
            (λ _ v. check-IsPermitted v.proposed_commands))
