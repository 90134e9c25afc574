-- ===== src/Pipeline/Commands.antt =====
-- `checkCommandPermissions`, the `propose` of the turn's context, the stamping of commands and
-- `stagePropose` of packages/core/src/pipeline/turn-pipeline.ts.
use Prim.Native.String.{◌++◌}
use mathlib.Core.List
use rpenginext.Common.{Bool, true, false, none, some, List, [], ◌∷◌, map, String, if◌then◌else◌}
use rpenginext.Contracts.{
  str, field, end, obj, JsonObject, Result, ok, err, Failure, failure, ⊤, StateCommand,
  module_source, core_source,
}
use rpenginext.Contracts.Permissions.{has_permission, propose_permission_for_slice}
use rpenginext.Pipeline.{
  restore, Dialogue, answers, proposes, ContributedCommand, Owned, TurnPipeline, TurnScratch,
}
use rpenginext.Pipeline.Steps.{Step, ◌>>=◌, ◌>>◌, done, lift, modify, read}

abbrev pub stamp : String → ContributedCommand → StateCommand
stamp module_id c = record {
  command_id = c.command_id;
  type = c.type;
  slice = c.slice;
  payload = c.payload;
  reason = c.reason;
  source = elim c.source [ some s ↦ s | none ↦ record { kind = module_source; id = module_id } ];
}

abbrev pub push : List StateCommand → TurnScratch → TurnScratch
push cs s = record s { proposed_commands = List.◌++◌ s.proposed_commands cs }

abbrev denied : StateCommand → String → Failure
denied c needed = record {
  code = "PERMISSION_DENIED";
  message =
      "module "
      ++ (c.source.id
          ++ (" cannot propose to slice \"" ++ (c.slice ++ ("\" (needs " ++ (needed ++ ")")))));
  details = some (obj (field "commandId" (str c.command_id) end));
  caused_by = some (c.source.id ∷ []);
}

module _ (pipeline : TurnPipeline) where
  unfoldable pub check_command_permissions : List StateCommand → Result ⊤
  check_command_permissions [] = ok tt
  check_command_permissions (c ∷ cs) =
      let rest = check_command_permissions cs in
      let granted = pipeline.get_module_permissions c.source.id in
      let needed = propose_permission_for_slice c.slice in
      elim c.source.kind [
        | module_source ↦ if has_permission granted needed then rest else err (denied c needed)
        | _ ↦ rest
      ]

  abbrev pub pushed : List StateCommand → Result ⊤ → Step TurnScratch ⊤
  pushed cs (ok u) s = (ok tt, push cs s)
  pushed cs (err e) s = (err e, s)

  unfoldable pub propose_when : Bool → List StateCommand → Step TurnScratch ⊤
  unfolding check_command_permissions
  propose_when true cs s = pushed cs (check_command_permissions cs) s
  propose_when false cs s =
      (err (failure "INTERNAL" "propose() is only allowed during the draft propose window"), s)

  -- `propose` of the context that `run` creates.
  unfoldable pub propose : List StateCommand → Step TurnScratch ⊤
  unfolding propose_when
  propose cs s = propose_when s.propose_open cs s

  unfoldable pub run_dialogue : {A : Type 0} → Dialogue A → Step TurnScratch A
  run_dialogue (answers r) s = (r, s)
  run_dialogue (proposes cs rest) s = let (r, s') = propose cs s in run_dialogue (rest r) s'

  unfoldable pub contribute_all :
      List (Owned (Dialogue (List ContributedCommand))) → Step TurnScratch ⊤
  contribute_all [] = done tt
  contribute_all (owned ∷ rest) = do
    commands ← run_dialogue owned.value
    lift (check_command_permissions (map (stamp owned.module_id) commands))
    modify (push (map (stamp owned.module_id) commands))
    contribute_all rest

  -- A decorator's own proposals go to the list that its answer replaces.
  unfoldable pub decorate_all :
      List (Owned (List StateCommand → Dialogue (List StateCommand))) → Step TurnScratch ⊤
  decorate_all [] = done tt
  decorate_all (owned ∷ rest) = do
    s ← read
    commands ← run_dialogue (owned.value s.proposed_commands)
    modify (λ t. record t { proposed_commands = commands })
    decorate_all rest

  abbrev bump_turn : String → TurnScratch → StateCommand
  bump_turn command_id s = record {
    command_id = command_id;
    type = "core.bumpTurn";
    slice = "core";
    payload = field "turnId" (str s.turn_id) end;
    reason = some "core turn advance";
    source = record { kind = core_source; id = "turn-pipeline" };
  }

  abbrev pub advance : String → TurnScratch → TurnScratch
  advance command_id s = elim s.kind [ restore ↦ s | _ ↦ push (bump_turn command_id s ∷ []) s ]

  -- The contributors, each asked with the turn's input.
  abbrev pub contributions :
      JsonObject → TurnScratch → List (Owned (Dialogue (List ContributedCommand)))
  contributions intent s =
      map
        (λ owned. record {
          module_id = owned.module_id;
          value = owned.value intent s.raw_action s.kind;
        })
        pipeline.index.transition_contributors

  abbrev pub check_proposed : Step TurnScratch ⊤
  check_proposed = do s ← read; lift (check_command_permissions s.proposed_commands)

  -- `command_id` is what `createCommandId` gives; `stageIntent` has set the intent.
  unfoldable pub stage_propose : String → JsonObject → Step TurnScratch ⊤
  stage_propose command_id intent = do
    modify (advance command_id)
    s ← read
    contribute_all (contributions intent s)
    decorate_all pipeline.index.command_decorators
    check_proposed
