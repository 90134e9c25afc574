-- ===== src/Pipeline/Tests.antt =====
-- The theorems of the stages at concrete inputs.
use rpenginext.Common.{◌≡◌, refl, true, none, some, List, [], ◌∷◌, All, ◌↔◌}
use rpenginext.Contracts.{end, ok, Passage, EngineVersions}
use rpenginext.Contracts.Permissions.{
  has_permission, propose_permission_for_slice, permission_covers,
}
use rpenginext.Kernel.{StateKernel, commit}
use rpenginext.Persistence.{Sessions, commit_turn}
use rpenginext.ConflictPaths.{ConflictKeyDefinition}
use rpenginext.Pipeline.{
  player, Dialogue, answers, proposes, ContributedCommand, Owned, accepts, ContributionIndex,
  TurnPipeline, TurnScratch,
}
use rpenginext.Pipeline.Commands.{
  check_command_permissions, propose, propose_when, run_dialogue, contribute_all, decorate_all,
  stage_propose,
}
use rpenginext.Pipeline.Permitted.{IsPermitted, stage_propose-IsPermitted}
use rpenginext.Pipeline.Conflicts.{IsFree, resolve_conflicts, resolve_conflicts-IsFree}
use rpenginext.Pipeline.Validate.{Workspace, stage_validate}
use rpenginext.Pipeline.Materialize.{stage_materialize}
use rpenginext.Pipeline.Commit.{
  CommitState, SessionTurnState, commit_passage, commit_flushed, flush, flush_unit, publish_on,
  stage_commit,
}
use rpenginext.Pipeline.Commit.Outcomes.{in_memory_deps, IsStored, stage_commit-IsStored}
use rpenginext.Samples.{origin, kernel, action, bump, set_door, clear_door}
use rpenginext.Pipeline.Refines.{Stages, IsPlayed, Stages-IsPlayed}
use rpenginext.Kernel.{
  begin_turn, get_draft_view, dry_apply, dry_apply_on, store_run, dry_run, apply_commands,
  apply_command, apply_found, validate_command_payload, run_validate, check_invariants,
}
use rpenginext.Contracts.{js_string}
use rpenginext.CoreCommands.{
  is_bump_turn_payload, is_set_flag_payload, apply_bump_turn, apply_set_flag,
  create_core_command_definitions,
}
use rpenginext.ConflictPaths.{
  command_touches_conflict_key, trim, trim_start, trim_end, collect_command_write_paths,
  glob_path_match, split_dots, match_parts, skip_to,
}
use rpenginext.Pipeline.Conflicts.{resolve_keys, resolve_key, resolve_with}
use rpenginext.Pipeline.Validate.{
  validate_commands, validate_command, settle, check_invariant_ports, simulate_draft,
}
use rpenginext.Pipeline.Materialize.{
  materialize_when, materialize_for, gather_open, gather, apply_extra,
}
use rpenginext.Contracts.{failure}
use rpenginext.Pipeline.Interceptors.{StageInterceptor, before, warn, enqueue_commands, reject}

abbrev added_note : ContributedCommand
added_note = record {
  command_id = "cmd_1";
  type = "notes.add";
  slice = "notes";
  payload = end;
  reason = none;
  source = none;
}

-- It calls `ctx.propose` once and answers with a command of its own.
abbrev asks : Dialogue (List ContributedCommand)
asks = proposes (set_door ∷ []) (λ _. answers (ok (added_note ∷ [])))

abbrev flags_key : Owned ConflictKeyDefinition
flags_key = record {
  module_id = "notes";
  value = record { id = "door"; path = "door"; slice = "core" };
}

abbrev index : ContributionIndex
index = record {
  transition_contributors = record { module_id = "notes"; value = λ _ _ _. asks } ∷ [];
  command_decorators = [];
  conflict_keys = flags_key ∷ [];
  conflict_resolvers = [];
  command_validators = record { module_id = "notes"; value = λ _ _. ok accepts } ∷ [];
  invariant_ports = record { module_id = "notes"; value = λ _. ok accepts } ∷ [];
  draft_simulators = [];
  post_narrative_contributors =
      record {
        module_id = "notes";
        value = λ _ _ _ _ _. proposes (set_door ∷ []) (λ _. answers (ok []));
      }
      ∷ [];
}

abbrev pipeline : TurnPipeline
pipeline = record { index = index; get_module_permissions = λ _. "state:propose:notes" ∷ [] }

abbrev passage : Passage
passage = record {
  id = "psg_1";
  turn_id = "trn_1";
  prose = "The door opens.";
  visible_state = none;
}

abbrev scratch : TurnScratch
scratch = record {
  turn_id = "trn_1";
  kind = player;
  raw_action = action;
  s0 = origin;
  normalized = none;
  intent = some end;
  proposed_commands = [];
  accepted_commands = [];
  warnings = [];
  narrative_prose = none;
  passage = some passage;
  propose_open = true;
  extras = [];
  queued_tasks = [];
  plan_artifacts = [];
  agent_open = true;
  agent_queue_open = true;
}

stage_propose-IsPermitted_example :
    All (IsPermitted pipeline) (stage_propose pipeline "cmd_b" end scratch).1.proposed_commands
unfolding stage_propose contribute_all decorate_all run_dialogue propose propose_when
    check_command_permissions has_permission permission_covers propose_permission_for_slice
stage_propose-IsPermitted_example = stage_propose-IsPermitted pipeline "cmd_b" end scratch refl

resolve_conflicts-IsFree_example :
    (resolve_conflicts index (set_door ∷ clear_door ∷ []) origin ≡ ok (set_door ∷ clear_door ∷ []))
    ↔ All (IsFree (set_door ∷ clear_door ∷ [])) index.conflict_keys
resolve_conflicts-IsFree_example =
    resolve_conflicts-IsFree index (set_door ∷ clear_door ∷ []) origin refl

abbrev opened : StateKernel
opened = record kernel { draft = some origin; open_turn_id = some "trn_1" }

abbrev proposed : Workspace
proposed = record {
  scratch = record scratch { proposed_commands = bump "trn_1" ∷ set_door ∷ [] };
  kernel = opened;
}

abbrev session : SessionTurnState
session = record {
  session_id = "ses_1";
  last_passage = none;
  passages = [];
  enabled_modules = [];
  seed = some "7";
  created_at = "2026-01-01T00:00:00.000Z";
  idempotency = [];
  pending_system_turns = [];
  meta = none;
}

abbrev versions : EngineVersions
versions = record { core_version = "0.1.0"; contracts_version = "0.1.0" }

abbrev ready : CommitState Sessions
ready = record { workspace = proposed; session = session; store = []; events = [] }

stage_commit-IsStored_example :
    IsStored ready (stage_commit (in_memory_deps versions) "2026-01-01T00:00:01.000Z" ready).1
unfolding stage_commit commit_passage commit_flushed publish_on flush flush_unit commit_turn commit
stage_commit-IsStored_example = stage_commit-IsStored versions "2026-01-01T00:00:01.000Z" ready refl

-- A turn through the four stages that touch the kernel.
abbrev begun : Workspace
begun = record proposed { kernel = (begin_turn "trn_1" kernel).1 }

abbrev validated : Workspace
validated = (stage_validate index begun).1

abbrev written : CommitState Sessions
written = record ready { workspace = (stage_materialize pipeline validated).1 }

abbrev closed : CommitState Sessions
closed = (stage_commit (in_memory_deps versions) "2026-01-01T00:00:01.000Z" written).1

turn_stages :
    Stages pipeline (in_memory_deps versions) "2026-01-01T00:00:01.000Z" "trn_1" kernel closed
unfolding begin_turn stage_validate resolve_conflicts resolve_keys resolve_key resolve_with
    command_touches_conflict_key trim trim_start trim_end collect_command_write_paths
    glob_path_match split_dots match_parts skip_to validate_commands validate_command settle
    get_draft_view dry_apply dry_apply_on store_run dry_run apply_commands apply_command apply_found
    validate_command_payload run_validate check_invariants is_bump_turn_payload is_set_flag_payload
    apply_bump_turn apply_set_flag create_core_command_definitions js_string check_invariant_ports
    simulate_draft stage_materialize materialize_when materialize_for gather_open gather apply_extra
    run_dialogue propose propose_when check_command_permissions stage_commit commit_passage
    commit_flushed publish_on flush flush_unit commit_turn commit
turn_stages = record {
  s0 = origin;
  begun = begun;
  validated = validated;
  narrated = validated;
  before = written;
  began = refl;
  validation = refl;
  narration = (refl, refl);
  materialization = refl;
  commitment = refl;
}

Stages-IsPlayed_example :
    IsPlayed "trn_1" kernel closed.workspace.kernel
      turn_stages.before.workspace.scratch.accepted_commands
Stages-IsPlayed_example =
    Stages-IsPlayed pipeline (in_memory_deps versions) "2026-01-01T00:00:01.000Z" "trn_1" kernel
      closed turn_stages

-- It proposes, warns, and asks for a command of the slice that it may write.
abbrev busy : Owned StageInterceptor
busy = record {
  module_id = "notes";
  value = record {
    stage = "propose";
    when = before;
    permission = some "state:propose:notes";
    handle = proposes (set_door ∷ []) (λ _. answers (
        ok (
          warn "late" ∷ enqueue_commands (added_note ∷ []) ∷ reject (failure "AUTHOR" "no") ∷ [])));
  };
}
