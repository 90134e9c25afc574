-- ===== src/Pipeline/Run/Tests.antt =====
-- A turn at concrete answers of its handlers and agents.
use rpenginext.Common.{◌≡◌, refl, false, none, some, List, [], ◌∷◌}
use rpenginext.Contracts.{end, ok, failure}
use rpenginext.Samples.{origin, action, kernel}
use rpenginext.Kernel.{commit}
use rpenginext.Persistence.{Sessions, commit_turn}
use rpenginext.Pipeline.{
  player, pending, rejected, answers, Owned, accepts, ContributionIndex, TurnPipeline, TurnScratch,
}
use rpenginext.Pipeline.Interceptors.{
  InterceptorWhen, StageInterceptor, reject, run_interceptor_list, apply_effects,
  apply_interceptor_effect,
}
use rpenginext.Pipeline.Commands.{run_dialogue}
use rpenginext.Pipeline.Stages.{StageId}
use rpenginext.Pipeline.Commit.{
  CommitState, SessionTurnState, stage_commit, commit_passage, commit_flushed, publish_on, flush,
  flush_unit,
}
use rpenginext.Pipeline.Commit.Outcomes.{IsCommitted, in_memory_deps}
use rpenginext.Pipeline.Guard.{GuardPorts}
use rpenginext.Pipeline.Agents.{succeeded}
use rpenginext.Pipeline.Narrate.{accept}
use rpenginext.Pipeline.Run.{
  NarrativeTask, TurnPorts, TurnDeps, TurnRun, start, start_stage, run_interceptors, run_named,
  visit,
}
use rpenginext.Pipeline.Run.Published.{state_base}
use rpenginext.Pipeline.Run.Late.{IsRefusedLate, visit-refused_late}

abbrev index : ContributionIndex
index = record {
  transition_contributors = [];
  command_decorators = [];
  conflict_keys = [];
  conflict_resolvers = [];
  command_validators = record { module_id = "notes"; value = λ _ _. ok accepts } ∷ [];
  invariant_ports = [];
  draft_simulators = [];
  post_narrative_contributors = [];
}

abbrev pipeline : TurnPipeline
pipeline = record { index = index; get_module_permissions = λ _. [] }

abbrev opens : NarrativeTask
opens = record { write = λ round repairs. ok "The door opens."; critics = [] }

abbrev guard_ports : GuardPorts
guard_ports = record {
  prerequisite_checkers = [];
  resource_cost_evaluators = [];
  guards = [];
  soft_guards = [];
  policy_rules = [];
}

abbrev ports : List (Owned StageInterceptor) → TurnPorts
ports interceptors = record {
  turn_setups = record { module_id = "notes"; value = ok (("notes", end) ∷ []) } ∷ [];
  normalize = λ s w. ok end;
  interpret = λ s w. ok (end, []);
  guards = guard_ports;
  plans = record { salience_providers = []; planners = []; agent_task_contributors = [] };
  brief = λ s w. ok opens;
  assemble = λ prose w. ok prose;
  visible_state = λ w. ok none;
  execute = λ task. succeeded end;
  interceptors = interceptors;
  on_rejected = λ f extras. extras;
  after_commit = λ extras. extras;
  schedulers = [];
}

abbrev deps : List (Owned StageInterceptor) → TurnDeps Sessions
deps interceptors = record {
  pipeline = pipeline;
  ports = ports interceptors;
  commits = in_memory_deps (record { core_version = "0.1.0"; contracts_version = "0.1.0" });
  max_narrative_critic_retries = 2;
  critic_policy = accept;
  command_id = "cmd_b";
  passage_id = "psg_1";
  at = "2026-01-01T00:00:01.000Z";
}

abbrev scratch : TurnScratch
scratch = record {
  turn_id = "trn_1";
  kind = player;
  raw_action = action;
  s0 = origin;
  normalized = none;
  intent = none;
  proposed_commands = [];
  accepted_commands = [];
  warnings = [];
  narrative_prose = none;
  passage = none;
  propose_open = false;
  extras = [];
  queued_tasks = [];
  plan_artifacts = [];
  agent_open = false;
  agent_queue_open = false;
}

abbrev session : SessionTurnState
session = record {
  session_id = "ses_1";
  last_passage = none;
  passages = [];
  enabled_modules = [];
  seed = none;
  created_at = "2026-01-01T00:00:00.000Z";
  idempotency = [];
  pending_system_turns = [];
  meta = none;
}

abbrev ready : CommitState Sessions
ready = record {
  workspace = record { scratch = scratch; kernel = kernel };
  session = session;
  store = [];
  events = [];
}

abbrev vetoes : Owned StageInterceptor
vetoes = record {
  module_id = "notes";
  value = record {
    stage = "commit";
    when = InterceptorWhen.after;
    permission = none;
    handle = answers (ok (reject (failure "MODULE_ERROR" "too late") ∷ []));
  };
}

abbrev presented : CommitState Sessions
presented = record ready {
  workspace = record {
    scratch = record scratch {
      passage = some (record {
        id = "psg_1";
        turn_id = "trn_1";
        prose = "The door opens.";
        visible_state = none;
      });
    };
    kernel = record kernel { draft = some origin; open_turn_id = some "trn_1" };
  };
}

abbrev intercepted : TurnRun Sessions
intercepted = start_stage (deps (vetoes ∷ [])) StageId.commit (start (deps (vetoes ∷ [])) presented)

abbrev stored : CommitState Sessions
stored = (stage_commit (deps []).commits (deps []).at intercepted.state).1

refused_late :
    IsRefusedLate
      (deps (vetoes ∷ []))
      (start (deps (vetoes ∷ [])) presented)
      (failure "MODULE_ERROR" "too late")
unfolding stage_commit commit_passage commit_flushed publish_on flush flush_unit commit_turn commit
    run_interceptors run_named run_interceptor_list apply_effects apply_interceptor_effect
    run_dialogue
refused_late = record {
  ready = intercepted;
  out = stored;
  refusing = record intercepted { state = stored };
  before = refl;
  committed = refl;
  after = refl;
}

visit-refused_late_example :
    ((visit
        (deps (vetoes ∷ []))
        pending
        StageId.commit
        (start (deps (vetoes ∷ [])) presented)).outcome
      ≡ rejected)
    × IsCommitted
        (deps (vetoes ∷ [])).commits
        (deps (vetoes ∷ [])).at
        refused_late.ready.state
        refused_late.out
    × (state_base
          (visit
            (deps (vetoes ∷ []))
            pending
            StageId.commit
            (start (deps (vetoes ∷ [])) presented)).state
        ≡ state_base refused_late.out)
visit-refused_late_example =
    visit-refused_late (deps (vetoes ∷ [])) (start (deps (vetoes ∷ [])) presented)
      (failure "MODULE_ERROR" "too late") refused_late
