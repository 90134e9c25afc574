-- ===== src/Pipeline/Guard/Tests.antt =====
-- The guard stage at a concrete action.
use rpenginext.Common.{◌≡◌, refl, true, none, [], ◌∷◌}
use rpenginext.Contracts.{end, ok, pos}
use rpenginext.Samples.{origin, action, set_door}
use rpenginext.Pipeline.{player, TurnScratch}
use rpenginext.Pipeline.Guard.{
  allows, denies, permits, GuardPorts, check_owners, gather_costs, soften, stage_guard,
}
use rpenginext.Pipeline.Guard.Outcomes.{Guards, stage_guard-Guards}

abbrev scratch : TurnScratch
scratch = record {
  turn_id = "trn_1";
  kind = player;
  raw_action = action;
  s0 = origin;
  normalized = none;
  intent = none;
  proposed_commands = set_door ∷ [];
  accepted_commands = [];
  warnings = "late" ∷ [];
  narrative_prose = none;
  passage = none;
  propose_open = true;
  extras = [];
  queued_tasks = [];
  plan_artifacts = [];
  agent_open = true;
  agent_queue_open = true;
}

abbrev ports : GuardPorts
ports = record {
  prerequisite_checkers = record { module_id = "doors"; value = λ i. ok [] } ∷ [];
  resource_cost_evaluators =
      record { module_id = "doors"; value = λ i. ok (("time", pos 2) ∷ []) } ∷ [];
  guards = record { module_id = "doors"; value = λ a i. ok allows } ∷ [];
  soft_guards = record { module_id = "doors"; value = λ a i. ok ("it creaks" ∷ []) } ∷ [];
  policy_rules = record { module_id = "doors"; value = λ i cs. ok permits } ∷ [];
}

-- A run that passes keeps the first warning and adds the other.
passes : (stage_guard ports end end scratch).1.warnings ≡ "late" ∷ "it creaks" ∷ []
unfolding stage_guard check_owners gather_costs soften
passes = refl

abbrev locked : GuardPorts
locked = record ports {
  guards = record { module_id = "doors"; value = λ a i. ok (denies "" "locked") } ∷ [];
}

stops : (stage_guard locked end end scratch).1.warnings ≡ "late" ∷ []
unfolding stage_guard check_owners gather_costs soften
stops = refl

stage_guard-Guards_example : Guards ports end end scratch (stage_guard ports end end scratch)
stage_guard-Guards_example = stage_guard-Guards ports end end scratch
