-- ===== src/CoreCommands/Tests.antt =====
-- The theorems of the engine's commands at concrete inputs.
use rpenginext.Common.{List, [], ◌∷◌, All, Dict}
use rpenginext.Contracts.{ok, err, WorldState, StateCommand, CommandDefinition, js_string}
use rpenginext.Kernel.{apply_command, apply_found, validate_command_payload, run_validate}
use rpenginext.Kernel.DryApply.{run_all}
use rpenginext.CoreCommands.{
  is_set_flag_payload, apply_set_flag, create_core_command_definitions, is_bump_turn_payload,
  apply_bump_turn,
}
use rpenginext.CoreCommands.Revision.{IsCounting, engine-Counts}
use rpenginext.Samples.{origin, no_issues, bump, set_door, catalog}

-- The catalog of the engine's commands alone.
abbrev engine : Dict CommandDefinition
engine = catalog (create_core_command_definitions no_issues)

engine-IsCounting : All IsCounting engine
unfolding create_core_command_definitions
engine-IsCounting = engine-Counts no_issues [] tt

-- Two turns and a flag.
abbrev twice : List StateCommand
twice = bump "trn_1" ∷ set_door ∷ bump "trn_2" ∷ []

abbrev moved : WorldState
unfolding run_all apply_command apply_found validate_command_payload run_validate
    is_bump_turn_payload is_set_flag_payload apply_bump_turn apply_set_flag
    create_core_command_definitions js_string
moved = elim (run_all engine twice origin) [ ok w ↦ w | err e ↦ origin ]
