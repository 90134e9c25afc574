-- ===== src/Samples.antt =====
-- Concrete states and commands for the tests.
use rpenginext.Common.{Bool, true, false, none, some, List, [], ◌∷◌, ◌++◌, String, leb, Dict}
use rpenginext.Contracts.{
  JsonValue, null, str, bool, JsonObject, end, field, Result, ok, err, failure, ⊤, WorldState,
  create_empty_world_state, core_source, StateCommand, CommandDefinition, InvariantDefinition,
  PlayerAction, free_text, success,
}
use rpenginext.Kernel.{StateKernel}
use rpenginext.CoreCommands.{create_core_command_definitions}
use rpenginext.Journal.Live.{Turn}

abbrev pub no_issues : JsonObject → JsonValue
no_issues p = null

abbrev pub origin : WorldState
origin = create_empty_world_state "2026-01-01T00:00:00.000Z" 1

abbrev pub command : String → String → String → JsonObject → StateCommand
command id type slice payload = record {
  command_id = id;
  type = type;
  slice = slice;
  payload = payload;
  reason = none;
  source = record { kind = core_source; id = "turn-pipeline" };
}

abbrev pub bump : String → StateCommand
bump turn = command "cmd_b" "core.bumpTurn" "core" (field "turnId" (str turn) end)

abbrev pub set_door : StateCommand
set_door =
    command "cmd_s" "core.setFlag" "core" (field "key" (str "door") (field "value" (bool true) end))

abbrev pub clear_door : StateCommand
clear_door = command "cmd_c" "core.clearFlag" "core" (field "key" (str "door") end)

abbrev pub misplaced : StateCommand
misplaced =
    command "cmd_m" "core.setFlag" "npc" (field "key" (str "door") (field "value" (bool true) end))

-- A module's command that writes its own slice.
abbrev pub note : CommandDefinition
note = record {
  type = "notes.add";
  slice = "notes";
  safe_parse = λ p. success p;
  apply = λ w c. ok (record w { slices = ("notes", c.payload) ∷ [] });
  validate = none;
}

abbrev check_few : Bool → Result ⊤
check_few true = ok tt
check_few false = err (failure "" "too many turns")

abbrev pub few_turns : InvariantDefinition
few_turns = record { id = "few-turns"; check = λ w. check_few (leb w.core.turn_index 9) }

abbrev pub action : PlayerAction
action = record {
  client_action_id = none;
  kind = free_text;
  text = some "open the door";
  payload = none;
}

abbrev pub turn : String → List StateCommand → List StateCommand → Turn
turn id proposed materialized = record {
  turn_id = id;
  input = action;
  proposed = proposed;
  materialized = materialized;
  passage_id = "psg_1";
  timestamp = "2026-01-01T00:00:01.000Z";
}

-- The second turn is rejected.
abbrev pub three_turns : List Turn
three_turns =
    turn "trn_1" (bump "trn_1" ∷ set_door ∷ []) (command "cmd_n" "notes.add" "notes" end ∷ [])
    ∷ turn "trn_2" (bump "trn_2" ∷ misplaced ∷ []) []
    ∷ turn "trn_3" (bump "trn_3" ∷ clear_door ∷ []) []
    ∷ []

abbrev pub definitions : List CommandDefinition
definitions = create_core_command_definitions no_issues ++ note ∷ []

abbrev pub catalog : List CommandDefinition → Dict CommandDefinition
catalog [] = []
catalog (def ∷ defs) = (def.type, def) ∷ catalog defs

abbrev pub kernel : StateKernel
kernel = record {
  authoritative = origin;
  draft = none;
  open_turn_id = none;
  commands = catalog definitions;
  invariants = few_turns ∷ [];
}
