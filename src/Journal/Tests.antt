-- ===== src/Journal/Tests.antt =====
-- Runs of a session and of its replay, and the theorems of the journal at concrete inputs.
use rpenginext.Common.{◌≡◌, refl, none, [], ◌∷◌, ◌++◌, length, arith, eq_iff, leb_iff}
use rpenginext.Contracts.{js_string, ok}
use rpenginext.Kernel.{
  get_draft_view, get_authoritative, register_command, register_invariant, begin_turn, dry_apply,
  dry_apply_on, store_run, commit, discard, dry_run, apply_commands, apply_command, apply_found,
  validate_command_payload, run_validate, check_invariants,
}
use rpenginext.CoreCommands.{
  is_bump_turn_payload, is_set_flag_payload, is_clear_flag_payload, apply_bump_turn, apply_set_flag,
  apply_clear_flag, create_core_command_definitions,
}
use rpenginext.CoreCommands.Revision.{KeepsCore}
use rpenginext.Journal.{replay_journal, register_commands, register_invariants}
use rpenginext.Journal.Live.{materialize, play, play_all}
use rpenginext.Journal.Replay.{set_up, replay_journal-play_all}
use rpenginext.Journal.Counting.{replay_journal-engine}
use rpenginext.Samples.{origin, no_issues, note, few_turns, three_turns, definitions, kernel}

set_up-definitions : set_up definitions (few_turns ∷ []) origin ≡ ok kernel
unfolding create_core_command_definitions register_commands register_command register_invariants
    register_invariant
set_up-definitions = refl

-- Two of the three turns have an entry.
three_turns-revision :
    (length (play_all three_turns kernel).0 ≡ 2)
    × ((play_all three_turns kernel).1.authoritative.core.turn_index ≡ 2)
unfolding play_all play materialize begin_turn dry_apply dry_apply_on store_run commit discard
    dry_run apply_commands apply_command apply_found validate_command_payload run_validate
    check_invariants is_bump_turn_payload is_set_flag_payload is_clear_flag_payload apply_bump_turn
    apply_set_flag apply_clear_flag js_string create_core_command_definitions
three_turns-revision = (refl, refl)

note-KeepsCore : KeepsCore ("notes.add", note)
note-KeepsCore = (ground (arith, eq_iff "notes.add" "core.bumpTurn"), λ w v c e. ground arith)

replay_journal-engine_example :
    replay_journal (record {
      initial_state = origin;
      entries = (play_all three_turns kernel).0;
      commands = create_core_command_definitions no_issues ++ note ∷ [];
      invariants = few_turns ∷ [];
      to_revision = none;
    })
    ≡ ok (record {
      state = (play_all three_turns kernel).1.authoritative;
      applied_entries = length (play_all three_turns kernel).0;
      last_revision = (play_all three_turns kernel).1.authoritative.meta.revision;
    })
replay_journal-engine_example =
    replay_journal-engine no_issues (note ∷ []) (few_turns ∷ []) origin kernel (note-KeepsCore, tt)
      refl set_up-definitions three_turns

replay_journal-play_all_example :
    replay_journal (record {
      initial_state = origin;
      entries = (play_all three_turns kernel).0;
      commands = definitions;
      invariants = few_turns ∷ [];
      to_revision = none;
    })
    ≡ ok (record {
      state = (play_all three_turns kernel).1.authoritative;
      applied_entries = length (play_all three_turns kernel).0;
      last_revision = (play_all three_turns kernel).1.authoritative.meta.revision;
    })
unfolding get_draft_view get_authoritative play_all play materialize begin_turn dry_apply
    dry_apply_on store_run commit discard dry_run apply_commands apply_command apply_found
    validate_command_payload run_validate check_invariants is_bump_turn_payload is_set_flag_payload
    is_clear_flag_payload apply_bump_turn apply_set_flag apply_clear_flag js_string
    create_core_command_definitions
replay_journal-play_all_example =
    replay_journal-play_all definitions (few_turns ∷ []) origin kernel set_up-definitions
      three_turns ((leb_iff 0 1).0 refl, ((leb_iff 1 2).0 refl, tt))
