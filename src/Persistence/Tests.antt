-- ===== src/Persistence/Tests.antt =====
-- The theorems of the session store at concrete inputs.
use rpenginext.Common.{List, [], ◌∷◌, String, none}
use rpenginext.Contracts.{SessionSnapshot, TurnPersistenceUnit, JournalEntry}
use rpenginext.Persistence.{Sessions}
use rpenginext.Persistence.History.{Write, saves, commits, deletes}
use rpenginext.Samples.{origin, action}

abbrev snapshot_named : String → SessionSnapshot
snapshot_named id = record {
  format_version = 1;
  session_id = id;
  created_at = "2026-01-01T00:00:00.000Z";
  updated_at = "2026-01-01T00:00:00.000Z";
  engine = record { core_version = "0.1.0"; contracts_version = "0.1.0" };
  enabled_modules = [];
  state = origin;
  last_passage_id = none;
  passages = [];
  idempotency = [];
  meta = none;
  pending_system_turns = [];
}

abbrev entry : JournalEntry
entry = record {
  turn_id = "trn_1";
  prev_revision = 0;
  next_revision = 1;
  input = action;
  commands = [];
  passage_id = "psg_1";
  timestamp = "2026-01-01T00:00:01.000Z";
}

abbrev first_turn : TurnPersistenceUnit
first_turn = record { snapshot = snapshot_named "a"; journal_entries = entry ∷ [] }

abbrev stored : Sessions
stored = ("a", record { snapshot = snapshot_named "a"; journal = entry ∷ [] }) ∷ []

-- Another session is stored and deleted, and a turn of this one committed.
abbrev writes : List Write
writes = saves (snapshot_named "b") ∷ commits first_turn ∷ deletes "b" ∷ []
