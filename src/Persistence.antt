-- ===== src/Persistence.antt =====
-- packages/core/src/persistence/in-memory-persistence.ts: the stored sessions by id. A method is
-- `async` only by its interface: it reads and writes the map before its first wait. `deepClone`
-- does not throw on JSON values, so the error branches of `save` and `commitTurn` are not reached.
pub mod Laws
pub mod History
mod Tests
use Prim.Native.String.{◌++◌}
use mathlib.Core.List
use rpenginext.Common.{
  ℕ, ◌≡◌, refl, Bool, true, false, Option, none, some, List, [], ◌∷◌, String, Dict, lookup, insert,
  erase, filter, length, leb,
}
use rpenginext.Contracts.{
  Result, ok, err, failure, ⊤, JournalEntry, SessionSnapshot, SessionMeta, TurnPersistenceUnit,
}

pub record StoredSession : Type 0 where
  pub snapshot : SessionSnapshot
  pub journal : List JournalEntry

abbrev pub Sessions : Type 0
Sessions = Dict StoredSession

-- `existing?.journal ? deepClone(existing.journal) : []`
abbrev pub journal_of : Option StoredSession → List JournalEntry
journal_of none = []
journal_of (some s) = s.journal

pub save : SessionSnapshot → Sessions → Result ⊤ × Sessions
save snapshot sessions =
    let existing = lookup snapshot.session_id sessions in
    (
      ok tt,
      insert snapshot.session_id (record { snapshot = snapshot; journal = journal_of existing })
          sessions,
    )

abbrev snapshot_of : Option StoredSession → Option SessionSnapshot
snapshot_of none = none
snapshot_of (some s) = some s.snapshot

pub load : String → Sessions → Result (Option SessionSnapshot)
load id sessions = ok (snapshot_of (lookup id sessions))

pub append_to : Option StoredSession → String → List JournalEntry → Sessions → Result ⊤ × Sessions
append_to none id entries sessions = (
  err (failure "PERSISTENCE_FAILED" ("cannot append journal: session not found: " ++ id)),
  sessions,
)
append_to (some s) id entries sessions =
    (ok tt, insert id (record s { journal = List.◌++◌ s.journal entries }) sessions)

pub append_journal : String → List JournalEntry → Sessions → Result ⊤ × Sessions
append_journal id entries sessions = append_to (lookup id sessions) id entries sessions

abbrev from : Option ℕ → List JournalEntry → List JournalEntry
from none all = all
from (some r) all = filter (λ e. leb r e.next_revision) all

pub read_journal : String → Option ℕ → Sessions → Result (List JournalEntry)
read_journal id from_revision sessions = ok (from from_revision (journal_of (lookup id sessions)))

unfoldable pub commit_turn : TurnPersistenceUnit → Sessions → Result ⊤ × Sessions
commit_turn unit sessions =
    let existing = lookup unit.snapshot.session_id sessions in
    (
      ok tt,
      insert unit.snapshot.session_id
          (record {
            snapshot = unit.snapshot;
            journal = List.◌++◌ (journal_of existing) unit.journal_entries;
          })
          sessions,
    )

pub delete : String → Sessions → Result ⊤ × Sessions
delete id sessions = (ok tt, erase id sessions)

abbrev meta_of : StoredSession → SessionMeta
meta_of s = record {
  session_id = s.snapshot.session_id;
  updated_at = s.snapshot.updated_at;
  title = none;
  meta = s.snapshot.meta;
}

metas : Sessions → List SessionMeta
metas [] = []
metas ((id, s) ∷ sessions) = meta_of s ∷ metas sessions

pub list : Sessions → Result (List SessionMeta)
unfolding metas
list sessions = ok (metas sessions)

pub size : Sessions → ℕ
size sessions = length sessions
