-- ===== src/Persistence/Laws.antt =====
-- The atomic flush of a turn against its two halves, and what it leaves of the other sessions
-- (packages/core/src/persistence/in-memory-persistence.ts).
use rpenginext.Common.{
  ◌≡◌, refl, none, some, [], ◌∷◌, ◌++◌, String, Dict, lookup, insert, lookup-insert, ◌==◌, eq_iff,
  eq_refl, arith, if◌then◌else◌,
}
use rpenginext.Contracts.{ok, TurnPersistenceUnit}
use rpenginext.Persistence.{
  Sessions, journal_of, save, load, append_to, append_journal, read_journal, commit_turn,
}

insert-insert {ℓ} :
    {V : Type ℓ} (k : String) (v w : V) (d : Dict V) → insert k w (insert k v d) ≡ insert k w d
insert-insert k v w [] = ground (arith, eq_iff k k)
insert-insert k v w ((j, x) ∷ d) = ground (arith, eq_iff k k, insert-insert k v w d)

-- `commitTurn` is `save` followed by `appendJournal`: the same answer and the same stored sessions.
pub commit_turn-save-append_journal :
    (unit : TurnPersistenceUnit) (s : Sessions)
    → commit_turn unit s
      ≡ append_journal unit.snapshot.session_id unit.journal_entries (save unit.snapshot s).1
unfolding commit_turn append_journal append_to save
commit_turn-save-append_journal unit s =
    let k = unit.snapshot.session_id in rw (lookup-insert, eq_refl k) (rw insert-insert refl)

-- What a committed turn leaves to be read: its own session has the new snapshot and its journal
-- with the entries added behind; every other session is as before.
pub commit_turn-reads :
    (unit : TurnPersistenceUnit) (s : Sessions) (j : String)
    → let s' = (commit_turn unit s).1 in
      let mine = unit.snapshot.session_id == j in
      (load j s' ≡ (if mine then ok (some unit.snapshot) else load j s))
      × (read_journal j none s' ≡ (
          if mine
          then ok (journal_of (lookup j s) ++ unit.journal_entries)
          else read_journal j none s))
unfolding commit_turn load read_journal
commit_turn-reads unit s j = ground (
  arith,
  eq_iff unit.snapshot.session_id j,
  lookup-insert unit.snapshot.session_id j
      (record {
        snapshot = unit.snapshot;
        journal = journal_of (lookup unit.snapshot.session_id s) ++ unit.journal_entries;
      })
      s,
)
