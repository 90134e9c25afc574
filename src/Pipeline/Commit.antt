-- ===== src/Pipeline/Commit.antt =====
-- `stageCommit` of packages/core/src/pipeline/turn-pipeline.ts: the snapshot and the journal entry go
-- to the persistence port, then the kernel publishes the draft. The port's store is a type `S`.
pub mod Outcomes
use mathlib.Core.List
use rpenginext.Common.{
  ℕ, ◌≡◌, refl, Bool, true, false, Option, none, some, List, [], ◌∷◌, map, String, ◌==◌, Dict,
  insert, if◌then◌else◌,
}
use rpenginext.Contracts.{
  str, JsonObject, end, field, spread, Result, ok, err, Failure, failure, failure_details, ⊤,
  WorldState, StateCommand, Passage, JournalEntry, EnabledModuleRef, SystemTurnMode,
  PendingSystemTurnSnapshot, EngineVersions, SessionSnapshot, TurnPersistenceUnit,
}
use rpenginext.Kernel.{StateKernel, get_draft_view, commit}
use rpenginext.Pipeline.{TurnKind, player, system, restore, TurnScratch}
use rpenginext.Pipeline.Validate.{Workspace}

-- packages/contracts/src/turn/turn-result.ts
pub record TurnFailure : Type 0 where
  pub turn_id : String
  pub failure : Failure
  pub stage : Option String

pub data TurnResult : Type 0 where
  committed_turn : String → String → ℕ → Passage → List StateCommand → List String → TurnResult
  rejected_turn : String → String → TurnFailure → List String → TurnResult

abbrev pub turn_id_of : TurnResult → String
turn_id_of (committed_turn id s r p cs ws) = id
turn_id_of (rejected_turn id s f ws) = id

pub record PendingSystemTurn : Type 0 where
  pub reason : String
  pub payload : Option JsonObject
  pub requested_by_module_id : Option String
  pub mode : SystemTurnMode

-- The session without its kernel, which stands in the workspace.
pub record SessionTurnState : Type 0 where
  pub session_id : String
  pub last_passage : Option Passage
  pub passages : Dict Passage
  pub enabled_modules : List EnabledModuleRef
  pub seed : Option String
  pub created_at : String
  pub idempotency : Dict TurnResult
  pub pending_system_turns : List PendingSystemTurn
  pub meta : Option JsonObject

pub data CommitEvent : Type 0 where
  state_committed : String → ℕ → String → CommitEvent
  passage_published : String → Passage → String → CommitEvent
  turn_committed : String → String → ℕ → String → TurnKind → String → CommitEvent

pub record PersistencePort (S : Type 0) : Type 0 where
  pub commit_turn : Option (TurnPersistenceUnit → S → Result ⊤ × S)
  pub save : SessionSnapshot → S → Result ⊤ × S
  pub append_journal : String → List JournalEntry → S → Result ⊤ × S

pub data PersistencePolicy : Type 0 where
  per_turn manual : PersistencePolicy

pub record CommitDeps (S : Type 0) : Type 0 where
  pub persistence : PersistencePort S
  pub policy : PersistencePolicy
  pub versions : EngineVersions

pub record CommitState (S : Type 0) : Type 0 where
  pub workspace : Workspace
  pub session : SessionTurnState
  pub store : S
  pub events : List CommitEvent

abbrev pub journal_entry : TurnScratch → WorldState → Passage → String → JournalEntry
journal_entry scratch draft passage timestamp = record {
  turn_id = scratch.turn_id;
  prev_revision = scratch.s0.meta.revision;
  next_revision = draft.meta.revision;
  input = scratch.raw_action;
  commands = scratch.accepted_commands;
  passage_id = passage.id;
  timestamp = timestamp;
}

abbrev is_system : TurnKind → Bool
is_system system = true
is_system _ = false

-- `playerFacingPassage?.id ?? passage.id`
abbrev last_passage_id : TurnKind → Option Passage → Passage → String
last_passage_id system (some p) passage = p.id
last_passage_id _ last passage = passage.id

abbrev seed_field : Option String → JsonObject
seed_field none = end
seed_field (some seed) = if seed == "" then end else field "seed" (str seed) end

abbrev or_empty : Option JsonObject → JsonObject
or_empty none = end
or_empty (some o) = o

abbrev pending_snapshot : PendingSystemTurn → PendingSystemTurnSnapshot
pending_snapshot t = record {
  reason = t.reason;
  payload = t.payload;
  requested_by_module_id = elim t.requested_by_module_id [ some id ↦ id | none ↦ "unknown" ];
  mode = t.mode;
}

abbrev pub session_snapshot :
    EngineVersions → SessionTurnState → TurnKind → WorldState → Passage → String → SessionSnapshot
session_snapshot versions session kind draft passage timestamp = record {
  format_version = 1;
  session_id = session.session_id;
  created_at = session.created_at;
  updated_at = timestamp;
  engine = versions;
  enabled_modules = session.enabled_modules;
  state = draft;
  last_passage_id = some (last_passage_id kind session.last_passage passage);
  passages = List.◌++◌ (map (λ e. e.1) session.passages) (passage ∷ []);
  idempotency = map (λ e. (e.0, turn_id_of e.1)) session.idempotency;
  meta = some (spread (or_empty session.meta) (seed_field session.seed));
  pending_system_turns = map pending_snapshot session.pending_system_turns;
}

abbrev persistence_failed : Failure → Failure
persistence_failed e = failure_details "PERSISTENCE_FAILED" e.message e.details

abbrev pub wrap_failure : {S : Type 0} → Result ⊤ × S → Result ⊤ × S
wrap_failure (ok u, s) = (ok u, s)
wrap_failure (err e, s) = (err (persistence_failed e), s)

abbrev pub after_save : {S : Type 0} → Result ⊤ × S → (S → Result ⊤ × S) → Result ⊤ × S
after_save (ok u, s) append = wrap_failure (append s)
after_save (err e, s) append = (err (persistence_failed e), s)

abbrev commit_events : TurnScratch → SessionTurnState → ℕ → Passage → String → List CommitEvent
commit_events scratch session revision passage at =
    let ended =
      turn_committed session.session_id scratch.turn_id revision passage.id scratch.kind at in
    if is_system scratch.kind
    then state_committed session.session_id revision at ∷ ended ∷ []
    else state_committed session.session_id revision at
      ∷ passage_published session.session_id passage at
      ∷ ended
      ∷ []

abbrev pub remember_passage : TurnKind → Passage → SessionTurnState → SessionTurnState
remember_passage kind passage session = record session {
  passages = insert passage.id passage session.passages;
  last_passage = if is_system kind then session.last_passage else some passage;
}

module _ {S : Type 0} where
  unfoldable pub flush_unit :
      Option (TurnPersistenceUnit → S → Result ⊤ × S)
      → PersistencePort S
      → TurnPersistenceUnit
      → S
      → Result ⊤ × S
  flush_unit (some commit_turn) port unit store = wrap_failure (commit_turn unit store)
  flush_unit none port unit store =
      after_save (port.save unit.snapshot store)
        (port.append_journal unit.snapshot.session_id unit.journal_entries)

  unfoldable pub flush :
      PersistencePolicy → PersistencePort S → TurnPersistenceUnit → S → Result ⊤ × S
  unfolding flush_unit
  flush per_turn port unit store = flush_unit port.commit_turn port unit store
  flush manual port unit store = (ok tt, store)

  unfoldable pub publish_on :
      Result WorldState × StateKernel
      → ℕ
      → Passage
      → String
      → CommitState S
      → Result ⊤ × CommitState S
  publish_on (err e, k) revision passage at c =
      (err e, record c { workspace = record (c.workspace) { kernel = k } })
  publish_on (ok next, k) revision passage at c =
      let scratch = c.workspace.scratch in
      (
        ok tt,
        record c {
          workspace = record (c.workspace) { kernel = k };
          session = remember_passage scratch.kind passage c.session;
          events = List.◌++◌ c.events (commit_events scratch c.session revision passage at);
        },
      )

  unfoldable pub commit_flushed :
      Result ⊤ × S → ℕ → Passage → String → CommitState S → Result ⊤ × CommitState S
  unfolding publish_on
  commit_flushed (err e, store) revision passage at c = (err e, record c { store = store })
  commit_flushed (ok u, store) revision passage at c =
      publish_on (commit c.workspace.kernel) revision passage at (record c { store = store })

  abbrev pub unit_of : CommitDeps S → Passage → String → CommitState S → TurnPersistenceUnit
  unit_of deps passage at c =
      let scratch = c.workspace.scratch in
      let draft = get_draft_view c.workspace.kernel in
      record {
        snapshot = session_snapshot deps.versions c.session scratch.kind draft passage at;
        journal_entries = journal_entry scratch draft passage at ∷ [];
      }

  unfoldable pub commit_passage :
      CommitDeps S → Option Passage → String → CommitState S → Result ⊤ × CommitState S
  unfolding flush commit_flushed
  commit_passage deps none at c = (err (failure "PRESENT_FAILED" "missing passage at commit"), c)
  commit_passage deps (some passage) at c =
      let draft = get_draft_view c.workspace.kernel in
      commit_flushed (flush deps.policy deps.persistence (unit_of deps passage at c) c.store)
        draft.meta.revision passage at c

  -- `at` is what the clock says.
  unfoldable pub stage_commit : CommitDeps S → String → CommitState S → Result ⊤ × CommitState S
  unfolding commit_passage
  stage_commit deps at c = commit_passage deps c.workspace.scratch.passage at c
