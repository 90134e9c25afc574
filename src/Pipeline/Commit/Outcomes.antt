-- ===== src/Pipeline/Commit/Outcomes.antt =====
-- How `stageCommit` of packages/core/src/pipeline/turn-pipeline.ts ends, for any persistence port, and
-- what it leaves in the store of packages/core/src/persistence/in-memory-persistence.ts.
use rpenginext.Common.{
  ◌≡◌, refl, sym, ◌∙◌, ap, Option, none, some, [], ◌∷◌, ◌++◌, String, lookup, arith, eq_refl,
}
use rpenginext.Contracts.{
  Result, ok, err, ⊤, WorldState, Passage, JournalEntry, EngineVersions, SessionSnapshot,
}
use rpenginext.Kernel.{StateKernel, get_draft_view, commit_on, commit}
use rpenginext.Persistence.{
  Sessions, journal_of, save, load, append_journal, read_journal, commit_turn,
}
use rpenginext.Persistence.Laws.{commit_turn-reads}
use rpenginext.Pipeline.Commit.{
  PersistencePort, per_turn, CommitDeps, CommitState, journal_entry, flush_unit, flush,
  remember_passage, publish_on, commit_flushed, unit_of, commit_passage, stage_commit,
}

module _ {S : Type 0} (deps : CommitDeps S) (at : String) where
  -- A commit of the passage: what was flushed, what was published, what the session remembers.
  pub record IsCommitted (c out : CommitState S) : Type 0 where
    pub passage : Passage
    pub draft : WorldState
    pub presented : c.workspace.scratch.passage ≡ some passage
    pub opened : c.workspace.kernel.draft ≡ some draft
    pub flushed :
        flush deps.policy deps.persistence (unit_of deps passage at c) c.store ≡ (ok tt, out.store)
    pub published :
        out.workspace.kernel
        ≡ record (c.workspace.kernel) { authoritative = draft; draft = none; open_turn_id = none }
    pub remembered : out.session ≡ remember_passage c.workspace.scratch.kind passage c.session

  abbrev pub Commits : CommitState S → Result ⊤ × CommitState S → Type 0
  Commits c (ok u, out) = IsCommitted c out
  Commits c (err f, out) =
      (out.workspace ≡ c.workspace) × (out.session ≡ c.session) × (out.events ≡ c.events)

  committed_on :
      (c : CommitState S) (passage : Passage) (store : S) (o : Option WorldState)
      → c.workspace.scratch.passage ≡ some passage
      → flush deps.policy deps.persistence (unit_of deps passage at c) c.store ≡ (ok tt, store)
      → c.workspace.kernel.draft ≡ o
      → Commits c (
          publish_on
            (commit_on o c.workspace.kernel)
            (get_draft_view c.workspace.kernel).meta.revision
            passage
            at
            (record c { store = store }))
  unfolding commit_on publish_on
  committed_on c passage store none shown e opened = (refl, refl, refl)
  committed_on c passage store (some d) shown e opened = record {
    passage = passage;
    draft = d;
    presented = shown;
    opened = opened;
    flushed = e;
    published = refl;
    remembered = refl;
  }

  flushed_on :
      (c : CommitState S) (passage : Passage) (o : Result ⊤ × S)
      → c.workspace.scratch.passage ≡ some passage
      → flush deps.policy deps.persistence (unit_of deps passage at c) c.store ≡ o
      → Commits c (commit_flushed o (get_draft_view c.workspace.kernel).meta.revision passage at c)
  unfolding commit_flushed commit
  flushed_on c passage (ok u, store) shown e =
      committed_on c passage store c.workspace.kernel.draft shown e refl
  flushed_on c passage (err f, store) shown e = (refl, refl, refl)

  passage_on :
      (c : CommitState S) (o : Option Passage)
      → c.workspace.scratch.passage ≡ o
      → Commits c (commit_passage deps o at c)
  unfolding commit_passage
  passage_on c none shown = (refl, refl, refl)
  passage_on c (some passage) shown =
      flushed_on c passage (flush deps.policy deps.persistence (unit_of deps passage at c) c.store)
        shown refl

  pub stage_commit-Commits : (c : CommitState S) → Commits c (stage_commit deps at c)
  unfolding stage_commit
  stage_commit-Commits c = passage_on c c.workspace.scratch.passage refl

-- The in-memory port.
abbrev pub in_memory : PersistencePort Sessions
in_memory = record { commit_turn = some commit_turn; save = save; append_journal = append_journal }

abbrev pub in_memory_deps : EngineVersions → CommitDeps Sessions
in_memory_deps versions = record { persistence = in_memory; policy = per_turn; versions = versions }

-- What the store holds of the session after a commit.
pub record IsStored (c out : CommitState Sessions) : Type 0 where
  pub snapshot : SessionSnapshot
  pub entry : JournalEntry
  pub loaded : load c.session.session_id out.store ≡ ok (some snapshot)
  pub state : snapshot.state ≡ out.workspace.kernel.authoritative
  pub journal :
      read_journal c.session.session_id none out.store
      ≡ ok (journal_of (lookup c.session.session_id c.store) ++ entry ∷ [])
  pub revisions :
      (entry.prev_revision ≡ c.workspace.scratch.s0.meta.revision)
      × (entry.next_revision ≡ out.workspace.kernel.authoritative.meta.revision)

pub view_of_open : (k : StateKernel) (d : WorldState) → k.draft ≡ some d → get_draft_view k ≡ d
unfolding get_draft_view
view_of_open k d opened = rw opened refl

IsCommitted-IsStored :
    (versions : EngineVersions) (at : String) (c out : CommitState Sessions)
    → IsCommitted (in_memory_deps versions) at c out
    → IsStored c out
unfolding flush flush_unit commit_turn
IsCommitted-IsStored versions at c out h =
    let unit = unit_of (in_memory_deps versions) h.passage at c in
    let store : (commit_turn unit c.store).1 ≡ out.store =
      ap (λ (o : Result ⊤ × Sessions). o.1) h.flushed in
    let (loaded, read) = commit_turn-reads unit c.store c.session.session_id in
    let view : get_draft_view c.workspace.kernel ≡ out.workspace.kernel.authoritative =
      view_of_open c.workspace.kernel h.draft h.opened
      ∙ sym (ap (λ (k : StateKernel). k.authoritative) h.published) in
    record {
      snapshot = unit.snapshot;
      entry = journal_entry c.workspace.scratch (get_draft_view c.workspace.kernel) h.passage at;
      loaded = rw (sym store) (loaded ∙ rw (eq_refl c.session.session_id) refl);
      state = view;
      journal = rw (sym store) (read ∙ rw (eq_refl c.session.session_id) refl);
      revisions = (refl, ap (λ (d : WorldState). d.meta.revision) view);
    }

Commits-IsStored :
    (versions : EngineVersions) (at : String) (c : CommitState Sessions)
    (o : Result ⊤ × CommitState Sessions)
    → Commits (in_memory_deps versions) at c o
    → o.0 ≡ ok tt
    → IsStored c o.1
Commits-IsStored versions at c (ok u, out) h e = IsCommitted-IsStored versions at c out h
Commits-IsStored versions at c (err f, out) h e = absurd (ground arith)

-- With the in-memory store and a flush at every turn, after a commit the store loads the session with
-- exactly the state that the kernel published, and its journal is the old one and one entry, from the
-- revision that the turn began with to the published one.
pub stage_commit-IsStored :
    (versions : EngineVersions) (at : String) (c : CommitState Sessions)
    → (stage_commit (in_memory_deps versions) at c).0 ≡ ok tt
    → IsStored c (stage_commit (in_memory_deps versions) at c).1
stage_commit-IsStored versions at c =
    Commits-IsStored versions at c (stage_commit (in_memory_deps versions) at c)
      (stage_commit-Commits (in_memory_deps versions) at c)
