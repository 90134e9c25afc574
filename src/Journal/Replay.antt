-- ===== src/Journal/Replay.antt =====
-- packages/core/src/state/journal-replay.ts, `replayJournal`: registration, sorting and the loop.
use rpenginext.Common.{
  ℕ, ◌+◌, ◌≡◌, ap, none, List, [], ◌∷◌, ◌++◌, Dict, insert, has_key, length, arith, inl, inr,
  Bool-cases, any, ◌==◌,
}
use rpenginext.Contracts.{
  Result, ok, ◌>>=◌, >>=-ok, WorldState, CommandDefinition, InvariantDefinition, JournalEntry,
}
use rpenginext.Kernel.{
  StateKernel, new_kernel, register_command, register_invariant, get_authoritative,
}
use rpenginext.Journal.{
  JournalReplayResult, register_commands, register_invariants, sort_entries, replay_loop,
  replay_result, replay_journal,
}
use rpenginext.Journal.Live.{Turn, play_all}
use rpenginext.Journal.Sort.{sort_entries-IsChain}
use rpenginext.Journal.RoundTrip.{idle, NoneLowers, play_all-Replays, play_all-IsChain}

count_from_zero : (n : ℕ) → 0 + n ≡ n
count_from_zero n = omega arith

-- Registration fills the two catalogs of a new kernel and nothing else.
register_commands-idle :
    (defs : List CommandDefinition) (c : Dict CommandDefinition) (w : WorldState) (k : StateKernel)
    → register_commands defs (idle c [] w) ≡ ok k
    → (c' : Dict CommandDefinition) × (k ≡ idle c' [] w)
unfolding register_commands register_command
register_commands-idle [] c w k e = (c, ground arith)
register_commands-idle (def ∷ defs) c w k e = elim (Bool-cases (has_key def.type c)) [
  | inl dup ↦ absurd (ground arith)
  | inr new ↦ register_commands-idle defs (insert def.type def c) w k (rw new at e)
]

register_invariants-idle :
    (invs i : List InvariantDefinition) (c : Dict CommandDefinition) (w : WorldState)
    (k : StateKernel)
    → register_invariants invs (idle c i w) ≡ ok k
    → (i' : List InvariantDefinition) × (k ≡ idle c i' w)
unfolding register_invariants register_invariant
register_invariants-idle [] i c w k e = (i, ground arith)
register_invariants-idle (inv ∷ invs) i c w k e = elim (Bool-cases (any (λ j. j.id == inv.id) i)) [
  | inl dup ↦ absurd (ground arith)
  | inr new ↦ register_invariants-idle invs (i ++ inv ∷ []) c w k (rw new at e)
]

abbrev pub set_up :
    List CommandDefinition → List InvariantDefinition → WorldState → Result StateKernel
set_up defs invs s0 = register_commands defs (new_kernel s0) >>= register_invariants invs

pub set_up-idle :
    (defs : List CommandDefinition) (invs : List InvariantDefinition) (s0 : WorldState)
    (k : StateKernel)
    → set_up defs invs s0 ≡ ok k
    → (c : Dict CommandDefinition) × (i : List InvariantDefinition) × (k ≡ idle c i s0)
set_up-idle defs invs s0 k e =
    let (k₁, first, second) =
      >>=-ok (register_commands defs (new_kernel s0)) (register_invariants invs) e in
    let (c, same) = register_commands-idle defs [] s0 k₁ first in
    let (i, final) = register_invariants-idle invs [] c s0 k (rw same at second) in (c, i, final)

abbrev report : List JournalEntry × StateKernel → JournalReplayResult
report (es, k) = record {
  state = k.authoritative;
  applied_entries = length es;
  last_revision = k.authoritative.meta.revision;
}

replay-idle :
    (c : Dict CommandDefinition) (i : List InvariantDefinition) (s0 : WorldState) (ts : List Turn)
    → NoneLowers (play_all ts (idle c i s0)).0
    → (replay_loop none (sort_entries (play_all ts (idle c i s0)).0) 0 (idle c i s0) >>= λ final.
        ok (replay_result final))
      ≡ ok (report (play_all ts (idle c i s0)))
unfolding get_authoritative
replay-idle c i s0 ts mono =
    let (v, ended, replayed) = play_all-Replays c i 0 s0 ts in
    rw (sort_entries-IsChain s0.meta.revision _ (play_all-IsChain c i s0 ts mono), replayed, ended)
      (ap (λ m. ok (record { state = v; applied_entries = m; last_revision = v.meta.revision }))
        (count_from_zero (length (play_all ts (idle c i s0)).0)))

-- `replayJournal`, on the journal that a session wrote from the state `s0`, with the same
-- definitions: if no entry lowers the revision, the replay succeeds, applies every entry, and ends
-- in the session's own last state and revision, also where some of the turns were rejected.
pub replay_journal-play_all :
    (defs : List CommandDefinition) (invs : List InvariantDefinition) (s0 : WorldState)
    (k : StateKernel)
    → set_up defs invs s0 ≡ ok k
    → (ts : List Turn) → NoneLowers (play_all ts k).0
    → replay_journal (record {
      initial_state = s0;
      entries = (play_all ts k).0;
      commands = defs;
      invariants = invs;
      to_revision = none;
    })
      ≡ ok (record {
        state = (play_all ts k).1.authoritative;
        applied_entries = length (play_all ts k).0;
        last_revision = (play_all ts k).1.authoritative.meta.revision;
      })
unfolding replay_journal get_authoritative
replay_journal-play_all defs invs s0 k e ts mono =
    let (k₁, first, second) =
      >>=-ok (register_commands defs (new_kernel s0)) (register_invariants invs) e in
    let (c, i, same) = set_up-idle defs invs s0 k e in
    rw (first, second) (rw same (replay-idle c i s0 ts (rw same at mono)))
