-- ===== src/Journal.antt =====
-- packages/core/src/state/journal-replay.ts: the accepted commands of a journal are applied again
-- to the state that the session began with.
pub mod Sort
pub mod Live
pub mod RoundTrip
pub mod Replay
pub mod Counting
mod Tests
use Prim.Native.String.{◌++◌}
use rpenginext.Common.{
  ℕ, ◌+◌, ◌≡◌, refl, Bool, true, false, not, ◌&&◌, ◌||◌, Option, none, some, List, [], ◌∷◌, String,
  ltb, eqb, if◌then◌else◌,
}
use rpenginext.Contracts.{
  num, pos, str, obj, field, end, show, Result, ok, err, Failure, failure, failure_details, or_text,
  ◌>>=◌, map_result, map_error, ⊤, WorldState, CommandDefinition, InvariantDefinition, JournalEntry,
}
use rpenginext.Kernel.{
  StateKernel, new_kernel, register_command, register_invariant, get_authoritative, begin_turn,
  dry_apply, commit, discard,
}

pub record JournalReplayInput : Type 0 where
  pub initial_state : WorldState
  pub entries : List JournalEntry
  pub commands : List CommandDefinition
  pub invariants : List InvariantDefinition
  pub to_revision : Option ℕ

pub record JournalReplayResult : Type 0 where
  pub state : WorldState
  pub applied_entries : ℕ
  pub last_revision : ℕ

-- `if (!r.ok) return r`, after a call that returned `r` and changed the kernel.
abbrev pub proceed {ℓ κ} :
    {A : Type ℓ} {B : Type κ} → Result A × StateKernel → (A → StateKernel → Result B) → Result B
proceed (ok a, k) f = f a k
proceed (err e, k) f = err e

unfoldable pub register_commands : List CommandDefinition → StateKernel → Result StateKernel
register_commands [] k = ok k
register_commands (def ∷ defs) k =
    proceed (register_command def k) (λ _ k'. register_commands defs k')

unfoldable pub register_invariants : List InvariantDefinition → StateKernel → Result StateKernel
register_invariants [] k = ok k
register_invariants (inv ∷ invs) k =
    proceed (register_invariant inv k) (λ _ k'. register_invariants invs k')

-- The comparison of the sort: `a.prev - b.prev || a.next - b.next` is below 0.
abbrev pub sorts_before : JournalEntry → JournalEntry → Bool
sorts_before a b =
    ltb a.prev_revision b.prev_revision
    || (eqb a.prev_revision b.prev_revision && ltb a.next_revision b.next_revision)

pub insert_entry : JournalEntry → List JournalEntry → List JournalEntry
insert_entry e [] = e ∷ []
insert_entry e (x ∷ xs) =
    let later = insert_entry e xs in if sorts_before x e then x ∷ later else e ∷ x ∷ xs

-- `Array.prototype.sort` is stable; so is this sort.
pub sort_entries : List JournalEntry → List JournalEntry
sort_entries [] = []
sort_entries (e ∷ es) = insert_entry e (sort_entries es)

abbrev gap_failure : JournalEntry → ℕ → Failure
gap_failure e revision =
    failure_details "INTERNAL"
      ("journal gap: state revision "
        ++ (show revision ++ (" != entry.prevRevision " ++ show e.prev_revision)))
      (some (
        obj (
          field "turnId" (str e.turn_id) (
            field "stateRevision" (num (pos revision))
              (field "prevRevision" (num (pos e.prev_revision)) end)))))

abbrev replay_failure : JournalEntry → Failure → Failure
replay_failure e f = record f {
  code = or_text f.code "COMMAND_INVALID";
  message = "replay failed on turn " ++ (e.turn_id ++ (": " ++ f.message));
}

abbrev mismatch_failure : JournalEntry → ℕ → Failure
mismatch_failure e revision = failure "INTERNAL" (
    "replay revision mismatch on turn "
    ++ (e.turn_id ++ (": got " ++ (show revision ++ (", expected " ++ show e.next_revision)))))

-- The kernel is local to the replay, so that `discard` on a failure is seen by nobody.
abbrev replay_commands : JournalEntry → StateKernel → Result StateKernel
replay_commands e k =
    let (r, k') = dry_apply e.commands k in map_result (map_error (replay_failure e) r) (λ _. k')

abbrev replay_commit : JournalEntry → StateKernel → Result StateKernel
replay_commit e k = proceed (commit k) λ next k'.
    if eqb next.meta.revision e.next_revision
    then ok k'
    else err (mismatch_failure e next.meta.revision)

-- The body of the loop, after the test of `toRevision`.
unfoldable pub replay_entry : JournalEntry → StateKernel → Result StateKernel
replay_entry e k =
    let revision = (get_authoritative k).meta.revision in
    if eqb revision e.prev_revision
    then proceed (begin_turn e.turn_id k) (λ _ k'. replay_commands e k' >>= replay_commit e)
    else err (gap_failure e revision)

abbrev is_past : Option ℕ → JournalEntry → Bool
is_past none e = false
is_past (some r) e = ltb r e.next_revision

-- The loop over its variables: the kernel and the number of applied entries.
unfoldable pub replay_loop :
    Option ℕ → List JournalEntry → ℕ → StateKernel → Result (ℕ × StateKernel)
replay_loop to [] applied k = ok (applied, k)
replay_loop to (e ∷ es) applied k =
    let rest = replay_entry e k >>= replay_loop to es (applied + 1) in
    if is_past to e then ok (applied, k) else rest

abbrev pub replay_result : ℕ × StateKernel → JournalReplayResult
replay_result (applied, k) =
    let final = get_authoritative k in
    record { state = final; applied_entries = applied; last_revision = final.meta.revision }

pub replay_journal : JournalReplayInput → Result JournalReplayResult
replay_journal input = do
  k ← register_commands input.commands (new_kernel input.initial_state)
  k' ← register_invariants input.invariants k
  final ← replay_loop input.to_revision (sort_entries input.entries) 0 k'
  ok (replay_result final)
