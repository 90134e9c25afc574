-- ===== src/Journal/Counting.antt =====
-- `replayJournal` with the engine's own commands (packages/core/src/state/core-commands.ts), and
-- module commands that keep the engine's part of the state.
use rpenginext.Common.{
  ◌≡◌, sym, ap, ◌∙◌, none, List, [], ◌∷◌, ◌++◌, Dict, insert, insert-All, has_key, All, length,
  arith, inl, inr, Bool-cases, subst, any, ◌==◌,
}
use rpenginext.Contracts.{
  JsonValue, JsonObject, ok, err, >>=-ok, ok-injective, WorldState, CommandDefinition,
  InvariantDefinition, JournalEntry,
}
use rpenginext.Kernel.{StateKernel, new_kernel, register_command, register_invariant}
use rpenginext.CoreCommands.{create_core_command_definitions}
use rpenginext.CoreCommands.Revision.{
  IsCoherent, IsCounting, KeepsCore, Counts, run_all-Advances, engine-Counts,
}
use rpenginext.Journal.{replay_journal, register_commands, register_invariants}
use rpenginext.Journal.Live.{Turn, Outcome, play, keep, play_all}
use rpenginext.Journal.RoundTrip.{idle, NoneLowers, Plays, play-Plays}
use rpenginext.Journal.Replay.{set_up, set_up-idle, replay_journal-play_all}

module _ (c : Dict CommandDefinition) (i : List InvariantDefinition)
    (counting : All IsCounting c) where
  keep-NoneLowers :
      (w : WorldState) (ts : List Turn) (o : Outcome JournalEntry)
      → IsCoherent w
      → Plays c i w o
      → ((v : WorldState) → IsCoherent v → NoneLowers (play_all ts (idle c i v)).0)
      → NoneLowers (keep o.0 (play_all ts o.1).0)
  keep-NoneLowers w ts (err f, k) coherent same later = rw same (later w coherent)
  keep-NoneLowers w ts (ok e, k) coherent (v, same, ran, held, prev, next) later =
      let a = run_all-Advances c e.commands w v counting ran in
      let coherent' = a.coherent coherent in rw same (omega (arith, a.revision), later v coherent')

  pub play_all-NoneLowers :
      (w : WorldState) (ts : List Turn) → IsCoherent w → NoneLowers (play_all ts (idle c i w)).0
  unfolding play_all
  play_all-NoneLowers w [] coherent = tt
  play_all-NoneLowers w (t ∷ ts) coherent =
      keep-NoneLowers w ts (play t (idle c i w)) coherent (play-Plays c i t w)
        (λ v. play_all-NoneLowers v ts)

register_commands-IsCounting :
    (defs : List CommandDefinition) (c : Dict CommandDefinition) (w : WorldState) (k : StateKernel)
    → All Counts defs
    → All IsCounting c
    → register_commands defs (idle c [] w) ≡ ok k
    → All IsCounting k.commands
unfolding register_commands register_command
register_commands-IsCounting [] c w k h g e =
    subst (λ x. All IsCounting x.commands) (ok-injective e) g
register_commands-IsCounting (def ∷ defs) c w k h g e = elim (Bool-cases (has_key def.type c)) [
  | inl dup ↦ absurd (ground arith)
  | inr new ↦
      register_commands-IsCounting defs (insert def.type def c) w k h.1
        (insert-All IsCounting def.type def c h.0 g) (rw new at e)
]

register_invariants-commands :
    (invs : List InvariantDefinition) (k k' : StateKernel)
    → register_invariants invs k ≡ ok k'
    → k'.commands ≡ k.commands
unfolding register_invariants register_invariant
register_invariants-commands [] k k' e = ground arith
register_invariants-commands (inv ∷ invs) k k' e =
    elim (Bool-cases (any (λ j. j.id == inv.id) k.invariants)) [
      | inl dup ↦ absurd (ground arith)
      | inr new ↦
          register_invariants-commands invs (record k { invariants = k.invariants ++ inv ∷ [] }) k'
            (rw new at e)
    ]

-- With the engine's commands and module commands that keep the engine's part of the state, a
-- session that began in a state whose two revisions agree replays to its own last state.
pub replay_journal-engine :
    (flatten : JsonObject → JsonValue) (mods : List CommandDefinition)
    (invs : List InvariantDefinition) (s0 : WorldState) (k : StateKernel)
    → All (λ def. KeepsCore (def.type, def)) mods
    → IsCoherent s0
    → set_up (create_core_command_definitions flatten ++ mods) invs s0 ≡ ok k
    → (ts : List Turn)
    → replay_journal (record {
      initial_state = s0;
      entries = (play_all ts k).0;
      commands = create_core_command_definitions flatten ++ mods;
      invariants = invs;
      to_revision = none;
    })
      ≡ ok (record {
        state = (play_all ts k).1.authoritative;
        applied_entries = length (play_all ts k).0;
        last_revision = (play_all ts k).1.authoritative.meta.revision;
      })
replay_journal-engine flatten mods invs s0 k keeps coherent e ts =
    let defs = create_core_command_definitions flatten ++ mods in
    let (k₁, first, second) =
      >>=-ok (register_commands defs (new_kernel s0)) (register_invariants invs) e in
    let (c, i, same) = set_up-idle defs invs s0 k e in
    let counted =
      register_commands-IsCounting defs [] s0 k₁ (engine-Counts flatten mods keeps) tt first in
    let kept = register_invariants-commands invs k₁ k second in
    let counting : All IsCounting c =
      subst (All IsCounting) (sym kept ∙ ap (λ (x : StateKernel). x.commands) same) counted in
    replay_journal-play_all defs invs s0 k e ts
      (rw same (play_all-NoneLowers c i counting s0 ts coherent))
