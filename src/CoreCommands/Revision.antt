-- ===== src/CoreCommands/Revision.antt =====
-- The revision and the turn index
-- (packages/core/src/state/core-commands.ts under `dryApply` of state-kernel.ts).
use rpenginext.Common.{
  ℕ, ◌+◌, ◌≡◌, ◌≢◌, List, [], ◌∷◌, ◌++◌, String, ◌==◌, eq_iff, Dict, lookup-All, All, All-append,
  arith, if◌then◌else◌,
}
use rpenginext.Contracts.{
  JsonValue, JsonObject, ok, >>=-ok, WorldState, StateCommand, CommandDefinition,
}
use rpenginext.Kernel.{apply_command}
use rpenginext.Kernel.DryApply.{run_all, apply_command-Applied}
use rpenginext.CoreCommands.{
  apply_bump_turn, apply_set_flag, apply_clear_flag, apply_set_clock, apply_set_passage_cursor,
  create_core_command_definitions,
}

-- The two places where a state keeps its revision agree.
abbrev pub IsCoherent : WorldState → Type 0
IsCoherent w = w.meta.revision ≡ w.core.revision

-- From `w` to `v` the turn advanced `n` times.
pub record Advances (n : ℕ) (w v : WorldState) : Type 0 where
  pub revision : v.core.revision ≡ w.core.revision + n
  pub turn_index : v.core.turn_index ≡ w.core.turn_index + n
  pub coherent : IsCoherent w → IsCoherent v

abbrev pub bumps : String → ℕ
bumps type = if type == "core.bumpTurn" then 1 else 0

abbrev pub count_bumps : List StateCommand → ℕ
count_bumps [] = 0
count_bumps (c ∷ cs) = bumps c.type + count_bumps cs

-- Each entry of a catalog advances the turn by what its type says.
abbrev pub IsCounting : String × CommandDefinition → Type 0
IsCounting (type, def) =
    (w v : WorldState) (c : StateCommand) → def.apply w c ≡ ok v → Advances (bumps type) w v

-- A module's command, that leaves the engine's own part of the state alone.
abbrev pub KeepsCore : String × CommandDefinition → Type 0
KeepsCore (type, def) =
    (type ≢ "core.bumpTurn")
    × ((w v : WorldState) (c : StateCommand)
        → def.apply w c ≡ ok v
        → (v.meta ≡ w.meta) × (v.core ≡ w.core))

KeepsCore-IsCounting : (e : String × CommandDefinition) → KeepsCore e → IsCounting e
KeepsCore-IsCounting (type, def) (other, keeps) w v c e =
    let (meta, core) = keeps w v c e in ground (arith, eq_iff type "core.bumpTurn")

abbrev pub Counts : CommandDefinition → Type 0
Counts def = IsCounting (def.type, def)

core-IsCounting :
    (flatten : JsonObject → JsonValue) → All Counts (create_core_command_definitions flatten)
unfolding create_core_command_definitions apply_bump_turn apply_set_flag apply_clear_flag
    apply_set_clock apply_set_passage_cursor
core-IsCounting flatten = (
  λ w v c e. ground arith,
  (
    λ w v c e. ground arith,
    (λ w v c e. ground arith, (λ w v c e. ground arith, (λ w v c e. ground arith, tt))),
  ),
)

KeepsCore-All :
    (mods : List CommandDefinition) → All (λ def. KeepsCore (def.type, def)) mods → All Counts mods
KeepsCore-All [] h = tt
KeepsCore-All (def ∷ mods) h = (KeepsCore-IsCounting (def.type, def) h.0, KeepsCore-All mods h.1)

-- The engine's commands, and modules' commands that keep the engine's part of the state.
pub engine-Counts :
    (flatten : JsonObject → JsonValue) (mods : List CommandDefinition)
    → All (λ def. KeepsCore (def.type, def)) mods
    → All Counts (create_core_command_definitions flatten ++ mods)
engine-Counts flatten mods h =
    All-append Counts (create_core_command_definitions flatten) mods (core-IsCounting flatten)
      (KeepsCore-All mods h)

Advances-trans :
    {m n : ℕ} {u v w : WorldState} → Advances m u v → Advances n v w → Advances (m + n) u w
Advances-trans p q = record {
  revision = omega (arith, p.revision, q.revision);
  turn_index = omega (arith, p.turn_index, q.turn_index);
  coherent = λ h. q.coherent (p.coherent h);
}

-- Commands applied in order, each entry of the catalog advancing the turn once if it is
-- `core.bumpTurn` and not otherwise: the revision and the turn index grow by the number of
-- `core.bumpTurn` commands, and the two places of the revision still agree if they did.
pub run_all-Advances :
    (commands : Dict CommandDefinition) (cs : List StateCommand) (w v : WorldState)
    → All IsCounting commands
    → run_all commands cs w ≡ ok v
    → Advances (count_bumps cs) w v
unfolding run_all
run_all-Advances commands [] w v h e = ground arith
run_all-Advances commands (c ∷ cs) w v h e =
    let (u, first, rest) = >>=-ok (apply_command commands w c) (run_all commands cs) e in
    let (def, found, slice, parsed, custom, ran) = apply_command-Applied commands w u c first in
    Advances-trans (lookup-All IsCounting c.type commands found h w u c ran)
      (run_all-Advances commands cs u v h rest)
