-- ===== src/ConflictPaths/Tests.antt =====
-- Runs of the matcher of conflict paths, and its theorems at concrete inputs.
use rpenginext.Common.{◌≡◌, refl, true, false, [], ◌∷◌, ◌↔◌, arith, eq_iff}
use rpenginext.ConflictPaths.{
  ConflictKeyDefinition, trim, trim_start, trim_end, split_dots, skip_to, match_parts,
  glob_path_match, collect_command_write_paths, command_touches_conflict_key,
}
use rpenginext.ConflictPaths.Globs.{Globs, match_parts_iff}
use rpenginext.Samples.{set_door}

abbrev flags_key : ConflictKeyDefinition
flags_key = record { id = "flags"; path = " flags.* "; slice = "core" }

set_door-touches : command_touches_conflict_key set_door flags_key ≡ true
unfolding command_touches_conflict_key trim trim_start trim_end split_dots match_parts skip_to
    glob_path_match collect_command_write_paths
set_door-touches = refl

glob_path_match-misses : glob_path_match "a.c.b.c" "a.**.c" ≡ false
unfolding glob_path_match split_dots match_parts skip_to
glob_path_match-misses = refl

match_parts_iff_example :
    (match_parts ("flags" ∷ "*" ∷ []) ("flags" ∷ "door" ∷ []) ≡ true)
    ↔ Globs ("flags" ∷ "*" ∷ []) ("flags" ∷ "door" ∷ [])
match_parts_iff_example =
    match_parts_iff ("flags" ∷ "*" ∷ []) ("flags" ∷ "door" ∷ [])
      (ground (arith, eq_iff "flags" "**"), (ground (arith, eq_iff "*" "**"), tt))
