-- ===== src/Pipeline/Conflicts/Tests.antt =====
-- A conflict and its resolver at concrete commands.
use rpenginext.Common.{◌≡◌, refl, subst, [], ◌∷◌, All}
use rpenginext.Contracts.{ok, ok-injective, StateCommand}
use rpenginext.Samples.{origin, set_door, clear_door}
use rpenginext.Pipeline.{Owned, ContributionIndex}
use rpenginext.ConflictPaths.{ConflictKeyDefinition, command_touches_conflict_key}
use rpenginext.Pipeline.Conflicts.{
  Resolver, resolve_with, resolve_key, resolve_keys, resolve_conflicts,
}
use rpenginext.Pipeline.Conflicts.Answers.{AnswersIn}

abbrev door_key : Owned ConflictKeyDefinition
door_key = record {
  module_id = "notes";
  value = record { id = "flags"; path = "key"; slice = "core" };
}

-- It keeps the command that sets the flag.
abbrev keeps_set : Resolver
keeps_set = record { module_id = "notes"; value = λ key cs draft. ok (set_door ∷ []) }

abbrev index : ContributionIndex
index = record {
  transition_contributors = [];
  command_decorators = [];
  conflict_keys = door_key ∷ [];
  conflict_resolvers = keeps_set ∷ [];
  command_validators = [];
  invariant_ports = [];
  draft_simulators = [];
  post_narrative_contributors = [];
}

abbrev IsOfCore : StateCommand → Type 0
IsOfCore c = c.slice ≡ "core"

keeps_set-AnswersIn : AnswersIn IsOfCore keeps_set
keeps_set-AnswersIn key cs answer draft h e = subst (All IsOfCore) (ok-injective e) (refl, tt)

resolved : resolve_conflicts index (clear_door ∷ set_door ∷ []) origin ≡ ok (set_door ∷ [])
unfolding resolve_conflicts resolve_keys resolve_key resolve_with command_touches_conflict_key
resolved = refl
