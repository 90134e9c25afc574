-- ===== src/Capabilities/Tests.antt =====
-- The validation of the capability graph at concrete inputs.
use rpenginext.Common.{◌≡◌, refl, some, List, [], ◌∷◌, String}
use rpenginext.Contracts.{pos, ok, err, failure}
use rpenginext.Capabilities.{
  ModuleManifest, check_requires, check_all_requires, check_each, cycle_check, check_cycles,
  validate_capability_graph,
}
use rpenginext.Capabilities.Valid.{IsValidated, validate_capability_graph-IsValidated}

abbrev manifest : String → List String → List String → ModuleManifest
manifest id provides requires = record {
  id = id;
  provides = provides;
  requires = requires;
  priority = pos 0;
}

abbrev chain : List ModuleManifest
chain =
    manifest "scene" ("cap:scene" ∷ []) ("cap:npc" ∷ [])
    ∷ manifest "npc" ("cap:npc" ∷ []) ("capability:state-core" ∷ [])
    ∷ []

abbrev ring : List ModuleManifest
ring = manifest "a" ("cap:a" ∷ []) ("cap:b" ∷ []) ∷ manifest "b" ("cap:b" ∷ []) ("cap:a" ∷ []) ∷ []

chain-order :
    validate_capability_graph chain ("capability:state-core" ∷ [])
    ≡ some (
        ok (record {
          provided = "capability:state-core" ∷ "cap:scene" ∷ "cap:npc" ∷ [];
          order = "scene" ∷ "npc" ∷ [];
        }))
unfolding validate_capability_graph check_all_requires check_requires check_cycles check_each
    cycle_check
chain-order = refl

ring-cycle :
    validate_capability_graph ring []
    ≡ some (err (failure "CAPABILITY_CYCLE" "capability dependency cycle at a"))
unfolding validate_capability_graph check_all_requires check_requires check_cycles check_each
    cycle_check
ring-cycle = refl

validate_capability_graph-IsValidated_example :
    IsValidated chain (validate_capability_graph chain ("capability:state-core" ∷ []))
validate_capability_graph-IsValidated_example =
    validate_capability_graph-IsValidated chain ("capability:state-core" ∷ [])
