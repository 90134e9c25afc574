-- ===== src/Capabilities/Valid.antt =====
-- `validateCapabilityGraph` of packages/core/src/registry/capability-graph.ts as a whole.
use rpenginext.Common.{
  ◌≡◌, refl, Option, none, some, List, [], ◌∷◌, String, Has, Has-contains, contains, All,
  Bool-cases, inl, inr, arith,
}
use rpenginext.Contracts.{Result, ok, err, ⊤}
use rpenginext.Capabilities.{
  ModuleManifest, CapabilityGraphResult, add_all, provided_by, check_requires, and_also,
  check_all_requires, ids, graph, check_cycles, concluded, when_required, validate_capability_graph,
}
use rpenginext.Capabilities.Order.{IsClosed}
use rpenginext.Capabilities.Fuel.{IsOrdered, check_cycles-IsOrdered}

-- All that the module requires is provided.
abbrev pub IsServed : List String → ModuleManifest → Type 0
IsServed provided m = All (λ r. Has r provided) m.requires

check_requires-Has :
    (m : ModuleManifest) (rs provided : List String)
    → check_requires m rs provided ≡ ok tt
    → All (λ r. Has r provided) rs
unfolding check_requires
check_requires-Has m [] provided h = tt
check_requires-Has m (r ∷ rs) provided h = elim (Bool-cases (contains r provided)) [
  | inl found ↦ (Has-contains r provided found, check_requires-Has m rs provided (rw found at h))
  | inr lost ↦ absurd (ground arith)
]

both_ok :
    (first second : Result ⊤) → and_also first second ≡ ok tt → (first ≡ ok tt) × (second ≡ ok tt)
both_ok (ok u) second h = (refl, h)
both_ok (err e) second h = absurd (ground arith)

check_all_requires-IsServed :
    (ms : List ModuleManifest) (provided : List String)
    → check_all_requires ms provided ≡ ok tt
    → All (IsServed provided) ms
unfolding check_all_requires
check_all_requires-IsServed [] provided h = tt
check_all_requires-IsServed (m ∷ ms) provided h =
    let (first, second) =
      both_ok (check_requires m m.requires provided) (check_all_requires ms provided) h in
    (check_requires-Has m m.requires provided first, check_all_requires-IsServed ms provided second)

-- How the validation of the graph ends.
abbrev pub IsValidated : List ModuleManifest → Option (Result CapabilityGraphResult) → Type 0
IsValidated ms none = ⊥
IsValidated ms (some (err e)) = Unit
IsValidated ms (some (ok r)) =
    All (IsServed r.provided) ms
    × ((visited : List String) × IsClosed (graph ms) visited × All (λ i. Has i visited) (ids ms))

concluded-IsValidated :
    (ms : List ModuleManifest) (provided : List String) (o : Option (Result (List String)))
    → All (IsServed provided) ms
    → IsOrdered ms o
    → IsValidated ms (concluded ms provided o)
concluded-IsValidated ms provided none served h = h
concluded-IsValidated ms provided (some (err e)) served h = tt
concluded-IsValidated ms provided (some (ok visited)) served h = (served, (visited, h.0, h.1))

required-IsValidated :
    (ms : List ModuleManifest) (provided : List String) (r : Result ⊤)
    → check_all_requires ms provided ≡ r
    → IsValidated ms (when_required r (concluded ms provided (check_cycles ms)))
required-IsValidated ms provided (err e) h = tt
required-IsValidated ms provided (ok u) h =
    concluded-IsValidated ms provided (check_cycles ms) (check_all_requires-IsServed ms provided h)
      (check_cycles-IsOrdered ms)

-- The validation ends within its fuel. If it succeeds, every capability that a module requires is
-- provided, and there is a list with all the modules in which each stands before all that the graph
-- makes it depend on, so that the dependencies have no cycle.
pub validate_capability_graph-IsValidated :
    (ms : List ModuleManifest) (extra : List String)
    → IsValidated ms (validate_capability_graph ms extra)
unfolding validate_capability_graph
validate_capability_graph-IsValidated ms extra =
    let provided = provided_by ms (add_all extra []) in
    required-IsValidated ms provided (check_all_requires ms provided) refl
