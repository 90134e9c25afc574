-- ===== src/Capabilities.antt =====
-- packages/core/src/registry/capability-graph.ts: what the modules provide and require. The recursion of
-- `cycleCheck` is on fuel, one more than there are modules; `none` is the fuel at its end. The set
-- `visiting` is a parameter of the recursion, since a call that succeeds leaves it as it was; `visited`
-- has its newest member first.
pub mod Order
pub mod Fuel
pub mod Valid
mod Tests
use Prim.Native.String.{◌++◌}
use rpenginext.Common.{
  ℕ, zero, suc, ◌≡◌, refl, Bool, true, false, not, ◌&&◌, Option, none, some, List, [], ◌∷◌, map,
  String, ◌==◌, Dict, lookup, has_key, insert, keys, contains, length, leb, if◌then◌else◌,
}
use mathlib.Core.List
use rpenginext.Contracts.{ℤ, pos, negsuc, Result, ok, err, Failure, failure, failure_caused_by, ⊤}

pub record ModuleManifest : Type 0 where
  pub id : String
  pub provides : List String
  pub requires : List String
  pub priority : ℤ

pub record CapabilityGraphResult : Type 0 where
  pub provided : List String
  pub order : List String

-- `Set.add`
abbrev pub add_to : String → List String → List String
add_to x xs = if contains x xs then xs else List.◌++◌ xs (x ∷ [])

abbrev pub add_all : List String → List String → List String
add_all [] xs = xs
add_all (c ∷ cs) xs = add_all cs (add_to c xs)

abbrev pub provided_by : List ModuleManifest → List String → List String
provided_by [] provided = provided
provided_by (m ∷ ms) provided = provided_by ms (add_all m.provides provided)

abbrev missing : ModuleManifest → String → Failure
missing m req =
    failure_caused_by "MODULE_REQUIRES_MISSING"
      ("module \""
        ++ (m.id
            ++ ("\" requires missing capability \""
                ++ (req
                    ++ "\". Hint: load a module that provides it or drop the requires entry."))))
      (m.id ∷ [])

unfoldable pub check_requires : ModuleManifest → List String → List String → Result ⊤
check_requires m [] provided = ok tt
check_requires m (r ∷ rs) provided =
    let rest = check_requires m rs provided in
    if contains r provided then rest else err (missing m r)

abbrev pub and_also : Result ⊤ → Result ⊤ → Result ⊤
and_also (ok u) second = second
and_also (err e) second = err e

unfoldable pub check_all_requires : List ModuleManifest → List String → Result ⊤
unfolding check_requires
check_all_requires [] provided = ok tt
check_all_requires (m ∷ ms) provided =
    and_also (check_requires m m.requires provided) (check_all_requires ms provided)

abbrev pub module_provides : List ModuleManifest → Dict (List String) → Dict (List String)
module_provides [] d = d
module_provides (m ∷ ms) d = module_provides ms (insert m.id m.provides d)

-- The other modules that provide `req`.
abbrev pub providers : String → String → Dict (List String) → List String → List String
providers id req [] deps = deps
providers id req ((other, caps) ∷ d) deps =
    providers id req d (if not (other == id) && contains req caps then add_to other deps else deps)

abbrev pub all_providers : String → List String → Dict (List String) → List String → List String
all_providers id [] d deps = deps
all_providers id (r ∷ rs) d deps = all_providers id rs d (providers id r d deps)

abbrev pub deps_in : String → Dict (List String) → List String
deps_in id edges = elim (lookup id edges) [ some deps ↦ deps | none ↦ [] ]

abbrev pub edges_of :
    List ModuleManifest → Dict (List String) → Dict (List String) → Dict (List String)
edges_of [] provides edges = edges
edges_of (m ∷ ms) provides edges =
    edges_of ms provides
      (insert m.id (all_providers m.id m.requires provides (deps_in m.id edges)) edges)

abbrev cycle : String → Failure
cycle id = failure "CAPABILITY_CYCLE" ("capability dependency cycle at " ++ id)

-- A step over the dependencies, with the members visited so far.
unfoldable pub check_each :
    (String → List String → Option (Result (List String)))
    → List String
    → List String
    → Option (Result (List String))
check_each step [] visited = some (ok visited)
check_each step (d ∷ ds) visited = elim (step d visited) [
  | none ↦ none
  | some r ↦ elim r [ err e ↦ some (err e) | ok next ↦ check_each step ds next ]
]

abbrev pub finish : String → Option (Result (List String)) → Option (Result (List String))
finish id none = none
finish id (some (err e)) = some (err e)
finish id (some (ok visited)) = some (ok (id ∷ visited))

module _ (edges : Dict (List String)) where
  unfoldable pub cycle_check :
      ℕ → List String → String → List String → Option (Result (List String))
  unfolding check_each
  cycle_check zero visiting id visited = none
  cycle_check (suc fuel) visiting id visited =
      let below =
        finish id (check_each (cycle_check fuel (id ∷ visiting)) (deps_in id edges) visited) in
      if contains id visited
      then some (ok visited)
      else if contains id visiting
      then some (err (cycle id))
      else below

abbrev leb_int : ℤ → ℤ → Bool
leb_int (pos a) (pos b) = leb a b
leb_int (negsuc a) (negsuc b) = leb b a
leb_int (negsuc a) (pos b) = true
leb_int (pos a) (negsuc b) = false

-- The sort is stable.
abbrev pub insert_module : ModuleManifest → List ModuleManifest → List ModuleManifest
insert_module m [] = m ∷ []
insert_module m (x ∷ xs) =
    let later = insert_module m xs in
    if leb_int m.priority x.priority then m ∷ x ∷ xs else x ∷ later

abbrev pub sort_modules : List ModuleManifest → List ModuleManifest
sort_modules [] = []
sort_modules (m ∷ ms) = insert_module m (sort_modules ms)

abbrev pub ids : List ModuleManifest → List String
ids = map (λ m. m.id)

abbrev pub graph : List ModuleManifest → Dict (List String)
graph ms = edges_of ms (module_provides ms []) []

unfoldable pub check_cycles : List ModuleManifest → Option (Result (List String))
unfolding cycle_check
check_cycles ms = check_each (cycle_check (graph ms) (suc (length (graph ms))) []) (ids ms) []

abbrev pub concluded :
    List ModuleManifest
    → List String
    → Option (Result (List String))
    → Option (Result CapabilityGraphResult)
concluded ms provided none = none
concluded ms provided (some (err e)) = some (err e)
concluded ms provided (some (ok visited)) =
    some (ok (record { provided = provided; order = ids (sort_modules ms) }))

abbrev pub when_required :
    Result ⊤ → Option (Result CapabilityGraphResult) → Option (Result CapabilityGraphResult)
when_required (err e) rest = some (err e)
when_required (ok u) rest = rest

unfoldable pub validate_capability_graph :
    List ModuleManifest → List String → Option (Result CapabilityGraphResult)
unfolding check_all_requires check_cycles
validate_capability_graph ms extra =
    let provided = provided_by ms (add_all extra []) in
    when_required (check_all_requires ms provided) (concluded ms provided (check_cycles ms))
