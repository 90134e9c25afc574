-- ===== src/Capabilities/Fuel.antt =====
-- The recursion of `cycleCheck` (packages/core/src/registry/capability-graph.ts) against its fuel.
use rpenginext.Common.{
  ℕ, zero, suc, ◌+◌, ◌≤◌, ◌<◌, ◌≡◌, refl, sym, ◌∙◌, ◌≢◌, false, Option, none, some, List, [], ◌∷◌,
  String, ◌==◌, eq_iff, Dict, lookup, keys, Has, contains, length, All, Bool-cases, Option-cases,
  inl, inr, ◌⊎◌, arith, if◌then◌else◌,
}
use rpenginext.Contracts.{Result, ok, err}
use rpenginext.Capabilities.{
  ModuleManifest, deps_in, check_each, finish, cycle_check, ids, graph, check_cycles,
}
use rpenginext.Capabilities.Order.{IsClosed, VisitsAll, check_each-VisitsAll, cycle_check-Visits}

abbrev without : String → List String → List String
without x [] = []
without x (y ∷ ys) = let rest = without x ys in if y == x then rest else y ∷ rest

without-le : (x : String) (ys : List String) → length (without x ys) ≤ length ys
without-le x [] = omega arith
without-le x (y ∷ ys) = ground (arith, without-le x ys)

without-lt : (x : String) (ys : List String) → Has x ys → length (without x ys) < length ys
without-lt x [] h = absurd h
without-lt x (y ∷ ys) (inl same) = ground (arith, eq_iff y x, without-le x ys)
without-lt x (y ∷ ys) (inr later) = ground (arith, without-lt x ys later)

Has-without : (x z : String) (ys : List String) → z ≢ x → Has z ys → Has z (without x ys)
Has-without x z [] other h = absurd h
Has-without x z (y ∷ ys) other (inl same) = elim (Bool-cases (y == x)) [
  | inl e ↦ absurd (other (sym same ∙ (eq_iff y x).0 e))
  | inr e ↦ rw e (inl same)
]
Has-without x z (y ∷ ys) other (inr later) = elim (Bool-cases (y == x)) [
  | inl e ↦ rw e (Has-without x z ys other later)
  | inr e ↦ rw e (inr (Has-without x z ys other later))
]

-- No text stands twice.
abbrev IsApart : List String → Type 0
IsApart [] = Unit
IsApart (x ∷ xs) = (contains x xs ≡ false) × IsApart xs

All-without :
    (x : String) (xs ks : List String)
    → contains x xs ≡ false
    → All (λ v. Has v ks) xs
    → All (λ v. Has v (without x ks)) xs
All-without x [] ks h all = tt
All-without x (y ∷ ys) ks h all = (
  Has-without x y ks (λ same. absurd (ground (arith, eq_iff y x, same))) all.0,
  All-without x ys ks (ground arith) all.1,
)

-- Different members of a list are no more than it has.
length-IsApart : (xs ks : List String) → IsApart xs → All (λ v. Has v ks) xs → length xs ≤ length ks
length-IsApart [] ks h all = omega arith
length-IsApart (x ∷ xs) ks h all = omega (
  arith,
  without-lt x ks all.0,
  length-IsApart xs (without x ks) h.1 (All-without x xs ks h.0 all.1),
)

abbrev Ends : Option (Result (List String)) → Type 0
Ends none = ⊥
Ends (some r) = Unit

stepped-Ends :
    (step : String → List String → Option (Result (List String))) (ds : List String)
    (o : Option (Result (List String)))
    → Ends o
    → ((next : List String) → Ends (check_each step ds next))
    → Ends (elim o [
      | none ↦ none
      | some r ↦ elim r [ err e ↦ some (err e) | ok next ↦ check_each step ds next ]
    ])
stepped-Ends step ds none e later = e
stepped-Ends step ds (some (err f)) e later = tt
stepped-Ends step ds (some (ok next)) e later = later next

check_each-Ends :
    (step : String → List String → Option (Result (List String))) (ds visited : List String)
    → ((d : String) (v : List String) → Ends (step d v))
    → Ends (check_each step ds visited)
unfolding check_each
check_each-Ends step [] visited h = tt
check_each-Ends step (d ∷ ds) visited h =
    stepped-Ends step ds (step d visited) (h d visited) (λ next. check_each-Ends step ds next h)

finish-Ends : (id : String) (o : Option (Result (List String))) → Ends o → Ends (finish id o)
finish-Ends id none h = h
finish-Ends id (some (err e)) h = tt
finish-Ends id (some (ok v)) h = tt

Has-keys :
    (k : String) (d : Dict (List String)) (v : List String) → lookup k d ≡ some v → Has k (keys d)
Has-keys k [] v h = absurd (ground arith)
Has-keys k ((j, w) ∷ d) v h = ground (arith, eq_iff j k, Has-keys k d v)

-- Only a module that the graph knows has dependencies.
deps-cases :
    (id : String) (edges : Dict (List String)) → (deps_in id edges ≡ []) ⊎ Has id (keys edges)
deps-cases id edges = elim (Option-cases (lookup id edges)) [
  | inl e ↦ inl (rw (e, deps_in) refl)
  | inr (v, e) ↦ inr (Has-keys id edges v e)
]

module _ (edges : Dict (List String)) where
  cycle_check-Ends :
      (fuel : ℕ) (visiting : List String) (id : String) (visited : List String)
      → IsApart visiting
      → All (λ v. Has v (keys edges)) visiting
      → length (keys edges) < length visiting + fuel
      → Ends (cycle_check edges fuel visiting id visited)
  unfolding cycle_check check_each
  cycle_check-Ends zero visiting id visited apart known enough =
      absurd (omega (arith, enough, length-IsApart visiting (keys edges) apart known))
  cycle_check-Ends (suc fuel) visiting id visited apart known enough =
      elim (Bool-cases (contains id visited)) [
        | inl found ↦ rw found tt
        | inr new ↦ rw new (elim (Bool-cases (contains id visiting)) [
          | inl cyclic ↦ rw cyclic tt
          | inr fine ↦ rw fine (
              finish-Ends id _ (elim (deps-cases id edges) [
                | inl alone ↦ rw alone tt
                | inr here ↦
                    check_each-Ends (cycle_check edges fuel (id ∷ visiting)) (deps_in id edges)
                      visited
                      (λ d v.
                        cycle_check-Ends fuel (id ∷ visiting) d v (fine, apart) (here, known)
                          (omega (arith, enough)))
              ]))
        ])
      ]

length-keys : (d : Dict (List String)) → length (keys d) ≡ length d
length-keys [] = refl
length-keys ((k, v) ∷ d) = omega (arith, length-keys d)

-- How the search for cycles ends.
abbrev pub IsOrdered : List ModuleManifest → Option (Result (List String)) → Type 0
IsOrdered ms none = ⊥
IsOrdered ms (some (err e)) = Unit
IsOrdered ms (some (ok visited)) = IsClosed (graph ms) visited × All (λ i. Has i visited) (ids ms)

Ends-IsOrdered :
    (ms : List ModuleManifest) (o : Option (Result (List String)))
    → Ends o
    → VisitsAll (graph ms) (ids ms) [] o
    → IsOrdered ms o
Ends-IsOrdered ms none e v = e
Ends-IsOrdered ms (some (err f)) e v = tt
Ends-IsOrdered ms (some (ok visited)) e (longer, all) = (longer.closed, all)

-- The search for cycles ends within its fuel, and what it visited is an order by dependencies.
pub check_cycles-IsOrdered : (ms : List ModuleManifest) → IsOrdered ms (check_cycles ms)
unfolding check_cycles
check_cycles-IsOrdered ms =
    let edges = graph ms in
    let step = cycle_check edges (suc (length edges)) [] in
    Ends-IsOrdered ms (check_each step (ids ms) [])
      (check_each-Ends step (ids ms) [] (λ d v.
        cycle_check-Ends edges (suc (length edges)) [] d v tt tt
          (omega (arith, length-keys edges))))
      (check_each-VisitsAll edges step (cycle_check-Visits edges (suc (length edges)) []) (ids ms)
        [] tt)
