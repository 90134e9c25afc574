-- ===== src/Capabilities/Order.antt =====
-- What a successful check of packages/core/src/registry/capability-graph.ts says of the dependencies.
use rpenginext.Common.{
  ℕ, zero, suc, refl, Option, none, some, List, [], ◌∷◌, String, Dict, Has, Has-contains, contains,
  All, Bool-cases, inl, inr,
}
use rpenginext.Contracts.{Result, ok, err}
use rpenginext.Capabilities.{deps_in, check_each, finish, cycle_check}

module _ (edges : Dict (List String)) where
  -- Each member stands before what it depends on: the list is an order of the modules by their
  -- dependencies, from the last to the first.
  abbrev pub IsClosed : List String → Type 0
  IsClosed [] = Unit
  IsClosed (x ∷ xs) = All (λ d. Has d xs) (deps_in x edges) × IsClosed xs

  -- A longer closed list.
  pub record IsLonger (old new : List String) : Type 0 where
    pub closed : IsClosed new
    pub keeps : (k : String) → Has k old → Has k new

  -- What a check made of a closed list of visited modules, for the module `id`.
  abbrev pub Visits : String → List String → Option (Result (List String)) → Type 0
  Visits id old none = Unit
  Visits id old (some (err e)) = Unit
  Visits id old (some (ok new)) = IsLonger old new × Has id new

  abbrev pub VisitsAll : List String → List String → Option (Result (List String)) → Type 0
  VisitsAll ds old none = Unit
  VisitsAll ds old (some (err e)) = Unit
  VisitsAll ds old (some (ok new)) = IsLonger old new × All (λ d. Has d new) ds

  kept_by :
      (d : String) (ds old next : List String) (r : Option (Result (List String)))
      → IsLonger old next
      → Has d next
      → VisitsAll ds next r
      → VisitsAll (d ∷ ds) old r
  kept_by d ds old next none h here later = tt
  kept_by d ds old next (some (err e)) h here later = tt
  kept_by d ds old next (some (ok new)) h here (longer, all) = (
    record { closed = longer.closed; keeps = λ k found. longer.keeps k (h.keeps k found) },
    (longer.keeps d here, all),
  )

  module _ (step : String → List String → Option (Result (List String)))
      (visits : (d : String) (old : List String) → IsClosed old → Visits d old (step d old)) where
    stepped :
        (d : String) (ds old : List String) (r : Option (Result (List String)))
        → Visits d old r
        → ((next : List String) → IsClosed next → VisitsAll ds next (check_each step ds next))
        → VisitsAll (d ∷ ds) old (elim r [
          | none ↦ none
          | some q ↦ elim q [ err e ↦ some (err e) | ok next ↦ check_each step ds next ]
        ])
    stepped d ds old none h later = tt
    stepped d ds old (some (err e)) h later = tt
    stepped d ds old (some (ok next)) (longer, here) later =
        kept_by d ds old next (check_each step ds next) longer here (later next longer.closed)

    pub check_each-VisitsAll :
        (ds old : List String) → IsClosed old → VisitsAll ds old (check_each step ds old)
    unfolding check_each
    check_each-VisitsAll [] old h = (record { closed = h; keeps = λ k found. found }, tt)
    check_each-VisitsAll (d ∷ ds) old h =
        stepped d ds old (step d old) (visits d old h) (check_each-VisitsAll ds)

  finish-Visits :
      (id : String) (old : List String) (r : Option (Result (List String)))
      → VisitsAll (deps_in id edges) old r
      → Visits id old (finish id r)
  finish-Visits id old none h = tt
  finish-Visits id old (some (err e)) h = tt
  finish-Visits id old (some (ok new)) (longer, all) = (
    record { closed = (all, longer.closed); keeps = λ k found. inr (longer.keeps k found) },
    inl refl,
  )

  pub cycle_check-Visits :
      (fuel : ℕ) (visiting : List String) (id : String) (old : List String)
      → IsClosed old
      → Visits id old (cycle_check edges fuel visiting id old)
  unfolding cycle_check
  cycle_check-Visits zero visiting id old h = tt
  cycle_check-Visits (suc fuel) visiting id old h = elim (Bool-cases (contains id old)) [
    | inl found ↦
        rw found (record { closed = h; keeps = λ k here. here }, Has-contains id old found)
    | inr new ↦ rw new (elim (Bool-cases (contains id visiting)) [
      | inl cyclic ↦ rw cyclic tt
      | inr fine ↦ rw fine (
          finish-Visits id old _ (
            check_each-VisitsAll (cycle_check edges fuel (id ∷ visiting))
              (cycle_check-Visits fuel (id ∷ visiting)) (deps_in id edges) old h))
    ])
  ]
