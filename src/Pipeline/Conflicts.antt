-- ===== src/Pipeline/Conflicts.antt =====
-- `resolveConflicts` of packages/core/src/pipeline/turn-pipeline.ts.
pub mod Answers
mod Tests
use Prim.Native.String.{◌++◌}
use mathlib.Core.List
use rpenginext.Common.{
  ◌≡◌, refl, not, Option, none, some, List, [], ◌∷◌, map, String, ◌==◌, filter, length, leb, ◌≤◌,
  leb_iff, contains, if◌then◌else◌, All, arith, Bool-cases, inl, inr, ◌↔◌,
}
use rpenginext.Contracts.{
  str, arr, item, field, end, obj, Result, ok, err, Failure, failure_details, WorldState,
  StateCommand, ◌>>=◌,
}
use rpenginext.ConflictPaths.{ConflictKeyDefinition, command_touches_conflict_key}
use rpenginext.Pipeline.{Owned, ContributionIndex}

abbrev pub Resolver : Type 0
Resolver = Owned (String → List StateCommand → WorldState → Result (List StateCommand))

-- `find(...) ?? resolvers[0]`
abbrev pub first_resolver : List Resolver → Option Resolver
first_resolver [] = none
first_resolver (r ∷ rs) = some r

abbrev pub find_resolver : String → List Resolver → Option Resolver
find_resolver owner [] = none
find_resolver owner (r ∷ rs) = if r.module_id == owner then some r else find_resolver owner rs

abbrev pub preferred : String → List Resolver → Option Resolver
preferred owner rs = elim (find_resolver owner rs) [ some r ↦ some r | none ↦ first_resolver rs ]

abbrev pub matching : ConflictKeyDefinition → List StateCommand → List StateCommand
matching key = filter (λ c. command_touches_conflict_key c key)

abbrev pub conflict_failure : ConflictKeyDefinition → List StateCommand → Failure
conflict_failure key cs =
    failure_details "COMMAND_CONFLICT"
      ("conflicting writes for "
        ++ (key.slice ++ (":" ++ (key.path ++ " without ConflictResolver"))))
      (some (
        obj (
          field "conflictKey" (str key.id)
            (field "commandIds" (arr (item (map (λ c. str c.command_id) cs))) end))))

-- The commands of the conflict leave, by their ids; what the resolver answers goes last.
abbrev pub replace_matching :
    List StateCommand → List StateCommand → List StateCommand → List StateCommand
replace_matching working matched answer =
    let ids = map (λ c. c.command_id) matched in
    List.◌++◌ (filter (λ c. not (contains c.command_id ids)) working) answer

unfoldable pub resolve_with :
    Option Resolver
    → ConflictKeyDefinition
    → List StateCommand
    → WorldState
    → Result (List StateCommand)
resolve_with none key working draft = err (conflict_failure key (matching key working))
resolve_with (some r) key working draft = do
  answer ← r.value key.id (matching key working) draft
  ok (replace_matching working (matching key working) answer)

unfoldable pub resolve_key :
    List Resolver
    → Owned ConflictKeyDefinition
    → List StateCommand
    → WorldState
    → Result (List StateCommand)
unfolding resolve_with
resolve_key rs owned working draft =
    if leb (length (matching owned.value working)) 1
    then ok working
    else resolve_with (preferred owned.module_id rs) owned.value working draft

unfoldable pub resolve_keys :
    List Resolver
    → List (Owned ConflictKeyDefinition)
    → List StateCommand
    → WorldState
    → Result (List StateCommand)
resolve_keys rs [] working draft = ok working
resolve_keys rs (k ∷ ks) working draft = do
  next ← resolve_key rs k working draft
  resolve_keys rs ks next draft

-- With no key the loop is empty, so that the early return is the loop's result.
unfoldable pub resolve_conflicts :
    ContributionIndex → List StateCommand → WorldState → Result (List StateCommand)
resolve_conflicts index commands draft =
    resolve_keys index.conflict_resolvers index.conflict_keys commands draft

-- At most one of the commands touches the key.
abbrev pub IsFree : List StateCommand → Owned ConflictKeyDefinition → Type 0
IsFree commands owned = length (matching owned.value commands) ≤ 1

resolve_keys-free :
    (rs : List Resolver) (ks : List (Owned ConflictKeyDefinition)) (commands : List StateCommand)
    (draft : WorldState)
    → All (IsFree commands) ks
    → resolve_keys rs ks commands draft ≡ ok commands
unfolding resolve_keys resolve_key
resolve_keys-free rs [] commands draft h = refl
resolve_keys-free rs (k ∷ ks) commands draft h =
    rw ((leb_iff (length (matching k.value commands)) 1).1 h.0)
      (resolve_keys-free rs ks commands draft h.1)

resolve_keys-IsFree :
    (ks : List (Owned ConflictKeyDefinition)) (commands out : List StateCommand)
    (draft : WorldState)
    → resolve_keys [] ks commands draft ≡ ok out
    → All (IsFree commands) ks
unfolding resolve_keys resolve_key resolve_with
resolve_keys-IsFree [] commands out draft h = tt
resolve_keys-IsFree (k ∷ ks) commands out draft h =
    elim (Bool-cases (leb (length (matching k.value commands)) 1)) [
      | inl few ↦ (
        (leb_iff (length (matching k.value commands)) 1).0 few,
        resolve_keys-IsFree ks commands out draft (rw few at h),
      )
      | inr many ↦ absurd (ground arith)
    ]

-- Without a resolver, the stage's commands pass, and unchanged, exactly when no declared conflict
-- key is touched by two of them.
pub resolve_conflicts-IsFree :
    (index : ContributionIndex) (commands : List StateCommand) (draft : WorldState)
    → index.conflict_resolvers ≡ []
    → (resolve_conflicts index commands draft ≡ ok commands)
      ↔ All (IsFree commands) index.conflict_keys
unfolding resolve_conflicts
resolve_conflicts-IsFree index commands draft bare = (
  λ passed. resolve_keys-IsFree index.conflict_keys commands commands draft (rw bare at passed),
  resolve_keys-free index.conflict_resolvers index.conflict_keys commands draft,
)
