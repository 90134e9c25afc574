-- ===== src/Pipeline/Conflicts/Answers.antt =====
-- Which commands come out of `resolveConflicts` of packages/core/src/pipeline/turn-pipeline.ts.
use rpenginext.Common.{
  ◌≡◌, subst, Bool, Option, none, some, List, [], ◌∷◌, String, ◌==◌, filter, length, leb, All,
  All-append, arith, Bool-cases, inl, inr,
}
use rpenginext.Contracts.{⊤, ok, WorldState, StateCommand, >>=-ok, ok-injective}
use rpenginext.Pipeline.{Owned, ContributionIndex}
use rpenginext.ConflictPaths.{ConflictKeyDefinition}
use rpenginext.Pipeline.Conflicts.{
  Resolver, first_resolver, find_resolver, preferred, matching, resolve_with, resolve_key,
  resolve_keys, resolve_conflicts,
}

All-filter :
    {A : Type 0} (P : A → Type 0) (keep : A → Bool) (xs : List A)
    → All P xs
    → All P (filter keep xs)
All-filter P keep [] h = tt
All-filter P keep (x ∷ xs) h = elim (Bool-cases (keep x)) [
  | inl kept ↦ rw kept (h.0, All-filter P keep xs h.1)
  | inr left ↦ rw left (All-filter P keep xs h.1)
]

module _ (P : StateCommand → Type 0) where
  -- Every answer of the resolver has commands of `P` only, given commands of `P`.
  abbrev pub AnswersIn : Resolver → Type 0
  AnswersIn r =
      (key : String) (cs answer : List StateCommand) (draft : WorldState)
      → All P cs
      → r.value key cs draft ≡ ok answer
      → All P answer

  abbrev AnswersOption : Option Resolver → Type 0
  AnswersOption none = ⊤
  AnswersOption (some r) = AnswersIn r

  find-AnswersOption :
      (owner : String) (rs : List Resolver)
      → All AnswersIn rs
      → AnswersOption (find_resolver owner rs)
  find-AnswersOption owner [] h = tt
  find-AnswersOption owner (r ∷ rs) h = elim (Bool-cases (r.module_id == owner)) [
    | inl same ↦ rw same h.0
    | inr other ↦ rw other (find-AnswersOption owner rs h.1)
  ]

  preferred-AnswersOption :
      (owner : String) (rs : List Resolver) → All AnswersIn rs → AnswersOption (preferred owner rs)
  preferred-AnswersOption owner rs h =
      choose (find_resolver owner rs) rs (find-AnswersOption owner rs h) h
    where
      choose :
          (found : Option Resolver) (rs : List Resolver)
          → AnswersOption found
          → All AnswersIn rs
          → AnswersOption (elim found [ some r ↦ some r | none ↦ first_resolver rs ])
      choose (some r) rs f h = f
      choose none [] f h = tt
      choose none (r ∷ rs) f h = h.0

  resolve_with-All :
      (r : Option Resolver) (key : ConflictKeyDefinition) (working out : List StateCommand)
      (draft : WorldState)
      → AnswersOption r
      → All P working
      → resolve_with r key working draft ≡ ok out
      → All P out
  unfolding resolve_with
  resolve_with-All none key working out draft a h e = absurd (ground arith)
  resolve_with-All (some r) key working out draft a h e =
      let (answer, answered, ends) = >>=-ok (r.value key.id (matching key working) draft) _ e in
      subst (All P) (ok-injective ends) (
        All-append P _ answer (All-filter P _ working h)
          (a key.id (matching key working) answer draft (All-filter P _ working h) answered))

  resolve_key-All :
      (rs : List Resolver) (k : Owned ConflictKeyDefinition) (working out : List StateCommand)
      (draft : WorldState)
      → All AnswersIn rs
      → All P working
      → resolve_key rs k working draft ≡ ok out
      → All P out
  unfolding resolve_key
  resolve_key-All rs k working out draft a h e =
      elim (Bool-cases (leb (length (matching k.value working)) 1)) [
        | inl few ↦ subst (All P) (ok-injective (rw few at e)) h
        | inr many ↦
            resolve_with-All (preferred k.module_id rs) k.value working out draft
              (preferred-AnswersOption k.module_id rs a) h (rw many at e)
      ]

  resolve_keys-All :
      (rs : List Resolver) (ks : List (Owned ConflictKeyDefinition))
      (working out : List StateCommand) (draft : WorldState)
      → All AnswersIn rs
      → All P working
      → resolve_keys rs ks working draft ≡ ok out
      → All P out
  unfolding resolve_keys
  resolve_keys-All rs [] working out draft a h e = subst (All P) (ok-injective e) h
  resolve_keys-All rs (k ∷ ks) working out draft a h e =
      let (next, resolved, ends) = >>=-ok (resolve_key rs k working draft) _ e in
      resolve_keys-All rs ks next out draft a (resolve_key-All rs k working next draft a h resolved)
        ends

-- What holds of each proposed command, such as that its module may write its slice, holds of each
-- command after the conflicts are resolved, when the resolvers answer such commands only. The stage
-- itself does not check what they answer.
pub resolve_conflicts-All :
    (P : StateCommand → Type 0) (index : ContributionIndex) (commands out : List StateCommand)
    (draft : WorldState)
    → All (AnswersIn P) index.conflict_resolvers
    → All P commands
    → resolve_conflicts index commands draft ≡ ok out
    → All P out
unfolding resolve_conflicts
resolve_conflicts-All P index commands out draft a h e =
    resolve_keys-All P index.conflict_resolvers index.conflict_keys commands out draft a h e
