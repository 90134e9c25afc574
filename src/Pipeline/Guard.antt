-- ===== src/Pipeline/Guard.antt =====
-- `stageGuard` of packages/core/src/pipeline/turn-pipeline.ts. The windows of `ctx.propose` and of
-- tasks are shut in this stage, so that the handlers are functions; what one writes into `ctx.extras`
-- itself is not modelled. A cost is an integer.
pub mod Outcomes
mod Tests
use Prim.Native.String.{◌++◌}
use mathlib.Core.List
use rpenginext.Common.{
  ℕ, suc, ◌+◌, ◌-◌, ◌≡◌, refl, Bool, true, false, Option, none, some, List, [], ◌∷◌, String, Dict,
  lookup, insert, ltb, if◌then◌else◌,
}
use rpenginext.Contracts.{
  ℤ, pos, negsuc, num, JsonObject, end, field, put_field, Result, ok, err, Failure,
  failure_caused_by, or_text, ⊤, StateCommand,
}
use rpenginext.Pipeline.{Owned, TurnScratch}
use rpenginext.Pipeline.Steps.{Step, then_on, ◌>>=◌, ◌>>◌, done, lift, modify}

pub data GuardDecision : Type 0 where
  allows : GuardDecision
  -- the code and the message, empty where they are missing
  denies : String → String → GuardDecision

pub data PolicyDecision : Type 0 where
  permits : PolicyDecision
  forbids : String → PolicyDecision

-- The action and the intent are JSON objects.
pub record GuardPorts : Type 0 where
  pub prerequisite_checkers : List (Owned (JsonObject → Result (List String)))
  pub resource_cost_evaluators : List (Owned (JsonObject → Result (Dict ℤ)))
  pub guards : List (Owned (JsonObject → JsonObject → Result GuardDecision))
  pub soft_guards : List (Owned (JsonObject → JsonObject → Result (List String)))
  pub policy_rules : List (Owned (JsonObject → List StateCommand → Result PolicyDecision))

-- `missing.join(", ")`
abbrev join_texts : List String → String
join_texts [] = ""
join_texts (x ∷ []) = x
join_texts (x ∷ y ∷ ys) = x ++ (", " ++ join_texts (y ∷ ys))

abbrev missing_failure : String → List String → Failure
missing_failure module_id missing =
    failure_caused_by "GUARD_REJECTED" ("missing prerequisites: " ++ join_texts missing)
      (module_id ∷ [])

abbrev pub settle_missing : String → Result (List String) → Result ⊤
settle_missing module_id (err e) = err e
settle_missing module_id (ok []) = ok tt
settle_missing module_id (ok (m ∷ ms)) = err (missing_failure module_id (m ∷ ms))

abbrev pub settle_guard : String → Result GuardDecision → Result ⊤
settle_guard module_id (err e) = err e
settle_guard module_id (ok allows) = ok tt
settle_guard module_id (ok (denies code message)) = err (
    failure_caused_by (or_text code "GUARD_REJECTED") (or_text message "action rejected by guard")
      (module_id ∷ []))

abbrev pub settle_policy : String → Result PolicyDecision → Result ⊤
settle_policy module_id (err e) = err e
settle_policy module_id (ok permits) = ok tt
settle_policy module_id (ok (forbids reason)) =
    err
      (failure_caused_by "GUARD_REJECTED" (or_text reason "policy denied action") (module_id ∷ []))

-- `settle` of each of a list of handlers, up to the first failure.
unfoldable pub check_owners : {A : Type 0} → (Owned A → Result ⊤) → List (Owned A) → Result ⊤
check_owners settle [] = ok tt
check_owners settle (o ∷ os) = elim (settle o) [ err e ↦ err e | ok u ↦ check_owners settle os ]

-- a - b - 1 where b < a, and its negative else
abbrev minus_suc : ℕ → ℕ → ℤ
minus_suc a b = if ltb b a then pos (a - (b + 1)) else negsuc (b - a)

abbrev add_int : ℤ → ℤ → ℤ
add_int (pos a) (pos b) = pos (a + b)
add_int (negsuc a) (negsuc b) = negsuc (a + b + 1)
add_int (pos a) (negsuc b) = minus_suc a b
add_int (negsuc a) (pos b) = minus_suc b a

abbrev or_zero : Option ℤ → ℤ
or_zero none = pos 0
or_zero (some n) = n

abbrev merge_costs : Dict ℤ → Dict ℤ → Dict ℤ
merge_costs [] merged = merged
merge_costs ((k, n) ∷ costs) merged =
    merge_costs costs (insert k (add_int (or_zero (lookup k merged)) n) merged)

unfoldable pub gather_costs :
    JsonObject → List (Owned (JsonObject → Result (Dict ℤ))) → Dict ℤ → Result (Dict ℤ)
gather_costs intent [] merged = ok merged
gather_costs intent (o ∷ os) merged = elim (o.value intent) [
  | err e ↦ err e
  | ok costs ↦ gather_costs intent os (merge_costs costs merged)
]

abbrev costs_object : Dict ℤ → JsonObject
costs_object [] = end
costs_object ((k, n) ∷ costs) = field k (num n) (costs_object costs)

abbrev pub declare_costs : Dict ℤ → TurnScratch → TurnScratch
declare_costs [] s = s
declare_costs (c ∷ cs) s = record s {
  extras = insert "core.resourceCosts" (costs_object (c ∷ cs)) s.extras;
}

abbrev pub add_warnings : List String → TurnScratch → TurnScratch
add_warnings ws s = record s { warnings = List.◌++◌ s.warnings ws }

unfoldable pub soften :
    JsonObject
    → JsonObject
    → List (Owned (JsonObject → JsonObject → Result (List String)))
    → Step TurnScratch ⊤
soften action intent [] = done tt
soften action intent (o ∷ os) = do
  ws ← lift (o.value action intent)
  modify (add_warnings ws)
  soften action intent os

module _ (ports : GuardPorts) (action intent : JsonObject) where
  abbrev pub check_prerequisites : Result ⊤
  check_prerequisites =
      check_owners (λ o. settle_missing o.module_id (o.value intent)) ports.prerequisite_checkers

  abbrev pub check_guards : Result ⊤
  check_guards = check_owners (λ o. settle_guard o.module_id (o.value action intent)) ports.guards

  abbrev pub check_policies : List StateCommand → Result ⊤
  check_policies proposed =
      check_owners (λ o. settle_policy o.module_id (o.value intent proposed)) ports.policy_rules

  unfoldable pub stage_guard : Step TurnScratch ⊤
  unfolding check_owners gather_costs soften
  stage_guard = do
    lift check_prerequisites
    merged ← lift (gather_costs intent ports.resource_cost_evaluators [])
    modify (declare_costs merged)
    lift check_guards
    soften action intent ports.soft_guards
    λ s. (check_policies s.proposed_commands, s)
