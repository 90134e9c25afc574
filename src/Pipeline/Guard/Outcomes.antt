-- ===== src/Pipeline/Guard/Outcomes.antt =====
-- How `stageGuard` of packages/core/src/pipeline/turn-pipeline.ts ends.
use rpenginext.Common.{
  ◌≡◌, refl, sym, ◌∙◌, ap, subst, List, [], ◌∷◌, ◌++◌, append-nil, append_assoc, String, Dict, All,
  arith,
}
use rpenginext.Contracts.{ℤ, JsonObject, Result, ok, err, ⊤}
use rpenginext.Pipeline.{Owned, TurnScratch}
use rpenginext.Pipeline.Steps.{Step, then_on, ◌>>=◌, ◌>>◌, lift, modify}
use rpenginext.Pipeline.Guard.{
  GuardDecision, allows, denies, PolicyDecision, permits, forbids, GuardPorts, settle_missing,
  settle_guard, settle_policy, check_owners, gather_costs, declare_costs, add_warnings, soften,
  check_prerequisites, check_guards, check_policies, stage_guard,
}

missing_none : (id : String) (r : Result (List String)) → settle_missing id r ≡ ok tt → r ≡ ok []
missing_none id (err e) h = absurd (ground arith)
missing_none id (ok []) h = refl
missing_none id (ok (m ∷ ms)) h = absurd (ground arith)

guard_allows : (id : String) (r : Result GuardDecision) → settle_guard id r ≡ ok tt → r ≡ ok allows
guard_allows id (err e) h = absurd (ground arith)
guard_allows id (ok allows) h = refl
guard_allows id (ok (denies c m)) h = absurd (ground arith)

policy_permits :
    (id : String) (r : Result PolicyDecision) → settle_policy id r ≡ ok tt → r ≡ ok permits
policy_permits id (err e) h = absurd (ground arith)
policy_permits id (ok permits) h = refl
policy_permits id (ok (forbids r)) h = absurd (ground arith)

-- All passed, and what passing says of one of them.
check_owners-All :
    {A : Type 0} (settle : Owned A → Result ⊤) (P : Owned A → Type 0) (os : List (Owned A))
    → ((o : Owned A) → settle o ≡ ok tt → P o)
    → check_owners settle os ≡ ok tt
    → All P os
unfolding check_owners
check_owners-All settle P [] each h = tt
check_owners-All settle P (o ∷ os) each h =
    passed (check_owners-All settle P os each) (settle o) refl h
  where
    passed :
        (check_owners settle os ≡ ok tt → All P os)
        → (r : Result ⊤) → settle o ≡ r
        → elim r [ err e ↦ err e | ok u ↦ check_owners settle os ] ≡ ok tt
        → P o × All P os
    passed later (err e) q k = absurd (ground arith)
    passed later (ok tt) q k = (each o q, later k)

-- From `s` to `t` only warnings were added behind and costs declared.
pub record IsWarned (s t : TurnScratch) : Type 0 where
  pub messages : List String
  pub warnings : t.warnings ≡ s.warnings ++ messages
  pub proposed : t.proposed_commands ≡ s.proposed_commands
  pub accepted : t.accepted_commands ≡ s.accepted_commands

IsWarned-refl : (s : TurnScratch) → IsWarned s s
IsWarned-refl s = record {
  messages = [];
  warnings = sym (append-nil s.warnings);
  proposed = refl;
  accepted = refl;
}

declare_costs-IsWarned : (costs : Dict ℤ) (s : TurnScratch) → IsWarned s (declare_costs costs s)
declare_costs-IsWarned [] s = IsWarned-refl s
declare_costs-IsWarned (c ∷ cs) s = record {
  messages = [];
  warnings = sym (append-nil s.warnings);
  proposed = refl;
  accepted = refl;
}

IsWarned-trans : (s t u : TurnScratch) → IsWarned s t → IsWarned t u → IsWarned s u
IsWarned-trans s t u h k = record {
  messages = h.messages ++ k.messages;
  warnings =
      k.warnings
      ∙ (ap (λ l. l ++ k.messages) h.warnings ∙ append_assoc s.warnings h.messages k.messages);
  proposed = k.proposed ∙ h.proposed;
  accepted = k.accepted ∙ h.accepted;
}

softened :
    (ws : List String) (s : TurnScratch) (o : Result ⊤ × TurnScratch)
    → IsWarned (add_warnings ws s) o.1
    → IsWarned s o.1
softened ws s o h =
    IsWarned-trans s (add_warnings ws s) o.1
      (record { messages = ws; warnings = refl; proposed = refl; accepted = refl }) h

soften_on :
    (r : Result (List String)) (rest : Step TurnScratch ⊤) (s : TurnScratch)
    → ((t : TurnScratch) → IsWarned t (rest t).1)
    → IsWarned s (then_on (r, s) (λ ws. modify (add_warnings ws) >> rest)).1
soften_on (err e) rest s later = IsWarned-refl s
soften_on (ok ws) rest s later =
    softened ws s (rest (add_warnings ws s)) (later (add_warnings ws s))

soften-IsWarned :
    (action intent : JsonObject)
    (os : List (Owned (JsonObject → JsonObject → Result (List String)))) (s : TurnScratch)
    → IsWarned s (soften action intent os s).1
unfolding soften
soften-IsWarned action intent [] s = IsWarned-refl s
soften-IsWarned action intent (o ∷ os) s =
    soften_on (o.value action intent) (soften action intent os) s (soften-IsWarned action intent os)

module _ (ports : GuardPorts) (action intent : JsonObject) where
  -- The parts of a success.
  pub record IsGuarded (s : TurnScratch) : Type 0 where
    pub prerequisites : All (λ o. o.value intent ≡ ok []) ports.prerequisite_checkers
    pub guards : All (λ o. o.value action intent ≡ ok allows) ports.guards
    pub policies : All (λ o. o.value intent s.proposed_commands ≡ ok permits) ports.policy_rules

  abbrev pub Guards : TurnScratch → Result ⊤ × TurnScratch → Type 0
  Guards s (err e, t) = IsWarned s t
  Guards s (ok u, t) = IsGuarded s × IsWarned s t

  ended :
      (s t : TurnScratch) (r : Result ⊤)
      → check_prerequisites ports action intent ≡ ok tt
      → check_guards ports action intent ≡ ok tt
      → IsWarned s t
      → check_policies ports action intent t.proposed_commands ≡ r
      → Guards s (r, t)
  ended s t (err e) p g w q = w
  ended s t (ok u) p g w q = (
    record {
      prerequisites =
          check_owners-All _ _ ports.prerequisite_checkers
            (λ o. missing_none o.module_id (o.value intent)) p;
      guards =
          check_owners-All _ _ ports.guards (λ o. guard_allows o.module_id (o.value action intent))
            g;
      policies =
          subst (λ cs. All (λ o. o.value intent cs ≡ ok permits) ports.policy_rules) w.proposed
            (check_owners-All _ _ ports.policy_rules
              (λ o. policy_permits o.module_id (o.value intent t.proposed_commands)) q);
    },
    w,
  )

  softly :
      (s t : TurnScratch) (o : Result ⊤ × TurnScratch)
      → check_prerequisites ports action intent ≡ ok tt
      → check_guards ports action intent ≡ ok tt
      → IsWarned s t
      → IsWarned t o.1
      → Guards s (then_on o (λ u v. (check_policies ports action intent v.proposed_commands, v)))
  softly s t (err e, v) p g w k = IsWarned-trans s t v w k
  softly s t (ok u, v) p g w k =
      ended s v (check_policies ports action intent v.proposed_commands) p g
        (IsWarned-trans s t v w k) refl

  guarded :
      (s t : TurnScratch) (r : Result ⊤)
      → check_prerequisites ports action intent ≡ ok tt
      → IsWarned s t
      → check_guards ports action intent ≡ r
      → Guards s (
          then_on
            (r, t)
            (λ u.
              soften action intent ports.soft_guards
              >> (λ v. (check_policies ports action intent v.proposed_commands, v))))
  guarded s t (err e) p w q = w
  guarded s t (ok tt) p w q =
      softly s t (soften action intent ports.soft_guards t) p q w
        (soften-IsWarned action intent ports.soft_guards t)

  checked :
      (s : TurnScratch) (r : Result ⊤)
      → check_prerequisites ports action intent ≡ r
      → Guards s (
          then_on
            (r, s)
            (λ u. lift (gather_costs intent ports.resource_cost_evaluators []) >>= λ merged.
              modify (declare_costs merged)
              >> (lift (check_guards ports action intent)
                  >> (soften action intent ports.soft_guards
                      >> (λ v. (check_policies ports action intent v.proposed_commands, v))))))
  checked s (err e) q = IsWarned-refl s
  checked s (ok tt) q = costed (gather_costs intent ports.resource_cost_evaluators [])
    where
      costed :
          (r : Result (Dict ℤ))
          → Guards s (
              then_on
                (r, s)
                (λ merged.
                  modify (declare_costs merged)
                  >> (lift (check_guards ports action intent)
                      >> (soften action intent ports.soft_guards
                          >> (λ v. (check_policies ports action intent v.proposed_commands, v))))))
      costed (err e) = IsWarned-refl s
      costed (ok merged) =
          guarded s (declare_costs merged s) (check_guards ports action intent) q
            (declare_costs-IsWarned merged s) refl

  -- The guard stage, however it ends, changes neither the proposed nor the accepted commands and keeps
  -- the warnings that were there, with others only behind them. When it succeeds, every prerequisite
  -- checker found nothing missing, every guard allowed the action and every policy rule permitted the
  -- proposed commands: one that refuses or fails makes the stage fail.
  pub stage_guard-Guards : (s : TurnScratch) → Guards s (stage_guard ports action intent s)
  unfolding stage_guard
  stage_guard-Guards s = checked s (check_prerequisites ports action intent) refl
