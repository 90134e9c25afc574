-- ===== src/Pipeline/Narrate.antt =====
-- The loop of `stageNarrate` of packages/core/src/pipeline/turn-pipeline.ts that has the prose written
-- and criticised. `write` is the answer of the agent to `narrative.write`, by the round and by the
-- repair rounds of the task; a critic is a function of the prose and the round.
pub mod Critics
mod Tests
use mathlib.Core.List
use Prim.Native.String.{◌++◌}
use rpenginext.Common.{
  ℕ, zero, suc, ◌+◌, Bool, true, false, Option, none, some, List, [], ◌∷◌, map, String, ◌==◌,
  if◌then◌else◌,
}
use rpenginext.Contracts.{Result, ok, err, Failure, failure, failure_caused_by, ⊤}
use rpenginext.Pipeline.{Owned, Verdict, accepts, refuses}
use rpenginext.Pipeline.Steps.{Step, then_on, ◌>>=◌, ◌>>◌, done, lift, modify}

-- packages/contracts/src/agents/task.ts
pub record RepairRound : Type 0 where
  pub prose : String
  pub issues : String

pub data CriticPolicy : Type 0 where
  accept fail : CriticPolicy

-- The rounds in their order: the repair rounds that each request carries, and the reasons that the
-- critics gave in a refused round.
pub record CriticLog : Type 0 where
  pub requests : List (List RepairRound)
  pub results : List (ℕ × List String)
  pub accepted_after_retries : Bool

pub record Refusal : Type 0 where
  pub module_id : String
  pub reason : String

abbrev pub join_with : String → List String → String
join_with sep [] = ""
join_with sep (x ∷ []) = x
join_with sep (x ∷ y ∷ ys) = x ++ (sep ++ join_with sep (y ∷ ys))

abbrev pub reasons_of : List Refusal → List String
reasons_of = map (λ (r : Refusal). r.reason)

abbrev pub log_request : List RepairRound → CriticLog → CriticLog
log_request repairs l = record l { requests = List.◌++◌ l.requests (repairs ∷ []) }

abbrev pub log_refused : ℕ → List Refusal → CriticLog → CriticLog
log_refused round rs l = record l { results = List.◌++◌ l.results ((round, reasons_of rs) ∷ []) }

abbrev pub mark_accepted : CriticLog → CriticLog
mark_accepted l = record l { accepted_after_retries = true }

abbrev pub check_prose : String → Result ⊤
check_prose prose =
    if prose == ""
    then err (failure "AGENT_FAILED" "narrative.write returned empty prose")
    else ok tt

abbrev pub repair : String → List Refusal → List RepairRound → List RepairRound
repair prose rs repairs =
    List.◌++◌ repairs (record { prose = prose; issues = join_with "\n" (reasons_of rs) } ∷ [])

abbrev critic_failure : Refusal → List Refusal → Failure
critic_failure r rs =
    failure_caused_by "AGENT_FAILED" (join_with "; " (reasons_of (r ∷ rs))) (r.module_id ∷ [])

abbrev pub Critic : Type 0
Critic = Owned (String → ℕ → Result Verdict)

abbrev pub note_verdict : String → Verdict → List Refusal → List Refusal
note_verdict module_id accepts rest = rest
note_verdict module_id (refuses reason) rest =
    record { module_id = module_id; reason = reason } ∷ rest

-- The reasons of the critics that refuse; a critic that fails ends the stage.
unfoldable pub criticize : List Critic → String → ℕ → Step CriticLog (List Refusal)
criticize [] prose round = done []
criticize (c ∷ cs) prose round = do
  verdict ← lift (c.value prose round)
  rest ← criticize cs prose round
  done (note_verdict c.module_id verdict rest)

module _ (critics : List Critic) (policy : CriticPolicy)
    (write : ℕ → List RepairRound → Result String) where
  -- One round up to the critics' reasons.
  unfoldable pub write_round : ℕ → List RepairRound → Step CriticLog (String × List Refusal)
  unfolding criticize
  write_round round repairs = do
    modify (log_request repairs)
    prose ← lift (write round repairs)
    lift (check_prose prose)
    refusals ← criticize critics prose round
    done (prose, refusals)

  unfoldable pub out_of_rounds : CriticPolicy → ℕ → String → List Refusal → Step CriticLog String
  out_of_rounds p round prose [] = done prose
  out_of_rounds fail round prose (r ∷ rs) =
      modify (log_refused round (r ∷ rs)) >> lift (err (critic_failure r rs))
  out_of_rounds accept round prose (r ∷ rs) =
      modify (log_refused round (r ∷ rs)) >> (modify mark_accepted >> done prose)

  abbrev pub retry : ℕ → String → List Refusal → Step CriticLog String → Step CriticLog String
  retry round prose [] again = done prose
  retry round prose (r ∷ rs) again = modify (log_refused round (r ∷ rs)) >> again

  -- The rounds from `round` on, with `left` retries after it.
  unfoldable pub write_rounds : ℕ → ℕ → List RepairRound → Step CriticLog String
  unfolding write_round out_of_rounds
  write_rounds zero round repairs =
      write_round round repairs >>= λ w. out_of_rounds policy round w.0 w.1
  write_rounds (suc left) round repairs = write_round round repairs >>= λ w.
      retry round w.0 w.1 (write_rounds left (round + 1) (repair w.0 w.1 repairs))

abbrev pub no_rounds : CriticLog
no_rounds = record { requests = []; results = []; accepted_after_retries = false }

unfoldable pub write_narrative :
    ℕ
    → List Critic
    → CriticPolicy
    → (ℕ → List RepairRound → Result String)
    → Result String × CriticLog
unfolding write_rounds
write_narrative max_retries critics policy write =
    write_rounds critics policy write max_retries 0 [] no_rounds
