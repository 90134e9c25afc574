-- ===== src/Session/Live.antt =====
-- packages/core/src/session/session-runtime.ts: a live session as a state machine. A step is what
-- one of its calls (`submitAction`, `submitSystemTurn`) or the pump does between two waits; what a run of
-- the pipeline returns is any result. A turn's identifier is an argument of its step.
mod Steps
mod Alone
mod Stalled
mod Races
mod Drained
mod Jobs
mod Tests
use mathlib.Core.List
use rpenginext.Common.{
  ℕ, zero, suc, ◌+◌, ◌≡◌, Bool, true, false, not, ◌||◌, Option, none, some, List, [], ◌∷◌, ◌++◌,
  String, ◌==◌, Dict, lookup, any, if◌then◌else◌,
}
use rpenginext.Contracts.{Failure, failure}
use rpenginext.Pipeline.Commit.{TurnResult, committed_turn, rejected_turn, PendingSystemTurn}
use rpenginext.Session.{remember_idempotency, is_background, inline_of, background_of}

-- A call of `submitAction`, with its `clientActionId`: it waits for the session, it has found it idle
-- and is not resumed yet, its turn runs, or the inline turn runs that stands here, with the result of
-- the player's turn and what is left of the drain.
pub data Submission : Type 0 where
  waiting cleared playing : Option String → Submission
  draining : TurnResult → ℕ → PendingSystemTurn → List PendingSystemTurn → Submission

-- `pumpBackgroundJobs`: not running, waiting with a turn for the session, or running a turn, with what
-- is left of its 16 turns.
pub data Pump : Type 0 where
  off : Pump
  holding working : ℕ → PendingSystemTurn → Pump

pub data JobEvent : Type 0 where
  job_started : String → String → JobEvent
  job_finished : String → String → Bool → JobEvent

-- `submissions`, `systems` (the calls of `submitSystemTurn` whose turn runs) and `pump` are the calls
-- under way; `answers` is what was returned, and `started` the actions whose turn was begun.
pub record LiveSession : Type 0 where
  pub session_id : String
  pub busy : Bool
  pub background_pumping : Bool
  pub pending : List PendingSystemTurn
  pub idempotency : Dict TurnResult
  pub submissions : List Submission
  pub systems : ℕ
  pub pump : Pump
  pub events : List JobEvent
  pub answers : List TurnResult
  pub started : List (Option String)

abbrev pub has_background : List PendingSystemTurn → Bool
has_background ts = any (λ t. is_background t.mode) ts

-- The loop's condition in `waitForSessionIdle`, negated.
abbrev pub is_idle : LiveSession → Bool
is_idle s = not (s.busy || (s.background_pumping || has_background s.pending))

abbrev give_answer : TurnResult → LiveSession → LiveSession
give_answer r s = record s { answers = s.answers ++ r ∷ [] }

abbrev busy_failure : String → String → String → TurnResult
busy_failure session_id turn_id message =
    rejected_turn turn_id session_id
      (record { turn_id = turn_id; failure = failure "INTERNAL" message; stage = some "begin" }) []

-- What `submitAction` finds before it waits; the empty identifier is none.
abbrev pub prior_answer : Option String → Dict TurnResult → Option TurnResult
prior_answer none d = none
prior_answer (some id) d = if id == "" then none else lookup id d

abbrev pub submit_or_wait : Option String → Option TurnResult → LiveSession → LiveSession
submit_or_wait a (some prior) s = give_answer prior s
submit_or_wait a none s = record s { submissions = s.submissions ++ waiting a ∷ [] }

abbrev pub submit_action : Option String → LiveSession → LiveSession
submit_action a s = submit_or_wait a (prior_answer a s.idempotency) s

-- `waitForSessionIdle` gives up after its 120 seconds.
abbrev pub time_out : String → List Submission → List Submission → LiveSession → LiveSession
time_out turn_id before after s = record s {
  submissions = before ++ after;
  answers =
      s.answers
      ++ busy_failure s.session_id turn_id "SESSION_BUSY: timed out waiting for background work"
        ∷ [];
}

abbrev pub put_submission :
    List Submission → Submission → List Submission → LiveSession → LiveSession
put_submission before p after s = record s { submissions = before ++ p ∷ after }

-- `session.busy = true`, and the turn begins.
abbrev pub begin_player_turn :
    List Submission → Option String → List Submission → LiveSession → LiveSession
begin_player_turn before a after s = record s {
  busy = true;
  submissions = before ++ playing a ∷ after;
  started = s.started ++ a ∷ [];
}

abbrev pub max_background : ℕ
max_background = 16

-- `findIndex` of the first background turn and its `splice`.
abbrev pub take_background :
    List PendingSystemTurn → Option (PendingSystemTurn × List PendingSystemTurn)
take_background [] = none
take_background (t ∷ ts) =
    let rest = take_background ts in
    if is_background t.mode
    then some (t, ts)
    else elim rest [ none ↦ none | some (u, us) ↦ some (u, t ∷ us) ]

abbrev pub pump_rest : LiveSession → LiveSession
pump_rest s = record s { background_pumping = false; pump = off }

abbrev pub pump_start : ℕ → PendingSystemTurn → LiveSession → LiveSession
pump_start left t s = record s {
  busy = true;
  pump = working left t;
  events = s.events ++ job_started s.session_id t.reason ∷ [];
}

abbrev pub pump_hold : ℕ → PendingSystemTurn → LiveSession → LiveSession
pump_hold left t s = if s.busy then record s { pump = holding left t } else pump_start left t s

abbrev pub pump_next :
    ℕ → Option (PendingSystemTurn × List PendingSystemTurn) → LiveSession → LiveSession
pump_next zero found s = pump_rest s
pump_next (suc left) none s = pump_rest s
pump_next (suc left) (some (t, ts)) s = pump_hold left t (record s { pending = ts })

-- The head of the pump's loop, up to its next wait.
abbrev pub pump_loop : ℕ → LiveSession → LiveSession
pump_loop left s = pump_next left (take_background s.pending) s

abbrev pub pump_from : Pump → LiveSession → LiveSession
pump_from off s = pump_loop max_background (record s { background_pumping = true })
pump_from (holding left t) s = s
pump_from (working left t) s = s

abbrev pub pump_background_jobs : LiveSession → LiveSession
pump_background_jobs s = pump_from s.pump s

-- The turn of the pump ended, committed or rejected.
abbrev pub job_done : Bool → ℕ → PendingSystemTurn → LiveSession → LiveSession
job_done committed left t s =
    let s' = record s {
      busy = false;
      events = s.events ++ job_finished s.session_id t.reason committed ∷ [];
    } in
    if committed then pump_loop left s' else pump_rest s'

-- `submitSystemTurn` while a turn is in progress.
abbrev pub system_refused : String → LiveSession → LiveSession
system_refused turn_id s =
    give_answer (busy_failure s.session_id turn_id "SESSION_BUSY: another turn is in progress") s

-- The `finally` of `submitAction`, and its return.
abbrev pub release : TurnResult → List Submission → List Submission → LiveSession → LiveSession
release r before after s =
    let s' = record s {
      busy = false;
      submissions = before ++ after;
      answers = s.answers ++ r ∷ [];
    } in
    if has_background s.pending
    then pump_background_jobs (record s' { background_pumping = true })
    else s'

-- The loop of `drainInlineSystemTurns`, up to its next wait.
abbrev pub drain_on :
    TurnResult
    → ℕ
    → List PendingSystemTurn
    → List Submission
    → List Submission
    → LiveSession
    → LiveSession
drain_on r left [] before after s = release r before after s
drain_on r zero (t ∷ ts) before after s =
    release r before after (record s { pending = (t ∷ ts) ++ s.pending })
drain_on r (suc left) (t ∷ ts) before after s = put_submission before (draining r left t ts) after s

abbrev pub remember : ℕ → Option String → TurnResult → Dict TurnResult → Dict TurnResult
remember limit none r d = d
remember limit (some id) r d = if id == "" then d else remember_idempotency limit id r d

-- The pipeline returned the result of the player's turn.
abbrev pub settle_player :
    ℕ → Option String → TurnResult → List Submission → List Submission → LiveSession → LiveSession
settle_player limit a (rejected_turn id session_id f ws) before after s =
    let r = rejected_turn id session_id f ws in
    release r before after (record s { idempotency = remember limit a r s.idempotency })
settle_player limit a (committed_turn id session_id n p cs ws) before after s =
    let r = committed_turn id session_id n p cs ws in
    drain_on r 16 (inline_of s.pending) before after (record s {
      idempotency = remember limit a r s.idempotency;
      pending = background_of s.pending;
    })

-- An inline turn of the drain ended.
abbrev pub drained :
    Bool
    → TurnResult
    → ℕ
    → List PendingSystemTurn
    → List Submission
    → List Submission
    → LiveSession
    → LiveSession
drained committed r left ts before after s =
    if committed then drain_on r left ts before after s else release r before after s
