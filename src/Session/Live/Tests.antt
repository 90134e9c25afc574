-- ===== src/Session/Live/Tests.antt =====
-- The theorems of the live session at concrete inputs.
use rpenginext.Common.{
  ◌≤◌, ◌≡◌, refl, Bool, true, false, not, ◌==◌, none, some, [], ◌∷◌, String, length, leb,
}
use rpenginext.Contracts.{inline, background, SystemTurnMode}
use rpenginext.Pipeline.Commit.{TurnResult, committed_turn, PendingSystemTurn}
use rpenginext.Session.{background_of}
use rpenginext.Session.Live.{
  LiveSession, playing, working, is_idle, submit_action, begin_player_turn, job_done,
  pump_background_jobs,
}
use rpenginext.Session.Live.Steps.{LiveSteps, submit, still, and_then, started_session}
use rpenginext.Session.Live.Alone.{runs, one_if, fresh, admit, other, Serial-runs}
use rpenginext.Session.Live.Races.{runs_again}
use rpenginext.Session.Live.Stalled.{job_done-stalls}
use rpenginext.Session.Live.Jobs.{IsPumped, pump_background_jobs-IsPumped}

abbrev answer : TurnResult
answer =
    committed_turn "trn_1" "ses_1" 1
      (record { id = "psg_1"; turn_id = "trn_1"; prose = ""; visible_state = none }) [] []

abbrev turn : String → SystemTurnMode → PendingSystemTurn
turn reason mode = record {
  reason = reason;
  payload = none;
  requested_by_module_id = none;
  mode = mode;
}

abbrev one_action : LiveSession
one_action = submit_action (some "act_1") (started_session "ses_1")

abbrev two_actions : LiveSession
two_actions = submit_action (some "act_2") one_action

Serial-runs_example :
    let s = begin_player_turn [] (some "act_1") [] one_action in
    (runs s ≤ 1) × (runs s ≡ one_if s.busy)
Serial-runs_example =
    Serial-runs 8 "ses_1" (begin_player_turn [] (some "act_1") [] one_action)
      (admit [] [] (some "act_1") (other fresh (submit (some "act_1")) refl) refl refl)

-- The action waited while the first turn with its identifier ran.
abbrev asked_twice : LiveSession
asked_twice = record one_action {
  idempotency = ("act_1", answer) ∷ [];
  answers = answer ∷ [];
  started = some "act_1" ∷ [];
}

runs_again_example :
    ((submit_action (some "act_1") asked_twice).answers ≡ answer ∷ answer ∷ [])
    × ((submit_action (some "act_1") asked_twice).submissions ≡ asked_twice.submissions)
    × ((t : LiveSession) × LiveSteps 8 asked_twice t
        × (t.started ≡ some "act_1" ∷ some "act_1" ∷ []))
runs_again_example = runs_again 8 asked_twice "act_1" answer [] [] refl refl refl refl

-- A job runs, another one is queued, and an action waits.
abbrev pumping : LiveSession
pumping = record one_action {
  busy = true;
  background_pumping = true;
  pending = turn "summary" background ∷ [];
  pump = working 15 (turn "memory" background);
}

job_done-stalls_example :
    let u = submit_action (some "act_2") (job_done false 15 (turn "memory" background) pumping) in
    (u.started ≡ []) × (u.pending ≡ turn "summary" background ∷ []) × (is_idle u ≡ false)
job_done-stalls_example =
    job_done-stalls 8 15 (turn "memory" background) pumping
      (submit_action (some "act_2") (job_done false 15 (turn "memory" background) pumping)) refl
      (tt, tt) (and_then still (submit (some "act_2")))

abbrev jobs_queued : LiveSession
jobs_queued = record (started_session "ses_1") {
  pending = turn "memory" background ∷ turn "tick" inline ∷ turn "summary" background ∷ [];
}

pump_background_jobs-IsPumped_example :
    (t : LiveSession) × LiveSteps 8 (pump_background_jobs jobs_queued) t
    × IsPumped 16 jobs_queued t
    × (is_idle t ≡ leb (length (background_of jobs_queued.pending)) 16)
pump_background_jobs-IsPumped_example = pump_background_jobs-IsPumped 8 jobs_queued refl refl

-- A turn ran and asked for two inline turns and a background one; the second inline turn is rejected.
abbrev asked_for_turns : LiveSession
asked_for_turns = record one_action {
  busy = true;
  pending = turn "tick" inline ∷ turn "summary" background ∷ turn "decay" inline ∷ [];
  submissions = playing none ∷ [];
}

abbrev not_decay : PendingSystemTurn → Bool
not_decay t = not (t.reason == "decay")
