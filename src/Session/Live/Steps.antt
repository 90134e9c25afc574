-- ===== src/Session/Live/Steps.antt =====
-- The steps of a live session in any order, and the states that they reach.
use rpenginext.Common.{ℕ, suc, ◌≡◌, Bool, true, false, Option, String, List, [], ◌∷◌, ◌++◌}
use rpenginext.Pipeline.Commit.{TurnResult, PendingSystemTurn}
use rpenginext.Session.Live.{
  LiveSession, Submission, off, waiting, cleared, playing, draining, holding, working, is_idle,
  submit_action, time_out, put_submission, begin_player_turn, settle_player, drained, pump_start,
  job_done, system_refused,
}

-- `limit` is the configured number of remembered answers.
module _ (limit : ℕ) where
  pub data LiveStep (s : LiveSession) : LiveSession → Type 0 where
    -- A player submits an action.
    submit : (a : Option String) → LiveStep s (submit_action a s)
    -- A waiting action finds the session idle; its `await` resumes in a later step.
    pass :
        (before after : List Submission) (a : Option String)
        → s.submissions ≡ before ++ waiting a ∷ after
        → is_idle s ≡ true
        → LiveStep s (put_submission before (cleared a) after s)
    -- A waiting action never found the session idle in time.
    give_up :
        (before after : List Submission) (a : Option String) (turn_id : String)
        → s.submissions ≡ before ++ waiting a ∷ after
        → is_idle s ≡ false
        → LiveStep s (time_out turn_id before after s)
    enter :
        (before after : List Submission) (a : Option String)
        → s.submissions ≡ before ++ cleared a ∷ after
        → LiveStep s (begin_player_turn before a after s)
    -- The running turn of a player asks for system turns.
    schedule :
        (before after : List Submission) (a : Option String) (requests : List PendingSystemTurn)
        → s.submissions ≡ before ++ playing a ∷ after
        → LiveStep s (record s { pending = s.pending ++ requests })
    return :
        (before after : List Submission) (a : Option String) (r : TurnResult)
        → s.submissions ≡ before ++ playing a ∷ after
        → LiveStep s (settle_player limit a r before after s)
    inline_return :
        (before after : List Submission) (r : TurnResult) (left : ℕ) (t : PendingSystemTurn)
        (ts : List PendingSystemTurn) (committed : Bool)
        → s.submissions ≡ before ++ draining r left t ts ∷ after
        → LiveStep s (drained committed r left ts before after s)
    -- The pump wakes and finds the session free.
    pump_wake :
        (left : ℕ) (t : PendingSystemTurn)
        → s.pump ≡ holding left t
        → s.busy ≡ false
        → LiveStep s (pump_start left t s)
    pump_return :
        (left : ℕ) (t : PendingSystemTurn) (committed : Bool)
        → s.pump ≡ working left t
        → LiveStep s (job_done committed left t s)
    -- The host asks for a system turn.
    system_start : s.busy ≡ false → LiveStep s (record s { busy = true; systems = suc s.systems })
    system_refuse : (turn_id : String) → s.busy ≡ true → LiveStep s (system_refused turn_id s)
    system_return :
        (n : ℕ)
        → s.systems ≡ suc n
        → (r : TurnResult)
        → LiveStep s (record s { busy = false; systems = n; answers = s.answers ++ r ∷ [] })

  pub data LiveSteps (s : LiveSession) : LiveSession → Type 0 where
    still : LiveSteps s s
    and_then : {t u : LiveSession} → LiveSteps s t → LiveStep t u → LiveSteps s u

-- A session as `startSession` leaves it.
abbrev pub started_session : String → LiveSession
started_session id = record {
  session_id = id;
  busy = false;
  background_pumping = false;
  pending = [];
  idempotency = [];
  submissions = [];
  systems = 0;
  pump = off;
  events = [];
  answers = [];
  started = [];
}
