-- ===== src/Session/Tests.antt =====
-- The theorems of the session at concrete inputs.
use rpenginext.Common.{ℕ, suc, Bool, true, false, none, List, [], ◌∷◌, String, Dict}
use rpenginext.Contracts.{inline, background, SystemTurnMode}
use rpenginext.Pipeline.Commit.{TurnResult, committed_turn, PendingSystemTurn}
use rpenginext.Session.Inline.{Queue}

abbrev answer : TurnResult
answer =
    committed_turn "trn_1" "ses_1" 1
      (record { id = "psg_1"; turn_id = "trn_1"; prose = ""; visible_state = none }) [] []

abbrev remembered : Dict TurnResult
remembered = ("a", answer) ∷ ("b", answer) ∷ []

abbrev pending : String → SystemTurnMode → PendingSystemTurn
pending reason mode = record {
  reason = reason;
  payload = none;
  requested_by_module_id = none;
  mode = mode;
}

abbrev queued : List PendingSystemTurn
queued = pending "tick" inline ∷ pending "summary" background ∷ pending "decay" inline ∷ []

-- The state counts the runs.
abbrev commits_all : PendingSystemTurn → Queue ℕ → Bool × Queue ℕ
commits_all t (queue, n) = (true, (queue, suc n))

abbrev rejects_all : PendingSystemTurn → Queue ℕ → Bool × Queue ℕ
rejects_all t (queue, n) = (false, (queue, suc n))
