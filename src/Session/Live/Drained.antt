-- ===== src/Session/Live/Drained.antt =====
-- The drain of a live session and `drain_inline_system_turns`, which is the same loop without a wait.
use rpenginext.Common.{ℕ, Bool, List}
use rpenginext.Contracts.{⊤}
use rpenginext.Pipeline.Commit.{TurnResult, PendingSystemTurn}
use rpenginext.Session.{run_inline}
use rpenginext.Session.Live.{LiveSession, Submission, release}

-- A run of the pipeline that changes nothing of the queue, since only a player's turn asks for turns.
abbrev pub run_of :
    (PendingSystemTurn → Bool)
    → PendingSystemTurn
    → List PendingSystemTurn × ⊤
    → Bool × (List PendingSystemTurn × ⊤)
run_of commits t (queue, s) = (commits t, (queue, s))

module _ (limit : ℕ) (commits : PendingSystemTurn → Bool) (before after : List Submission) where
  -- The session when the turns were run without a wait, and the submission returned.
  abbrev drained_session : TurnResult → ℕ → List PendingSystemTurn → LiveSession → LiveSession
  drained_session r left ts s =
      release r before after
        (record s { pending = (run_inline (run_of commits) left ts (s.pending, tt)).1.0 })
