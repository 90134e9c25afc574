-- ===== src/Session/Inline.antt =====
-- `drainInlineSystemTurns` of packages/core/src/session/session-runtime.ts.
use rpenginext.Common.{ℕ, ◌≤◌, ◌≡◌, List, ◌++◌, length}
use rpenginext.Pipeline.Commit.{PendingSystemTurn}

abbrev pub Queue : Type 0 → Type 0
Queue S = List PendingSystemTurn × S

-- The turns that ran, those that are left, and the queue that they are put before.
pub record IsDrained {S : Type 0} (max : ℕ) (turns queue : List PendingSystemTurn)
    (o : List PendingSystemTurn × Queue S) : Type 0 where
  pub left : List PendingSystemTurn
  pub parts : turns ≡ o.0 ++ left
  pub kept : o.1.0 ≡ left ++ queue
  pub few : length o.0 ≤ max
