-- ===== src/Session.antt =====
-- packages/core/src/session/session-runtime.ts: the memory of answered actions, and the queue of
-- system turns that follow a player's turn. A run of the pipeline is the parameter `run`.
pub mod Idempotency
pub mod Inline
pub mod Live
mod Tests
use mathlib.Core.List
use rpenginext.Common.{
  ℕ, zero, suc, ◌-◌, ◌≡◌, refl, Bool, true, false, Option, none, some, List, [], ◌∷◌, String, Dict,
  insert, erase, keys, length, drop, leb, if◌then◌else◌,
}
use rpenginext.Contracts.{SystemTurnMode, inline, background}
use rpenginext.Pipeline.Commit.{TurnResult, PendingSystemTurn}

-- The loop over the iterator of the keys: the first `n` of them are deleted.
unfoldable pub delete_keys : ℕ → List String → Dict TurnResult → Dict TurnResult
delete_keys zero ks d = d
delete_keys (suc n) [] d = d
delete_keys (suc n) (k ∷ ks) d = delete_keys n ks (erase k d)

unfoldable pub remember_idempotency : ℕ → String → TurnResult → Dict TurnResult → Dict TurnResult
unfolding delete_keys
remember_idempotency limit id result d =
    let d' = insert id result d in
    if leb (length d') limit then d' else delete_keys (length d' - limit) (keys d') d'

abbrev pub is_background : SystemTurnMode → Bool
is_background background = true
is_background inline = false

abbrev pub inline_of : List PendingSystemTurn → List PendingSystemTurn
inline_of [] = []
inline_of (t ∷ ts) = let rest = inline_of ts in if is_background t.mode then rest else t ∷ rest

abbrev pub background_of : List PendingSystemTurn → List PendingSystemTurn
background_of [] = []
background_of (t ∷ ts) =
    let rest = background_of ts in if is_background t.mode then t ∷ rest else rest

module _ {S : Type 0}
    (run : PendingSystemTurn
      → List PendingSystemTurn × S
      → Bool × (List PendingSystemTurn × S)) where
  -- The loop over the inline turns, with what is left of the 16 runs. `run` gives whether the turn was
  -- committed; it may add to the queue. The first component is the turns that were run.
  unfoldable pub run_inline :
      ℕ
      → List PendingSystemTurn
      → List PendingSystemTurn × S
      → List PendingSystemTurn × (List PendingSystemTurn × S)
  run_inline left [] (queue, s) = ([], (queue, s))
  run_inline zero (t ∷ ts) (queue, s) = ([], (List.◌++◌ (t ∷ ts) queue, s))
  run_inline (suc left) (t ∷ ts) (queue, s) =
      let (committed, next) = run t (queue, s) in
      let (ran, last) = run_inline left ts next in
      if committed then (t ∷ ran, last) else (t ∷ [], next)

  abbrev pub max_inline : ℕ
  max_inline = 16

  unfoldable pub drain_inline_system_turns :
      List PendingSystemTurn × S → List PendingSystemTurn × (List PendingSystemTurn × S)
  unfolding run_inline
  drain_inline_system_turns (queue, s) =
      run_inline max_inline (inline_of queue) (background_of queue, s)
