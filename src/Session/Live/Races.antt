-- ===== src/Session/Live/Races.antt =====
-- Between the end of `waitForSessionIdle` and `session.busy = true` other calls may act.
use rpenginext.Common.{ℕ, ◌≡◌, refl, true, false, some, String, List, [], ◌∷◌, ◌++◌, lookup, ◌==◌}
use rpenginext.Pipeline.Commit.{TurnResult}
use rpenginext.Session.Live.{
  LiveSession, Submission, waiting, cleared, is_idle, put_submission, begin_player_turn,
  submit_action,
}
use rpenginext.Session.Live.Steps.{pass, enter, LiveSteps, still, and_then}

-- An action that waits while the answer to its identifier is remembered: a new call with the
-- identifier is answered from the memory and begins nothing, the waiting one begins its turn again.
pub runs_again :
    (limit : ℕ) (s : LiveSession) (id : String) (r : TurnResult) (before others : List Submission)
    → (id == "") ≡ false
    → lookup id s.idempotency ≡ some r
    → s.submissions ≡ before ++ waiting (some id) ∷ others
    → is_idle s ≡ true
    → ((submit_action (some id) s).answers ≡ s.answers ++ r ∷ [])
      × ((submit_action (some id) s).submissions ≡ s.submissions)
      × ((t : LiveSession) × LiveSteps limit s t × (t.started ≡ s.started ++ some id ∷ []))
runs_again limit s id r before others named known e idle =
    let s1 = put_submission before (cleared (some id)) others s in
    (
      rw named (rw known refl),
      rw named (rw known refl),
      (
        begin_player_turn before (some id) others s1,
        and_then (and_then still (pass before others (some id) e idle))
            (enter before others (some id) refl),
        refl,
      ),
    )
