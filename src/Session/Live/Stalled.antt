-- ===== src/Session/Live/Stalled.antt =====
-- A live session whose pump is off while a background turn is queued: `waitForSessionIdle` never
-- returns, and only the end of a player's turn starts the pump.
use rpenginext.Common.{
  ℕ, ◌≡◌, refl, sym, ◌∙◌, subst, Bool, true, false, Option, none, some, String, List, [], ◌∷◌, ◌++◌,
  All, All-append, arith,
}
use rpenginext.Pipeline.Commit.{TurnResult, PendingSystemTurn}
use rpenginext.Session.Live.{
  LiveSession, Submission, waiting, cleared, playing, draining, Pump, off, holding, working,
  is_idle, has_background, submit_or_wait, prior_answer, job_done,
}
use rpenginext.Session.Live.Steps.{
  LiveStep, submit, pass, give_up, enter, schedule, return, inline_return, pump_wake, pump_return,
  system_start, system_refuse, system_return, LiveSteps, still, and_then,
}

abbrev pub IsWaiting : Submission → Type 0
IsWaiting (waiting a) = Unit
IsWaiting (cleared a) = ⊥
IsWaiting (playing a) = ⊥
IsWaiting (draining r left t ts) = ⊥

pub record IsStalled (s : LiveSession) : Type 0 where
  pub pump_off : s.pump ≡ off
  pub queued : has_background s.pending ≡ true
  pub all_wait : All IsWaiting s.submissions

All-middle :
    (before after : List Submission) (p : Submission)
    → All IsWaiting (before ++ p ∷ after)
    → IsWaiting p × All IsWaiting (before ++ after)
All-middle [] after p h = h
All-middle (q ∷ before) after p h =
    let (mine, others) = All-middle before after p h.1 in (mine, (h.0, others))

-- No submission of a stalled session is in a place that does not wait.
stands :
    (s : LiveSession) (before after : List Submission) (p : Submission)
    → IsStalled s
    → s.submissions ≡ before ++ p ∷ after
    → IsWaiting p × All IsWaiting (before ++ after)
stands s before after p h e = All-middle before after p (subst (All IsWaiting) e h.all_wait)

not_idle : (s : LiveSession) → has_background s.pending ≡ true → is_idle s ≡ false
not_idle s queued = rw queued (ground arith)

-- What a step keeps of a stalled session.
record Stays (s t : LiveSession) : Type 0 where
  stalled : IsStalled t
  no_start : t.started ≡ s.started
  queue : t.pending ≡ s.pending

submit_or_wait-Stays :
    (a : Option String) (prior : Option TurnResult) (s : LiveSession)
    → IsStalled s
    → Stays s (submit_or_wait a prior s)
submit_or_wait-Stays a (some r) s h = record {
  stalled = record { pump_off = h.pump_off; queued = h.queued; all_wait = h.all_wait };
  no_start = refl;
  queue = refl;
}
submit_or_wait-Stays a none s h = record {
  stalled = record {
    pump_off = h.pump_off;
    queued = h.queued;
    all_wait = All-append IsWaiting s.submissions (waiting a ∷ []) h.all_wait (tt, tt);
  };
  no_start = refl;
  queue = refl;
}

abbrev is_off : Pump → Bool
is_off off = true
is_off (holding left t) = false
is_off (working left t) = false

no_pump : (s : LiveSession) (p : Pump) → IsStalled s → s.pump ≡ p → is_off p ≡ true
no_pump s p h e =
    subst (λ q. is_off q ≡ true) e (subst (λ q. is_off q ≡ true) (sym h.pump_off) refl)

LiveStep-Stays : (limit : ℕ) (s t : LiveSession) → LiveStep limit s t → IsStalled s → Stays s t
LiveStep-Stays limit s t (submit a) h = submit_or_wait-Stays a (prior_answer a s.idempotency) s h
LiveStep-Stays limit s t (pass before after a e idle) h =
    absurd (let no : true ≡ false = sym idle ∙ not_idle s h.queued in ground arith)
LiveStep-Stays limit s t (give_up before after a turn_id e busy) h = record {
  stalled = record {
    pump_off = h.pump_off;
    queued = h.queued;
    all_wait = (stands s before after (waiting a) h e).1;
  };
  no_start = refl;
  queue = refl;
}
LiveStep-Stays limit s t (enter before after a e) h =
    absurd (stands s before after (cleared a) h e).0
LiveStep-Stays limit s t (schedule before after a requests e) h =
    absurd (stands s before after (playing a) h e).0
LiveStep-Stays limit s t (return before after a r e) h =
    absurd (stands s before after (playing a) h e).0
LiveStep-Stays limit s t (inline_return before after r left u us committed e) h =
    absurd (stands s before after (draining r left u us) h e).0
LiveStep-Stays limit s t (pump_wake left u e free) h =
    absurd (let no = no_pump s (holding left u) h e in ground arith)
LiveStep-Stays limit s t (pump_return left u committed e) h =
    absurd (let no = no_pump s (working left u) h e in ground arith)
LiveStep-Stays limit s t (system_start free) h = record {
  stalled = record { pump_off = h.pump_off; queued = h.queued; all_wait = h.all_wait };
  no_start = refl;
  queue = refl;
}
LiveStep-Stays limit s t (system_refuse turn_id b) h = record {
  stalled = record { pump_off = h.pump_off; queued = h.queued; all_wait = h.all_wait };
  no_start = refl;
  queue = refl;
}
LiveStep-Stays limit s t (system_return n e r) h = record {
  stalled = record { pump_off = h.pump_off; queued = h.queued; all_wait = h.all_wait };
  no_start = refl;
  queue = refl;
}

LiveSteps-Stays : (limit : ℕ) (s t : LiveSession) → LiveSteps limit s t → IsStalled s → Stays s t
LiveSteps-Stays limit s t still h = record { stalled = h; no_start = refl; queue = refl }
LiveSteps-Stays limit s t (and_then {t = u} before step) h =
    let first = LiveSteps-Stays limit s u before h in
    let last = LiveStep-Stays limit u t step first.stalled in
    record {
      stalled = last.stalled;
      no_start = last.no_start ∙ first.no_start;
      queue = last.queue ∙ first.queue;
    }

-- The pump's turn is rejected while another background turn is queued and every action waits: whatever
-- happens later, no player's turn ever begins, the queue stays as it is, and the session is not idle.
pub job_done-stalls :
    (limit left : ℕ) (t : PendingSystemTurn) (s u : LiveSession)
    → has_background s.pending ≡ true
    → All IsWaiting s.submissions
    → LiveSteps limit (job_done false left t s) u
    → (u.started ≡ s.started) × (u.pending ≡ s.pending) × (is_idle u ≡ false)
job_done-stalls limit left t s u queued waits steps =
    let kept =
      LiveSteps-Stays limit (job_done false left t s) u steps
        (record { pump_off = refl; queued = queued; all_wait = waits }) in
    (kept.no_start, kept.queue, not_idle u kept.stalled.queued)
