-- ===== src/Session/Live/Alone.antt =====
-- How many runs of the pipeline a live session has under way, when an action that found the session
-- idle begins before anything else does.
use rpenginext.Common.{
  ℕ, zero, suc, ◌+◌, ◌≤◌, ◌≡◌, refl, ap, ◌∙◌, Bool, true, false, Option, none, some, String, List,
  [], ◌∷◌, ◌++◌, Bool-cases, inl, inr, arith,
}
use rpenginext.Pipeline.Commit.{TurnResult, committed_turn, rejected_turn, PendingSystemTurn}
use rpenginext.Session.{inline_of, background_of}
use rpenginext.Session.Live.{
  LiveSession, Submission, waiting, cleared, playing, draining, Pump, off, holding, working,
  is_idle, has_background, submit_or_wait, prior_answer, begin_player_turn, settle_player, drained,
  drain_on, release, remember, take_background, pump_hold, pump_next, pump_from, job_done,
  max_background,
}
use rpenginext.Session.Live.Steps.{
  LiveStep, submit, pass, give_up, enter, schedule, return, inline_return, pump_wake, pump_return,
  system_start, system_refuse, system_return, started_session,
}

abbrev counted : (Submission → ℕ) → List Submission → ℕ
counted f [] = 0
counted f (p ∷ ps) = f p + counted f ps

abbrev in_turn : Submission → ℕ
in_turn (waiting a) = 0
in_turn (cleared a) = 0
in_turn (playing a) = 1
in_turn (draining r left t ts) = 1

abbrev is_cleared : Submission → ℕ
is_cleared (waiting a) = 0
is_cleared (cleared a) = 1
is_cleared (playing a) = 0
is_cleared (draining r left t ts) = 0

abbrev pump_runs : Pump → ℕ
pump_runs off = 0
pump_runs (holding left t) = 0
pump_runs (working left t) = 1

-- The runs of the pipeline under way.
abbrev pub runs : LiveSession → ℕ
runs s = counted in_turn s.submissions + (s.systems + pump_runs s.pump)

-- The actions that found the session idle and are not resumed.
abbrev pub cleared_count : LiveSession → ℕ
cleared_count s = counted is_cleared s.submissions

abbrev pub one_if : Bool → ℕ
one_if false = 0
one_if true = 1

module _ (limit : ℕ) (id : String) where
  -- The states that a new session reaches if an action begins its turn at once when it finds the
  -- session idle.
  pub data Serial : LiveSession → Type 0 where
    fresh : Serial (started_session id)
    admit :
        {s : LiveSession} (before after : List Submission) (a : Option String)
        → Serial s
        → s.submissions ≡ before ++ waiting a ∷ after
        → is_idle s ≡ true
        → Serial (begin_player_turn before a after s)
    other : {s t : LiveSession} → Serial s → LiveStep limit s t → cleared_count t ≡ 0 → Serial t

counted-append :
    (f : Submission → ℕ) (ps qs : List Submission)
    → counted f (ps ++ qs) ≡ counted f ps + counted f qs
counted-append f [] qs = omega arith
counted-append f (p ∷ ps) qs = omega (arith, counted-append f ps qs)

abbrev IsAlone : LiveSession → Type 0
IsAlone s = runs s ≡ one_if s.busy

one_if-cases : (b : Bool) → one_if b ≤ 1
one_if-cases true = omega arith
one_if-cases false = omega arith

pump_hold-IsAlone :
    (left : ℕ) (t : PendingSystemTurn) (s : LiveSession)
    → s.busy ≡ false
    → runs s ≡ 0
    → IsAlone (pump_hold left t s)
pump_hold-IsAlone left t s free none_runs = rw free (omega (arith, none_runs))

-- The pump takes a free session or leaves it.
pump_next-IsAlone :
    (left : ℕ) (found : Option (PendingSystemTurn × List PendingSystemTurn)) (s : LiveSession)
    → s.busy ≡ false
    → counted in_turn s.submissions + s.systems ≡ 0
    → IsAlone (pump_next left found s)
pump_next-IsAlone zero found s free e = rw free (omega (arith, e))
pump_next-IsAlone (suc left) none s free e = rw free (omega (arith, e))
pump_next-IsAlone (suc left) (some (t, ts)) s free e = rw free (omega (arith, e))

pump_from-IsAlone :
    (p : Pump) (s : LiveSession)
    → s.pump ≡ p
    → s.busy ≡ false
    → runs s ≡ 0
    → IsAlone (pump_from p s)
pump_from-IsAlone off s e free h =
    pump_next-IsAlone max_background (take_background s.pending)
      (record s { background_pumping = true }) free (omega (arith, h))
pump_from-IsAlone (holding left t) s e free h = rw free h
pump_from-IsAlone (working left t) s e free h = rw free h

release-IsAlone :
    (r : TurnResult) (before after : List Submission) (s : LiveSession)
    → counted in_turn (before ++ after) + (s.systems + pump_runs s.pump) ≡ 0
    → IsAlone (release r before after s)
release-IsAlone r before after s h = elim (Bool-cases (has_background s.pending)) [
  | inl some_left ↦ rw some_left (
      pump_from-IsAlone s.pump
        (record s {
          busy = false;
          submissions = before ++ after;
          answers = s.answers ++ r ∷ [];
          background_pumping = true;
        })
        refl refl h)
  | inr none_left ↦ rw none_left h
]

-- Without the one submission that is under way, no run is left.
drain_on-IsAlone :
    (r : TurnResult) (left : ℕ) (ts : List PendingSystemTurn) (before after : List Submission)
    (s : LiveSession)
    → s.busy ≡ true
    → counted in_turn (before ++ after) + (s.systems + pump_runs s.pump) ≡ 0
    → IsAlone (drain_on r left ts before after s)
drain_on-IsAlone r left [] before after s b h = release-IsAlone r before after s h
drain_on-IsAlone r zero (t ∷ ts) before after s b h =
    release-IsAlone r before after (record s { pending = (t ∷ ts) ++ s.pending }) h
drain_on-IsAlone r (suc left) (t ∷ ts) before after s b h = rw b (
    omega (
      arith,
      h,
      counted-append in_turn before after,
      counted-append in_turn before (draining r left t ts ∷ after),
    ))

-- If a submission has its turn under way, the session is busy with that turn alone.
only_run :
    (before after : List Submission) (p : Submission) (s : LiveSession)
    → IsAlone s
    → s.submissions ≡ before ++ p ∷ after
    → in_turn p ≡ 1
    → (s.busy ≡ true) × (counted in_turn (before ++ after) + (s.systems + pump_runs s.pump) ≡ 0)
only_run before after p s alone e one =
    let n = ap (counted in_turn) e ∙ counted-append in_turn before (p ∷ after) in
    elim (Bool-cases s.busy) [
      | inl b ↦ (b, omega (arith, alone, ap one_if b, n, one, counted-append in_turn before after))
      | inr b ↦ absurd (omega (arith, alone, ap one_if b, n, one))
    ]

-- A session that is not busy has no run.
no_run : (s : LiveSession) → IsAlone s → s.busy ≡ false → runs s ≡ 0
no_run s alone b = alone ∙ ap one_if b

busy_if_run : (s : LiveSession) → IsAlone s → 1 ≤ runs s → s.busy ≡ true
busy_if_run s alone h = elim (Bool-cases s.busy) [
  | inl b ↦ b
  | inr b ↦ absurd (omega (arith, no_run s alone b, h))
]

-- What runs beside the waiting submissions is kept.
unmoved :
    (before after : List Submission) (p q : Submission) (s : LiveSession)
    → s.submissions ≡ before ++ p ∷ after
    → in_turn p ≡ in_turn q
    → counted in_turn (before ++ q ∷ after) ≡ counted in_turn s.submissions
unmoved before after p q s e same = omega (
  arith,
  ap (counted in_turn) e,
  same,
  counted-append in_turn before (p ∷ after),
  counted-append in_turn before (q ∷ after),
)

submit_or_wait-IsAlone :
    (a : Option String) (prior : Option TurnResult) (s : LiveSession)
    → IsAlone s
    → IsAlone (submit_or_wait a prior s)
submit_or_wait-IsAlone a (some r) s h = h
submit_or_wait-IsAlone a none s h =
    omega (arith, h, counted-append in_turn s.submissions (waiting a ∷ []))

settle_player-IsAlone :
    (limit : ℕ) (a : Option String) (r : TurnResult) (before after : List Submission)
    (s : LiveSession)
    → IsAlone s
    → s.submissions ≡ before ++ playing a ∷ after
    → IsAlone (settle_player limit a r before after s)
settle_player-IsAlone limit a (rejected_turn id i f ws) before after s h e =
    let (b, rest) = only_run before after (playing a) s h e refl in
    let r = rejected_turn id i f ws in
    release-IsAlone r before after (record s { idempotency = remember limit a r s.idempotency })
      rest
settle_player-IsAlone limit a (committed_turn id i n p cs ws) before after s h e =
    let (b, rest) = only_run before after (playing a) s h e refl in
    let r = committed_turn id i n p cs ws in
    drain_on-IsAlone r 16 (inline_of s.pending) before after
      (record s {
        idempotency = remember limit a r s.idempotency;
        pending = background_of s.pending;
      })
      b rest

drained-IsAlone :
    (committed : Bool) (r : TurnResult) (left : ℕ) (ts : List PendingSystemTurn)
    (before after : List Submission) (s : LiveSession)
    → s.busy ≡ true
    → counted in_turn (before ++ after) + (s.systems + pump_runs s.pump) ≡ 0
    → IsAlone (drained committed r left ts before after s)
drained-IsAlone true r left ts before after s b h = drain_on-IsAlone r left ts before after s b h
drained-IsAlone false r left ts before after s b h = release-IsAlone r before after s h

job_done-IsAlone :
    (committed : Bool) (left : ℕ) (t : PendingSystemTurn) (s : LiveSession)
    → counted in_turn s.submissions + s.systems ≡ 0
    → IsAlone (job_done committed left t s)
job_done-IsAlone true left t s h = pump_next-IsAlone left (take_background s.pending) _ refl h
job_done-IsAlone false left t s h = omega (arith, h)

LiveStep-IsAlone :
    (limit : ℕ) (s t : LiveSession)
    → LiveStep limit s t
    → cleared_count s ≡ 0
    → IsAlone s
    → IsAlone t
LiveStep-IsAlone limit s t (submit a) c h =
    submit_or_wait-IsAlone a (prior_answer a s.idempotency) s h
LiveStep-IsAlone limit s t (pass before after a e idle) c h =
    omega (arith, h, unmoved before after (waiting a) (cleared a) s e refl)
LiveStep-IsAlone limit s t (give_up before after a turn_id e not_idle) c h = omega (
  arith,
  h,
  ap (counted in_turn) e,
  counted-append in_turn before (waiting a ∷ after),
  counted-append in_turn before after,
)
LiveStep-IsAlone limit s t (enter before after a e) c h = absurd (
    omega
      (arith, c, ap (counted is_cleared) e, counted-append is_cleared before (cleared a ∷ after)))
LiveStep-IsAlone limit s t (schedule before after a requests e) c h = h
LiveStep-IsAlone limit s t (return before after a r e) c h =
    settle_player-IsAlone limit a r before after s h e
LiveStep-IsAlone limit s t (inline_return before after r left u us committed e) c h =
    let (b, rest) = only_run before after (draining r left u us) s h e refl in
    drained-IsAlone committed r left us before after s b rest
LiveStep-IsAlone limit s t (pump_wake left u e free) c h =
    omega (arith, no_run s h free, ap pump_runs e)
LiveStep-IsAlone limit s t (pump_return left u committed e) c h =
    job_done-IsAlone committed left u s (omega (arith, h, ap pump_runs e, one_if-cases s.busy))
LiveStep-IsAlone limit s t (system_start free) c h = omega (arith, no_run s h free)
LiveStep-IsAlone limit s t (system_refuse turn_id b) c h = h
LiveStep-IsAlone limit s t (system_return n e r) c h = omega (arith, h, e, one_if-cases s.busy)

is_idle-free : (s : LiveSession) → is_idle s ≡ true → s.busy ≡ false
is_idle-free s idle = elim (Bool-cases s.busy) [
  | inl b ↦ absurd (let no : ◌≡◌ {A = Bool} false true = rw b at idle in ground arith)
  | inr b ↦ b
]

Serial-IsAlone :
    (limit : ℕ) (id : String) (s : LiveSession)
    → Serial limit id s
    → IsAlone s × (cleared_count s ≡ 0)
Serial-IsAlone limit id s fresh = (refl, refl)
Serial-IsAlone limit id s (admit {s = u} before after a h e idle) =
    let (alone, c) = Serial-IsAlone limit id u h in
    let none_runs = no_run u alone (is_idle-free u idle) in
    (
      omega (
        arith,
        none_runs,
        ap (counted in_turn) e,
        counted-append in_turn before (waiting a ∷ after),
        counted-append in_turn before (playing a ∷ after),
      ),
      omega (
        arith,
        c,
        ap (counted is_cleared) e,
        counted-append is_cleared before (waiting a ∷ after),
        counted-append is_cleared before (playing a ∷ after),
      ),
    )
Serial-IsAlone limit id s (other {s = u} h step c) =
    let (alone, none_cleared) = Serial-IsAlone limit id u h in
    (LiveStep-IsAlone limit u s step none_cleared alone, c)

-- The turns of players, of the host and of the pump in any order, from a new session on: as long as an
-- action that finds the session idle begins its turn before anything else happens, at most one run of
-- the pipeline is under way, and none exactly when the session is not busy.
pub Serial-runs :
    (limit : ℕ) (id : String) (s : LiveSession)
    → Serial limit id s
    → (runs s ≤ 1) × (runs s ≡ one_if s.busy)
Serial-runs limit id s h =
    let alone = (Serial-IsAlone limit id s h).0 in
    (omega (arith, alone, one_if-cases s.busy), alone)
