-- ===== src/Session/Live/Jobs.antt =====
-- The pump of background turns when every one of its turns commits.
use rpenginext.Common.{
  ℕ, zero, suc, ◌≡◌, refl, sym, ap, ◌∙◌, subst, Bool, true, false, not, Option, none, some, String,
  List, [], ◌∷◌, ◌++◌, append_assoc, append-nil, drop, length, leb, if◌then◌else◌, Bool-cases, inl,
  inr, arith,
}
use rpenginext.Pipeline.Commit.{PendingSystemTurn}
use rpenginext.Session.{is_background, inline_of, background_of}
use rpenginext.Session.Live.{
  LiveSession, off, JobEvent, job_started, job_finished, is_idle, has_background, take_background,
  pump_start, pump_next, pump_rest, pump_background_jobs,
}
use rpenginext.Session.Live.Steps.{LiveStep, pump_return, LiveSteps, still, and_then}

-- The events of at most `n` turns that all commit.
abbrev pub job_events : String → ℕ → List PendingSystemTurn → List JobEvent
job_events id zero ts = []
job_events id (suc n) [] = []
job_events id (suc n) (t ∷ ts) =
    job_started id t.reason ∷ job_finished id t.reason true ∷ job_events id n ts

-- The pump took at most `n` of the background turns of `s` and left the rest of the session free.
pub record IsPumped (n : ℕ) (s t : LiveSession) : Type 0 where
  pub pump_off : t.pump ≡ off
  pub released : t.background_pumping ≡ false
  pub free : t.busy ≡ false
  pub jobs : t.events ≡ s.events ++ job_events s.session_id n (background_of s.pending)
  pub rest : background_of t.pending ≡ drop n (background_of s.pending)
  pub inline_kept : inline_of t.pending ≡ inline_of s.pending

-- What `findIndex` and `splice` find.
abbrev IsTaken :
    List PendingSystemTurn → Option (PendingSystemTurn × List PendingSystemTurn) → Type 0
IsTaken ts none = background_of ts ≡ []
IsTaken ts (some (u, us)) =
    (background_of ts ≡ u ∷ background_of us) × (inline_of ts ≡ inline_of us)

IsTaken-when :
    (b : Bool) (t : PendingSystemTurn) (ts : List PendingSystemTurn)
    (rest : Option (PendingSystemTurn × List PendingSystemTurn))
    → is_background t.mode ≡ b
    → IsTaken ts rest
    → IsTaken
        (t ∷ ts)
        (if b then some (t, ts) else elim rest [ none ↦ none | some (u, us) ↦ some (u, t ∷ us) ])
IsTaken-when true t ts rest e h = (rw e refl, rw e refl)
IsTaken-when false t ts none e h = rw e h
IsTaken-when false t ts (some (u, us)) e h = (rw e h.0, rw e (ap (λ l. t ∷ l) h.1))

take_background-IsTaken : (ts : List PendingSystemTurn) → IsTaken ts (take_background ts)
take_background-IsTaken [] = refl
take_background-IsTaken (t ∷ ts) =
    IsTaken-when (is_background t.mode) t ts (take_background ts) refl (take_background-IsTaken ts)

module _ (limit : ℕ) where
  pub step_first :
      {s t u : LiveSession} → LiveStep limit s t → LiveSteps limit t u → LiveSteps limit s u
  step_first first still = and_then still first
  step_first first (and_then steps last) = and_then (step_first first steps) last

  -- The pump's turn `u` comes first, then those that `t` reaches.
  turn_first :
      (n : ℕ) (s s' t : LiveSession) (u : PendingSystemTurn) (us : List PendingSystemTurn)
      → (background_of s.pending ≡ u ∷ background_of us) × (inline_of s.pending ≡ inline_of us)
      → s'.session_id ≡ s.session_id
      → s'.events
        ≡ (s.events ++ job_started s.session_id u.reason ∷ [])
          ++ job_finished s.session_id u.reason true ∷ []
      → s'.pending ≡ us
      → IsPumped n s' t
      → IsPumped (suc n) s t
  turn_first n s s' t u us (first, others) same told e h = record {
    pump_off = h.pump_off;
    released = h.released;
    free = h.free;
    jobs =
        h.jobs
        ∙ rw told (
            rw same (
              rw e (
                rw first (
                  append_assoc (s.events ++ job_started s.session_id u.reason ∷ [])
                    (job_finished s.session_id u.reason true ∷ [])
                    (job_events s.session_id n (background_of us))
                  ∙ append_assoc s.events (job_started s.session_id u.reason ∷ []) (
                      job_finished s.session_id u.reason true
                      ∷ job_events s.session_id n (background_of us))))));
    rest = h.rest ∙ rw e (rw first refl);
    inline_kept = h.inline_kept ∙ (ap inline_of e ∙ sym others);
  }

  pump_next-IsPumped :
      (n : ℕ) (found : Option (PendingSystemTurn × List PendingSystemTurn)) (s : LiveSession)
      → s.busy ≡ false
      → IsTaken s.pending found
      → (t : LiveSession) × LiveSteps limit (pump_next n found s) t × IsPumped n s t
  pump_next-IsPumped zero found s free h = (
    pump_rest s,
    still,
    record {
      pump_off = refl;
      released = refl;
      free = free;
      jobs = sym (append-nil s.events);
      rest = refl;
      inline_kept = refl;
    },
  )
  pump_next-IsPumped (suc n) none s free h = (
    pump_rest s,
    still,
    record {
      pump_off = refl;
      released = refl;
      free = free;
      jobs = rw h (sym (append-nil s.events));
      rest = rw h refl;
      inline_kept = refl;
    },
  )
  pump_next-IsPumped (suc n) (some (u, us)) s free h =
      let begun = pump_start n u (record s { pending = us }) in
      let s' = record begun {
        busy = false;
        events = begun.events ++ job_finished s.session_id u.reason true ∷ [];
      } in
      let (t, steps, done) =
        pump_next-IsPumped n (take_background us) s' refl (take_background-IsTaken us) in
      (
        t,
        subst (λ x. LiveSteps limit x t) (rw free refl)
            (step_first {s = begun} (pump_return n u true refl) steps),
        turn_first n s s' t u us h refl refl refl done,
      )

has-background_of :
    (ts : List PendingSystemTurn) → not (has_background ts) ≡ leb (length (background_of ts)) 0
has-background_of [] = refl
has-background_of (t ∷ ts) = elim (Bool-cases (is_background t.mode)) [
  | inl b ↦ rw b (ground arith)
  | inr b ↦ rw b (has-background_of ts)
]

length-drop-leb :
    (n : ℕ) (ts : List PendingSystemTurn) → leb (length (drop n ts)) 0 ≡ leb (length ts) n
length-drop-leb zero ts = refl
length-drop-leb (suc n) [] = ground arith
length-drop-leb (suc n) (t ∷ ts) = ground (arith, length-drop-leb n ts)

-- The pump is started on a free session, and nothing else happens until it ends. If its turns all
-- commit, it runs the first 16 background turns of the queue in order, leaves the others and the inline
-- turns, and gives the session back; the session is then idle exactly when there were at most 16.
pub pump_background_jobs-IsPumped :
    (limit : ℕ) (s : LiveSession)
    → s.pump ≡ off
    → s.busy ≡ false
    → (t : LiveSession) × LiveSteps limit (pump_background_jobs s) t
      × IsPumped 16 s t
      × (is_idle t ≡ leb (length (background_of s.pending)) 16)
pump_background_jobs-IsPumped limit s e free =
    let (t, steps, h) =
      pump_next-IsPumped limit 16 (take_background s.pending)
        (record s { background_pumping = true }) free (take_background-IsTaken s.pending) in
    (
      t,
      subst (λ x. LiveSteps limit x t) (rw e refl) steps,
      record {
        pump_off = h.pump_off;
        released = h.released;
        free = h.free;
        jobs = h.jobs;
        rest = h.rest;
        inline_kept = h.inline_kept;
      },
      rw h.free (
          rw h.released (
            has-background_of t.pending
            ∙ (ap (λ l. leb (length l) 0) h.rest ∙ length-drop-leb 16 (background_of s.pending)))),
    )
