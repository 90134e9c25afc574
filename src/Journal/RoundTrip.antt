-- ===== src/Journal/RoundTrip.antt =====
-- One entry of packages/core/src/state/journal-replay.ts against the turn that wrote it, and lists of
-- them against sessions.
use rpenginext.Common.{
  ℕ, suc, ◌+◌, ◌≤◌, ◌≡◌, refl, ◌∙◌, ap, none, some, List, [], ◌∷◌, ◌++◌, String, Dict, append-nil,
  length, All, arith, inl, inr, eqb_iff,
}
use rpenginext.Contracts.{
  ok, err, Result-cases, WorldState, StateCommand, CommandDefinition, InvariantDefinition,
  JournalEntry,
}
use rpenginext.Kernel.{
  StateKernel, get_authoritative, begin_turn, get_draft_view, dry_run, store_run, dry_apply_on,
  dry_apply, commit, discard,
}
use rpenginext.Kernel.DryApply.{run_all, run_all-append-ok, Passes, dry_run-Runs, dry_run_of}
use rpenginext.Journal.{replay_entry, replay_loop}
use rpenginext.Journal.Live.{Turn, Outcome, ◌>>=ₖ◌, materialize, entry_of, play, keep, play_all}
use rpenginext.Journal.Sort.{IsChain}

add-suc_shift : (n m : ℕ) → n + 1 + m ≡ n + suc m
add-suc_shift n m = omega arith

add_nothing : (n : ℕ) → n ≡ n + 0
add_nothing n = omega arith

abbrev pub NoneLowers : List JournalEntry → Type 0
NoneLowers = All (λ e. e.prev_revision ≤ e.next_revision)

module _ (commands : Dict CommandDefinition) (invariants : List InvariantDefinition) where
  -- A kernel between two turns, and one inside a turn.
  abbrev pub idle : WorldState → StateKernel
  idle w = record {
    authoritative = w;
    draft = none;
    open_turn_id = none;
    commands = commands;
    invariants = invariants;
  }

  abbrev pub opened : String → WorldState → WorldState → StateKernel
  opened t w d = record {
    authoritative = w;
    draft = some d;
    open_turn_id = some t;
    commands = commands;
    invariants = invariants;
  }

  dry_apply-opened :
      (t : String) (w d : WorldState) (cs : List StateCommand)
      → dry_apply cs (opened t w d) ≡ store_run (dry_run commands invariants d cs) (opened t w d)
  unfolding dry_apply dry_apply_on
  dry_apply-opened t w d cs = refl

  -- What a turn that began on the state `w` did.
  abbrev pub Plays : WorldState → Outcome JournalEntry → Type 0
  Plays w (err f, k) = k ≡ idle w
  Plays w (ok e, k) =
      (v : WorldState) × (k ≡ idle v)
      × (run_all commands e.commands w ≡ ok v)
      × Passes invariants v
      × (e.prev_revision ≡ w.meta.revision)
      × (e.next_revision ≡ v.meta.revision)

  abbrev finish :
      Turn → WorldState → List StateCommand → List StateCommand → StateKernel → Outcome JournalEntry
  finish t w cs ds k = materialize ds k >>=ₖ λ more k₃.
      commit k₃ >>=ₖ λ v k₄. (ok (entry_of t w (cs ++ more) k₃), k₄)

  finish-Plays :
      (t : Turn) (w d : WorldState) (cs ds : List StateCommand)
      → run_all commands cs w ≡ ok d
      → Passes invariants d
      → Plays w (finish t w cs ds (opened t.turn_id w d))
  unfolding materialize commit get_draft_view store_run discard
  finish-Plays t w d cs [] ran passed = (d, refl, rw append-nil ran, passed, refl, refl)
  finish-Plays t w d cs (c ∷ ds) ran passed =
      elim (Result-cases (dry_run commands invariants d (c ∷ ds))) [
        | inl (r, e) ↦
            let (more, held, same) = dry_run-Runs commands invariants d (c ∷ ds) e in
            rw (dry_apply-opened t.turn_id w d (c ∷ ds), e)
              (
                r.draft,
                refl,
                rw same (run_all-append-ok commands cs (c ∷ ds) w d r.draft ran more),
                held,
                refl,
                refl,
              )
        | inr (f, e) ↦ rw (dry_apply-opened t.turn_id w d (c ∷ ds), e) refl
      ]

  -- A turn on an idle kernel either leaves the kernel as it was, or moves it to the state that the
  -- entry's commands give, between the revisions that the entry names.
  pub play-Plays : (t : Turn) (w : WorldState) → Plays w (play t (idle w))
  unfolding play begin_turn store_run discard
  play-Plays t w = elim (Result-cases (dry_run commands invariants w t.proposed)) [
    | inl (r, e) ↦
        let (ran, held, same) = dry_run-Runs commands invariants w t.proposed e in
        rw (dry_apply-opened t.turn_id w w t.proposed, e)
          (rw same (finish-Plays t w r.draft t.proposed t.materialized ran held))
    | inr (f, e) ↦ rw (dry_apply-opened t.turn_id w w t.proposed, e) refl
  ]

  replay_entry-idle :
      (e : JournalEntry) (w v : WorldState)
      → run_all commands e.commands w ≡ ok v
      → Passes invariants v
      → e.prev_revision ≡ w.meta.revision
      → e.next_revision ≡ v.meta.revision
      → replay_entry e (idle w) ≡ ok (idle v)
  unfolding replay_entry get_authoritative begin_turn store_run commit
  replay_entry-idle e w v ran held prev next =
      rw
        (
          prev,
          (eqb_iff w.meta.revision w.meta.revision).1 refl,
          dry_apply-opened e.turn_id w w e.commands,
          dry_run_of commands invariants w v e.commands ran held,
          next,
          (eqb_iff v.meta.revision v.meta.revision).1 refl,
        )
        refl

  -- The journal and the last state of a session, replayed from where the session began.
  abbrev pub Replays : ℕ → WorldState → List JournalEntry × StateKernel → Type 0
  Replays n w (es, k) =
      (v : WorldState) × (k ≡ idle v)
      × (replay_loop none es n (idle w) ≡ ok (n + length es, idle v))

  keep-Replays :
      (n : ℕ) (w : WorldState) (ts : List Turn) (o : Outcome JournalEntry)
      → Plays w o
      → ((m : ℕ) (v : WorldState) → Replays m v (play_all ts (idle v)))
      → Replays n w (keep o.0 (play_all ts o.1).0, (play_all ts o.1).1)
  unfolding replay_loop
  keep-Replays n w ts (err f, k) same later = rw same (later n w)
  keep-Replays n w ts (ok e, k) (v, same, ran, held, prev, next) later =
      let (u, ended, replayed) = later (n + 1) v in
      rw (same, replay_entry-idle e w v ran held prev next)
        (u, ended, replayed ∙ ap (λ m. ok (m, idle u)) (add-suc_shift n _))

  pub play_all-Replays :
      (n : ℕ) (w : WorldState) (ts : List Turn) → Replays n w (play_all ts (idle w))
  unfolding play_all replay_loop
  play_all-Replays n w [] = (w, refl, ap (λ m. ok (m, idle w)) (add_nothing n))
  play_all-Replays n w (t ∷ ts) =
      keep-Replays n w ts (play t (idle w)) (play-Plays t w) (λ m v. play_all-Replays m v ts)

  keep-IsChain :
      (w : WorldState) (ts : List Turn) (o : Outcome JournalEntry)
      → Plays w o
      → ((v : WorldState)
          → NoneLowers (play_all ts (idle v)).0
          → IsChain v.meta.revision (play_all ts (idle v)).0)
      → NoneLowers (keep o.0 (play_all ts o.1).0)
      → IsChain w.meta.revision (keep o.0 (play_all ts o.1).0)
  keep-IsChain w ts (err f, k) same later mono = rw same (later w (rw same at mono))
  keep-IsChain w ts (ok e, k) (v, same, ran, held, prev, next) later mono =
      rw same (prev, mono.0, rw next (later v (rw same at mono.1)))

  pub play_all-IsChain :
      (w : WorldState) (ts : List Turn)
      → NoneLowers (play_all ts (idle w)).0
      → IsChain w.meta.revision (play_all ts (idle w)).0
  unfolding play_all
  play_all-IsChain w [] mono = tt
  play_all-IsChain w (t ∷ ts) mono =
      keep-IsChain w ts (play t (idle w)) (play-Plays t w) (λ v. play_all-IsChain v ts) mono
