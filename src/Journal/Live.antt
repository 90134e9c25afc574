-- ===== src/Journal/Live.antt =====
-- What a turn of the pipeline does to the kernel (packages/core/src/pipeline/turn-pipeline.ts):
-- begin, dry-apply of the proposed commands, dry-apply of the commands that follow the narrative if
-- there are any, then commit and a journal entry; a failure discards the draft.
use rpenginext.Common.{List, [], ◌∷◌, ◌++◌, String}
use rpenginext.Contracts.{Result, ok, err, WorldState, StateCommand, PlayerAction, JournalEntry}
use rpenginext.Kernel.{StateKernel, begin_turn, get_draft_view, dry_apply, commit, discard}

-- What the stages before the commit come to.
pub record Turn : Type 0 where
  pub turn_id : String
  pub input : PlayerAction
  pub proposed : List StateCommand
  pub materialized : List StateCommand
  pub passage_id : String
  pub timestamp : String

abbrev pub Outcome : Type 0 → Type 0
Outcome A = Result A × StateKernel

infixl 5 ◌>>=ₖ◌
abbrev pub ◌>>=ₖ◌ : {A B : Type 0} → Outcome A → (A → StateKernel → Outcome B) → Outcome B
(ok a, k) >>=ₖ f = f a k
(err e, k) >>=ₖ f = (err e, discard k)

unfoldable pub materialize : List StateCommand → StateKernel → Outcome (List StateCommand)
materialize [] k = (ok [], k)
materialize (c ∷ cs) k = dry_apply (c ∷ cs) k >>=ₖ λ r k'. (ok r.accepted_commands, k')

abbrev pub entry_of : Turn → WorldState → List StateCommand → StateKernel → JournalEntry
entry_of t s0 accepted k = record {
  turn_id = t.turn_id;
  prev_revision = s0.meta.revision;
  next_revision = (get_draft_view k).meta.revision;
  input = t.input;
  commands = accepted;
  passage_id = t.passage_id;
  timestamp = t.timestamp;
}

-- A turn that fails has no entry.
unfoldable pub play : Turn → StateKernel → Outcome JournalEntry
play t k = begin_turn t.turn_id k >>=ₖ λ s0 k₁. dry_apply t.proposed k₁ >>=ₖ λ r k₂.
    materialize t.materialized k₂ >>=ₖ λ more k₃.
    commit k₃ >>=ₖ λ w k₄. (ok (entry_of t s0 (r.accepted_commands ++ more) k₃), k₄)

abbrev pub keep : Result JournalEntry → List JournalEntry → List JournalEntry
keep (ok e) es = e ∷ es
keep (err f) es = es

-- A session's turns one after another: its journal and its kernel at the end.
unfoldable pub play_all : List Turn → StateKernel → List JournalEntry × StateKernel
play_all [] k = ([], k)
play_all (t ∷ ts) k = let (r, k') = play t k in let (es, k'') = play_all ts k' in (keep r es, k'')
