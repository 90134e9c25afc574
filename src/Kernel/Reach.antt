-- ===== src/Kernel/Reach.antt =====
-- packages/core/src/state/state-kernel.ts: the calls of the methods of a kernel, in any order.
use rpenginext.Common.{◌≡◌, refl, subst, Option, none, some, List, String, is_some, inl, inr, ◌⊎◌}
use rpenginext.Contracts.{Result, ok, err, WorldState, StateCommand}
use rpenginext.Kernel.{
  StateKernel, DryApplyResult, begin_turn_on, begin_turn, dry_apply, commit_on, commit, discard,
}
use rpenginext.Kernel.DryApply.{Passes}
use rpenginext.Kernel.Atomic.{Applies, dry_apply-Applies}

some-eq : {a b : WorldState} → some a ≡ some b → a ≡ b
some-eq e = cc

none-ne : {a : WorldState} → none ≡ some a → ⊥
none-ne e = cc

-- One call, whatever it answers.
pub data Call (k : StateKernel) : StateKernel → Type 0 where
  begins : (t : String) → Call k (begin_turn t k).1
  applies : (cs : List StateCommand) → Call k (dry_apply cs k).1
  commits : Call k (commit k).1
  discards : Call k (discard k)

pub data Calls (k : StateKernel) : StateKernel → Type 0 where
  here : Calls k k
  next : {l m : StateKernel} → Calls k l → Call l m → Calls k m

pub record IsSound (k : StateKernel) : Type 0 where
  -- a turn id is kept exactly while a draft is open
  pub opened : is_some k.draft ≡ is_some k.open_turn_id
  -- the published state passes every invariant, and so does the draft
  pub settled : Passes k.invariants k.authoritative
  pub drafted : (d : WorldState) → k.draft ≡ some d → Passes k.invariants d

module _ (k : StateKernel) (s : IsSound k) where
  begin_turn_on-IsSound :
      (t : String) (o : Option WorldState) → k.draft ≡ o → IsSound (begin_turn_on o t k).1
  unfolding begin_turn_on
  begin_turn_on-IsSound t (some d) e = s
  begin_turn_on-IsSound t none e = record {
    opened = refl;
    settled = s.settled;
    drafted = λ d same. subst (Passes k.invariants) (some-eq same) s.settled;
  }

  commit_on-IsSound : (o : Option WorldState) → k.draft ≡ o → IsSound (commit_on o k).1
  unfolding commit_on
  commit_on-IsSound none e = s
  commit_on-IsSound (some d) e = record {
    opened = refl;
    settled = s.drafted d e;
    drafted = λ d' same. absurd (none-ne same);
  }

  applied-IsSound :
      (cs : List StateCommand) (o : Result DryApplyResult × StateKernel)
      → Applies cs k o
      → IsSound o.1
  applied-IsSound cs (err f, k') same = rw same s
  applied-IsSound cs (ok r, k') (d, open_draft, (ran, passed, same), moved) = rw moved (record {
    opened = rw (open_draft) at s.opened;
    settled = s.settled;
    drafted = λ d' e. subst (Passes k.invariants) (some-eq e) passed;
  })

pub Call-IsSound : {k l : StateKernel} → Call k l → IsSound k → IsSound l
unfolding begin_turn commit discard
Call-IsSound {k} (begins t) s = begin_turn_on-IsSound k s t k.draft refl
Call-IsSound {k} (applies cs) s = applied-IsSound k s cs (dry_apply cs k) (dry_apply-Applies cs k)
Call-IsSound {k} commits s = commit_on-IsSound k s k.draft refl
Call-IsSound {k} discards s = record {
  opened = refl;
  settled = s.settled;
  drafted = λ d e. absurd (none-ne e);
}

-- What one call does to the published state and to the catalogs.
pub record Publishes (k l : StateKernel) : Type 0 where
  pub published : (l.authoritative ≡ k.authoritative) ⊎ (k.draft ≡ some l.authoritative)
  pub commands : l.commands ≡ k.commands
  pub invariants : l.invariants ≡ k.invariants

abbrev unchanged : (k : StateKernel) → Publishes k k
unchanged k = record { published = inl refl; commands = refl; invariants = refl }

begin_turn_on-Publishes :
    (t : String) (k : StateKernel) (o : Option WorldState) → Publishes k (begin_turn_on o t k).1
unfolding begin_turn_on
begin_turn_on-Publishes t k (some d) = unchanged k
begin_turn_on-Publishes t k none = record {
  published = inl refl;
  commands = refl;
  invariants = refl;
}

commit_on-Publishes :
    (k : StateKernel) (o : Option WorldState) → k.draft ≡ o → Publishes k (commit_on o k).1
unfolding commit_on
commit_on-Publishes k none e = unchanged k
commit_on-Publishes k (some d) e = record { published = inr e; commands = refl; invariants = refl }

applied-Publishes :
    (cs : List StateCommand) (k : StateKernel) (o : Result DryApplyResult × StateKernel)
    → Applies cs k o
    → Publishes k o.1
applied-Publishes cs k (err f, k') same = rw same (unchanged k)
applied-Publishes cs k (ok r, k') (d, opened, ran, moved) =
    rw moved (record { published = inl refl; commands = refl; invariants = refl })

-- No call changes the catalogs, and none changes the published state but one that publishes the
-- open draft.
pub Call-Publishes : {k l : StateKernel} → Call k l → Publishes k l
unfolding begin_turn commit discard
Call-Publishes {k} (begins t) = begin_turn_on-Publishes t k k.draft
Call-Publishes {k} (applies cs) = applied-Publishes cs k (dry_apply cs k) (dry_apply-Applies cs k)
Call-Publishes {k} commits = commit_on-Publishes k k.draft refl
Call-Publishes {k} discards = record { published = inl refl; commands = refl; invariants = refl }
