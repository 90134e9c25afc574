-- ===== src/Kernel/Atomic.antt =====
-- packages/core/src/state/state-kernel.ts: `dryApply` on a kernel.
use rpenginext.Common.{ap, ◌≡◌, refl, Option, none, some, List}
use rpenginext.Contracts.{Result, ok, err, WorldState, StateCommand}
use rpenginext.Kernel.{StateKernel, DryApplyResult, dry_run, store_run, dry_apply_on, dry_apply}
use rpenginext.Kernel.DryApply.{Runs, dry_run-Runs}

-- What `dry_apply cs` did to the kernel `k`, by how it ended.
abbrev pub Applies : List StateCommand → StateKernel → Result DryApplyResult × StateKernel → Type 0
Applies cs k (err e, k') = k' ≡ k
Applies cs k (ok r, k') =
    (d : WorldState) × (k.draft ≡ some d)
    × Runs k.commands k.invariants cs d r
    × (k' ≡ record k { draft = some r.draft })

store_run-Applies :
    (cs : List StateCommand) (k : StateKernel) (d : WorldState) (r : Result DryApplyResult)
    → k.draft ≡ some d
    → dry_run k.commands k.invariants d cs ≡ r
    → Applies cs k (store_run r k)
unfolding store_run
store_run-Applies cs k d (ok r) opened e =
    (d, opened, dry_run-Runs k.commands k.invariants d cs e, refl)
store_run-Applies cs k d (err f) opened e = refl

dry_apply_on-Applies :
    (cs : List StateCommand) (k : StateKernel) (o : Option WorldState)
    → k.draft ≡ o
    → Applies cs k (dry_apply_on o cs k)
unfolding dry_apply_on
dry_apply_on-Applies cs k none shut = refl
dry_apply_on-Applies cs k (some d) opened =
    store_run-Applies cs k d (dry_run k.commands k.invariants d cs) opened refl

pub dry_apply-Applies : (cs : List StateCommand) (k : StateKernel) → Applies cs k (dry_apply cs k)
unfolding dry_apply
dry_apply-Applies cs k = dry_apply_on-Applies cs k k.draft refl

authoritative-Applies :
    (cs : List StateCommand) (k : StateKernel) (o : Result DryApplyResult × StateKernel)
    → Applies cs k o
    → o.1.authoritative ≡ k.authoritative
authoritative-Applies cs k (err f, k') same = ap (λ (x : StateKernel). x.authoritative) same
authoritative-Applies cs k (ok r, k') (d, opened, ran, moved) =
    ap (λ (x : StateKernel). x.authoritative) moved

pub authoritative-dry_apply :
    (cs : List StateCommand) (k : StateKernel) → (dry_apply cs k).1.authoritative ≡ k.authoritative
authoritative-dry_apply cs k = authoritative-Applies cs k (dry_apply cs k) (dry_apply-Applies cs k)
