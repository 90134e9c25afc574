-- ===== src/Kernel/Tests.antt =====
-- The theorems of the kernel at concrete inputs.
use rpenginext.Common.{[], ◌∷◌, some}
use rpenginext.Kernel.{StateKernel, dry_apply, begin_turn}
use rpenginext.Samples.{origin, bump, kernel}

abbrev inside : StateKernel
inside = record kernel { draft = some origin; open_turn_id = some "trn_1" }

abbrev after_apply : StateKernel
after_apply = (dry_apply (bump "trn_1" ∷ []) (begin_turn "trn_1" kernel).1).1
