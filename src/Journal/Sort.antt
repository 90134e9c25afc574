-- ===== src/Journal/Sort.antt =====
-- Sorting a journal that is in order already.
use rpenginext.Common.{ℕ, ◌≤◌, ◌≡◌, refl, List, [], ◌∷◌, arith}
use rpenginext.Contracts.{JournalEntry}
use rpenginext.Journal.{insert_entry, sort_entries}

-- Each entry starts at the revision where the one before it ended, and no entry lowers it.
abbrev pub IsChain : ℕ → List JournalEntry → Type 0
IsChain r [] = Unit
IsChain r (e ∷ es) =
    (e.prev_revision ≡ r) × (e.prev_revision ≤ e.next_revision) × IsChain e.next_revision es

insert_entry-IsChain :
    (r : ℕ) (e : JournalEntry) (es : List JournalEntry)
    → IsChain r (e ∷ es)
    → insert_entry e es ≡ e ∷ es
unfolding insert_entry
insert_entry-IsChain r e [] h = refl
insert_entry-IsChain r e (x ∷ xs) h = ground arith

pub sort_entries-IsChain : (r : ℕ) (es : List JournalEntry) → IsChain r es → sort_entries es ≡ es
unfolding sort_entries
sort_entries-IsChain r [] h = refl
sort_entries-IsChain r (e ∷ es) h =
    rw (sort_entries-IsChain e.next_revision es h.2) (insert_entry-IsChain r e es h)
