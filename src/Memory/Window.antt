-- ===== src/Memory/Window.antt =====
-- The window of packages/modules/working-memory/src/selectors/window.ts next to the summaries.
use rpenginext.Common.{
  ℕ, zero, suc, ◌+◌, ◌-◌, ◌≤◌, ◌≡◌, refl, sym, ap, Bool, true, false, List, [], ◌∷◌, ◌++◌, length,
  drop, leb, if◌then◌else◌, arith,
}
use rpenginext.Memory.{WorkingMemoryPair, select_last_pairs, should_summarize, at_least_one}

drop-splits :
    {A : Type 0} (a b : ℕ) (xs : List A)
    → a ≤ b
    → (front : List A) × (drop a xs ≡ front ++ drop b xs)
drop-splits zero zero xs h = ([], refl)
drop-splits zero (suc b) [] h = ([], refl)
drop-splits zero (suc b) (x ∷ xs) h =
    let rest = drop-splits zero b xs (omega arith) in (x ∷ rest.0, ap (λ l. x ∷ l) rest.1)
drop-splits (suc a) zero xs h = absurd (omega arith)
drop-splits (suc a) (suc b) [] h = ([], refl)
drop-splits (suc a) (suc b) (x ∷ xs) h = drop-splits a b xs (omega arith)

drop-all : {A : Type 0} (n : ℕ) (xs : List A) → length xs ≤ n → drop n xs ≡ []
drop-all zero [] h = refl
drop-all zero (x ∷ xs) h = absurd (omega arith)
drop-all (suc n) [] h = refl
drop-all (suc n) (x ∷ xs) h = drop-all n xs (omega arith)

abbrev pub EndsWith : List WorkingMemoryPair → List WorkingMemoryPair → Type 0
EndsWith xs end = (front : List WorkingMemoryPair) × (xs ≡ front ++ end)

either-EndsWith :
    (b : Bool) (whole cut end : List WorkingMemoryPair)
    → EndsWith whole end
    → EndsWith cut end
    → EndsWith (if b then whole else cut) end
either-EndsWith true whole cut end h k = h
either-EndsWith false whole cut end h k = k

select-EndsWith :
    (entries : List WorkingMemoryPair) (window last : ℕ)
    → length entries ≤ last + window
    → EndsWith (select_last_pairs entries window) (drop last entries)
unfolding select_last_pairs
select-EndsWith entries zero last h = ([], sym (drop-all last entries (omega (arith, h))))
select-EndsWith [] (suc n) last h =
    ([], sym (drop-all {A = WorkingMemoryPair} last [] (omega arith)))
select-EndsWith (p ∷ ps) (suc n) last h =
    either-EndsWith (leb (length (p ∷ ps)) (suc n)) (p ∷ ps)
      (drop (length (p ∷ ps) - suc n) (p ∷ ps)) (drop last (p ∷ ps))
      (drop-splits 0 last (p ∷ ps) (omega arith))
      (drop-splits (length (p ∷ ps) - suc n) last (p ∷ ps) (omega arith))

not_due :
    (total last interval : ℕ)
    → should_summarize total last interval ≡ false
    → total ≤ last + at_least_one interval
unfolding should_summarize
not_due total last interval e = ground arith

-- While no summary is due, and the interval of the summaries is not above the window, the window ends
-- with every pair that no summary covers: nothing is lost between them.
pub select_last_pairs-covers :
    (entries : List WorkingMemoryPair) (window last interval : ℕ)
    → should_summarize (length entries) last interval ≡ false
    → at_least_one interval ≤ window
    → EndsWith (select_last_pairs entries window) (drop last entries)
select_last_pairs-covers entries window last interval e h =
    select-EndsWith entries window last (omega (arith, not_due (length entries) last interval e, h))
