-- ===== src/Pipeline/Normalize/Ranked.antt =====
-- The candidates of a resolver in the order of `stageNormalize` of
-- packages/core/src/pipeline/turn-pipeline.ts, and the one that stands out.
use rpenginext.Common.{
  ◌+◌, ◌-◌, ◌≤◌, ◌<◌, ◌≡◌, refl, Bool, true, false, ◌⊎◌, inl, inr, List, [], ◌∷◌, leb, length,
  filter, All, if◌then◌else◌, arith,
}
use rpenginext.Pipeline.Normalize.{Candidate, half, insert_best, best_first, tied_with}

abbrev pub IsIn : Candidate → List Candidate → Type 0
IsIn c [] = ⊥
IsIn c (d ∷ ds) = (d ≡ c) ⊎ IsIn c ds

pub All-IsIn :
    (P : Candidate → Type 0) (cs : List Candidate) → ((c : Candidate) → IsIn c cs → P c) → All P cs
All-IsIn P [] h = tt
All-IsIn P (c ∷ cs) h = (h c (inl refl), All-IsIn P cs (λ d i. h d (inr i)))

-- A candidate of a list that is likely, and clearly likelier than every other one.
pub record StandsOut (c : Candidate) (cs : List Candidate) : Type 0 where
  pub found : IsIn c cs
  pub likely : half ≤ c.confidence
  pub alone : All (λ d. (d ≡ c) ⊎ (d.confidence + 1 < c.confidence)) cs

module _ (P : Candidate → Type 0) where
  either-All :
      (b : Bool) (xs ys : List Candidate) → All P (if b then xs else ys) → (All P xs) ⊎ (All P ys)
  either-All true xs ys h = inl h
  either-All false xs ys h = inr h

  insert_best-All :
      (x : Candidate) (ys : List Candidate)
      → All P (insert_best (λ c. c.confidence) x ys)
      → P x × All P ys
  insert_best-All x [] h = h
  insert_best-All x (y ∷ ys) h = elim (either-All (leb y.confidence x.confidence) _ _ h) [
    | inl k ↦ k
    | inr k ↦ (let rest = insert_best-All x ys (k.1) in (rest.0, (k.0, rest.1)))
  ]

  pub best_first-All : (xs : List Candidate) → All P (best_first (λ c. c.confidence) xs) → All P xs
  best_first-All [] h = h
  best_first-All (x ∷ xs) h =
      let (first, rest) = insert_best-All x (best_first (λ c. c.confidence) xs) h in
      (first, best_first-All xs rest)

module _ (P : Candidate → Type 0) where
  All-either :
      (b : Bool) (xs ys : List Candidate) → All P xs → All P ys → All P (if b then xs else ys)
  All-either true xs ys h k = h
  All-either false xs ys h k = k

  All-insert_best :
      (x : Candidate) (ys : List Candidate)
      → P x
      → All P ys
      → All P (insert_best (λ c. c.confidence) x ys)
  All-insert_best x [] h k = (h, tt)
  All-insert_best x (y ∷ ys) h k =
      All-either (leb y.confidence x.confidence) _ _ (h, k) (k.0, All-insert_best x ys h (k.1))

  pub All-best_first : (xs : List Candidate) → All P xs → All P (best_first (λ c. c.confidence) xs)
  All-best_first [] h = h
  All-best_first (x ∷ xs) h =
      All-insert_best x (best_first (λ c. c.confidence) xs) (h.0) (All-best_first xs (h.1))

filter-step :
    (p : Candidate → Bool) (x : Candidate) (xs : List Candidate)
    → length (filter p (x ∷ xs)) ≡ 0
    → (p x ≡ false) × (length (filter p xs) ≡ 0)
filter-step p x xs h = ground arith

pub tied-alone :
    (c : Candidate) (cs : List Candidate)
    → length (tied_with c cs) ≡ 0
    → All (λ d. (d ≡ c) ⊎ (d.confidence + 1 < c.confidence)) cs
tied-alone c [] h = tt
tied-alone c (d ∷ ds) h =
    let (weak, rest) = filter-step (λ e. leb (c.confidence - 1) e.confidence) d ds h in
    (inr (ground arith), tied-alone c ds rest)

pub first_tied :
    (c : Candidate) (others : List Candidate)
    → length (tied_with c (c ∷ others)) ≤ 1
    → length (tied_with c others) ≡ 0
first_tied c others h = ground arith
