-- ===== src/Agents/Parallel.antt =====
-- `executeMany` of packages/core/src/agents/agent-orchestrator.ts: workers that take tasks by a shared index
-- and wait for their answers in any order. A step is what a worker does between two waits. `Answer i r`
-- says that the execution of the task at the place `i` may return `r`.
use rpenginext.Common.{
  ℕ, zero, suc, ◌+◌, ◌≤◌, ◌<◌, ◌≡◌, refl, ap, subst, Bool, true, false, Bool-cases, ◌⊎◌, inl, inr,
  Option, none, some, List, [], ◌∷◌, ◌++◌, length, length-append, eqb, ltb, if◌then◌else◌, arith,
}

-- The workers at the head of their loop, the next index, the tasks under way, and the array of results.
pub record Pool (R : Type 0) : Type 0 where
  pub idle : ℕ
  pub next : ℕ
  pub running : List ℕ
  pub results : ℕ → Option R

abbrev smaller : ℕ → ℕ → ℕ
smaller a b = if ltb b a then b else a

abbrev pub at_least_one : ℕ → ℕ
at_least_one zero = 1
at_least_one (suc n) = suc n

-- The number of workers.
abbrev pub workers : ℕ → ℕ → ℕ
workers max_parallel tasks = smaller (at_least_one max_parallel) tasks

abbrev pub start_pool : {R : Type 0} → ℕ → ℕ → Pool R
start_pool max_parallel tasks = record {
  idle = workers max_parallel tasks;
  next = 0;
  running = [];
  results = λ i. none;
}

abbrev pub set_result : {R : Type 0} → ℕ → R → (ℕ → Option R) → ℕ → Option R
set_result i r results j = if eqb j i then some r else results j

module _ {R : Type 0} (Answer : ℕ → R → Type 0) (tasks : ℕ) where
  pub data PoolStep : Pool R → Pool R → Type 0 where
    -- A worker takes the next task.
    take :
        {s : Pool R} (k : ℕ)
        → s.idle ≡ suc k
        → s.next < tasks
        → PoolStep s (record s { idle = k; next = suc s.next; running = s.next ∷ s.running })
    -- A worker finds no task left and returns.
    leave :
        {s : Pool R} (k : ℕ)
        → s.idle ≡ suc k
        → tasks ≤ s.next
        → PoolStep s (record s { idle = k; next = suc s.next })
    -- An answer comes, and the worker stores it and goes on.
    store :
        {s : Pool R} (before after : List ℕ) (i : ℕ) (r : R)
        → s.running ≡ before ++ i ∷ after
        → Answer i r
        → PoolStep s (record s {
          idle = suc s.idle;
          running = before ++ after;
          results = set_result i r s.results;
        })

  pub data Reaches (max_parallel : ℕ) : Pool R → Type 0 where
    started : Reaches max_parallel (start_pool max_parallel tasks)
    stepped : {s t : Pool R} → Reaches max_parallel s → PoolStep s t → Reaches max_parallel t

  abbrev pub IsAnswered : ℕ → Option R → Type 0
  IsAnswered i none = ⊥
  IsAnswered i (some r) = Answer i r

  abbrev pub IsUnderWay : ℕ → List ℕ → Type 0
  IsUnderWay j [] = ⊥
  IsUnderWay j (i ∷ is) = (i ≡ j) ⊎ IsUnderWay j is

  record IsFilling (count : ℕ) (s : Pool R) : Type 0 where
    few : s.idle + length s.running ≤ count
    over : s.idle + length s.running < count → tasks ≤ s.next
    placed : (j : ℕ) → j < tasks → j < s.next → IsUnderWay j s.running ⊎ IsAnswered j (s.results j)

  other-UnderWay :
      (before after : List ℕ) (i j : ℕ)
      → IsUnderWay j (before ++ i ∷ after)
      → (i ≡ j) ⊎ IsUnderWay j (before ++ after)
  other-UnderWay [] after i j h = h
  other-UnderWay (b ∷ bs) after i j (inl e) = inr (inl e)
  other-UnderWay (b ∷ bs) after i j (inr h) = elim (other-UnderWay bs after i j h) [
    | inl e ↦ inl e
    | inr k ↦ inr (inr k)
  ]

  set_when-IsAnswered :
      (b : Bool) (i j : ℕ) (r : R) (results : ℕ → Option R)
      → eqb j i ≡ b
      → Answer i r
      → (i ≡ j) ⊎ IsAnswered j (results j)
      → IsAnswered j (if b then some r else results j)
  set_when-IsAnswered true i j r results e a h =
      subst (λ k. Answer k r) (let same : i ≡ j = ground arith in same) a
  set_when-IsAnswered false i j r results e a (inl same) = absurd (ground arith)
  set_when-IsAnswered false i j r results e a (inr k) = k

  set_result-IsAnswered :
      (i : ℕ) (r : R) (results : ℕ → Option R) (j : ℕ)
      → Answer i r
      → (i ≡ j) ⊎ IsAnswered j (results j)
      → IsAnswered j (set_result i r results j)
  set_result-IsAnswered i r results j a h = set_when-IsAnswered (eqb j i) i j r results refl a h

  length-middle :
      (before after : List ℕ) (i : ℕ)
      → length (before ++ i ∷ after) ≡ suc (length (before ++ after))
  length-middle before after i =
      omega (arith, length-append before (i ∷ after), length-append before after)

  PoolStep-IsFilling :
      (count : ℕ) (s t : Pool R) → PoolStep s t → IsFilling count s → IsFilling count t
  PoolStep-IsFilling count s t (take k e more) h = record {
    few = omega (arith, h.few, e);
    over = λ l. omega (arith, e, h.over, l);
    placed = λ j n l. elim (Bool-cases (eqb s.next j)) [
      | inl same ↦ inl (inl (ground arith))
      | inr before ↦ elim (h.placed j n (ground arith)) [ inl u ↦ inl (inr u) | inr a ↦ inr a ]
    ];
  }
  PoolStep-IsFilling count s t (leave k e none_left) h = record {
    few = omega (arith, h.few, e);
    over = λ l. omega (arith, none_left);
    placed = λ j n l. h.placed j n (omega (arith, n, none_left));
  }
  PoolStep-IsFilling count s t (store before after i r e a) h = record {
    few = omega (arith, h.few, ap (λ l. length l) e, length-middle before after i);
    over = λ l. h.over (omega (arith, l, ap (λ l. length l) e, length-middle before after i));
    placed = λ j n l. elim (h.placed j n l) [
      | inl u ↦ elim (other-UnderWay before after i j (subst (IsUnderWay j) e u)) [
        | inl same ↦ inr (set_result-IsAnswered i r s.results j a (inl same))
        | inr k ↦ inl k
      ]
      | inr k ↦ inr (set_result-IsAnswered i r s.results j a (inr k))
    ];
  }

  Reaches-IsFilling :
      (max_parallel : ℕ) (s : Pool R)
      → Reaches max_parallel s
      → IsFilling (workers max_parallel tasks) s
  Reaches-IsFilling max_parallel s started = record {
    few = omega arith;
    over = λ l. absurd (omega (arith, l));
    placed = λ j n l. absurd (omega (arith, l));
  }
  Reaches-IsFilling max_parallel t (stepped {s} r step) =
      PoolStep-IsFilling (workers max_parallel tasks) s t step (Reaches-IsFilling max_parallel s r)

workers-bounds :
    (max_parallel tasks : ℕ)
    → (workers max_parallel tasks ≤ at_least_one max_parallel)
      × (1 ≤ tasks → 1 ≤ workers max_parallel tasks)
workers-bounds zero tasks = (ground arith, λ h. ground arith)
workers-bounds (suc m) tasks = (ground arith, λ h. ground arith)

nothing_runs :
    {R : Type 0} (Answer : ℕ → R → Type 0) (tasks j : ℕ) (running : List ℕ) (r : Option R)
    → length running ≡ 0
    → IsUnderWay Answer tasks j running ⊎ IsAnswered Answer tasks j r
    → IsAnswered Answer tasks j r
nothing_runs Answer tasks j [] r e (inl u) = absurd u
nothing_runs Answer tasks j (i ∷ is) r e (inl u) = absurd (omega (arith, e))
nothing_runs Answer tasks j running r e (inr a) = a

-- At most the allowed number of tasks is under way (one, if none is allowed).
pub Reaches-few :
    {R : Type 0} (Answer : ℕ → R → Type 0) (tasks max_parallel : ℕ) (s : Pool R)
    → Reaches Answer tasks max_parallel s
    → length s.running ≤ at_least_one max_parallel
Reaches-few Answer tasks max_parallel s r =
    let h = Reaches-IsFilling Answer tasks max_parallel s r in
    omega (arith, h.few, (workers-bounds max_parallel tasks).0)

-- In whatever order the tasks are taken and the answers come: when every worker has returned, the array
-- holds at the place of each task an answer to that task.
pub Reaches-IsAnswered :
    {R : Type 0} (Answer : ℕ → R → Type 0) (tasks max_parallel : ℕ) (s : Pool R) (j : ℕ)
    → Reaches Answer tasks max_parallel s
    → s.idle + length s.running ≡ 0
    → j < tasks
    → IsAnswered Answer tasks j (s.results j)
Reaches-IsAnswered Answer tasks max_parallel s j r done n =
    let h = Reaches-IsFilling Answer tasks max_parallel s r in
    let some_worker = (workers-bounds max_parallel tasks).1 in
    let ended : tasks ≤ s.next = h.over (omega (arith, done, some_worker, n)) in
    nothing_runs Answer tasks j s.running (s.results j) (omega (arith, done))
      (h.placed j n (omega (arith, n, ended)))
