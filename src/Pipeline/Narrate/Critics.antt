-- ===== src/Pipeline/Narrate/Critics.antt =====
-- How often `stageNarrate` of packages/core/src/pipeline/turn-pipeline.ts has the prose written, and
-- what the prose that it keeps went through.
use rpenginext.Common.{
  ℕ, zero, suc, ◌+◌, ◌≤◌, ◌≡◌, refl, ◌∙◌, ap, subst, Bool, true, false, List, [], ◌∷◌, ◌++◌,
  append_assoc, length, length-append, String, ◌==◌, ◌⊎◌, inl, inr, All, arith,
}
use rpenginext.Contracts.{Result, ok, err, ⊤}
use rpenginext.Pipeline.{Verdict, accepts, refuses}
use rpenginext.Pipeline.Steps.{then_on, ◌>>=◌, ◌>>◌, lift, Keeps, Keeps->>=}
use rpenginext.Pipeline.Narrate.{
  RepairRound, CriticPolicy, accept, fail, CriticLog, Refusal, Critic, log_request, log_refused,
  note_verdict, check_prose, repair, retry, criticize, write_round, out_of_rounds, write_rounds,
  no_rounds, write_narrative,
}

criticize-Keeps :
    (cs : List Critic) (prose : String) (round : ℕ)
    → Keeps (λ (l : CriticLog). l) (criticize cs prose round)
unfolding criticize
criticize-Keeps [] prose round = λ l. refl
criticize-Keeps (c ∷ cs) prose round =
    Keeps->>= _ (lift (c.value prose round)) _ (λ s. refl)
      (λ verdict.
        Keeps->>= _ (criticize cs prose round) _ (criticize-Keeps cs prose round) (λ rest s. refl))

-- The critic lets the prose pass in the round.
abbrev pub Passes : String → ℕ → Critic → Type 0
Passes prose round c = c.value prose round ≡ ok accepts

abbrev PassesAll : List Critic → String → ℕ → Result (List Refusal) × CriticLog → Type 0
PassesAll cs prose round (ok [], l) = All (Passes prose round) cs
PassesAll cs prose round (ok (r ∷ rs), l) = ⊤
PassesAll cs prose round (err e, l) = ⊤

noted :
    (c : Critic) (cs : List Critic) (prose : String) (round : ℕ) (v : Verdict)
    (o : Result (List Refusal) × CriticLog)
    → c.value prose round ≡ ok v
    → PassesAll cs prose round o
    → PassesAll
        (c ∷ cs)
        prose
        round
        (then_on o (λ rest l. (ok (note_verdict c.module_id v rest), l)))
noted c cs prose round accepts (ok [], l) e h = (e, h)
noted c cs prose round accepts (ok (r ∷ rs), l) e h = tt
noted c cs prose round (refuses reason) (ok rs, l) e h = tt
noted c cs prose round v (err f, l) e h = tt

criticize-PassesAll :
    (cs : List Critic) (prose : String) (round : ℕ) (l : CriticLog)
    → PassesAll cs prose round (criticize cs prose round l)
unfolding criticize
criticize-PassesAll [] prose round l = tt
criticize-PassesAll (c ∷ cs) prose round l =
    first (c.value prose round) refl (criticize-PassesAll cs prose round l)
  where
    first :
        (v : Result Verdict)
        → c.value prose round ≡ v
        → PassesAll cs prose round (criticize cs prose round l)
        → PassesAll (c ∷ cs) prose round (
            then_on
              (v, l)
              (λ verdict. criticize cs prose round >>= λ rest l.
                (ok (note_verdict c.module_id verdict rest), l)))
    first (err e) q h = tt
    first (ok v) q h = noted c cs prose round v (criticize cs prose round l) q h

-- Requests that carry `n`, `n + 1`, ... repair rounds.
abbrev pub Counted : ℕ → List (List RepairRound) → Type 0
Counted n [] = ⊤
Counted n (r ∷ rs) = (length r ≡ n) × Counted (suc n) rs

module _ (critics : List Critic) (policy : CriticPolicy)
    (write : ℕ → List RepairRound → Result String) where
  -- After one round from the log `l`.
  abbrev Written :
      ℕ → List RepairRound → CriticLog → Result (String × List Refusal) × CriticLog → Type 0
  Written round repairs l (err e, m) = m ≡ log_request repairs l
  Written round repairs l (ok (prose, rs), m) =
      (m ≡ log_request repairs l)
      × ((prose == "") ≡ false)
      × PassesAll critics prose round (ok rs, m)

  reviewed :
      (round : ℕ) (repairs : List RepairRound) (l : CriticLog) (prose : String)
      (o : Result (List Refusal) × CriticLog)
      → (prose == "") ≡ false
      → o.1 ≡ log_request repairs l
      → PassesAll critics prose round o
      → Written round repairs l (then_on o (λ rs m. (ok (prose, rs), m)))
  reviewed round repairs l prose (ok [], m) f k h = (k, f, h)
  reviewed round repairs l prose (ok (r ∷ rs), m) f k h = (k, f, tt)
  reviewed round repairs l prose (err e, m) f k h = k

  asked :
      (round : ℕ) (repairs : List RepairRound) (l : CriticLog) (r : Result String)
      → Written round repairs l (
          then_on
            (r, log_request repairs l)
            (λ prose.
              lift (check_prose prose)
              >> (criticize critics prose round >>= λ rs m. (ok (prose, rs), m))))
  asked round repairs l (err e) = refl
  asked round repairs l (ok prose) = checked (prose == "") refl
    where
      checked :
          (b : Bool)
          → (prose == "") ≡ b
          → Written round repairs l (
              then_on
                (check_prose prose, log_request repairs l)
                (λ u. criticize critics prose round >>= λ rs m. (ok (prose, rs), m)))
      checked true e = rw e refl
      checked false e = rw e (
          reviewed round repairs l prose (criticize critics prose round (log_request repairs l)) e
            (criticize-Keeps critics prose round (log_request repairs l))
            (criticize-PassesAll critics prose round (log_request repairs l)))

  write_round-Written :
      (round : ℕ) (repairs : List RepairRound) (l : CriticLog)
      → Written round repairs l (write_round critics policy write round repairs l)
  unfolding write_round
  write_round-Written round repairs l = asked round repairs l (write round repairs)

  -- How a loop ended that sent the requests `sent`.
  abbrev pub Ends : ℕ → ℕ → List (List RepairRound) → CriticLog → Result String × CriticLog → Type 0
  Ends left round sent l (err e, m) = ⊤
  Ends left round sent l (ok prose, m) =
      (last : ℕ) × (last + 1 ≡ round + length sent)
      × ((prose == "") ≡ false)
      × ((All (Passes prose last) critics × (m.accepted_after_retries ≡ l.accepted_after_retries))
          ⊎ ((policy ≡ accept) × (length sent ≡ left + 1) × (m.accepted_after_retries ≡ true)))

  pub record IsNarrated (left round : ℕ) (repairs : List RepairRound) (l : CriticLog)
      (out : Result String × CriticLog) : Type 0 where
    pub sent : List (List RepairRound)
    pub requests : out.1.requests ≡ l.requests ++ sent
    pub few : length sent ≤ left + 1
    pub counted : Counted (length repairs) sent
    pub ends : Ends left round sent l out

  once :
      (left round : ℕ) (repairs : List RepairRound) (l : CriticLog)
      (out : Result String × CriticLog)
      → out.1.requests ≡ l.requests ++ repairs ∷ []
      → Ends left round (repairs ∷ []) l out
      → IsNarrated left round repairs l out
  once left round repairs l out k e = record {
    sent = repairs ∷ [];
    requests = k;
    few = omega arith;
    counted = (refl, tt);
    ends = e;
  }

  passed :
      (left round : ℕ) (repairs : List RepairRound) (l m : CriticLog) (prose : String)
      → Written round repairs l (ok (prose, []), m)
      → IsNarrated left round repairs l (ok prose, m)
  passed left round repairs l m prose (k, filled, passes) =
      once left round repairs l (ok prose, m) (ap (λ (x : CriticLog). x.requests) k)
        (
          round,
          omega arith,
          filled,
          inl (passes, ap (λ (x : CriticLog). x.accepted_after_retries) k),
        )

  ended :
      (round : ℕ) (repairs : List RepairRound) (l : CriticLog) (p : CriticPolicy)
      (o : Result (String × List Refusal) × CriticLog)
      → policy ≡ p
      → Written round repairs l o
      → IsNarrated zero round repairs l
          (then_on o (λ w. out_of_rounds critics policy write p round w.0 w.1))
  unfolding out_of_rounds
  ended round repairs l p (err e, m) q k =
      once zero round repairs l (err e, m) (ap (λ (x : CriticLog). x.requests) k) tt
  ended round repairs l p (ok (prose, []), m) q w = passed zero round repairs l m prose w
  ended round repairs l accept (ok (prose, r ∷ rs), m) q (k, filled, passes) =
      once zero round repairs l _ (ap (λ (x : CriticLog). x.requests) k)
        (round, omega arith, filled, inr (q, omega arith, refl))
  ended round repairs l fail (ok (prose, r ∷ rs), m) q (k, filled, passes) =
      once zero round repairs l _ (ap (λ (x : CriticLog). x.requests) k) tt

  Counted-append :
      (repairs : List RepairRound) (more : RepairRound) (sent : List (List RepairRound))
      → Counted (length (repairs ++ more ∷ [])) sent
      → Counted (suc (length repairs)) sent
  Counted-append repairs more sent =
      subst (λ n. Counted n sent) (omega (arith, length-append repairs (more ∷ [])))

  Ends-retry :
      (left round : ℕ) (repairs : List RepairRound) (sent : List (List RepairRound))
      (l m : CriticLog) (out : Result String × CriticLog)
      → m.accepted_after_retries ≡ l.accepted_after_retries
      → Ends left (round + 1) sent m out
      → Ends (suc left) round (repairs ∷ sent) l out
  Ends-retry left round repairs sent l m (err e, n) same h = tt
  Ends-retry left round repairs sent l m (ok prose, n) same (last, at, filled, inl (passes, kept)) =
      (last, omega arith, filled, inl (passes, kept ∙ same))
  Ends-retry left round repairs sent l m (ok prose, n) same
        (last, at, filled, inr (p, all, marked)) =
      (last, omega arith, filled, inr (p, omega arith, marked))

  again :
      (left round : ℕ) (repairs : List RepairRound) (more : RepairRound) (l m : CriticLog)
      (out : Result String × CriticLog)
      → m.requests ≡ l.requests ++ repairs ∷ []
      → m.accepted_after_retries ≡ l.accepted_after_retries
      → IsNarrated left (round + 1) (repairs ++ more ∷ []) m out
      → IsNarrated (suc left) round repairs l out
  again left round repairs more l m out asked same h = record {
    sent = repairs ∷ h.sent;
    requests =
        h.requests
        ∙ (ap (λ rs. rs ++ h.sent) asked ∙ append_assoc l.requests (repairs ∷ []) h.sent);
    few = omega (arith, h.few);
    counted = (refl, Counted-append repairs more h.sent h.counted);
    ends = Ends-retry left round repairs h.sent l m out same h.ends;
  }

  retried :
      (left round : ℕ) (repairs : List RepairRound) (l : CriticLog)
      (o : Result (String × List Refusal) × CriticLog)
      → ((prose : String) (rs : List Refusal) (m : CriticLog)
          → IsNarrated left
              (round + 1)
              (repair prose rs repairs)
              m
              (write_rounds critics policy write left (round + 1) (repair prose rs repairs) m))
      → Written round repairs l o
      → IsNarrated (suc left) round repairs l (
          then_on o (λ w.
            retry critics policy write round w.0 w.1
              (write_rounds critics policy write left (round + 1) (repair w.0 w.1 repairs))))
  retried left round repairs l (err e, m) later k =
      once (suc left) round repairs l (err e, m) (ap (λ (x : CriticLog). x.requests) k) tt
  retried left round repairs l (ok (prose, []), m) later w =
      passed (suc left) round repairs l m prose w
  retried left round repairs l (ok (prose, r ∷ rs), m) later (k, filled, passes) =
      again left round repairs _ l (log_refused round (r ∷ rs) m) _
        (ap (λ (x : CriticLog). x.requests) k) (ap (λ (x : CriticLog). x.accepted_after_retries) k)
        (later prose (r ∷ rs) (log_refused round (r ∷ rs) m))

  write_rounds-IsNarrated :
      (left round : ℕ) (repairs : List RepairRound) (l : CriticLog)
      → IsNarrated left round repairs l (write_rounds critics policy write left round repairs l)
  unfolding write_rounds
  write_rounds-IsNarrated zero round repairs l =
      ended round repairs l policy (write_round critics policy write round repairs l) refl
        (write_round-Written round repairs l)
  write_rounds-IsNarrated (suc left) round repairs l =
      retried left round repairs l (write_round critics policy write round repairs l)
        (λ prose rs m. write_rounds-IsNarrated left (round + 1) (repair prose rs repairs) m)
        (write_round-Written round repairs l)

-- The narrative is asked for at most once more than there are retries, each request carries one repair
-- round more than the one before, the first none, and a prose that is kept is not empty: every critic
-- passed it in the last round, or the policy accepts what is there when the retries are used up, and
-- then the log is marked.
pub write_narrative-IsNarrated :
    (max_retries : ℕ) (critics : List Critic) (policy : CriticPolicy)
    (write : ℕ → List RepairRound → Result String)
    → IsNarrated critics policy write max_retries 0 [] no_rounds
        (write_narrative max_retries critics policy write)
unfolding write_narrative
write_narrative-IsNarrated max_retries critics policy write =
    write_rounds-IsNarrated critics policy write max_retries 0 [] no_rounds
