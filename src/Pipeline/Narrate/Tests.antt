-- ===== src/Pipeline/Narrate/Tests.antt =====
-- The loop of the critics at concrete answers.
use rpenginext.Common.{ℕ, zero, suc, ◌≡◌, refl, true, List, [], ◌∷◌, String}
use rpenginext.Contracts.{Result, ok}
use rpenginext.Pipeline.{accepts, refuses}
use rpenginext.Pipeline.Narrate.{
  RepairRound, accept, Critic, criticize, write_round, out_of_rounds, write_rounds, no_rounds,
  write_narrative,
}
use rpenginext.Pipeline.Narrate.Critics.{IsNarrated, write_narrative-IsNarrated}

abbrev drafts : ℕ → List RepairRound → Result String
drafts zero repairs = ok "It rains."
drafts (suc n) repairs = ok "It rains, they say."

-- It wants a rumour, which comes in the second round.
abbrev wants_rumour : Critic
wants_rumour = record {
  module_id = "rumours";
  value = λ prose round. elim round [ zero ↦ ok (refuses "no rumour") | suc n ↦ ok accepts ];
}

abbrev wants_more : Critic
wants_more = record { module_id = "rumours"; value = λ prose round. ok (refuses "more") }

retried : (write_narrative 2 (wants_rumour ∷ []) accept drafts).0 ≡ ok "It rains, they say."
unfolding write_narrative write_rounds write_round criticize out_of_rounds
retried = refl

used_up : (write_narrative 1 (wants_more ∷ []) accept drafts).1.accepted_after_retries ≡ true
unfolding write_narrative write_rounds write_round criticize out_of_rounds
used_up = refl

write_narrative-IsNarrated_example :
    IsNarrated
      (wants_rumour ∷ [])
      accept
      drafts
      2
      0
      []
      no_rounds
      (write_narrative 2 (wants_rumour ∷ []) accept drafts)
write_narrative-IsNarrated_example = write_narrative-IsNarrated 2 (wants_rumour ∷ []) accept drafts
