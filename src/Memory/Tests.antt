-- ===== src/Memory/Tests.antt =====
-- The memories at concrete turns.
use rpenginext.Common.{◌≡◌, refl, false, List, [], ◌∷◌, map, String}
use rpenginext.Memory.{
  WorkingMemoryPair, user_message, assistant_message, build_prompt_history, should_summarize,
  MemoryOp, told, stored, apply_ops, no_memories,
}
use rpenginext.Memory.Covered.{IsCovered, apply_ops-IsCovered}

abbrev same_text : String → String
same_text t = t

abbrev pair : String → WorkingMemoryPair
pair text = record { turn_id = text; user = text; assistant = text; created_at = "now" }

-- Two pairs are summed up, then one; an empty summary and one of nothing are refused.
abbrev campaign : List MemoryOp
campaign =
    told (pair "a")
    ∷ told (pair "b")
    ∷ stored "" "t1"
    ∷ stored "They met." "t2"
    ∷ stored "Again." "t3"
    ∷ told (pair "c")
    ∷ stored "They left." "t4"
    ∷ []

campaign_chunks :
    map (λ c. c.to_pair_index) (apply_ops same_text campaign no_memories).summary.summaries
    ≡ 2 ∷ 3 ∷ []
unfolding apply_ops
campaign_chunks = refl

window_of_one :
    build_prompt_history (pair "a" ∷ pair "b" ∷ []) 1
    ≡ user_message "b" ∷ assistant_message "b" ∷ []
unfolding build_prompt_history
window_of_one = refl

apply_ops-IsCovered_example : IsCovered (apply_ops same_text campaign no_memories)
apply_ops-IsCovered_example = apply_ops-IsCovered same_text campaign

not_yet : should_summarize 3 2 2 ≡ false
unfolding should_summarize
not_yet = refl
