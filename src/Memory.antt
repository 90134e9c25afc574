-- ===== src/Memory.antt =====
-- packages/modules/working-memory/src and packages/modules/summary/src: the archive of the turns, its
-- window for the model, and the chunks that sum it up. `trim` is the `trim` of texts. A schema's
-- version, which is always 1, is left out.
pub mod Covered
pub mod Window
mod Tests
use rpenginext.Common.{
  ℕ, zero, suc, ◌+◌, ◌-◌, Bool, true, false, ◌&&◌, Option, none, some, List, [], ◌∷◌, ◌++◌, String,
  ◌==◌, length, drop, ltb, leb, eqb, not, if◌then◌else◌,
}
use rpenginext.Contracts.{Result, ok, err, failure, show, ◌>>=◌}

pub record WorkingMemoryPair : Type 0 where
  pub turn_id : String
  pub user : String
  pub assistant : String
  pub created_at : String

pub record WorkingMemorySlice : Type 0 where
  pub entries : List WorkingMemoryPair

abbrev pub create_empty_working_memory_slice : WorkingMemorySlice
create_empty_working_memory_slice = record { entries = [] }

unfoldable pub append_pair : WorkingMemorySlice → WorkingMemoryPair → WorkingMemorySlice
append_pair s p = record { entries = s.entries ++ p ∷ [] }

-- The role of a message is its constructor.
pub data HistoryMessage : Type 0 where
  user_message assistant_message : String → HistoryMessage

unfoldable pub select_last_pairs : List WorkingMemoryPair → ℕ → List WorkingMemoryPair
select_last_pairs entries zero = []
select_last_pairs [] (suc n) = []
select_last_pairs (p ∷ ps) (suc n) =
    if leb (length (p ∷ ps)) (suc n) then p ∷ ps else drop (length (p ∷ ps) - suc n) (p ∷ ps)

unfoldable pub flatten_pairs_to_history : List WorkingMemoryPair → List HistoryMessage
flatten_pairs_to_history [] = []
flatten_pairs_to_history (p ∷ ps) =
    user_message p.user ∷ assistant_message p.assistant ∷ flatten_pairs_to_history ps

unfoldable pub build_prompt_history : List WorkingMemoryPair → ℕ → List HistoryMessage
unfolding select_last_pairs flatten_pairs_to_history
build_prompt_history entries window = flatten_pairs_to_history (select_last_pairs entries window)

pub record SummaryChunk : Type 0 where
  pub index : ℕ
  pub from_pair_index : ℕ
  pub to_pair_index : ℕ
  pub text : String
  pub created_at : String

pub record SummarySlice : Type 0 where
  pub last_summarized_pair_count : ℕ
  pub summaries : List SummaryChunk

abbrev pub create_empty_summary_slice : SummarySlice
create_empty_summary_slice = record { last_summarized_pair_count = 0; summaries = [] }

abbrev pub guard : Bool → String → Result SummarySlice → Result SummarySlice
guard true message rest = err (failure "COMMAND_INVALID" message)
guard false message rest = rest

-- The payload of the operation is a chunk.
unfoldable pub store_summary : SummarySlice → SummaryChunk → Result SummarySlice
store_summary s p =
    guard (not (eqb p.index (length s.summaries + 1))) "summary index must be consecutive" (
      guard (not (eqb p.from_pair_index (s.last_summarized_pair_count + 1)))
        "fromPairIndex must follow lastSummarizedPairCount"
        (guard (ltb p.to_pair_index p.from_pair_index) "toPairIndex must be >= fromPairIndex" (
          ok (record {
            last_summarized_pair_count = p.to_pair_index;
            summaries = s.summaries ++ p ∷ [];
          }))))

abbrev pub at_least_one : ℕ → ℕ
at_least_one zero = 1
at_least_one (suc n) = suc n

unfoldable pub should_summarize : ℕ → ℕ → ℕ → Bool
should_summarize total last interval = leb (last + at_least_one interval) total

pub record ChunkRange : Type 0 where
  pub from_pair_index : ℕ
  pub to_pair_index : ℕ

abbrev pub chunk_range : ℕ → ℕ → ChunkRange
chunk_range last total = record { from_pair_index = last + 1; to_pair_index = total }

-- What the committed turn schedules: the range of the chunk that is due.
unfoldable pub schedule_summary :
    List WorkingMemoryPair → Option WorkingMemoryPair → SummarySlice → ℕ → Option ChunkRange
unfolding should_summarize
schedule_summary entries none s interval =
    if should_summarize (length entries) s.last_summarized_pair_count interval
    then some (chunk_range s.last_summarized_pair_count (length entries))
    else none
schedule_summary entries (some p) s interval =
    if should_summarize (length (entries ++ p ∷ [])) s.last_summarized_pair_count interval
    then some (chunk_range s.last_summarized_pair_count (length (entries ++ p ∷ [])))
    else none

abbrev pub count_or : Option (List WorkingMemoryPair) → ℕ → ℕ
count_or none n = n
count_or (some entries) n = length entries

abbrev pub chunk_of : String → String → SummarySlice → ℕ → SummaryChunk
chunk_of text created_at s to = record {
  index = length s.summaries + 1;
  from_pair_index = s.last_summarized_pair_count + 1;
  to_pair_index = to;
  text = text;
  created_at = created_at;
}

abbrev pub propose_chunk : String → String → SummarySlice → ℕ → Result SummaryChunk
propose_chunk text created_at s to =
    if ltb to (s.last_summarized_pair_count + 1)
    then err (failure "COMMAND_INVALID" "no new working-memory pairs to summarize")
    else ok (chunk_of text created_at s to)

-- The handler of the tool `store`: the chunk that it proposes, at a time of creation.
unfoldable pub store_tool :
    (String → String)
    → String
    → String
    → SummarySlice
    → Option (List WorkingMemoryPair)
    → Result SummaryChunk
store_tool trim summary created_at s memory =
    if trim summary == ""
    then err (failure "SCHEMA_INVALID" "summary must be non-empty")
    else propose_chunk (trim summary) created_at s (count_or memory s.last_summarized_pair_count)

pub record Memories : Type 0 where
  pub memory : WorkingMemorySlice
  pub summary : SummarySlice

-- A turn that adds a pair, and a system turn in which the model stores a summary.
pub data MemoryOp : Type 0 where
  told : WorkingMemoryPair → MemoryOp
  stored : String → String → MemoryOp

module _ (trim : String → String) where
  abbrev pub keep_summary : Result SummarySlice → Memories → Memories
  keep_summary (err f) m = m
  keep_summary (ok s) m = record m { summary = s }

  unfoldable pub apply_op : MemoryOp → Memories → Memories
  unfolding append_pair store_tool store_summary
  apply_op (told p) m = record m { memory = append_pair m.memory p }
  apply_op (stored text created_at) m =
      keep_summary
        (store_tool trim text created_at m.summary (some m.memory.entries)
          >>= store_summary m.summary)
        m

  unfoldable pub apply_ops : List MemoryOp → Memories → Memories
  unfolding apply_op
  apply_ops [] m = m
  apply_ops (o ∷ os) m = apply_ops os (apply_op o m)

abbrev pub no_memories : Memories
no_memories = record {
  memory = create_empty_working_memory_slice;
  summary = create_empty_summary_slice;
}
