-- ===== src/Memory/Covered.antt =====
-- The chunks of packages/modules/summary/src cover the pairs of the working memory one after another.
use rpenginext.Common.{
  ℕ, suc, ◌+◌, ◌≤◌, ◌≡◌, refl, sym, ◌∙◌, ap, subst, Bool, true, false, not, some, List, [], ◌∷◌,
  ◌++◌, length, length-append, String, ◌==◌, ltb, eqb, if◌then◌else◌, arith,
}
use rpenginext.Contracts.{Result, ok, err, Failure, ok-injective, ◌>>=◌}
use rpenginext.Memory.{
  WorkingMemoryPair, append_pair, SummaryChunk, SummarySlice, guard, store_summary, chunk_of,
  propose_chunk, store_tool, Memories, MemoryOp, told, stored, keep_summary, apply_op, apply_ops,
  no_memories,
}

-- The chunks after the first `n`, which cover the first `covered` pairs, cover those up to `last`.
abbrev pub Tiles : ℕ → ℕ → List SummaryChunk → ℕ → Type 0
Tiles n covered [] last = covered ≡ last
Tiles n covered (c ∷ cs) last =
    (c.index ≡ suc n)
    × ((c.from_pair_index ≡ suc covered)
        × ((suc covered ≤ c.to_pair_index) × Tiles (suc n) c.to_pair_index cs last))

pub record IsCovered (m : Memories) : Type 0 where
  pub tiled : Tiles 0 0 m.summary.summaries m.summary.last_summarized_pair_count
  pub within : m.summary.last_summarized_pair_count ≤ length m.memory.entries

Tiles-append :
    (n covered : ℕ) (cs : List SummaryChunk) (last : ℕ) (c : SummaryChunk)
    → Tiles n covered cs last
    → c.index ≡ length cs + n + 1
    → c.from_pair_index ≡ last + 1
    → last + 1 ≤ c.to_pair_index
    → Tiles n covered (cs ++ c ∷ []) c.to_pair_index
Tiles-append n covered [] last c t i f l =
    (omega (arith, i), (omega (arith, f, t), (omega (arith, t, l), refl)))
Tiles-append n covered (d ∷ ds) last c (i0, (f0, (l0, t))) i f l =
    (i0, (f0, (l0, Tiles-append (suc n) d.to_pair_index ds last c t (omega (arith, i)) f l)))

eqb_same : (n : ℕ) → eqb n n ≡ true
eqb_same n = ground arith

guard-passes :
    (b : Bool) (message : String) (rest : Result SummarySlice)
    → b ≡ false
    → guard b message rest ≡ rest
guard-passes true message rest e = cc
guard-passes false message rest e = refl

if-ok :
    {A : Type 0} (b : Bool) (f : Failure) (rest : Result A) {a : A}
    → (if b then err f else rest) ≡ ok a
    → (b ≡ false) × (rest ≡ ok a)
if-ok true f rest e = cc
if-ok false f rest e = (refl, e)

ltb_ge : (a b : ℕ) → b ≤ a → ltb a b ≡ false
ltb_ge a b h = ground arith

not_ltb : (a b : ℕ) → ltb a b ≡ false → b ≤ a
not_ltb a b e = ground arith

abbrev pub Stored : SummarySlice → ℕ → SummaryChunk → Type 0
Stored s to c =
    (store_summary s c
      ≡ ok (record { last_summarized_pair_count = to; summaries = s.summaries ++ c ∷ [] }))
    × ((c.index ≡ length s.summaries + 1)
        × ((c.from_pair_index ≡ s.last_summarized_pair_count + 1)
            × ((c.to_pair_index ≡ to) × (s.last_summarized_pair_count + 1 ≤ to))))

chunk_of-Stored :
    (text created_at : String) (s : SummarySlice) (to : ℕ)
    → s.last_summarized_pair_count + 1 ≤ to
    → Stored s to (chunk_of text created_at s to)
unfolding store_summary
chunk_of-Stored text created_at s to h = (
  guard-passes (not (eqb (length s.summaries + 1) (length s.summaries + 1))) _ _
        (ap not (eqb_same (length s.summaries + 1)))
      ∙ (guard-passes
            (not (eqb (s.last_summarized_pair_count + 1) (s.last_summarized_pair_count + 1))) _ _
            (ap not (eqb_same (s.last_summarized_pair_count + 1)))
          ∙ guard-passes (ltb to (s.last_summarized_pair_count + 1)) _ _
              (ltb_ge to (s.last_summarized_pair_count + 1) h)),
  (refl, (refl, (refl, h))),
)

-- A chunk that the handler of the tool proposes is the next one, of at least one pair, and ends with
-- the last pair; the operation takes it.
pub store_tool-Stored :
    (trim : String → String) (text created_at : String) (s : SummarySlice)
    (entries : List WorkingMemoryPair) (c : SummaryChunk)
    → store_tool trim text created_at s (some entries) ≡ ok c
    → Stored s (length entries) c
unfolding store_tool
store_tool-Stored trim text created_at s entries c e =
    let inner =
      (if-ok (trim text == "") _ (propose_chunk (trim text) created_at s (length entries)) e).1 in
    let last =
      if-ok (ltb (length entries) (s.last_summarized_pair_count + 1)) _
        (ok (chunk_of (trim text) created_at s (length entries))) inner in
    subst (Stored s (length entries)) (ok-injective last.1) (
      chunk_of-Stored (trim text) created_at s (length entries)
        (not_ltb (length entries) (s.last_summarized_pair_count + 1) last.0))

module _ (trim : String → String) where
  keep-IsCovered :
      (m : Memories) (text created_at : String) (r : Result SummaryChunk)
      → store_tool trim text created_at m.summary (some m.memory.entries) ≡ r
      → IsCovered m
      → IsCovered (keep_summary trim (r >>= store_summary m.summary) m)
  keep-IsCovered m text created_at (err f) e h = h
  keep-IsCovered m text created_at (ok c) e h =
      let (takes, (i, (f, (t, l)))) =
        store_tool-Stored trim text created_at m.summary m.memory.entries c e in
      subst (λ r. IsCovered (keep_summary trim r m)) (sym takes)
        (record {
          tiled = subst (Tiles 0 0 (m.summary.summaries ++ c ∷ [])) t (
              Tiles-append 0 0 m.summary.summaries m.summary.last_summarized_pair_count c h.tiled
                (omega (arith, i)) f (omega (arith, t, l)));
          within = omega arith;
        })

  apply_op-IsCovered : (o : MemoryOp) (m : Memories) → IsCovered m → IsCovered (apply_op trim o m)
  unfolding apply_op append_pair
  apply_op-IsCovered (told p) m h = record {
    tiled = h.tiled;
    within = omega (arith, h.within, length-append m.memory.entries (p ∷ []));
  }
  apply_op-IsCovered (stored text created_at) m h =
      keep-IsCovered m text created_at
        (store_tool trim text created_at m.summary (some m.memory.entries)) refl h

  apply_ops-from :
      (os : List MemoryOp) (m : Memories) → IsCovered m → IsCovered (apply_ops trim os m)
  unfolding apply_ops
  apply_ops-from [] m h = h
  apply_ops-from (o ∷ os) m h = apply_ops-from os (apply_op trim o m) (apply_op-IsCovered o m h)

-- Whatever turns come, from empty memories, the chunks have consecutive numbers and cover the pairs from
-- the first one on, without a gap and without an overlap, each at least one, up to the count that the
-- slice keeps, which is not above the number of pairs.
pub apply_ops-IsCovered :
    (trim : String → String) (os : List MemoryOp) → IsCovered (apply_ops trim os no_memories)
apply_ops-IsCovered trim os =
    apply_ops-from trim os no_memories (record { tiled = refl; within = omega arith })
