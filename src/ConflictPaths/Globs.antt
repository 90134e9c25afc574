-- ===== src/ConflictPaths/Globs.antt =====
-- The globs of packages/core/src/pipeline/conflict-paths.ts as a relation, and the matcher against it.
use rpenginext.Common.{
  ◌≡◌, refl, subst, sym, ◌≢◌, true, false, ◌||◌, List, [], ◌∷◌, String, ◌==◌, eq_iff, All,
  Bool-cases, inl, inr, ◌↔◌, arith,
}
use rpenginext.ConflictPaths.{segment_match, skip_to, all_rests, is_empty, after_rest, match_parts}

-- `*` stands for one segment, `**` for any number of them.
pub data Globs : List String → List String → Type 0 where
  nothing : Globs [] []
  segment :
      {p t : String} {ps ts : List String}
      → segment_match t p ≡ true
      → Globs ps ts
      → Globs (p ∷ ps) (t ∷ ts)
  rest_ends : {ps ts : List String} → Globs ps ts → Globs ("**" ∷ ps) ts
  rest_takes :
      {t : String} {ps ts : List String} → Globs ("**" ∷ ps) ts → Globs ("**" ∷ ps) (t ∷ ts)

rest_takes-all : (ts : List String) → Globs ("**" ∷ []) ts
rest_takes-all [] = rest_ends nothing
rest_takes-all (t ∷ ts) = rest_takes (rest_takes-all ts)

all_rests-Globs : (ps : List String) → all_rests ps ≡ true → Globs ps []
all_rests-Globs [] h = nothing
all_rests-Globs (p ∷ ps) h =
    let same : "**" ≡ p = sym ((eq_iff p "**").0 (ground arith)) in
    subst (λ q. Globs (q ∷ ps) []) same (rest_ends (all_rests-Globs ps (ground arith)))

skip_to-Globs :
    (next : String) (ps ts : List String) → Globs ps (skip_to next ts) → Globs ("**" ∷ ps) ts
unfolding skip_to
skip_to-Globs next ps [] h = rest_ends h
skip_to-Globs next ps (t ∷ ts) h =
    elim (Bool-cases (segment_match t next || (next == "*") || (next == "**"))) [
      | inl stop ↦ rest_ends (rw stop at h)
      | inr on ↦ rest_takes (skip_to-Globs next ps ts (rw on at h))
    ]

after_rest-Globs : (ps ts : List String) → Globs ps (after_rest ps ts) → Globs ("**" ∷ ps) ts
after_rest-Globs [] ts h = rest_ends h
after_rest-Globs (next ∷ ps) ts h = skip_to-Globs next (next ∷ ps) ts h

match_rest-Globs :
    (ps ts : List String)
    → (match_parts ps (after_rest ps ts) ≡ true → Globs ps (after_rest ps ts))
    → (is_empty ps || match_parts ps (after_rest ps ts)) ≡ true
    → Globs ("**" ∷ ps) ts
match_rest-Globs [] ts later h = rest_takes-all ts
match_rest-Globs (p ∷ ps) ts later h = after_rest-Globs (p ∷ ps) ts (later h)

-- A path that the matcher takes is one that the pattern describes.
pub match_parts-Globs : (ps ts : List String) → match_parts ps ts ≡ true → Globs ps ts
unfolding match_parts
match_parts-Globs [] [] h = nothing
match_parts-Globs [] (t ∷ ts) h = absurd (ground arith)
match_parts-Globs (p ∷ ps) [] h = all_rests-Globs (p ∷ ps) h
match_parts-Globs (p ∷ ps) (t ∷ ts) h = elim (Bool-cases (p == "**")) [
  | inl stars ↦
      subst (λ q. Globs (q ∷ ps) (t ∷ ts)) (sym ((eq_iff p "**").0 stars))
        (match_rest-Globs ps (t ∷ ts) (match_parts-Globs ps (after_rest ps (t ∷ ts)))
          (rw stars at h))
  | inr plain ↦ segment (ground arith) (match_parts-Globs ps ts (ground arith))
]

Globs-match_parts :
    (ps ts : List String) → All (λ p. p ≢ "**") ps → Globs ps ts → match_parts ps ts ≡ true
unfolding match_parts
Globs-match_parts [] [] plain nothing = refl
Globs-match_parts [] (t ∷ ts) plain g = elim g [ ]
Globs-match_parts (p ∷ ps) (t ∷ ts) plain (segment m g) =
    ground (arith, eq_iff p "**", plain.0, Globs-match_parts ps ts plain.1 g)
Globs-match_parts (_ ∷ ps) ts plain (rest_ends g) = absurd (plain.0 refl)
Globs-match_parts (_ ∷ ps) (t ∷ ts) plain (rest_takes g) = absurd (plain.0 refl)

-- Where the pattern has no `**`, the matcher takes exactly the paths that the pattern describes.
pub match_parts_iff :
    (ps ts : List String) → All (λ p. p ≢ "**") ps → (match_parts ps ts ≡ true) ↔ Globs ps ts
match_parts_iff ps ts plain = (match_parts-Globs ps ts, Globs-match_parts ps ts plain)

-- What `**` promises and the matcher does not keep: it goes on at the first segment that the next
-- pattern takes, and tries no later one.
pub match_parts-misses :
    (c b : String)
    → c ≢ "**"
    → b ≢ c
    → c ≢ "*"
    → Globs ("**" ∷ c ∷ []) (c ∷ b ∷ c ∷ [])
      × (match_parts ("**" ∷ c ∷ []) (c ∷ b ∷ c ∷ []) ≡ false)
unfolding match_parts skip_to
match_parts-misses c b rest other star = (
  rest_takes (rest_takes (rest_ends (segment (ground (arith, eq_iff c c)) nothing))),
  ground (arith, eq_iff c c, eq_iff c "**", eq_iff c "*"),
)
