-- ===== src/Pipeline/Normalize/Chosen.antt =====
-- Which targets `stageNormalize` of packages/core/src/pipeline/turn-pipeline.ts takes for an action.
use rpenginext.Common.{
  ◌+◌, ◌≤◌, ◌<◌, ◌≡◌, refl, sym, ap, subst, Bool, true, false, Bool-cases, ◌⊎◌, inl, inr, List, [],
  ◌∷◌, ◌++◌, String, eq_iff, eq_refl, leb, length, contains, All, All-append, if◌then◌else◌, arith,
}
use rpenginext.Contracts.{⊤, Result, ok, err, Failure, ok-injective, ◌>>=◌, >>=-ok, PlayerAction}
use rpenginext.Pipeline.{TurnKind}
use rpenginext.Pipeline.Normalize.{
  NormalizedAction, Candidate, Resolver, NormalizePorts, half, best_first, distinct_after,
  tied_with, choose_target, resolve_with, resolve_entities, text_of, is_text, start_action,
  run_normalizers, run_classifiers, interpret_action, may_interpret, normalize_action, check_known,
  is_known, refuse_tie,
}
use rpenginext.Pipeline.Normalize.Ranked.{
  IsIn, StandsOut, All-IsIn, best_first-All, All-best_first, tied-alone, first_tied,
}

abbrev pub IsDistinctList : List String → Type 0
IsDistinctList [] = ⊤
IsDistinctList (t ∷ ts) = (contains t ts ≡ false) × IsDistinctList ts

never_ok :
    {A B : Type 0} (r : Result A) (f : A → Failure) {b : B} → (r >>= λ a. err (f a)) ≡ ok b → ⊥
never_ok (ok a) f e = cc
never_ok (err g) f e = cc

module _ (ports : NormalizePorts) (P : String → Type 0) where
  module _ (cs : List Candidate) (picks : (c : Candidate) → StandsOut c cs → P c.entity_id) where
    tie-All :
        (few : Bool) (top : Candidate) (others : List Candidate) {ts : List String}
        → IsIn top cs
        → half ≤ top.confidence
        → leb (length (tied_with top (top ∷ others))) 1 ≡ few
        → (All (λ d. (d ≡ top) ⊎ (d.confidence + 1 < top.confidence)) (top ∷ others)
            → All (λ d. (d ≡ top) ⊎ (d.confidence + 1 < top.confidence)) cs)
        → (if few
            then ok (top.entity_id ∷ [])
            else refuse_tie ports top (tied_with top (top ∷ others)))
          ≡ ok ts
        → All P ts
    tie-All true top others within likely few back e = subst (All P) (ok-injective e) (
      picks top (record {
        found = within;
        likely = likely;
        alone = back (inl refl, tied-alone top others (first_tied top others (ground arith)));
      }),
      tt,
    )
    tie-All false top others within likely few back e = absurd (never_ok _ _ e)

    likely-All :
        (b : Bool) (top : Candidate) (others : List Candidate) {ts : List String}
        → IsIn top cs
        → leb half top.confidence ≡ b
        → (All (λ d. (d ≡ top) ⊎ (d.confidence + 1 < top.confidence)) (top ∷ others)
            → All (λ d. (d ≡ top) ⊎ (d.confidence + 1 < top.confidence)) cs)
        → (if b
            then (if leb (length (tied_with top (top ∷ others))) 1
                then ok (top.entity_id ∷ [])
                else refuse_tie ports top (tied_with top (top ∷ others)))
            else ok [])
          ≡ ok ts
        → All P ts
    likely-All true top others within e back h =
        tie-All (leb (length (tied_with top (top ∷ others))) 1) top others within (ground arith)
          refl back h
    likely-All false top others within e back h = subst (All P) (ok-injective h) tt

    choose_target-All :
        (sorted : List Candidate) {ts : List String}
        → All (λ c. IsIn c cs) sorted
        → ((Q : Candidate → Type 0) → All Q sorted → All Q cs)
        → choose_target ports sorted ≡ ok ts
        → All P ts
    unfolding choose_target
    choose_target-All [] within back e = subst (All P) (ok-injective e) tt
    choose_target-All (top ∷ others) within back e =
        likely-All (leb half top.confidence) top others (within.0) refl
          (back (λ d. (d ≡ top) ⊎ (d.confidence + 1 < top.confidence))) e

  -- What a resolver may pick has `P`.
  abbrev pub Picks : String → NormalizedAction → Resolver → Type 0
  Picks text a resolve =
      (cs : List Candidate) (c : Candidate)
      → resolve text a ≡ ok cs
      → StandsOut c cs
      → P c.entity_id

  resolve_with-All :
      (rs : List Resolver) (text : String) (a : NormalizedAction) (chosen : List String)
      {ts : List String}
      → All (Picks text a) rs
      → All P chosen
      → resolve_with ports rs text a chosen ≡ ok ts
      → All P ts
  unfolding resolve_with
  resolve_with-All [] text a chosen h k e = subst (All P) (ok-injective e) k
  resolve_with-All (r ∷ rs) text a chosen h k e =
      let (found, first, later) = >>=-ok (r text a) _ e in
      let (target, picked, rest) =
        >>=-ok (choose_target ports (best_first (λ c. c.confidence) found)) _ later in
      resolve_with-All rs text a (chosen ++ target) (h.1)
        (All-append P chosen target k (
          choose_target-All found (λ c s. h.0 found c first s)
            (best_first (λ c. c.confidence) found)
            (All-best_first (λ c. IsIn c found) found
              (All-IsIn (λ c. IsIn c found) found (λ c i. i)))
            (λ Q. best_first-All Q found) picked))
        rest

  distinct_after-All : (seen ts : List String) → All P ts → All P (distinct_after seen ts)
  distinct_after-All seen [] h = tt
  distinct_after-All seen (t ∷ ts) h = elim (Bool-cases (contains t seen)) [
    | inl again ↦
        subst (λ b. All P (if b then distinct_after seen ts else t ∷ distinct_after (t ∷ seen) ts))
          (sym again) (distinct_after-All seen ts (h.1))
    | inr fresh ↦
        subst (λ b. All P (if b then distinct_after seen ts else t ∷ distinct_after (t ∷ seen) ts))
          (sym fresh) (h.0, distinct_after-All (t ∷ seen) ts (h.1))
  ]

distinct_after-fresh :
    (k : String) (seen ts : List String)
    → contains k seen ≡ true
    → contains k (distinct_after seen ts) ≡ false
distinct_after-fresh k seen [] h = refl
distinct_after-fresh k seen (t ∷ ts) h =
    ground (arith, eq_iff t k, distinct_after-fresh k seen ts, distinct_after-fresh k (t ∷ seen) ts)

distinct_after-IsDistinctList : (seen ts : List String) → IsDistinctList (distinct_after seen ts)
distinct_after-IsDistinctList seen [] = tt
distinct_after-IsDistinctList seen (t ∷ ts) = elim (Bool-cases (contains t seen)) [
  | inl again ↦
      subst
        (λ b.
          IsDistinctList (if b then distinct_after seen ts else t ∷ distinct_after (t ∷ seen) ts))
        (sym again) (distinct_after-IsDistinctList seen ts)
  | inr fresh ↦
      subst
        (λ b.
          IsDistinctList (if b then distinct_after seen ts else t ∷ distinct_after (t ∷ seen) ts))
        (sym fresh)
        (
          distinct_after-fresh t (t ∷ seen) ts (ground (arith, eq_refl t)),
          distinct_after-IsDistinctList (t ∷ seen) ts,
        )
]

-- The targets of an action with a text, once the resolvers succeeded: none stands twice, and each was
-- given by the input normalizers or is a resolver's candidate that is likely and clearly likelier than
-- all others of its answer. Said for any predicate that these have.
pub resolve_entities-All :
    (ports : NormalizePorts) (P : String → Type 0) (a b : NormalizedAction)
    → All (Picks ports P (text_of a.text) a) ports.entity_resolvers
    → All P a.targets
    → resolve_entities ports true a ≡ ok b
    → All P b.targets × IsDistinctList b.targets
unfolding resolve_entities
resolve_entities-All ports P a b picks given e =
    let (targets, found, rest) =
      >>=-ok (resolve_with ports ports.entity_resolvers (text_of a.text) a a.targets) _ e in
    let same = ap (λ c. c.targets) (ok-injective rest) in
    subst (λ ts. All P ts × IsDistinctList ts) same
      (
        distinct_after-All ports P [] targets (
            resolve_with-All ports P ports.entity_resolvers (text_of a.text) a a.targets picks given
              found),
        distinct_after-IsDistinctList [] targets,
      )

known_when :
    (ports : NormalizePorts) (known : Bool) (a : NormalizedAction) (f : Failure)
    {b : NormalizedAction}
    → is_known ports a.action_type ≡ known
    → (if known then ok a else err f) ≡ ok b
    → is_known ports b.action_type ≡ true
known_when ports true a f h e = subst (λ c. is_known ports c.action_type ≡ true) (ok-injective e) h
known_when ports false a f h e = cc

-- The type of a normalized action is a registered one or one of the engine's own, if any is registered.
pub normalize_action-IsKnown :
    (ports : NormalizePorts) (kind : TurnKind) (raw : PlayerAction) (b : NormalizedAction)
    → normalize_action ports kind raw ≡ ok b
    → is_known ports b.action_type ≡ true
unfolding normalize_action check_known
normalize_action-IsKnown ports kind raw b e =
    let (a0, started, e0) = >>=-ok (start_action ports raw.kind raw) _ e in
    let (a1, patched, e1) = >>=-ok (run_normalizers ports ports.input_normalizers a0) _ e0 in
    let (a2, classified, e2) = >>=-ok (run_classifiers ports ports.action_classifiers a1) _ e1 in
    let (a3, resolved, e3) = >>=-ok (resolve_entities ports (is_text a2.text) a2) _ e2 in
    let (a4, told, e4) = >>=-ok (interpret_action ports (may_interpret ports kind a3) a3) _ e3 in
    known_when ports (is_known ports a4.action_type) a4 _ refl e4
