-- ===== src/Pipeline/Normalize/Tests.antt =====
-- The normalization of an action at concrete resolvers.
use rpenginext.Common.{
  ◌≤◌, ◌≡◌, refl, true, false, inl, inr, none, some, List, [], ◌∷◌, String, All, arith, ap, subst,
  sym,
}
use rpenginext.Contracts.{Result, ok, err, ok-injective, PlayerAction, free_text}
use rpenginext.Pipeline.{player}
use rpenginext.Pipeline.Normalize.{
  half, NormalizedAction, Candidate, Resolver, NormalizePorts, with_type, resolve_entities,
  normalize_action,
}
use rpenginext.Pipeline.Normalize.Ranked.{IsIn, StandsOut}
use rpenginext.Pipeline.Normalize.Chosen.{IsDistinctList, Picks, resolve_entities-All}

abbrev ann : Candidate
ann = record { ref = "her"; entity_id = "npc.ann"; confidence = 900000000 }

abbrev bob : Candidate
bob = record { ref = "her"; entity_id = "npc.bob"; confidence = 300000000 }

abbrev finds_ann : Resolver
finds_ann text a = ok (bob ∷ ann ∷ [])

abbrev ports_of : List Resolver → NormalizePorts
ports_of resolvers = record {
  trim = λ t. t;
  input_normalizers = [];
  action_classifiers = [];
  entity_resolvers = resolvers;
  disambiguation_providers = [];
  enable_action_interpret = false;
  interpret = λ text targets extras. ok (record {
    action_type = none;
    text = none;
    targets = none;
    confidence = none;
    extras = none;
  });
  action_types = [];
}

abbrev said : PlayerAction
said = record { client_action_id = none; kind = free_text; text = some "Ask her."; payload = none }

-- Two resolvers that find the same, and one that cannot tell two apart.
found_once :
    normalize_action (ports_of (finds_ann ∷ finds_ann ∷ [])) player said
    ≡ ok (record (with_type said "free_text" (some "Ask her.")) { targets = "npc.ann" ∷ [] })
unfolding normalize_action
found_once = refl

abbrev code_of : Result NormalizedAction → String
code_of (ok a) = ""
code_of (err f) = f.code

tied :
    code_of (
      normalize_action
        (ports_of ((λ text a. ok (ann ∷ record ann { entity_id = "npc.eve" } ∷ [])) ∷ []))
        player
        said)
    ≡ "AMBIGUOUS_TARGET"
unfolding normalize_action
tied = refl

abbrev asked : NormalizedAction
asked = with_type said "free_text" (some "Ask her.")

asked_ann :
    resolve_entities (ports_of (finds_ann ∷ [])) true asked
    ≡ ok (record asked { targets = "npc.ann" ∷ [] })
unfolding resolve_entities
asked_ann = refl

only_ann : (c : Candidate) → IsIn c (bob ∷ ann ∷ []) → half ≤ c.confidence → c.entity_id ≡ "npc.ann"
only_ann c (inl e) h = absurd (omega (arith, ap (λ d. d.confidence) e, h))
only_ann c (inr (inl e)) h = sym (ap (λ d. d.entity_id) e)
only_ann c (inr (inr i)) h = absurd i

finds_ann-Picks : Picks (ports_of (finds_ann ∷ [])) (λ t. t ≡ "npc.ann") "Ask her." asked finds_ann
finds_ann-Picks cs c e s =
    let t = subst (StandsOut c) (sym (ok-injective e)) s in only_ann c t.found t.likely

resolve_entities-All_example :
    All {A = String} (λ t. t ≡ "npc.ann") ("npc.ann" ∷ []) × IsDistinctList ("npc.ann" ∷ [])
resolve_entities-All_example =
    resolve_entities-All (ports_of (finds_ann ∷ [])) (λ t. t ≡ "npc.ann") asked
      (record asked { targets = "npc.ann" ∷ [] }) (finds_ann-Picks, tt) tt asked_ann
