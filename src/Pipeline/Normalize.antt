-- ===== src/Pipeline/Normalize.antt =====
-- `stageNormalize` of packages/core/src/pipeline/turn-pipeline.ts: what a player's action is. A confidence
-- is a number of billionths. The modules' handlers answer as functions of what they are given; of an
-- agent's answer the fields of the right kind are taken. `trim` is the `trim` of texts.
mod Types
pub mod Ranked
pub mod Chosen
mod Tests
unfoldable pub use Types.*
use mathlib.Core.List
use Prim.Native.String.{◌++◌}
use rpenginext.Common.{
  ℕ, zero, suc, ◌-◌, Bool, true, false, not, ◌&&◌, ◌||◌, Option, none, some, List, [], ◌∷◌, map,
  String, ◌==◌, ltb, leb, length, filter, contains, if◌then◌else◌,
}
use rpenginext.Contracts.{
  JsonObject, JsonValue, JsonItems, obj, arr, str, field, end, item, spread, Result, ok, err,
  Failure, failure, failure_details, ◌>>=◌, PlayerAction, ActionKind, free_text, system_action,
}
use rpenginext.Pipeline.{TurnKind, player, system, restore}

abbrev pub half : ℕ
half = 500000000

abbrev pub is_text : Option String → Bool
is_text none = false
is_text (some t) = not (t == "")

abbrev pub text_of : Option String → String
text_of none = ""
text_of (some t) = t

abbrev pub with_type : PlayerAction → String → Option String → NormalizedAction
with_type raw type text = record {
  action_type = type;
  raw = raw;
  text = text;
  targets = [];
  confidence = none;
  extras = end;
}

abbrev pub or_patch : {A : Type 0} → Option A → A → A
or_patch none a = a
or_patch (some b) a = b

abbrev or_some : {A : Type 0} → Option A → Option A → Option A
or_some none a = a
or_some (some b) a = some b

abbrev spread_some : JsonObject → Option JsonObject → JsonObject
spread_some a none = a
spread_some a (some b) = spread a b

-- An empty type of an action is no type.
abbrev or_type : Option String → String → String
or_type none type = type
or_type (some t) type = if t == "" then type else t

abbrev pub apply_patch : ActionPatch → NormalizedAction → NormalizedAction
apply_patch p a = record a {
  action_type = or_type p.action_type a.action_type;
  text = or_some p.text a.text;
  targets = or_patch p.targets a.targets;
  confidence = or_some p.confidence a.confidence;
  extras = spread_some a.extras p.extras;
}

-- From the last of equals to the first of all, as the stable sort by falling confidence has them.
module _ {A : Type 0} (confidence_of : A → ℕ) where
  abbrev pub insert_best : A → List A → List A
  insert_best x [] = x ∷ []
  insert_best x (y ∷ ys) =
      let rest = insert_best x ys in
      if leb (confidence_of y) (confidence_of x) then x ∷ y ∷ ys else y ∷ rest

  abbrev pub best_first : List A → List A
  best_first [] = []
  best_first (x ∷ xs) = insert_best x (best_first xs)

-- The targets without repetition, as a `Set` keeps them.
abbrev pub distinct_after : List String → List String → List String
distinct_after seen [] = []
distinct_after seen (t ∷ ts) =
    let again = distinct_after seen ts in
    let fresh = distinct_after (t ∷ seen) ts in if contains t seen then again else t ∷ fresh

abbrev pub tied_with : Candidate → List Candidate → List Candidate
tied_with top = filter (λ c. leb (top.confidence - 1) c.confidence)

module _ (ports : NormalizePorts) where
  abbrev start_text : PlayerAction → Bool → Bool → Result NormalizedAction
  start_text raw true given = ok (with_type raw "free_text" (some (ports.trim (text_of raw.text))))
  start_text raw false true = ok (with_type raw "noop" raw.text)
  start_text raw false false = err (failure "INVALID_INPUT" "free_text action requires text")

  unfoldable pub start_action : ActionKind → PlayerAction → Result NormalizedAction
  start_action system_action raw = ok (with_type raw "system" raw.text)
  start_action free_text raw =
      start_text raw (is_text raw.text && not (ports.trim (text_of raw.text) == ""))
        (is_text raw.text)

  unfoldable pub run_normalizers :
      List (PlayerAction → Result ActionPatch) → NormalizedAction → Result NormalizedAction
  run_normalizers [] a = ok a
  run_normalizers (normalize ∷ more) a =
      normalize a.raw >>= λ patch. run_normalizers more (apply_patch patch a)

  abbrev classified_as : List Classified → NormalizedAction → NormalizedAction
  classified_as [] a = a
  classified_as (best ∷ others) a =
      if leb half best.confidence
      then record a { action_type = best.action_type; confidence = some best.confidence }
      else a

  unfoldable pub run_classifiers :
      List (PlayerAction → Result (List Classified)) → NormalizedAction → Result NormalizedAction
  run_classifiers [] a = ok a
  run_classifiers (classify ∷ more) a = classify a.raw >>= λ found.
      run_classifiers more (classified_as (best_first (λ c. c.confidence) found) a)

  abbrev pub collect_disambiguation :
      List (String → List Candidate → Result (List JsonValue))
      → String
      → List Candidate
      → Result (List JsonValue)
  collect_disambiguation [] reason tied = ok []
  collect_disambiguation (provide ∷ more) reason tied = provide reason tied >>= λ options.
      collect_disambiguation more reason tied >>= λ others. ok (List.◌++◌ options others)

  abbrev join_ids : List Candidate → String
  join_ids [] = ""
  join_ids (c ∷ []) = c.entity_id
  join_ids (c ∷ d ∷ cs) = c.entity_id ++ (", " ++ join_ids (d ∷ cs))

  -- A candidate's confidence is left out of the details.
  abbrev candidate_object : Candidate → JsonValue
  candidate_object c = obj (field "ref" (str c.ref) (field "entityId" (str c.entity_id) end))

  abbrev pub ambiguous : List Candidate → List JsonValue → Failure
  ambiguous tied options =
      failure_details "AMBIGUOUS_TARGET" ("ambiguous entity reference: " ++ join_ids tied) (
        some (
          obj (
            field "options" (arr (item options))
              (field "candidates" (arr (item (map candidate_object tied))) end))))

  abbrev pub refuse_tie : Candidate → List Candidate → Result (List String)
  refuse_tie top tied =
      collect_disambiguation ports.disambiguation_providers
        ("ambiguous entity for \"" ++ (top.ref ++ "\"")) tied
      >>= λ options. err (ambiguous tied options)

  -- The target that a resolver's candidates give, best first.
  unfoldable pub choose_target : List Candidate → Result (List String)
  choose_target [] = ok []
  choose_target (top ∷ others) =
      let tied = tied_with top (top ∷ others) in
      if leb half top.confidence
      then (if leb (length tied) 1 then ok (top.entity_id ∷ []) else refuse_tie top tied)
      else ok []

  unfoldable pub resolve_with :
      List Resolver → String → NormalizedAction → List String → Result (List String)
  unfolding choose_target
  resolve_with [] text a chosen = ok chosen
  resolve_with (resolve ∷ more) text a chosen = resolve text a >>= λ found.
      choose_target (best_first (λ c. c.confidence) found) >>= λ target.
      resolve_with more text a (List.◌++◌ chosen target)

  unfoldable pub resolve_entities : Bool → NormalizedAction → Result NormalizedAction
  unfolding resolve_with
  resolve_entities false a = ok a
  resolve_entities true a =
      resolve_with ports.entity_resolvers (text_of a.text) a a.targets >>= λ targets.
      ok (record a { targets = distinct_after [] targets })

  abbrev pub may_interpret : TurnKind → NormalizedAction → Bool
  may_interpret restore a = false
  may_interpret kind a =
      ports.enable_action_interpret && (a.action_type == "free_text" && is_text a.text)

  -- What the agent says of the type may be empty.
  abbrev interpreted : ActionPatch → NormalizedAction → NormalizedAction
  interpreted p a = record a {
    action_type = or_patch p.action_type a.action_type;
    targets = or_patch p.targets a.targets;
    confidence = or_some p.confidence a.confidence;
    extras = spread_some a.extras p.extras;
  }

  abbrev interpret_failure : Failure → Failure
  interpret_failure e =
      failure_details "AGENT_FAILED" e.message
        (some (obj (field "code" (str e.code) (field "message" (str e.message) end))))

  unfoldable pub interpret_action : Bool → NormalizedAction → Result NormalizedAction
  interpret_action false a = ok a
  interpret_action true a = elim (ports.interpret (text_of a.text) a.targets a.extras) [
    | ok patch ↦ ok (interpreted patch a)
    | err e ↦ err (interpret_failure e)
  ]

  abbrev is_empty : List String → Bool
  is_empty [] = true
  is_empty (t ∷ ts) = false

  abbrev pub is_known : String → Bool
  is_known type =
      is_empty ports.action_types
      || (contains type ports.action_types
          || (type == "noop" || (type == "system" || type == "free_text")))

  unfoldable pub check_known : NormalizedAction → Result NormalizedAction
  check_known a =
      if is_known a.action_type
      then ok a
      else err (failure "INVALID_INPUT" ("unknown action type: " ++ a.action_type))

  unfoldable pub normalize_action : TurnKind → PlayerAction → Result NormalizedAction
  unfolding start_action run_normalizers run_classifiers resolve_entities interpret_action
      check_known
  normalize_action kind raw = start_action raw.kind raw >>= λ a0.
      run_normalizers ports.input_normalizers a0 >>= λ a1.
      run_classifiers ports.action_classifiers a1 >>= λ a2.
      resolve_entities (is_text a2.text) a2 >>= λ a3.
      interpret_action (may_interpret kind a3) a3 >>= λ a4. check_known a4
