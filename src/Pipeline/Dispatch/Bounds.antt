-- ===== src/Pipeline/Dispatch/Bounds.antt =====
-- The bounds of the dispatch of module events (packages/core/src/pipeline/turn-pipeline.ts).
use rpenginext.Common.{
  ℕ, zero, suc, ◌+◌, ◌≤◌, ◌≡◌, refl, ap, true, List, [], ◌∷◌, ◌++◌, append-nil, has_key, length,
  All, ltb, Bool-cases, inl, inr, ◌⊎◌, arith,
}
use rpenginext.Pipeline.{TurnKind, player, system, restore}
use rpenginext.Pipeline.Commit.{PendingSystemTurn}
use rpenginext.Pipeline.Dispatch.{
  ModuleEvent, Dispatcher, drained, Dispatched, max_cascade_depth, at_depth, record_event, cascades,
  schedules, allowed, dispatch_loop, dispatch_module_events,
}

abbrev pub IsShallow : ModuleEvent × ℕ → Type 0
IsShallow (e, depth) = depth ≤ 8

pub record IsBounded (max : ℕ) (d : Dispatched) : Type 0 where
  pub few : length d.events ≤ max
  pub shallow : All IsShallow d.events

guard_of :
    (kind : TurnKind) (ts : List PendingSystemTurn) → (kind ≡ player) ⊎ (allowed kind ts ≡ [])
guard_of player ts = inl refl
guard_of system ts = inr refl
guard_of restore ts = inr refl

both_empty :
    {kind : TurnKind} (ts us : List PendingSystemTurn)
    → (kind ≡ player) ⊎ (ts ≡ [])
    → (kind ≡ player) ⊎ (us ≡ [])
    → (kind ≡ player) ⊎ (ts ++ us ≡ [])
both_empty ts us (inl p) h = inl p
both_empty ts us (inr e) (inl p) = inl p
both_empty ts us (inr e) (inr f) = inr (rw (e, f) refl)

module _ (dispatcher : Dispatcher) (kind : TurnKind) where
  dispatch_loop-IsBounded :
      (left : ℕ) (queue : List (ModuleEvent × ℕ))
      → IsBounded left (dispatch_loop dispatcher kind left queue)
  unfolding dispatch_loop
  dispatch_loop-IsBounded left [] = record { few = omega arith; shallow = tt }
  dispatch_loop-IsBounded zero (item ∷ queue) = record { few = omega arith; shallow = tt }
  dispatch_loop-IsBounded (suc left) ((e, depth) ∷ queue) =
      elim (Bool-cases (ltb max_cascade_depth depth)) [
        | inl deep ↦ rw deep (record { few = omega arith; shallow = tt })
        | inr fine ↦ rw fine (elim (Bool-cases (has_key e.name dispatcher.publishers)) [
          | inl known ↦
              let rest =
                dispatch_loop-IsBounded left
                  (queue ++ at_depth (depth + 1) (cascades dispatcher kind e)) in
              rw known (record {
                few = omega (arith, rest.few);
                shallow = (ground (arith, fine), rest.shallow);
              })
          | inr unknown ↦
              let rest = dispatch_loop-IsBounded left queue in
              rw unknown (record { few = omega (arith, rest.few); shallow = rest.shallow })
        ])
      ]

  dispatch_loop-guard :
      (left : ℕ) (queue : List (ModuleEvent × ℕ))
      → (kind ≡ player) ⊎ ((dispatch_loop dispatcher kind left queue).scheduled ≡ [])
  unfolding dispatch_loop
  dispatch_loop-guard left [] = inr refl
  dispatch_loop-guard zero (item ∷ queue) = inr refl
  dispatch_loop-guard (suc left) ((e, depth) ∷ queue) =
      elim (Bool-cases (ltb max_cascade_depth depth)) [
        | inl deep ↦ rw deep (inr refl)
        | inr fine ↦ rw fine (elim (Bool-cases (has_key e.name dispatcher.publishers)) [
          | inl known ↦ rw known (
              both_empty _ _ (guard_of kind _) (
                dispatch_loop-guard left
                  (queue ++ at_depth (depth + 1) (cascades dispatcher kind e))))
          | inr unknown ↦ rw unknown (dispatch_loop-guard left queue)
        ])
      ]

  -- The dispatch ends; it delivers at most 256 events, none deeper than 8 in its cascade, and schedules
  -- nothing unless the turn is a player's, whatever the handlers emit and ask for.
  pub dispatch_module_events-IsBounded :
      (emitted : List ModuleEvent)
      → let d = dispatch_module_events dispatcher kind emitted in
        IsBounded 256 d × ((kind ≡ player) ⊎ (d.scheduled ≡ []))
  unfolding dispatch_module_events
  dispatch_module_events-IsBounded emitted = (
    dispatch_loop-IsBounded 256 (at_depth 0 emitted),
    dispatch_loop-guard 256 (at_depth 0 emitted),
  )

  -- What the handlers of the events ask for, in the order of the events.
  abbrev pub all_schedules : List ModuleEvent → List PendingSystemTurn
  all_schedules [] = []
  all_schedules (e ∷ es) = schedules dispatcher kind e ++ all_schedules es

  abbrev pub IsKnown : ModuleEvent → Type 0
  IsKnown e = has_key e.name dispatcher.publishers ≡ true

  dispatch_loop-quiet :
      (left : ℕ) (emitted : List ModuleEvent)
      → ((e : ModuleEvent) → cascades dispatcher kind e ≡ [])
      → All IsKnown emitted
      → length emitted ≤ left
      → dispatch_loop dispatcher kind left (at_depth 0 emitted) ≡ record {
        events = at_depth 0 emitted;
        scheduled = all_schedules emitted;
        ending = drained;
      }
  unfolding dispatch_loop
  dispatch_loop-quiet left [] quiet known few = refl
  dispatch_loop-quiet zero (e ∷ es) quiet known few = absurd (omega (arith, few))
  dispatch_loop-quiet (suc left) (e ∷ es) quiet known few = rw known.0 (
      rw (quiet e) (
        rw append-nil (
          ap (record_event e 0 (schedules dispatcher kind e))
            (dispatch_loop-quiet left es quiet known.1 (omega (arith, few))))))

  -- If every emitted event has a publisher, no handler emits another, and there are no more than 256,
  -- every event is delivered once, in the order of its emission, and what the handlers ask for is
  -- scheduled in that order.
  pub dispatch_module_events-quiet :
      (emitted : List ModuleEvent)
      → ((e : ModuleEvent) → cascades dispatcher kind e ≡ [])
      → All IsKnown emitted
      → length emitted ≤ 256
      → dispatch_module_events dispatcher kind emitted ≡ record {
        events = at_depth 0 emitted;
        scheduled = all_schedules emitted;
        ending = drained;
      }
  unfolding dispatch_module_events
  dispatch_module_events-quiet emitted quiet known few =
      dispatch_loop-quiet 256 emitted quiet known few
