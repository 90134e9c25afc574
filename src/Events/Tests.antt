-- ===== src/Events/Tests.antt =====
-- The theorems of the event bus at concrete inputs.
use rpenginext.Common.{ℕ, ◌≡◌, refl, [], ◌∷◌, arith}
use rpenginext.Contracts.{end}
use rpenginext.Events.{
  EngineEvent, EventBus, new_event_bus, subscribers, subscribe_to, subscribe, unsubscribe, Reaction,
  threw, publish,
}
use rpenginext.Events.Delivery.{react_all, publish-calls}
use rpenginext.Events.Subscribers.{IsPlaced, subscribe-reads}
use rpenginext.Events.Stale.{unsubscribe-stale}

-- Two handlers of "turn.committed" and one of all events.
abbrev three_handlers : EventBus
unfolding subscribe subscribe_to
three_handlers =
    (subscribe "turn.committed" 2
      (subscribe "*" 3 (subscribe "turn.committed" 1 new_event_bus).1).1).1

abbrev committed : EngineEvent
committed = record { type = "turn.committed"; fields = end }

-- Each handler ends its own subscription and throws.
abbrev leaves : ℕ → EngineEvent → EventBus → Reaction
leaves h event bus = threw (unsubscribe (record { set = 0; type = event.type; handler = h }) bus)

publish-calls_example :
    publish leaves committed three_handlers
    ≡ (1 ∷ 2 ∷ 3 ∷ [], react_all leaves committed (1 ∷ 2 ∷ 3 ∷ []) three_handlers)
unfolding subscribe subscribe_to
publish-calls_example = publish-calls leaves committed three_handlers

empty-IsPlaced : IsPlaced new_event_bus
empty-IsPlaced = record {
  placed = λ t r e. absurd (ground arith);
  apart = λ t u r e h. absurd (ground arith);
}

abbrev one_handler : EventBus
one_handler = (subscribe "a" 7 new_event_bus).1

one_handler-IsPlaced : IsPlaced one_handler
one_handler-IsPlaced = (subscribe-reads new_event_bus empty-IsPlaced "a" 7).0

unsubscribe-stale_example :
    let (sub, bus₁) = subscribe "a" 7 new_event_bus in
    let (sub', bus₂) = subscribe "a" 8 (unsubscribe sub bus₁) in
    (subscribers "a" bus₂ ≡ 8 ∷ []) × (subscribers "a" (unsubscribe sub bus₂) ≡ [])
unsubscribe-stale_example = unsubscribe-stale new_event_bus "a" 7 8 refl
