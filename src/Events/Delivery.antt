-- ===== src/Events/Delivery.antt =====
-- `publish` of packages/core/src/events/event-bus.ts: whom it calls.
use rpenginext.Common.{ℕ, ◌≡◌, refl, [], ◌∷◌, ◌++◌}
use rpenginext.Events.{
  EngineEvent, EventBus, HandlerSet, subscribers, Reaction, after, deliver, publish,
}

-- What the handlers leave of the bus, each on the bus that the one before it left.
abbrev pub react_all :
    (ℕ → EngineEvent → EventBus → Reaction) → EngineEvent → HandlerSet → EventBus → EventBus
react_all react event [] bus = bus
react_all react event (h ∷ hs) bus = react_all react event hs (after (react h event bus))

deliver-eq :
    (react : ℕ → EngineEvent → EventBus → Reaction) (hs : HandlerSet) (event : EngineEvent)
    (bus : EventBus)
    → deliver react hs event bus ≡ (hs, react_all react event hs bus)
unfolding deliver
deliver-eq react [] event bus = refl
deliver-eq react (h ∷ hs) event bus =
    rw (deliver-eq react hs event (after (react h event bus))) refl

-- Whatever the handlers do when they are called, throw, subscribe, unsubscribe or publish: `publish`
-- calls exactly the handlers that were subscribed to the type when it began and then those of "*",
-- in the order of their subscription, and each of them acts on the bus the one before it left.
pub publish-calls :
    (react : ℕ → EngineEvent → EventBus → Reaction) (event : EngineEvent) (bus : EventBus)
    → let targets = subscribers event.type bus ++ subscribers "*" bus in
      publish react event bus ≡ (targets, react_all react event targets bus)
unfolding publish
publish-calls react event bus =
    deliver-eq react (subscribers event.type bus ++ subscribers "*" bus) event bus
