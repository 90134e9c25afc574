-- ===== src/Events.antt =====
-- packages/core/src/events/event-bus.ts: subscribers by event type. A `Set` of handlers is an
-- object that the unsubscribe function of each subscription still holds after the set has left the
-- map, so the sets stand on a heap and the map holds their places. A handler is a number; what it
-- does when it is called, a throw included, is the parameter `react`. An asynchronous handler's
-- rejection is swallowed and has no part in the model.
pub mod Delivery
pub mod Subscribers
pub mod Stale
mod Tests
use rpenginext.Common.{
  ℕ, zero, suc, ◌≡◌, refl, Bool, true, false, Option, none, some, List, [], ◌∷◌, ◌++◌, String, Dict,
  lookup, insert, erase, any, filter, not, eqb, length, if◌then◌else◌,
}
use rpenginext.Contracts.{JsonObject}

pub record EngineEvent : Type 0 where
  pub type : String
  pub fields : JsonObject

abbrev pub HandlerSet : Type 0
HandlerSet = List ℕ

pub record EventBus : Type 0 where
  pub handlers : Dict ℕ
  pub sets : List HandlerSet

abbrev pub new_event_bus : EventBus
new_event_bus = record { handlers = []; sets = [] }

-- The set at a place of the heap; a place that was never given out holds nothing.
abbrev pub get_set : ℕ → List HandlerSet → HandlerSet
get_set r [] = []
get_set zero (s ∷ ss) = s
get_set (suc r) (s ∷ ss) = get_set r ss

abbrev pub put_set : ℕ → HandlerSet → List HandlerSet → List HandlerSet
put_set r t [] = []
put_set zero t (s ∷ ss) = t ∷ ss
put_set (suc r) t (s ∷ ss) = s ∷ put_set r t ss

-- `Set.add`, `Set.delete`
abbrev pub add : ℕ → HandlerSet → HandlerSet
add h s = if any (λ g. eqb g h) s then s else s ++ h ∷ []

abbrev pub remove : ℕ → HandlerSet → HandlerSet
remove h = filter (λ g. not (eqb g h))

-- The set at the place that the map holds, if it holds one.
abbrev pub set_at : Option ℕ → List HandlerSet → HandlerSet
set_at none sets = []
set_at (some r) sets = get_set r sets

-- The handlers that are subscribed to a type.
abbrev pub subscribers : String → EventBus → HandlerSet
subscribers type bus = set_at (lookup type bus.handlers) bus.sets

-- What the unsubscribe function closes over.
pub record Subscription : Type 0 where
  pub set : ℕ
  pub type : String
  pub handler : ℕ

pub subscribe_to : Option ℕ → String → ℕ → EventBus → Subscription × EventBus
subscribe_to none type h bus =
    let r = length bus.sets in
    (
      record { set = r; type = type; handler = h },
      record { handlers = insert type r bus.handlers; sets = bus.sets ++ (h ∷ []) ∷ [] },
    )
subscribe_to (some r) type h bus = (
  record { set = r; type = type; handler = h },
  record bus { sets = put_set r (add h (get_set r bus.sets)) bus.sets },
)

pub subscribe : String → ℕ → EventBus → Subscription × EventBus
subscribe type h bus = subscribe_to (lookup type bus.handlers) type h bus

abbrev drop_if_empty : HandlerSet → String → EventBus → EventBus
drop_if_empty [] type bus = record bus { handlers = erase type bus.handlers }
drop_if_empty (g ∷ s) type bus = bus

-- The function that `subscribe` returns.
pub unsubscribe : Subscription → EventBus → EventBus
unsubscribe sub bus =
    let left = remove sub.handler (get_set sub.set bus.sets) in
    drop_if_empty left sub.type (record bus { sets = put_set sub.set left bus.sets })

-- How a call of a handler ended, and what it did to the bus.
pub data Reaction : Type 0 where
  returned threw : EventBus → Reaction

abbrev pub after : Reaction → EventBus
after (returned bus) = bus
after (threw bus) = bus

-- The loop of `publish` over the targets, which it copied before; it gives the calls in order.
pub deliver :
    (ℕ → EngineEvent → EventBus → Reaction)
    → HandlerSet
    → EngineEvent
    → EventBus
    → List ℕ × EventBus
deliver react [] event bus = ([], bus)
deliver react (h ∷ targets) event bus =
    let (calls, bus') = deliver react targets event (after (react h event bus)) in (h ∷ calls, bus')

pub publish : (ℕ → EngineEvent → EventBus → Reaction) → EngineEvent → EventBus → List ℕ × EventBus
publish react event bus =
    deliver react (subscribers event.type bus ++ subscribers "*" bus) event bus
