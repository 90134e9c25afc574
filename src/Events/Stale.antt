-- ===== src/Events/Stale.antt =====
-- A second call of the function that `subscribe` returns (packages/core/src/events/event-bus.ts).
use rpenginext.Common.{
  ℕ, ◌<◌, ◌≡◌, refl, none, [], ◌∷◌, ◌++◌, String, lookup, insert, lookup-insert, erase,
  lookup-erase, eqb_iff, length, length-append, eq_refl, arith,
}
use rpenginext.Events.{
  EventBus, get_set, put_set, remove, subscribers, Subscription, subscribe_to, subscribe,
  unsubscribe,
}
use rpenginext.Events.Subscribers.{get_set-put_set, length-put_set, get_set-old, get_set-new}

remove-itself : (h : ℕ) → remove h (h ∷ []) ≡ []
remove-itself h = ground (arith, eqb_iff h h)

unsubscribe-emptied :
    (sub : Subscription) (bus : EventBus)
    → remove sub.handler (get_set sub.set bus.sets) ≡ []
    → unsubscribe sub bus
      ≡ record { handlers = erase sub.type bus.handlers; sets = put_set sub.set [] bus.sets }
unfolding unsubscribe
unsubscribe-emptied sub bus e = rw e refl

abbrev fresh : String → ℕ → EventBus → Subscription × EventBus
fresh t h bus = (
  record { set = length bus.sets; type = t; handler = h },
  record { handlers = insert t (length bus.sets) bus.handlers; sets = bus.sets ++ (h ∷ []) ∷ [] },
)

subscribe-fresh :
    (t : String) (h : ℕ) (bus : EventBus)
    → lookup t bus.handlers ≡ none
    → subscribe t h bus ≡ fresh t h bus
unfolding subscribe subscribe_to
subscribe-fresh t h bus e = rw e refl

-- What the first subscription and its end leave.
abbrev left_by : String → ℕ → EventBus → EventBus
left_by t g bus = record {
  handlers = erase t (insert t (length bus.sets) bus.handlers);
  sets = put_set (length bus.sets) [] (bus.sets ++ (g ∷ []) ∷ []);
}

left_by-lem :
    (t : String) (g : ℕ) (bus : EventBus)
    → unsubscribe (fresh t g bus).0 (fresh t g bus).1 ≡ left_by t g bus
left_by-lem t g bus =
    unsubscribe-emptied (fresh t g bus).0 (fresh t g bus).1
      (rw (get_set-new (g ∷ []) bus.sets) (remove-itself g))

left_by-shut : (t : String) (g : ℕ) (bus : EventBus) → lookup t (left_by t g bus).handlers ≡ none
left_by-shut t g bus = rw (lookup-erase, eq_refl t) refl

-- The first set is empty, also when the heap has grown.
left_by-empty :
    (t : String) (g h : ℕ) (bus : EventBus)
    → get_set (length bus.sets) ((left_by t g bus).sets ++ (h ∷ []) ∷ []) ≡ []
left_by-empty t g h bus =
    let n = length bus.sets in
    let grown : n < length (bus.sets ++ (g ∷ []) ∷ []) =
      omega (arith, length-append bus.sets ((g ∷ []) ∷ [])) in
    let here : n < length (left_by t g bus).sets = rw length-put_set grown in
    rw (get_set-old n (h ∷ []) (left_by t g bus).sets here)
      (ground (arith, eqb_iff n n, get_set-put_set n n [] (bus.sets ++ (g ∷ []) ∷ []) grown))

-- A type that has no handler gets one, loses it, and gets another. When the function of the first
-- subscription is called a second time, the type loses the other handler too, whose own function was
-- never called: the first set is empty, and its emptiness removes the type from the map.
pub unsubscribe-stale :
    (bus : EventBus) (t : String) (g h : ℕ)
    → lookup t bus.handlers ≡ none
    → let (sub, bus₁) = subscribe t g bus in
      let (sub', bus₂) = subscribe t h (unsubscribe sub bus₁) in
      (subscribers t bus₂ ≡ h ∷ []) × (subscribers t (unsubscribe sub bus₂) ≡ [])
unsubscribe-stale bus t g h free =
    let b = left_by t g bus in
    rw
      (
        subscribe-fresh t g bus free,
        left_by-lem t g bus,
        subscribe-fresh t h b (left_by-shut t g bus),
      )
      (
        rw (lookup-insert, eq_refl t) (get_set-new (h ∷ []) b.sets),
        rw
            (unsubscribe-emptied (fresh t g bus).0 (fresh t h b).1
              (rw (left_by-empty t g h bus) refl))
            (rw (lookup-erase, eq_refl t) refl),
      )
