-- ===== src/Events/Subscribers.antt =====
-- What `subscribe` and the function it returns do to the subscribers of every type
-- (packages/core/src/events/event-bus.ts).
use rpenginext.Common.{
  ℕ, zero, suc, ◌<◌, ◌≡◌, refl, false, Option, none, some, List, [], ◌∷◌, ◌++◌, String, lookup,
  lookup-insert, lookup-erase, eqb, eqb_iff, length, length-append, ◌==◌, eq_iff, if◌then◌else◌,
  arith, Bool-cases, inl, inr,
}
use rpenginext.Events.{
  EventBus, HandlerSet, get_set, put_set, set_at, add, remove, subscribers, Subscription,
  subscribe_to, subscribe, drop_if_empty, unsubscribe,
}

-- Every type has a set of its own on the heap.
pub record IsPlaced (bus : EventBus) : Type 0 where
  pub placed : (t : String) (r : ℕ) → lookup t bus.handlers ≡ some r → r < length bus.sets
  pub apart :
      (t u : String) (r : ℕ)
      → lookup t bus.handlers ≡ some r
      → lookup u bus.handlers ≡ some r
      → t ≡ u

pub get_set-put_set :
    (r q : ℕ) (s : HandlerSet) (ss : List HandlerSet)
    → r < length ss
    → get_set q (put_set r s ss) ≡ (if eqb r q then s else get_set q ss)
get_set-put_set r q s [] h = absurd (omega (arith, h))
get_set-put_set zero zero s (x ∷ ss) h = ground arith
get_set-put_set zero (suc q) s (x ∷ ss) h = ground arith
get_set-put_set (suc r) zero s (x ∷ ss) h = ground arith
get_set-put_set (suc r) (suc q) s (x ∷ ss) h =
    ground (arith, get_set-put_set r q s ss (omega (arith, h)))

pub length-put_set :
    (r : ℕ) (s : HandlerSet) (ss : List HandlerSet) → length (put_set r s ss) ≡ length ss
length-put_set r s [] = refl
length-put_set zero s (x ∷ ss) = refl
length-put_set (suc r) s (x ∷ ss) = omega (arith, length-put_set r s ss)

pub get_set-old :
    (q : ℕ) (s : HandlerSet) (ss : List HandlerSet)
    → q < length ss
    → get_set q (ss ++ s ∷ []) ≡ get_set q ss
get_set-old q s [] h = absurd (omega (arith, h))
get_set-old zero s (x ∷ ss) h = refl
get_set-old (suc q) s (x ∷ ss) h = get_set-old q s ss (omega (arith, h))

pub get_set-new : (s : HandlerSet) (ss : List HandlerSet) → get_set (length ss) (ss ++ s ∷ []) ≡ s
get_set-new s [] = refl
get_set-new s (x ∷ ss) = get_set-new s ss

module _ (bus : EventBus) (p : IsPlaced bus) where
  -- What a new set for the type `t` leaves of each type.
  fresh_at :
      (t u : String) (h : ℕ) (o : Option ℕ)
      → lookup u bus.handlers ≡ o
      → (t == u) ≡ false
      → set_at o (bus.sets ++ (h ∷ []) ∷ []) ≡ set_at o bus.sets
  fresh_at t u h none e other = refl
  fresh_at t u h (some r) e other = get_set-old r (h ∷ []) bus.sets (p.placed u r e)

  -- What a write to the set of the type `t` leaves of each type.
  written_at :
      (t u : String) (r : ℕ) (s : HandlerSet) (o : Option ℕ)
      → lookup t bus.handlers ≡ some r
      → lookup u bus.handlers ≡ o
      → set_at o (put_set r s bus.sets) ≡ (if t == u then s else set_at o bus.sets)
  written_at t u r s none held e = ground (arith, eq_iff t u)
  written_at t u r s (some q) held e = ground (
    arith,
    eq_iff t u,
    eqb_iff r q,
    p.apart t u r held,
    get_set-put_set r q s bus.sets (p.placed t r held),
  )

  subscribe_to-reads :
      (t u : String) (h : ℕ) (o : Option ℕ)
      → lookup t bus.handlers ≡ o
      → subscribers u (subscribe_to o t h bus).1
        ≡ (if t == u then add h (set_at o bus.sets) else subscribers u bus)
  unfolding subscribe_to
  subscribe_to-reads t u h none e = elim (Bool-cases (t == u)) [
    | inl same ↦ rw (lookup-insert, same) (get_set-new (h ∷ []) bus.sets)
    | inr other ↦ rw (lookup-insert, other) (fresh_at t u h (lookup u bus.handlers) refl other)
  ]
  subscribe_to-reads t u h (some r) e =
      written_at t u r (add h (get_set r bus.sets)) (lookup u bus.handlers) e refl

  subscribe_to-IsPlaced :
      (t : String) (h : ℕ) (o : Option ℕ)
      → lookup t bus.handlers ≡ o
      → IsPlaced (subscribe_to o t h bus).1
  unfolding subscribe_to
  subscribe_to-IsPlaced t h none e = record {
    placed = λ u r held. ground (
      arith,
      lookup-insert t u (length bus.sets) bus.handlers,
      length-append bus.sets ((h ∷ []) ∷ []),
      p.placed u r,
    );
    apart = λ u v r held also. ground (
      arith,
      eq_iff t u,
      eq_iff t v,
      lookup-insert t u (length bus.sets) bus.handlers,
      lookup-insert t v (length bus.sets) bus.handlers,
      p.placed u r,
      p.placed v r,
      p.apart u v r,
    );
  }
  subscribe_to-IsPlaced t h (some r) e = record {
    placed = λ u q held. rw length-put_set (p.placed u q held);
    apart = p.apart;
  }

  -- After `subscribe`, its type has the handler behind those it had, once; every other type has the
  -- handlers it had; and each type still has a set of its own.
  pub subscribe-reads :
      (t : String) (h : ℕ)
      → let bus' = (subscribe t h bus).1 in
        IsPlaced bus'
        × ((u : String)
            → subscribers u bus'
              ≡ (if t == u then add h (subscribers t bus) else subscribers u bus))
  unfolding subscribe
  subscribe-reads t h = (
    subscribe_to-IsPlaced t h (lookup t bus.handlers) refl,
    λ u. subscribe_to-reads t u h (lookup t bus.handlers) refl,
  )

  dropped-reads :
      (t u : String) (r : ℕ) (s : HandlerSet)
      → lookup t bus.handlers ≡ some r
      → subscribers u (drop_if_empty s t (record bus { sets = put_set r s bus.sets }))
        ≡ (if t == u then s else subscribers u bus)
  dropped-reads t u r [] held =
      ground (
        arith,
        lookup-erase t u bus.handlers,
        written_at t u r [] (lookup u bus.handlers) held refl,
      )
  dropped-reads t u r (g ∷ s) held = written_at t u r (g ∷ s) (lookup u bus.handlers) held refl

  dropped-IsPlaced :
      (t : String) (r : ℕ) (s : HandlerSet)
      → IsPlaced (drop_if_empty s t (record bus { sets = put_set r s bus.sets }))
  dropped-IsPlaced t r [] = record {
    placed = λ u q held.
        ground (arith, lookup-erase t u bus.handlers, length-put_set r [] bus.sets, p.placed u q);
    apart = λ u v q held also.
        ground (arith, lookup-erase t u bus.handlers, lookup-erase t v bus.handlers, p.apart u v q);
  }
  dropped-IsPlaced t r (g ∷ s) = record {
    placed = λ u q held. rw length-put_set (p.placed u q held);
    apart = p.apart;
  }

  -- The function that `subscribe` returned, while the set it closes over is still the one of its
  -- type: the type loses this handler and no other, and every other type has the handlers it had.
  pub unsubscribe-reads :
      (sub : Subscription)
      → lookup sub.type bus.handlers ≡ some sub.set
      → let bus' = unsubscribe sub bus in
        IsPlaced bus'
        × ((u : String)
            → subscribers u bus' ≡ (
                if sub.type == u
                then remove sub.handler (subscribers sub.type bus)
                else subscribers u bus))
  unfolding unsubscribe
  unsubscribe-reads sub held =
      let left = remove sub.handler (get_set sub.set bus.sets) in
      (
        dropped-IsPlaced sub.type sub.set left,
        λ u. rw held (dropped-reads sub.type u sub.set left held),
      )
