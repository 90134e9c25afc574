-- ===== src/Pipeline/Dispatch.antt =====
-- `dispatchModuleEvents` of packages/core/src/pipeline/turn-pipeline.ts: the queue of module events
-- with the caps on their number and on the depth of a cascade. What a handler left in the extras when
-- it returned or threw, the events it emitted and the system turns it asked for, is its value here.
-- `left` is MODULE_EVENT_MAX_BURST_PER_TURN less `burst`.
pub mod Bounds
mod Tests
use mathlib.Core.List
use rpenginext.Common.{
  ℕ, zero, suc, ◌+◌, ◌≡◌, refl, Bool, true, false, Option, none, some, List, [], ◌∷◌, map, filter,
  String, ◌==◌, Dict, has_key, ltb, if◌then◌else◌,
}
use rpenginext.Contracts.{JsonObject}
use rpenginext.Pipeline.{TurnKind, player, system, restore, Owned}
use rpenginext.Pipeline.Commit.{PendingSystemTurn}

pub record ModuleEvent : Type 0 where
  pub name : String
  pub module_id : String
  pub payload : JsonObject

pub record Handled : Type 0 where
  pub schedules : List PendingSystemTurn
  pub emits : List ModuleEvent

pub record EventSubscription : Type 0 where
  pub name : String
  pub handler : JsonObject → Handled

pub record Dispatcher : Type 0 where
  pub publishers : Dict String
  pub subscriptions : List (Owned EventSubscription)

-- How the loop ended.
pub data Ending : Type 0 where
  drained burst_limit cascade_limit : Ending

pub record Dispatched : Type 0 where
  -- the calls of `onEventDispatched`, with the depth of each event
  pub events : List (ModuleEvent × ℕ)
  pub scheduled : List PendingSystemTurn
  pub ending : Ending

abbrev pub max_cascade_depth : ℕ
max_cascade_depth = 8

abbrev pub max_burst : ℕ
max_burst = 256

abbrev concat_map : {A B : Type 0} → (A → List B) → List A → List B
concat_map f [] = []
concat_map f (x ∷ xs) = List.◌++◌ (f x) (concat_map f xs)

-- A turn that is not a player's schedules nothing.
abbrev pub allowed : TurnKind → List PendingSystemTurn → List PendingSystemTurn
allowed player ts = ts
allowed system ts = []
allowed restore ts = []

abbrev pub at_depth : ℕ → List ModuleEvent → List (ModuleEvent × ℕ)
at_depth depth = map (λ e. (e, depth))

abbrev pub record_event : ModuleEvent → ℕ → List PendingSystemTurn → Dispatched → Dispatched
record_event e depth ts d = record d {
  events = (e, depth) ∷ d.events;
  scheduled = List.◌++◌ ts d.scheduled;
}

module _ (dispatcher : Dispatcher) (kind : TurnKind) where
  abbrev subscribers_of : ModuleEvent → List (Owned EventSubscription)
  subscribers_of e = filter (λ s. s.value.name == e.name) dispatcher.subscriptions

  abbrev pub handled : ModuleEvent → List Handled
  handled e = map (λ s. s.value.handler e.payload) (subscribers_of e)

  abbrev pub cascades : ModuleEvent → List ModuleEvent
  cascades e = concat_map (λ h. h.emits) (handled e)

  abbrev pub schedules : ModuleEvent → List PendingSystemTurn
  schedules e = allowed kind (concat_map (λ h. h.schedules) (handled e))

  -- An event without a publisher is skipped; one without a subscriber cascades nothing.
  unfoldable pub dispatch_loop : ℕ → List (ModuleEvent × ℕ) → Dispatched
  dispatch_loop left [] = record { events = []; scheduled = []; ending = drained }
  dispatch_loop zero (item ∷ queue) = record { events = []; scheduled = []; ending = burst_limit }
  dispatch_loop (suc left) ((e, depth) ∷ queue) =
      let skipped = dispatch_loop left queue in
      let handled_rest = dispatch_loop left (List.◌++◌ queue (at_depth (depth + 1) (cascades e))) in
      if ltb max_cascade_depth depth
      then record { events = []; scheduled = []; ending = cascade_limit }
      else if has_key e.name dispatcher.publishers
      then record_event e depth (schedules e) handled_rest
      else skipped

  unfoldable pub dispatch_module_events : List ModuleEvent → Dispatched
  unfolding dispatch_loop
  dispatch_module_events emitted = dispatch_loop max_burst (at_depth 0 emitted)
