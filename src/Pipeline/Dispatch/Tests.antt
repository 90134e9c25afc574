-- ===== src/Pipeline/Dispatch/Tests.antt =====
-- The dispatch of module events at concrete inputs.
use rpenginext.Common.{◌≡◌, [], ◌∷◌, ◌⊎◌}
use rpenginext.Contracts.{end}
use rpenginext.Pipeline.{player, system}
use rpenginext.Pipeline.Dispatch.{ModuleEvent, Dispatcher, dispatch_module_events}
use rpenginext.Pipeline.Dispatch.Bounds.{IsBounded, dispatch_module_events-IsBounded}

abbrev rain : ModuleEvent
rain = record { name = "weather.rain"; module_id = "weather"; payload = end }

-- Its handler emits the event again: the cascade does not end by itself.
abbrev echoing : Dispatcher
echoing = record {
  publishers = ("weather.rain", "weather") ∷ [];
  subscriptions =
      record {
        module_id = "echo";
        value = record {
          name = "weather.rain";
          handler = λ p. record { schedules = []; emits = rain ∷ [] };
        };
      }
      ∷ [];
}

dispatch_module_events-IsBounded_example :
    let d = dispatch_module_events echoing system (rain ∷ []) in
    IsBounded 256 d × ((system ≡ player) ⊎ (d.scheduled ≡ []))
dispatch_module_events-IsBounded_example =
    dispatch_module_events-IsBounded echoing system (rain ∷ [])
