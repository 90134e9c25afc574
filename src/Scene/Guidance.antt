-- ===== src/Scene/Guidance.antt =====
-- packages/modules/scene-controller/src/guidance.ts: how urgently a scene has to end.
use rpenginext.Common.{ℕ, Option, none, some, ltb, leb, if◌then◌else◌}
use rpenginext.Scene.{
  LoopLevel, calm, soft, hard, Urgency, fine, approaching, exhausted, mandatory, SceneInfo, Verdict,
  SceneControllerSlice,
}

-- `conclude` is the mode named "hard", and `none` of the option is `null`.
pub data GuidanceMode : Type 0 where
  develop climax conclude : GuidanceMode

pub record TempoConfig : Type 0 where
  pub climax_saturated_beats : ℕ
  pub hard_saturated_beats : ℕ

abbrev pub rank : Urgency → ℕ
rank fine = 0
rank approaching = 1
rank exhausted = 2
rank mandatory = 3

unfoldable pub derive_deterministic_floor : Option SceneInfo → ℕ → TempoConfig → Urgency
derive_deterministic_floor none beats config = fine
derive_deterministic_floor (some c) beats config =
    if leb config.hard_saturated_beats beats
    then mandatory
    else if leb config.climax_saturated_beats beats
    then exhausted
    else fine

abbrev pub model_urgency : Option Verdict → Urgency
model_urgency none = fine
model_urgency (some v) = v.urgency

abbrev pub larger_urgency : Urgency → Urgency → Urgency
larger_urgency floor model = if ltb (rank floor) (rank model) then model else floor

unfoldable pub effective_urgency : SceneControllerSlice → TempoConfig → Urgency
unfolding derive_deterministic_floor
effective_urgency s config =
    larger_urgency (derive_deterministic_floor s.current s.high_progress_beats config)
      (model_urgency s.last_verdict)

abbrev pub mode_of : LoopLevel → Urgency → GuidanceMode
mode_of hard urgency = conclude
mode_of loop mandatory = conclude
mode_of soft urgency = climax
mode_of calm exhausted = climax
mode_of calm urgency = develop

unfoldable pub mode_on :
    Option SceneInfo → Option Verdict → LoopLevel → Urgency → Option GuidanceMode
mode_on none verdict loop urgency = none
mode_on (some c) none loop urgency = some develop
mode_on (some c) (some v) loop urgency = some (mode_of loop urgency)

unfoldable pub derive_guidance_mode : SceneControllerSlice → TempoConfig → Option GuidanceMode
unfolding effective_urgency mode_on
derive_guidance_mode s config =
    mode_on s.current s.last_verdict s.loop_level (effective_urgency s config)
