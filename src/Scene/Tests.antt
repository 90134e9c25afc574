-- ===== src/Scene/Tests.antt =====
-- The scene controller at concrete reports.
use rpenginext.Common.{
  ℕ, ◌≡◌, refl, true, false, Bool, none, some, List, [], ◌∷◌, map, String, arith,
}
use rpenginext.Scene.{
  calm, fine, Verdict, create_empty_scene_controller_slice, SceneOp, record_turn, probe_report,
  apply_ops,
}
use rpenginext.Scene.Guidance.{TempoConfig, develop, conclude, derive_guidance_mode}
use rpenginext.Scene.Urged.{derive_guidance_mode-concludes}

abbrev same_text : String → String
same_text t = t

-- Of a progress of ten parts.
abbrev verdict : Bool → ℕ → Bool → Verdict
verdict same parts done = record {
  same_scene = same;
  label = some "At the bridge";
  type = none;
  progress = parts;
  stall = true;
  repeat = false;
  loop = calm;
  urgency = fine;
  resolved = done;
  resolution_hint = none;
}

-- A scene that is taken over twice, and one that ends.
abbrev night : List SceneOp
night =
    record_turn "t1"
    ∷ probe_report (verdict false 3 false) "t1"
    ∷ probe_report (verdict false 9 false) "t2"
    ∷ probe_report (verdict true 9 false) "t3"
    ∷ probe_report (verdict true 10 true) "t4"
    ∷ []

-- A scene that does not end.
abbrev dragging : List SceneOp
dragging =
    probe_report (verdict false 9 false) "t1"
    ∷ record_turn "t2"
    ∷ probe_report (verdict true 9 false) "t2"
    ∷ probe_report (verdict false 8 false) "t3"
    ∷ []

abbrev tempo : TempoConfig
tempo = record { climax_saturated_beats = 2; hard_saturated_beats = 3 }

night_log :
    map (λ r. r.beats) (apply_ops same_text 1 8 night create_empty_scene_controller_slice).history
    ≡ 2 ∷ []
unfolding apply_ops
night_log = refl

dragging_mode :
    derive_guidance_mode
      (apply_ops same_text 1 8
        (probe_report (verdict false 9 false) "t1" ∷ [])
        create_empty_scene_controller_slice)
      tempo
    ≡ some develop
unfolding derive_guidance_mode apply_ops
dragging_mode = refl

derive_guidance_mode-concludes_example :
    derive_guidance_mode
      (apply_ops same_text 1 8 dragging create_empty_scene_controller_slice)
      tempo
    ≡ some conclude
derive_guidance_mode-concludes_example =
    derive_guidance_mode-concludes same_text 1 8 tempo dragging create_empty_scene_controller_slice
      ((refl, omega arith), (tt, ((refl, omega arith), ((refl, omega arith), tt)))) (omega arith)
      (omega arith)
