-- ===== src/Scene/Urged.antt =====
-- An unresolved scene whose progress stays saturated comes to the mode `hard` of
-- packages/modules/scene-controller/src/guidance.ts.
use rpenginext.Common.{
  ℕ, suc, ◌+◌, ◌≤◌, ◌≡◌, refl, ap, Bool, true, false, Option, none, some, List, [], ◌∷◌, String,
  All, arith,
}
use rpenginext.Contracts.{⊤}
use rpenginext.Scene.{
  LoopLevel, calm, soft, hard, Urgency, fine, approaching, exhausted, mandatory, SceneInfo, Verdict,
  SceneControllerSlice, next_high_progress_beats, apply_record_turn, continue_scene, begin_scene,
  report_on, report_when, apply_probe_report, SceneOp, record_turn, probe_report, apply_op,
  apply_ops,
}
use rpenginext.Scene.Guidance.{
  conclude, TempoConfig, rank, derive_deterministic_floor, model_urgency, larger_urgency,
  effective_urgency, mode_of, mode_on, derive_guidance_mode,
}

-- A report of the scene that goes on, close to its end.
abbrev pub Saturates : ℕ → SceneOp → Type 0
Saturates saturated (record_turn turn) = ⊤
Saturates saturated (probe_report v turn) = (v.resolved ≡ false) × (saturated ≤ v.progress)

abbrev pub reports : List SceneOp → ℕ
reports [] = 0
reports (record_turn turn ∷ os) = reports os
reports (probe_report v turn ∷ os) = suc (reports os)

abbrev IsShown : Option SceneInfo → Option Verdict → Type 0
IsShown none verdict = ⊥
IsShown (some c) none = ⊥
IsShown (some c) (some v) = ⊤

record IsPressed (n : ℕ) (s : SceneControllerSlice) : Type 0 where
  shown : IsShown s.current s.last_verdict
  beats : n ≤ s.high_progress_beats

next-saturated :
    (prev progress saturated : ℕ)
    → saturated ≤ progress
    → next_high_progress_beats prev progress saturated ≡ suc prev
next-saturated prev progress saturated h = ground arith

module _ (cut : String → String) (cap saturated : ℕ) where
  report_on-IsPressed :
      (v : Verdict) (turn : String) (current : Option SceneInfo) (same : Bool)
      (s : SceneControllerSlice)
      → saturated ≤ v.progress
      → IsPressed (suc s.high_progress_beats) (report_on cut v turn cap saturated current same s)
  unfolding report_on continue_scene begin_scene
  report_on-IsPressed v turn (some c) true s h = record {
    shown = tt;
    beats = omega (arith, next-saturated s.high_progress_beats v.progress saturated h);
  }
  report_on-IsPressed v turn (some c) false s h = record {
    shown = tt;
    beats = omega (arith, next-saturated s.high_progress_beats v.progress saturated h);
  }
  report_on-IsPressed v turn none same s h = record {
    shown = tt;
    beats = omega (arith, next-saturated s.high_progress_beats v.progress saturated h);
  }

  report_when-IsPressed :
      (v : Verdict) (turn : String) (resolves : Bool) (s : SceneControllerSlice)
      → resolves ≡ false
      → saturated ≤ v.progress
      → IsPressed (suc s.high_progress_beats) (report_when cut v turn cap saturated resolves s)
  unfolding report_when
  report_when-IsPressed v turn true s e h = absurd (cc e)
  report_when-IsPressed v turn false s e h = report_on-IsPressed v turn s.current v.same_scene s h

  more-IsPressed : (m n : ℕ) (s : SceneControllerSlice) → m ≤ n → IsPressed n s → IsPressed m s
  more-IsPressed m n s l p = record { shown = p.shown; beats = omega (arith, p.beats) }

  -- A scene under pressure stays so.
  apply_ops-IsPressed :
      (os : List SceneOp) (n : ℕ) (s : SceneControllerSlice)
      → All (Saturates saturated) os
      → IsPressed n s
      → IsPressed (reports os + n) (apply_ops cut cap saturated os s)
  unfolding apply_ops apply_op apply_record_turn apply_probe_report
  apply_ops-IsPressed [] n s h p = more-IsPressed (0 + n) n s (omega arith) p
  apply_ops-IsPressed (record_turn turn ∷ os) n s h p =
      apply_ops-IsPressed os n (apply_record_turn s turn) (h.1)
        (record { shown = p.shown; beats = p.beats })
  apply_ops-IsPressed (probe_report v turn ∷ os) n s h p =
      let q = report_when-IsPressed v turn v.resolved s h.0.0 h.0.1 in
      let s2 = apply_probe_report cut v turn cap saturated s in
      let r =
        apply_ops-IsPressed os (suc n) s2 h.1
          (more-IsPressed (suc n) (suc s.high_progress_beats) s2 (omega (arith, p.beats)) q) in
      more-IsPressed (suc (reports os) + n) (reports os + suc n) (apply_ops cut cap saturated os s2)
        (omega arith) r

  -- The first report begins a scene or goes on with one.
  apply_ops-presses :
      (os : List SceneOp) (s : SceneControllerSlice)
      → All (Saturates saturated) os
      → 1 ≤ reports os
      → IsPressed (reports os) (apply_ops cut cap saturated os s)
  unfolding apply_ops apply_op apply_probe_report
  apply_ops-presses [] s h k = absurd (omega arith)
  apply_ops-presses (record_turn turn ∷ os) s h k =
      apply_ops-presses os (apply_record_turn s turn) (h.1) k
  apply_ops-presses (probe_report v turn ∷ os) s h k =
      let q = report_when-IsPressed v turn v.resolved s h.0.0 h.0.1 in
      let s2 = apply_probe_report cut v turn cap saturated s in
      let r = apply_ops-IsPressed os (suc s.high_progress_beats) s2 h.1 q in
      more-IsPressed (suc (reports os)) (reports os + suc s.high_progress_beats)
        (apply_ops cut cap saturated os s2) (omega arith) r

mode_of-mandatory :
    (loop : LoopLevel) (urgency : Urgency) → rank urgency ≡ 3 → mode_of loop urgency ≡ conclude
mode_of-mandatory calm fine h = absurd (omega (arith, h))
mode_of-mandatory calm approaching h = absurd (omega (arith, h))
mode_of-mandatory calm exhausted h = absurd (omega (arith, h))
mode_of-mandatory calm mandatory h = refl
mode_of-mandatory soft fine h = absurd (omega (arith, h))
mode_of-mandatory soft approaching h = absurd (omega (arith, h))
mode_of-mandatory soft exhausted h = absurd (omega (arith, h))
mode_of-mandatory soft mandatory h = refl
mode_of-mandatory hard urgency h = refl

floor-mandatory :
    (c : SceneInfo) (beats : ℕ) (config : TempoConfig)
    → config.hard_saturated_beats ≤ beats
    → derive_deterministic_floor (some c) beats config ≡ mandatory
unfolding derive_deterministic_floor
floor-mandatory c beats config h = ground arith

larger-mandatory :
    (floor model : Urgency) → floor ≡ mandatory → rank (larger_urgency floor model) ≡ 3
larger-mandatory floor fine e = ap (λ f. rank (larger_urgency f fine)) e
larger-mandatory floor approaching e = ap (λ f. rank (larger_urgency f approaching)) e
larger-mandatory floor exhausted e = ap (λ f. rank (larger_urgency f exhausted)) e
larger-mandatory floor mandatory e = ap (λ f. rank (larger_urgency f mandatory)) e

larger-pressed :
    (current : Option SceneInfo) (verdict : Option Verdict) (beats : ℕ) (config : TempoConfig)
    → IsShown current verdict
    → config.hard_saturated_beats ≤ beats
    → rank
        (larger_urgency (derive_deterministic_floor current beats config) (model_urgency verdict))
      ≡ 3
larger-pressed none verdict beats config h k = absurd h
larger-pressed (some c) verdict beats config h k =
    larger-mandatory (derive_deterministic_floor (some c) beats config) (model_urgency verdict)
      (floor-mandatory c beats config k)

mode_on-concludes :
    (current : Option SceneInfo) (verdict : Option Verdict) (loop : LoopLevel) (urgency : Urgency)
    → IsShown current verdict
    → rank urgency ≡ 3
    → mode_on current verdict loop urgency ≡ some conclude
unfolding mode_on
mode_on-concludes none verdict loop urgency h e = absurd h
mode_on-concludes (some c) none loop urgency h e = absurd h
mode_on-concludes (some c) (some v) loop urgency h e = ap some (mode_of-mandatory loop urgency e)

-- Reports that a scene is not resolved and close to its end bring the mode `conclude`, whatever the
-- state was, the labels, the loops and urgencies that the reports tell, and whatever turns are recorded
-- between them, once there is one report and they are as many as the threshold of the configuration.
pub derive_guidance_mode-concludes :
    (cut : String → String) (cap saturated : ℕ) (config : TempoConfig) (os : List SceneOp)
    (s : SceneControllerSlice)
    → All (Saturates saturated) os
    → 1 ≤ reports os
    → config.hard_saturated_beats ≤ reports os
    → derive_guidance_mode (apply_ops cut cap saturated os s) config ≡ some conclude
unfolding derive_guidance_mode effective_urgency
derive_guidance_mode-concludes cut cap saturated config os s h one enough =
    let s2 = apply_ops cut cap saturated os s in
    let p = apply_ops-presses cut cap saturated os s h one in
    mode_on-concludes s2.current s2.last_verdict s2.loop_level (effective_urgency s2 config) p.shown
      (larger-pressed s2.current s2.last_verdict s2.high_progress_beats config p.shown
        (omega (arith, p.beats)))
