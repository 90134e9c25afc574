-- ===== src/Scene/Coherent.antt =====
-- What holds of every slice of packages/modules/scene-controller/src/transitions.ts.
use rpenginext.Common.{
  ℕ, zero, suc, ◌+◌, ◌-◌, ◌≤◌, ◌≡◌, refl, Bool, true, false, Option, none, some, List, [], ◌∷◌,
  ◌++◌, length, length-drop, String, arith,
}
use rpenginext.Scene.{
  LoopLevel, calm, SceneInfo, SceneRecord, SceneOutcome, resolved, transitioned, Verdict,
  SceneControllerSlice, create_empty_scene_controller_slice, count_scene, slice_last, record_of,
  close_current_record, apply_record_turn, resolve_scene, continue_scene, begin_scene, report_on,
  report_when, apply_probe_report, SceneOp, record_turn, probe_report, apply_op, apply_ops,
}

-- Without a scene nothing is counted; a scene has had a beat, and no more stalls than beats.
abbrev pub IsCounted : Option SceneInfo → LoopLevel → ℕ → Type 0
IsCounted none loop stalls = (loop ≡ calm) × (stalls ≡ 0)
IsCounted (some c) loop stalls = (1 ≤ c.beat) × (stalls ≤ c.beat)

pub record IsCoherent (cap : ℕ) (s : SceneControllerSlice) : Type 0 where
  pub log : length s.history ≤ cap
  -- each resolved scene and the current one were begun
  pub begun : s.counters.resolved_scenes + count_scene s.current ≤ s.counters.scenes
  -- a probe begins a scene or resolves one, or neither
  pub probed : s.counters.scenes + s.counters.resolved_scenes ≤ s.counters.probes
  pub clock : s.high_progress_beats ≤ s.counters.probes
  pub counted : IsCounted s.current s.loop_level s.consecutive_stalls

count_scene-le : (c : Option SceneInfo) → count_scene c ≤ 1
count_scene-le none = omega arith
count_scene-le (some c) = omega arith

length-slice_last :
    {A : Type 0} (cap : ℕ) (xs : List A) → 1 ≤ cap → length (slice_last cap xs) ≤ cap
length-slice_last zero xs h = absurd (omega arith)
length-slice_last (suc n) xs h = omega (arith, length-drop (length xs - suc n) xs)

length-close :
    (current : Option SceneInfo) (history : List SceneRecord) (o : SceneOutcome) (turn : String)
    (cap : ℕ)
    → 1 ≤ cap
    → length history ≤ cap
    → length (close_current_record current history o turn cap) ≤ cap
unfolding close_current_record
length-close none history o turn cap p h = h
length-close (some c) history o turn cap p h =
    length-slice_last cap (history ++ record_of c o turn ∷ []) p

module _ (cut : String → String) (cap saturated : ℕ) (positive : 1 ≤ cap) where
  begin-IsCoherent :
      (v : Verdict) (turn : String) (s : SceneControllerSlice)
      → IsCoherent cap s
      → IsCoherent cap (begin_scene cut v turn cap saturated s)
  unfolding begin_scene
  begin-IsCoherent v turn s h = record {
    log = length-close s.current s.history transitioned turn cap positive h.log;
    begun = omega (arith, h.begun);
    probed = omega (arith, h.probed);
    clock = ground (arith, h.clock);
    counted = (omega arith, ground arith);
  }

  continue-IsCoherent :
      (v : Verdict) (turn : String) (c : SceneInfo) (s : SceneControllerSlice)
      → s.current ≡ some c
      → IsCoherent cap s
      → IsCounted (some c) s.loop_level s.consecutive_stalls
      → IsCoherent cap (continue_scene cut v turn cap saturated c s)
  unfolding continue_scene
  continue-IsCoherent v turn c s e h k = record {
    log = h.log;
    begun = rw e at (h.begun);
    probed = omega (arith, h.probed);
    clock = ground (arith, h.clock);
    counted = (omega arith, ground (arith, k.1));
  }

  report-IsCoherent :
      (v : Verdict) (turn : String) (current : Option SceneInfo) (same : Bool)
      (s : SceneControllerSlice)
      → s.current ≡ current
      → IsCoherent cap s
      → IsCounted current s.loop_level s.consecutive_stalls
      → IsCoherent cap (report_on cut v turn cap saturated current same s)
  unfolding report_on
  report-IsCoherent v turn (some c) true s e h k = continue-IsCoherent v turn c s e h k
  report-IsCoherent v turn (some c) false s e h k = begin-IsCoherent v turn s h
  report-IsCoherent v turn none same s e h k = begin-IsCoherent v turn s h

  resolve-IsCoherent :
      (v : Verdict) (turn : String) (s : SceneControllerSlice)
      → IsCoherent cap s
      → IsCoherent cap (resolve_scene cut v turn cap saturated s)
  unfolding resolve_scene
  resolve-IsCoherent v turn s h = record {
    log = length-close s.current s.history resolved turn cap positive h.log;
    begun = omega (arith, h.begun);
    probed = omega (arith, h.probed, count_scene-le s.current);
    clock = omega arith;
    counted = (refl, refl);
  }

  probe-IsCoherent :
      (v : Verdict) (turn : String) (resolves : Bool) (s : SceneControllerSlice)
      → IsCoherent cap s
      → IsCoherent cap (report_when cut v turn cap saturated resolves s)
  unfolding report_when
  probe-IsCoherent v turn true s h = resolve-IsCoherent v turn s h
  probe-IsCoherent v turn false s h =
      report-IsCoherent v turn s.current v.same_scene s refl h h.counted

  apply_op-IsCoherent :
      (o : SceneOp) (s : SceneControllerSlice)
      → IsCoherent cap s
      → IsCoherent cap (apply_op cut cap saturated o s)
  unfolding apply_op apply_record_turn apply_probe_report
  apply_op-IsCoherent (record_turn turn) s h = record {
    log = h.log;
    begun = h.begun;
    probed = h.probed;
    clock = h.clock;
    counted = h.counted;
  }
  apply_op-IsCoherent (probe_report v turn) s h = probe-IsCoherent v turn v.resolved s h

  apply_ops-from :
      (os : List SceneOp) (s : SceneControllerSlice)
      → IsCoherent cap s
      → IsCoherent cap (apply_ops cut cap saturated os s)
  unfolding apply_ops
  apply_ops-from [] s h = h
  apply_ops-from (o ∷ os) s h =
      apply_ops-from os (apply_op cut cap saturated o s) (apply_op-IsCoherent o s h)

-- Whatever operations come, from an empty slice and with a positive cap: the log keeps the cap, the
-- scenes that were resolved and the current one are at most the scenes begun, a probe begins a scene
-- or resolves one or neither, the progress clock counts at most the probes, and stalls are counted
-- only within a scene, at most one a beat.
pub apply_ops-IsCoherent :
    (cut : String → String) (cap saturated : ℕ) (os : List SceneOp)
    → 1 ≤ cap
    → IsCoherent cap (apply_ops cut cap saturated os create_empty_scene_controller_slice)
apply_ops-IsCoherent cut cap saturated os positive =
    apply_ops-from cut cap saturated positive os create_empty_scene_controller_slice (record {
      log = omega arith;
      begun = omega arith;
      probed = omega arith;
      clock = omega arith;
      counted = (refl, refl);
    })
