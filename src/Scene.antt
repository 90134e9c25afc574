-- ===== src/Scene.antt =====
-- packages/modules/scene-controller/src/transitions.ts and schema.ts: the slice of the scene controller
-- and its operations. A progress is a natural number of parts; a label is cut to its length by the
-- caller's `cut`, the `trim().slice(0, MAX_LABEL_LENGTH)` of the text.
mod Types
pub mod Coherent
pub mod Closed
pub mod Guidance
pub mod Urged
mod Tests
unfoldable pub use Types.*
use mathlib.Core.List
use Prim.Native.String.{◌++◌}
use rpenginext.Common.{
  ℕ, zero, suc, ◌+◌, ◌-◌, ◌≤◌, Bool, true, false, Option, none, some, List, [], ◌∷◌, String, length,
  drop, ltb, leb, if◌then◌else◌,
}
use rpenginext.Contracts.{show}

abbrev pub create_empty_scene_controller_slice : SceneControllerSlice
create_empty_scene_controller_slice = record {
  current = none;
  loop_level = calm;
  consecutive_stalls = 0;
  high_progress_beats = 0;
  last_verdict = none;
  last_turn_id = none;
  history = [];
  counters = record { player_turns = 0; probes = 0; resolved_scenes = 0; scenes = 0 };
}

abbrev loop_rank : LoopLevel → ℕ
loop_rank calm = 0
loop_rank soft = 1
loop_rank hard = 2

abbrev pub max_loop_level : LoopLevel → LoopLevel → LoopLevel
max_loop_level a b = if ltb (loop_rank a) (loop_rank b) then b else a

abbrev pub next_high_progress_beats : ℕ → ℕ → ℕ → ℕ
next_high_progress_beats prev progress saturated = if leb saturated progress then prev + 1 else 0

-- `xs.slice(-cap)`: at 0 it is the whole list.
abbrev pub slice_last : {A : Type 0} → ℕ → List A → List A
slice_last zero xs = xs
slice_last (suc n) xs = drop (length xs - suc n) xs

abbrev pub push_history_record : List SceneRecord → SceneRecord → ℕ → List SceneRecord
push_history_record history r cap = slice_last cap (List.◌++◌ history (r ∷ []))

abbrev pub record_of : SceneInfo → SceneOutcome → String → SceneRecord
record_of current outcome turn = record {
  id = current.id;
  label = current.label;
  type = current.type;
  beats = current.beat;
  outcome = outcome;
  ended_at_turn_id = turn;
}

unfoldable pub close_current_record :
    Option SceneInfo → List SceneRecord → SceneOutcome → String → ℕ → List SceneRecord
close_current_record none history outcome turn cap = history
close_current_record (some current) history outcome turn cap =
    push_history_record history (record_of current outcome turn) cap

unfoldable pub apply_record_turn : SceneControllerSlice → String → SceneControllerSlice
apply_record_turn s turn = record s {
  last_turn_id = some turn;
  counters = record (s.counters) { player_turns = s.counters.player_turns + 1 };
}

abbrev pub count_scene : Option SceneInfo → ℕ
count_scene none = 0
count_scene (some c) = 1

abbrev pub or_text : Option String → String → String
or_text none other = other
or_text (some t) other = t

-- `String(scenes).padStart(3, "0")`
abbrev pad_three : ℕ → String
pad_three n = if ltb n 10 then "00" ++ show n else if ltb n 100 then "0" ++ show n else show n

module _ (cut : String → String) (verdict : Verdict) (turn : String) (cap saturated : ℕ) where
  abbrev cut_label : Option String → String
  cut_label none = ""
  cut_label (some t) = cut t

  unfoldable pub resolve_scene : SceneControllerSlice → SceneControllerSlice
  unfolding close_current_record
  resolve_scene s = record s {
    current = none;
    loop_level = calm;
    consecutive_stalls = 0;
    high_progress_beats = 0;
    last_verdict = some verdict;
    history = close_current_record s.current s.history resolved turn cap;
    counters = record (s.counters) {
      probes = s.counters.probes + 1;
      resolved_scenes = s.counters.resolved_scenes + count_scene s.current;
    };
  }

  unfoldable pub continue_scene : SceneInfo → SceneControllerSlice → SceneControllerSlice
  continue_scene current s = record s {
    current = some (record current {
      beat = current.beat + 1;
      last_confirm_turn_id = turn;
      last_progress = verdict.progress;
    });
    loop_level = max_loop_level s.loop_level verdict.loop;
    consecutive_stalls = if verdict.stall then s.consecutive_stalls + 1 else 0;
    high_progress_beats = next_high_progress_beats s.high_progress_beats verdict.progress saturated;
    last_verdict = some verdict;
    counters = record (s.counters) { probes = s.counters.probes + 1 };
  }

  unfoldable pub begin_scene : SceneControllerSlice → SceneControllerSlice
  unfolding close_current_record
  begin_scene s = record s {
    current = some (record {
      id = "scene-" ++ pad_three (s.counters.scenes + 1);
      label = cut_label verdict.label;
      type = or_text verdict.type "other";
      beat = 1;
      started_at_turn_id = turn;
      last_confirm_turn_id = turn;
      last_progress = verdict.progress;
    });
    loop_level = verdict.loop;
    consecutive_stalls = if verdict.stall then 1 else 0;
    high_progress_beats = next_high_progress_beats s.high_progress_beats verdict.progress saturated;
    last_verdict = some verdict;
    history = close_current_record s.current s.history transitioned turn cap;
    counters = record (s.counters) {
      probes = s.counters.probes + 1;
      scenes = s.counters.scenes + 1;
    };
  }

  -- The scene that goes on, if there is one and the verdict says so.
  unfoldable pub report_on : Option SceneInfo → Bool → SceneControllerSlice → SceneControllerSlice
  unfolding continue_scene begin_scene
  report_on (some current) true s = continue_scene current s
  report_on (some current) false s = begin_scene s
  report_on none same s = begin_scene s

  unfoldable pub report_when : Bool → SceneControllerSlice → SceneControllerSlice
  unfolding resolve_scene report_on
  report_when true s = resolve_scene s
  report_when false s = report_on s.current verdict.same_scene s

  unfoldable pub apply_probe_report : SceneControllerSlice → SceneControllerSlice
  unfolding report_when
  apply_probe_report s = report_when verdict.resolved s

-- The operations of the slice, with the configuration that the handler attaches.
pub data SceneOp : Type 0 where
  record_turn : String → SceneOp
  probe_report : Verdict → String → SceneOp

module _ (cut : String → String) (cap saturated : ℕ) where
  unfoldable pub apply_op : SceneOp → SceneControllerSlice → SceneControllerSlice
  unfolding apply_record_turn apply_probe_report
  apply_op (record_turn turn) s = apply_record_turn s turn
  apply_op (probe_report verdict turn) s = apply_probe_report cut verdict turn cap saturated s

  unfoldable pub apply_ops : List SceneOp → SceneControllerSlice → SceneControllerSlice
  unfolding apply_op
  apply_ops [] s = s
  apply_ops (o ∷ os) s = apply_ops os (apply_op o s)
