-- ===== src/Scene/Closed.antt =====
-- The capped log of closed scenes of packages/modules/scene-controller/src/transitions.ts against a log
-- without a cap.
use rpenginext.Common.{
  ℕ, zero, suc, ◌+◌, ◌-◌, ◌≤◌, ◌≡◌, refl, sym, ◌∙◌, ap, Bool, true, false, Option, none, some, List,
  [], ◌∷◌, ◌++◌, length, length-append, length-drop, drop, String, arith,
}
use rpenginext.Scene.{
  SceneInfo, SceneRecord, SceneOutcome, resolved, transitioned, Verdict, SceneControllerSlice,
  create_empty_scene_controller_slice, slice_last, record_of, close_current_record,
  apply_record_turn, resolve_scene, continue_scene, begin_scene, report_on, report_when,
  apply_probe_report, SceneOp, record_turn, probe_report, apply_op, apply_ops,
}

drop_zero {ℓ} : {A : Type ℓ} (k : ℕ) → drop {A = A} k [] ≡ []
drop_zero zero = refl
drop_zero (suc k) = refl

drop-append {ℓ} :
    {A : Type ℓ} (k : ℕ) (xs ys : List A) → k ≤ length xs → drop k xs ++ ys ≡ drop k (xs ++ ys)
drop-append zero xs ys h = refl
drop-append (suc k) [] ys h = absurd (omega arith)
drop-append (suc k) (x ∷ xs) ys h = drop-append k xs ys (omega arith)

drop-drop {ℓ} : {A : Type ℓ} (a b : ℕ) (xs : List A) → drop a (drop b xs) ≡ drop (b + a) xs
drop-drop a zero xs = ap (λ n. drop n xs) (omega arith)
drop-drop a (suc b) [] = drop_zero a ∙ sym (drop_zero (suc b + a))
drop-drop a (suc b) (x ∷ xs) =
    drop-drop a b xs
    ∙ ap (λ n. drop n (x ∷ xs)) (let e : suc (b + a) ≡ suc b + a = omega arith in e)

slice_last-append :
    {A : Type 0} (cap : ℕ) (xs : List A) (x : A)
    → slice_last cap (slice_last cap xs ++ x ∷ []) ≡ slice_last cap (xs ++ x ∷ [])
slice_last-append zero xs x = refl
slice_last-append (suc n) xs x =
    let d = length xs - suc n in
    let whole = drop-append d xs (x ∷ []) (omega arith) in
    let e = length (drop d xs ++ x ∷ []) - suc n in
    ap (drop e) whole
    ∙ (drop-drop e d (xs ++ x ∷ [])
        ∙ ap (λ k. drop k (xs ++ x ∷ []))
            (omega (
              arith,
              length-append (drop d xs) (x ∷ []),
              length-append xs (x ∷ []),
              length-drop d xs,
            )))

abbrev pub capped : ℕ → SceneControllerSlice → SceneControllerSlice
capped cap s = record s { history = slice_last cap s.history }

close-slice_last :
    (current : Option SceneInfo) (history : List SceneRecord) (o : SceneOutcome) (turn : String)
    (cap : ℕ)
    → close_current_record current (slice_last cap history) o turn cap
      ≡ slice_last cap (close_current_record current history o turn 0)
unfolding close_current_record
close-slice_last none history o turn cap = refl
close-slice_last (some c) history o turn cap = slice_last-append cap history (record_of c o turn)

module _ (cut : String → String) (cap saturated : ℕ) where
  begin-capped :
      (v : Verdict) (turn : String) (s : SceneControllerSlice)
      → begin_scene cut v turn cap saturated (capped cap s)
        ≡ capped cap (begin_scene cut v turn 0 saturated s)
  unfolding begin_scene
  begin-capped v turn s i = record (begin_scene cut v turn 0 saturated s) {
    history = close-slice_last s.current s.history transitioned turn cap i;
  }

  report-capped :
      (v : Verdict) (turn : String) (current : Option SceneInfo) (same : Bool)
      (s : SceneControllerSlice)
      → report_on cut v turn cap saturated current same (capped cap s)
        ≡ capped cap (report_on cut v turn 0 saturated current same s)
  unfolding report_on continue_scene
  report-capped v turn (some c) true s = refl
  report-capped v turn (some c) false s = begin-capped v turn s
  report-capped v turn none same s = begin-capped v turn s

  probe-capped :
      (v : Verdict) (turn : String) (resolves : Bool) (s : SceneControllerSlice)
      → report_when cut v turn cap saturated resolves (capped cap s)
        ≡ capped cap (report_when cut v turn 0 saturated resolves s)
  unfolding report_when resolve_scene
  probe-capped v turn true s = λ i. record (resolve_scene cut v turn 0 saturated s) {
    history = close-slice_last s.current s.history resolved turn cap i;
  }
  probe-capped v turn false s = report-capped v turn s.current v.same_scene s

  apply_op-capped :
      (o : SceneOp) (s : SceneControllerSlice)
      → apply_op cut cap saturated o (capped cap s) ≡ capped cap (apply_op cut 0 saturated o s)
  unfolding apply_op apply_record_turn apply_probe_report
  apply_op-capped (record_turn turn) s = refl
  apply_op-capped (probe_report v turn) s = probe-capped v turn v.resolved s

  apply_ops-from :
      (os : List SceneOp) (s : SceneControllerSlice)
      → apply_ops cut cap saturated os (capped cap s) ≡ capped cap (apply_ops cut 0 saturated os s)
  unfolding apply_ops
  apply_ops-from [] s = refl
  apply_ops-from (o ∷ os) s =
      ap (apply_ops cut cap saturated os) (apply_op-capped o s)
      ∙ apply_ops-from os (apply_op cut 0 saturated o s)

slice_last_nil : {A : Type 0} (cap : ℕ) → slice_last {A = A} cap [] ≡ []
slice_last_nil zero = refl
slice_last_nil (suc n) = drop_zero (0 - suc n)

-- From an empty slice, the log of closed scenes is the last `cap` entries of the log without a cap
-- (which a cap of 0 gives), and all else is the same, whatever operations come.
pub apply_ops-capped :
    (cut : String → String) (cap saturated : ℕ) (os : List SceneOp)
    → apply_ops cut cap saturated os create_empty_scene_controller_slice
      ≡ capped cap (apply_ops cut 0 saturated os create_empty_scene_controller_slice)
apply_ops-capped cut cap saturated os =
    ap (apply_ops cut cap saturated os) (
      sym (
        ap (λ l. record create_empty_scene_controller_slice { history = l })
          (slice_last_nil {A = SceneRecord} cap)))
    ∙ apply_ops-from cut cap saturated os create_empty_scene_controller_slice
