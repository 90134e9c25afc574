-- ===== src/Kernel/DryApply.antt =====
-- packages/core/src/state/state-kernel.ts, `dryApply`: what it computes from a draft.
use rpenginext.Common.{
  lookup, ◌==◌, eq_iff, Bool-cases, ◌≡◌, refl, true, Option, none, some, List, [], ◌∷◌, ◌++◌, map,
  append-nil, append_assoc, Dict, arith, inl, inr, ap, ◌∙◌,
}
use rpenginext.Contracts.{
  Result, ok, err, ◌>>=◌, ◌>>◌, map_result, Result-cases, >>=-ok, WorldState, StateCommand,
  CommandDefinition, InvariantDefinition, map_error, Failure,
}
use rpenginext.Kernel.{
  CommandApplyRecord, DryApplyResult, validate_command_payload, run_validate, rewrap, apply_found,
  apply_command, apply_commands, check_invariants, dry_run,
}

-- The commands in their order, each on the state that the one before it left.
unfoldable pub run_all : Dict CommandDefinition → List StateCommand → WorldState → Result WorldState
run_all commands [] w = ok w
run_all commands (c ∷ cs) w = apply_command commands w c >>= run_all commands cs

abbrev pub accept : StateCommand → CommandApplyRecord
accept c = record { command = c; accepted = true; reason = none }

abbrev outcome : DryApplyResult → List StateCommand → WorldState → DryApplyResult
outcome acc cs w = record {
  draft = w;
  records = acc.records ++ map accept cs;
  accepted_commands = acc.accepted_commands ++ cs;
}

abbrev push : StateCommand → WorldState → DryApplyResult → DryApplyResult
push c w acc = record {
  draft = w;
  records = acc.records ++ accept c ∷ [];
  accepted_commands = acc.accepted_commands ++ c ∷ [];
}

outcome-push :
    (acc : DryApplyResult) (c : StateCommand) (cs : List StateCommand) (w : WorldState)
    → outcome (push c w acc) cs ≡ outcome acc (c ∷ cs)
outcome-push acc c cs w = λ i v. record {
  draft = v;
  records = append_assoc acc.records (accept c ∷ []) (map accept cs) i;
  accepted_commands = append_assoc acc.accepted_commands (c ∷ []) cs i;
}

apply_commands-eq-run_all :
    (commands : Dict CommandDefinition) (cs : List StateCommand) (acc : DryApplyResult)
    → apply_commands commands cs acc ≡ map_result (run_all commands cs acc.draft) (outcome acc cs)
unfolding apply_commands run_all
apply_commands-eq-run_all commands [] acc = simp append-nil
apply_commands-eq-run_all commands (c ∷ cs) acc =
    elim (Result-cases (apply_command commands acc.draft c)) [
      | inl (w, e) ↦ rw e (
          apply_commands-eq-run_all commands cs (push c w acc)
          ∙ ap (map_result (run_all commands cs w)) (outcome-push acc c cs w))
      | inr (f, e) ↦ rw e refl
    ]

pub run_all-append :
    (commands : Dict CommandDefinition) (cs ds : List StateCommand) (w : WorldState)
    → run_all commands (cs ++ ds) w ≡ (run_all commands cs w >>= run_all commands ds)
unfolding run_all
run_all-append commands [] ds w = refl
run_all-append commands (c ∷ cs) ds w = elim (Result-cases (apply_command commands w c)) [
  | inl (v, e) ↦ rw e (run_all-append commands cs ds v)
  | inr (f, e) ↦ rw e refl
]

-- The whole computation of `dryApply`: fold, then the invariants.
abbrev pub verdict : List StateCommand → WorldState → DryApplyResult
verdict cs w = record { draft = w; records = map accept cs; accepted_commands = cs }

pub dry_run_lem :
    (commands : Dict CommandDefinition) (invariants : List InvariantDefinition) (d : WorldState)
    (cs : List StateCommand)
    → dry_run commands invariants d cs
      ≡ (run_all commands cs d >>= λ w. check_invariants invariants w >> ok (verdict cs w))
unfolding dry_run
dry_run_lem commands invariants d cs =
    rw apply_commands-eq-run_all (elim (Result-cases (run_all commands cs d)) [
      | inl (w, e) ↦ rw e refl
      | inr (f, e) ↦ rw e refl
    ])

abbrev pub Passes : List InvariantDefinition → WorldState → Type 0
Passes invariants w = check_invariants invariants w ≡ ok tt

-- A successful dry run, in its parts.
abbrev pub Runs :
    Dict CommandDefinition
    → List InvariantDefinition
    → List StateCommand
    → WorldState
    → DryApplyResult
    → Type 0
Runs commands invariants cs d r =
    (run_all commands cs d ≡ ok r.draft) × Passes invariants r.draft × (r ≡ verdict cs r.draft)

pub dry_run-Runs :
    (commands : Dict CommandDefinition) (invariants : List InvariantDefinition) (d : WorldState)
    (cs : List StateCommand) {r : DryApplyResult}
    → dry_run commands invariants d cs ≡ ok r
    → Runs commands invariants cs d r
dry_run-Runs commands invariants d cs h =
    let (w, ran, rest) =
      >>=-ok (run_all commands cs d) (λ w. check_invariants invariants w >> ok (verdict cs w))
        (rw dry_run_lem at h) in
    let (u, passed, same) = >>=-ok (check_invariants invariants w) (λ _. ok (verdict cs w)) rest in
    ground arith

pub dry_run_of :
    (commands : Dict CommandDefinition) (invariants : List InvariantDefinition) (d w : WorldState)
    (cs : List StateCommand)
    → run_all commands cs d ≡ ok w
    → Passes invariants w
    → dry_run commands invariants d cs ≡ ok (verdict cs w)
dry_run_of commands invariants d w cs ran passed = rw (dry_run_lem, ran) (rw passed refl)

-- One draft, two batches: the second is computed on the draft that the first left.
pub run_all-append-ok :
    (commands : Dict CommandDefinition) (cs ds : List StateCommand) (u v w : WorldState)
    → run_all commands cs u ≡ ok v
    → run_all commands ds v ≡ ok w
    → run_all commands (cs ++ ds) u ≡ ok w
run_all-append-ok commands cs ds u v w h k = rw (run_all-append, h) k

-- A command that was applied: its definition is registered for its slice, accepts its payload, and
-- computed the new state.
abbrev pub Applied : Dict CommandDefinition → WorldState → StateCommand → WorldState → Type 0
Applied commands w c v =
    (def : CommandDefinition) × (lookup c.type commands ≡ some def)
    × (def.slice ≡ c.slice)
    × (validate_command_payload def c ≡ ok tt)
    × (run_validate def.validate w c ≡ ok tt)
    × (def.apply w c ≡ ok v)

map_error-eq-ok {ℓ} :
    {A : Type ℓ} (f : Failure → Failure) (r : Result A) {a : A} → map_error f r ≡ ok a → r ≡ ok a
map_error-eq-ok f (ok a) e = e
map_error-eq-ok f (err x) e = cc

apply_found-Applied :
    (commands : Dict CommandDefinition) (w v : WorldState) (c : StateCommand)
    (o : Option CommandDefinition)
    → lookup c.type commands ≡ o
    → apply_found o w c ≡ ok v
    → Applied commands w c v
unfolding apply_found
apply_found-Applied commands w v c none found e = absurd (ground arith)
apply_found-Applied commands w v c (some def) found e = elim (Bool-cases (def.slice == c.slice)) [
  | inl same ↦
      let (u, passed, ran) =
        >>=-ok (validate_command_payload def c >> run_validate def.validate w c)
          (λ _. map_error rewrap (def.apply w c)) (rw same at e) in
      let (u', parsed, custom) =
        >>=-ok (validate_command_payload def c) (λ _. run_validate def.validate w c) passed in
      (
        def,
        found,
        (eq_iff def.slice c.slice).0 same,
        parsed,
        custom,
        map_error-eq-ok rewrap (def.apply w c) ran,
      )
  | inr other ↦ absurd (ground arith)
]

pub apply_command-Applied :
    (commands : Dict CommandDefinition) (w v : WorldState) (c : StateCommand)
    → apply_command commands w c ≡ ok v
    → Applied commands w c v
unfolding apply_command
apply_command-Applied commands w v c e =
    apply_found-Applied commands w v c (lookup c.type commands) refl e
