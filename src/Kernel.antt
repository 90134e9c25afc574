-- ===== src/Kernel.antt =====
-- packages/core/src/state/state-kernel.ts: the owner of the authoritative world state, with its
-- draft. A method returns its result and the kernel's new state. The catalog of commands is a
-- `Map` in insertion order. A handler that throws instead of returning an error is not modelled.
pub mod DryApply
pub mod Atomic
pub mod Reach
mod Tests
use Prim.Native.String.{◌++◌}
use rpenginext.Common.{
  ℕ, suc, ◌≡◌, refl, Bool, true, false, Option, none, some, List, [], ◌∷◌, String, ◌==◌, Dict,
  lookup, has_key, insert, keys, any, is_some, if◌then◌else◌,
}
use mathlib.Core.List
use rpenginext.Contracts.{
  JsonValue, JsonItems, nil, cons, JsonObject, obj, str, arr, end, field, spread, show, Result, ok,
  err, Failure, failure, failure_details, or_text, ◌>>=◌, ◌>>◌, map_error, ⊤, WorldState,
  StateCommand, CommandDefinition, InvariantDefinition, Parsed, success, issues,
}

pub record StateKernel : Type 0 where
  pub authoritative : WorldState
  pub draft : Option WorldState
  pub open_turn_id : Option String
  pub commands : Dict CommandDefinition
  pub invariants : List InvariantDefinition

pub record CommandApplyRecord : Type 0 where
  pub command : StateCommand
  pub accepted : Bool
  pub reason : Option String

pub record DryApplyResult : Type 0 where
  pub draft : WorldState
  pub records : List CommandApplyRecord
  pub accepted_commands : List StateCommand

-- `new StateKernel(initial)`
abbrev pub new_kernel : WorldState → StateKernel
new_kernel initial = record {
  authoritative = initial;
  draft = none;
  open_turn_id = none;
  commands = [];
  invariants = [];
}

unfoldable pub register_command : CommandDefinition → StateKernel → Result ⊤ × StateKernel
register_command def k =
    if has_key def.type k.commands
    then (err (failure "REGISTRATION_INVALID" ("duplicate command type: " ++ def.type)), k)
    else (ok tt, record k { commands = insert def.type def k.commands })

unfoldable pub register_invariant : InvariantDefinition → StateKernel → Result ⊤ × StateKernel
register_invariant def k =
    if any (λ i. i.id == def.id) k.invariants
    then (err (failure "REGISTRATION_INVALID" ("duplicate invariant id: " ++ def.id)), k)
    else (ok tt, record k { invariants = List.◌++◌ k.invariants (def ∷ []) })

unfoldable pub get_command : String → StateKernel → Option CommandDefinition
get_command type k = lookup type k.commands

unfoldable pub get_authoritative : StateKernel → WorldState
get_authoritative k = k.authoritative

-- `none` is the error that is thrown while a draft is open.
unfoldable pub replace_authoritative : WorldState → StateKernel → Option StateKernel
replace_authoritative state k =
    if is_some k.draft then none else some (record k { authoritative = state })

abbrev pub open_turn : Option String → JsonObject
open_turn none = field "openTurnId" JsonValue.null end
open_turn (some id) = field "openTurnId" (str id) end

unfoldable pub begin_turn_on :
    Option WorldState → String → StateKernel → Result WorldState × StateKernel
begin_turn_on (some d) turn_id k = (
  err (
      failure_details "INTERNAL" "turn draft already open" (some (obj (open_turn k.open_turn_id)))),
  k,
)
begin_turn_on none turn_id k =
    (ok k.authoritative, record k { open_turn_id = some turn_id; draft = some k.authoritative })

unfoldable pub begin_turn : String → StateKernel → Result WorldState × StateKernel
unfolding begin_turn_on
begin_turn turn_id k = begin_turn_on k.draft turn_id k

unfoldable pub get_draft_view : StateKernel → WorldState
get_draft_view k = elim k.draft [ some d ↦ d | none ↦ k.authoritative ]

-- packages/core/src/state/core-commands.ts, `validateCommandPayload`
unfoldable pub validate_command_payload : CommandDefinition → StateCommand → Result ⊤
validate_command_payload def command = elim (def.safe_parse command.payload) [
  | success p ↦ ok tt
  | issues flat ↦
      err (failure_details "COMMAND_INVALID" ("invalid payload for " ++ command.type) (some flat))
]

-- A handler's failure is passed on with the fall-back code.
abbrev pub rewrap : Failure → Failure
rewrap e = record e { code = or_text e.code "COMMAND_INVALID" }

unfoldable pub run_validate :
    Option (WorldState → StateCommand → Result ⊤) → WorldState → StateCommand → Result ⊤
run_validate none working command = ok tt
run_validate (some validate) working command = map_error rewrap (validate working command)

abbrev mismatch : StateCommand → CommandDefinition → Failure
mismatch command def = failure "COMMAND_INVALID" (
    "command "
    ++ (command.type
        ++ (" targets slice \""
            ++ (command.slice ++ ("\" but is registered for \"" ++ (def.slice ++ "\""))))))

-- The body of the loop of `dryApply`, for one command and what the catalog has under its type.
unfoldable pub apply_found :
    Option CommandDefinition → WorldState → StateCommand → Result WorldState
apply_found none working command = err (
    failure_details "COMMAND_INVALID" ("unregistered command type: " ++ command.type)
      (some (obj (field "commandId" (str command.command_id) end))))
apply_found (some def) working command =
    if def.slice == command.slice
    then validate_command_payload def command
      >> run_validate def.validate working command
      >> map_error rewrap (def.apply working command)
    else err (mismatch command def)

unfoldable pub apply_command :
    Dict CommandDefinition → WorldState → StateCommand → Result WorldState
apply_command commands working command = apply_found (lookup command.type commands) working command

-- The loop of `dryApply` over its variables `working`, `records` and `accepted`.
unfoldable pub apply_commands :
    Dict CommandDefinition → List StateCommand → DryApplyResult → Result DryApplyResult
apply_commands commands [] acc = ok acc
apply_commands commands (command ∷ rest) acc = do
  working ← apply_command commands acc.draft command
  apply_commands commands rest (record {
    draft = working;
    records =
        List.◌++◌ acc.records (record { command = command; accepted = true; reason = none } ∷ []);
    accepted_commands = List.◌++◌ acc.accepted_commands (command ∷ []);
  })

abbrev pub items_object : ℕ → JsonItems → JsonObject
items_object i nil = end
items_object i (cons v vs) = field (show i) v (items_object (suc i) vs)

-- `{ invariantId, ...details }` where the details are an object or an array, which is spread by its
-- indices; else `{ invariantId, cause }`.
abbrev pub invariant_details : String → Option JsonValue → JsonObject
invariant_details id (some (obj o)) = spread (field "invariantId" (str id) end) o
invariant_details id (some (arr vs)) = spread (field "invariantId" (str id) end) (items_object 0 vs)
invariant_details id (some v) = field "invariantId" (str id) (field "cause" v end)
invariant_details id none = field "invariantId" (str id) end

abbrev pub invariant_failure : String → Failure → Failure
invariant_failure id e =
    failure_details (or_text e.code "INVARIANT_FAILED") e.message
      (some (obj (invariant_details id e.details)))

unfoldable pub check_invariants : List InvariantDefinition → WorldState → Result ⊤
check_invariants [] working = ok tt
check_invariants (i ∷ rest) working =
    map_error (invariant_failure i.id) (i.check working) >> check_invariants rest working

-- What `dryApply` computes from the draft, before it writes.
unfoldable pub dry_run :
    Dict CommandDefinition
    → List InvariantDefinition
    → WorldState
    → List StateCommand
    → Result DryApplyResult
dry_run commands invariants d cs = do
  r ← apply_commands commands cs (record { draft = d; records = []; accepted_commands = [] })
  check_invariants invariants r.draft
  ok r

-- `this.draft` is written only when the run succeeded.
unfoldable pub store_run : Result DryApplyResult → StateKernel → Result DryApplyResult × StateKernel
store_run (ok r) k = (ok r, record k { draft = some r.draft })
store_run (err e) k = (err e, k)

unfoldable pub dry_apply_on :
    Option WorldState → List StateCommand → StateKernel → Result DryApplyResult × StateKernel
dry_apply_on none cs k = (err (failure "INTERNAL" "no open turn draft for dry-apply"), k)
dry_apply_on (some d) cs k = store_run (dry_run k.commands k.invariants d cs) k

unfoldable pub dry_apply : List StateCommand → StateKernel → Result DryApplyResult × StateKernel
dry_apply cs k = dry_apply_on k.draft cs k

unfoldable pub commit_on : Option WorldState → StateKernel → Result WorldState × StateKernel
commit_on none k = (err (failure "INTERNAL" "no open turn draft to commit"), k)
commit_on (some d) k = (ok d, record k { authoritative = d; draft = none; open_turn_id = none })

unfoldable pub commit : StateKernel → Result WorldState × StateKernel
unfolding commit_on
commit k = commit_on k.draft k

unfoldable pub discard : StateKernel → StateKernel
discard k = record k { draft = none; open_turn_id = none }

unfoldable pub has_open_draft : StateKernel → Bool
has_open_draft k = is_some k.draft
