-- ===== src/Migrations.antt =====
-- packages/core/src/state/slice-migrations.ts: a loaded state is brought to the registered schema
-- versions. The `while` of a slice is recursion on fuel, the registered version; `none` is the fuel
-- at its end.
pub mod Laws
mod Tests
use Prim.Native.String.{◌++◌}
use rpenginext.Common.{
  ℕ, zero, suc, ◌≡◌, refl, Bool, true, false, ◌&&◌, Option, none, some, List, [], ◌∷◌, String, ◌==◌,
  Dict, lookup, insert, filter, ltb, leb, eqb, if◌then◌else◌,
}
use rpenginext.Contracts.{
  JsonValue, num, pos, str, JsonObject, end, field, obj, get_field, put_field, show, Result, ok,
  err, Failure, failure, failure_details, or_text, ◌>>=◌, map_error, WorldState, Parsed, success,
  issues,
}

pub record SliceDefinition : Type 0 where
  pub name : String
  pub schema_version : ℕ
  pub safe_parse : JsonObject → Parsed JsonObject
  pub initial_value : Option JsonObject

pub record MigrationDefinition : Type 0 where
  pub slice : String
  pub from_version : ℕ
  pub to_version : ℕ
  pub migrate : JsonObject → Result JsonObject

abbrev pub positive : Option JsonValue → Option ℕ
positive (some (num (pos (suc n)))) = some (suc n)
positive _ = none

abbrev pub read_schema_version : JsonObject → Option ℕ
read_schema_version slice = positive (get_field "schemaVersion" slice)

abbrev pub or_one : Option ℕ → ℕ
or_one none = 1
or_one (some v) = v

-- `readSchemaVersion(current) ?? 1`
abbrev pub version_of : JsonObject → ℕ
version_of slice = or_one (read_schema_version slice)

-- The first of the least target versions: the sort is stable.
abbrev pub least : List MigrationDefinition → Option MigrationDefinition
least [] = none
least (m ∷ ms) = elim (least ms) [
  | none ↦ some m
  | some best ↦ if leb m.to_version best.to_version then some m else some best
]

abbrev pub next_step : List MigrationDefinition → String → ℕ → Option MigrationDefinition
next_step migrations name version =
    least (filter (λ m. (m.slice == name) && eqb m.from_version version) migrations)

abbrev version_details : String → ℕ → Option JsonValue
version_details name version =
    some (obj (field "slice" (str name) (field "fromVersion" (num (pos version)) end)))

abbrev missing_step : String → ℕ → ℕ → Failure
missing_step name version target =
    failure_details "MODULE_SLICE_UNMIGRATABLE"
      ("slice \""
        ++ (name
            ++ ("\" at schemaVersion "
                ++ (show version
                    ++ (" cannot be migrated to v"
                        ++ (show target
                            ++ " (missing migration step). Hint: register state.migrations for each version gap or keep schemaVersion stable."))))))
      (version_details name version)

abbrev backward_step : String → ℕ → ℕ → Failure
backward_step name version to =
    failure_details "MODULE_SLICE_UNMIGRATABLE"
      ("non-forward migration for slice \""
        ++ (name
            ++ ("\" v"
                ++ (show version
                    ++ (" → v" ++ (show to ++ ". Hint: migrations must move forward only."))))))
      (version_details name version)

abbrev migration_failed : String → Failure → Failure
migration_failed name e = record e {
  code = or_text e.code "INTERNAL";
  message = or_text e.message ("migration failed for slice " ++ name);
}

-- The body of the `while`: the next version and its payload.
unfoldable pub migrate_step :
    Option MigrationDefinition → String → ℕ → ℕ → JsonObject → Result (ℕ × JsonObject)
migrate_step none name target version payload = err (missing_step name version target)
migrate_step (some step) name target version payload =
    if leb step.to_version version
    then err (backward_step name version step.to_version)
    else map_error (migration_failed name) (step.migrate payload) >>= λ next.
        ok (step.to_version, put_field "schemaVersion" (num (pos step.to_version)) next)

abbrev pub continue_with :
    Result (ℕ × JsonObject)
    → (ℕ → JsonObject → Option (Result (ℕ × JsonObject)))
    → Option (Result (ℕ × JsonObject))
continue_with (ok (version, payload)) rest = rest version payload
continue_with (err e) rest = some (err e)

unfoldable pub migrate_loop :
    ℕ → List MigrationDefinition → String → ℕ → ℕ → JsonObject → Option (Result (ℕ × JsonObject))
migrate_loop zero migrations name target version payload =
    if ltb version target then none else some (ok (version, payload))
migrate_loop (suc fuel) migrations name target version payload =
    let rest =
      continue_with (migrate_step (next_step migrations name version) name target version payload)
        (migrate_loop fuel migrations name target) in
    if ltb version target then rest else some (ok (version, payload))

abbrev ended_at : String → ℕ → ℕ → Failure
ended_at name version target = failure "INTERNAL" (
    "slice \""
    ++ (name ++ ("\" ended at schemaVersion " ++ (show version ++ (", expected " ++ show target)))))

abbrev pub parse_by_schema : Parsed JsonObject → String → Result JsonObject
parse_by_schema (success parsed) name = ok parsed
parse_by_schema (issues flat) name = err (
    failure_details "SCHEMA_INVALID" ("slice \"" ++ (name ++ "\" failed schema after migration"))
      (some flat))

abbrev pub parse_slice : SliceDefinition → String → JsonObject → Result JsonObject
parse_slice def name payload = parse_by_schema (def.safe_parse payload) name

-- The check of the version after the loop, and the schema.
unfoldable pub finish_slice : SliceDefinition → String → ℕ × JsonObject → Result JsonObject
finish_slice def name (version, payload) =
    if eqb version def.schema_version
    then parse_slice def name payload
    else err (ended_at name version def.schema_version)

abbrev pub finish :
    SliceDefinition → String → Option (Result (ℕ × JsonObject)) → Option (Result JsonObject)
finish def name none = none
finish def name (some r) = some (r >>= finish_slice def name)

abbrev pub initial : Option JsonObject → JsonObject
initial none = end
initial (some o) = o

-- One slice: what stands under its name, or its initial value.
unfoldable pub migrate_slice :
    List MigrationDefinition
    → SliceDefinition
    → String
    → Option JsonObject
    → Option (Result JsonObject)
unfolding migrate_loop finish_slice
migrate_slice migrations def name none = some (ok (initial def.initial_value))
migrate_slice migrations def name (some current) = finish def name (
    migrate_loop def.schema_version migrations name def.schema_version (version_of current) current)

abbrev pub and_then :
    Option (Result JsonObject)
    → (JsonObject → Option (Result (Dict JsonObject)))
    → Option (Result (Dict JsonObject))
and_then none rest = none
and_then (some (err e)) rest = some (err e)
and_then (some (ok o)) rest = rest o

unfoldable pub migrate_slices :
    Dict SliceDefinition
    → List MigrationDefinition
    → Dict JsonObject
    → Option (Result (Dict JsonObject))
unfolding migrate_slice
migrate_slices [] migrations next = some (ok next)
migrate_slices ((name, def) ∷ slices) migrations next =
    and_then (migrate_slice migrations def name (lookup name next))
      λ o. migrate_slices slices migrations (insert name o next)

abbrev pub with_slices : WorldState → Option (Result (Dict JsonObject)) → Option (Result WorldState)
with_slices state none = none
with_slices state (some (err e)) = some (err e)
with_slices state (some (ok next)) = some (ok (record state { slices = next }))

unfoldable pub apply_slice_migrations :
    WorldState → Dict SliceDefinition → List MigrationDefinition → Option (Result WorldState)
unfolding migrate_slices
apply_slice_migrations state slices migrations =
    with_slices state (migrate_slices slices migrations state.slices)
