-- ===== src/Migrations/Tests.antt =====
-- The migration of a loaded state at a concrete input.
use rpenginext.Common.{ℕ, ◌≡◌, refl, none, some, [], ◌∷◌}
use rpenginext.Contracts.{num, pos, end, field, ok, WorldState, success}
use rpenginext.Migrations.{
  SliceDefinition, MigrationDefinition, migrate_step, migrate_loop, finish_slice, migrate_slice,
  migrate_slices, apply_slice_migrations,
}
use rpenginext.Migrations.Laws.{MigratesState, apply_slice_migrations-MigratesState}
use rpenginext.Samples.{origin}

abbrev notes : SliceDefinition
notes = record {
  name = "notes";
  schema_version = 3;
  safe_parse = λ p. success p;
  initial_value = none;
}

abbrev step : ℕ → ℕ → MigrationDefinition
step from to = record { slice = "notes"; from_version = from; to_version = to; migrate = λ o. ok o }

abbrev loaded : WorldState
loaded = record (origin) { slices = ("notes", end) ∷ [] }

notes-version :
    apply_slice_migrations loaded (("notes", notes) ∷ []) (step 2 3 ∷ step 1 2 ∷ [])
    ≡ some (ok (record loaded { slices = ("notes", field "schemaVersion" (num (pos 3)) end) ∷ [] }))
unfolding apply_slice_migrations migrate_slices migrate_slice migrate_loop migrate_step finish_slice
notes-version = refl

apply_slice_migrations-MigratesState_example :
    MigratesState
      (("notes", notes) ∷ [])
      loaded
      (apply_slice_migrations loaded (("notes", notes) ∷ []) (step 2 3 ∷ step 1 2 ∷ []))
apply_slice_migrations-MigratesState_example =
    apply_slice_migrations-MigratesState loaded (("notes", notes) ∷ []) (step 2 3 ∷ step 1 2 ∷ [])
      (refl, tt)
