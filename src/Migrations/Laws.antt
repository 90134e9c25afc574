-- ===== src/Migrations/Laws.antt =====
-- What `applySliceMigrations` of packages/core/src/state/slice-migrations.ts comes to.
use rpenginext.Common.{
  ℕ, zero, suc, ◌+◌, ◌≤◌, ◌<◌, ◌≡◌, refl, sym, subst, ◌∙◌, ap, Option, none, some, List, [], ◌∷◌,
  String, ◌==◌, eq_iff, eq_refl, Dict, lookup, insert, lookup-insert, IsDistinct, ltb, leb, eqb,
  eqb_iff, leb_iff, Bool-cases, inl, inr, arith,
}
use rpenginext.Contracts.{
  num, pos, JsonObject, put_field, get_field-put_field, Result, ok, err, ◌>>=◌, WorldState, Parsed,
  success, issues,
}
use rpenginext.Migrations.{
  SliceDefinition, MigrationDefinition, positive, or_one, version_of, next_step, migrate_step,
  continue_with, migrate_loop, parse_by_schema, finish_slice, finish, initial, migrate_slice,
  and_then, migrate_slices, with_slices, apply_slice_migrations,
}

-- A step that succeeds goes forward, and its payload says to which version.
abbrev Advances : ℕ → Result (ℕ × JsonObject) → Type 0
Advances version (err e) = Unit
Advances version (ok (next, payload)) = (version < next) × (version_of payload ≡ next)

stamped :
    (version to : ℕ) (r : Result JsonObject)
    → version < to
    → Advances version (r >>= λ next. ok (to, put_field "schemaVersion" (num (pos to)) next))
stamped version zero r h = absurd (omega (arith, h))
stamped version (suc to) (err e) h = tt
stamped version (suc to) (ok next) h = (
  h,
  ap (λ f. or_one (positive f))
      (get_field-put_field "schemaVersion" "schemaVersion" (num (pos (suc to))) next),
)

migrate_step-Advances :
    (step : Option MigrationDefinition) (name : String) (target version : ℕ) (payload : JsonObject)
    → Advances version (migrate_step step name target version payload)
unfolding migrate_step
migrate_step-Advances none name target version payload = tt
migrate_step-Advances (some step) name target version payload =
    elim (Bool-cases (leb step.to_version version)) [
      | inl back ↦ rw back tt
      | inr on ↦
          rw on
            (stamped version step.to_version _ (ground (arith, leb_iff step.to_version version)))
    ]

-- The loop ended, and a success ended at a version that is not below the target.
abbrev Arrives : ℕ → Option (Result (ℕ × JsonObject)) → Type 0
Arrives target none = ⊥
Arrives target (some (err e)) = Unit
Arrives target (some (ok (version, payload))) = (target ≤ version) × (version_of payload ≡ version)

module _ (migrations : List MigrationDefinition) (name : String) (target : ℕ) where
  continued :
      (fuel version : ℕ) (r : Result (ℕ × JsonObject))
      → Advances version r
      → target ≤ version + suc fuel
      → ((next : ℕ) (payload : JsonObject)
          → version_of payload ≡ next
          → target ≤ next + fuel
          → Arrives target (migrate_loop fuel migrations name target next payload))
      → Arrives target (continue_with r (migrate_loop fuel migrations name target))
  continued fuel version (err e) h enough later = tt
  continued fuel version (ok (next, payload)) h enough later =
      later next payload h.1 (omega (arith, h.0, enough))

  migrate_loop-Arrives :
      (fuel version : ℕ) (payload : JsonObject)
      → version_of payload ≡ version
      → target ≤ version + fuel
      → Arrives target (migrate_loop fuel migrations name target version payload)
  unfolding migrate_loop
  migrate_loop-Arrives zero version payload h enough = elim (Bool-cases (ltb version target)) [
    | inl below ↦ absurd (ground (arith, enough))
    | inr there ↦ rw there (ground arith, h)
  ]
  migrate_loop-Arrives (suc fuel) version payload h enough =
      elim (Bool-cases (ltb version target)) [
        | inl below ↦ rw below (
            continued fuel version _
              (migrate_step-Advances (next_step migrations name version) name target version
                payload)
              enough (migrate_loop-Arrives fuel))
        | inr there ↦ rw there (ground arith, h)
      ]

-- What a slice is in the migrated state, from what it was in the loaded one.
abbrev pub IsMigrated : SliceDefinition → Option JsonObject → JsonObject → Type 0
IsMigrated def none o = o ≡ initial def.initial_value
IsMigrated def (some current) o =
    (payload : JsonObject) × (version_of payload ≡ def.schema_version)
    × (def.safe_parse payload ≡ success o)

abbrev Migrates : SliceDefinition → Option JsonObject → Option (Result JsonObject) → Type 0
Migrates def old none = ⊥
Migrates def old (some (err e)) = Unit
Migrates def old (some (ok o)) = IsMigrated def old o

parsed :
    (def : SliceDefinition) (name : String) (payload current : JsonObject) (p : Parsed JsonObject)
    → version_of payload ≡ def.schema_version
    → def.safe_parse payload ≡ p
    → Migrates def (some current) (some (parse_by_schema p name))
parsed def name payload current (success o) v e = (payload, v, e)
parsed def name payload current (issues flat) v e = tt

finished :
    (def : SliceDefinition) (name : String) (current : JsonObject)
    (o : Option (Result (ℕ × JsonObject)))
    → Arrives def.schema_version o
    → Migrates def (some current) (finish def name o)
unfolding finish_slice
finished def name current none h = absurd h
finished def name current (some (err e)) h = tt
finished def name current (some (ok (version, payload))) h =
    elim (Bool-cases (eqb version def.schema_version)) [
      | inl there ↦ rw there (
          parsed def name payload current (def.safe_parse payload)
            (h.1 ∙ (eqb_iff version def.schema_version).0 there) refl)
      | inr past ↦ rw past tt
    ]

migrate_slice-Migrates :
    (migrations : List MigrationDefinition) (def : SliceDefinition) (name : String)
    (old : Option JsonObject)
    → Migrates def old (migrate_slice migrations def name old)
unfolding migrate_slice
migrate_slice-Migrates migrations def name none = refl
migrate_slice-Migrates migrations def name (some current) = finished def name current _ (
    migrate_loop-Arrives migrations name def.schema_version def.schema_version (version_of current)
      current refl (omega arith))

-- Under one name: the definition, what was there and what is there.
abbrev pub Slot : Option SliceDefinition → Option JsonObject → Option JsonObject → Type 0
Slot none old new = new ≡ old
Slot (some def) old new = (o : JsonObject) × (new ≡ some o) × IsMigrated def old o

abbrev Slots : Dict SliceDefinition → Dict JsonObject → Option (Result (Dict JsonObject)) → Type 0
Slots slices old none = ⊥
Slots slices old (some (err e)) = Unit
Slots slices old (some (ok new)) =
    (name : String) → Slot (lookup name slices) (lookup name old) (lookup name new)

module _ (name : String) (def : SliceDefinition) (slices : Dict SliceDefinition)
    (old : Dict JsonObject) where
  placed :
      (o : JsonObject) (r : Option (Result (Dict JsonObject)))
      → lookup name slices ≡ none
      → IsMigrated def (lookup name old) o
      → Slots slices (insert name o old) r
      → Slots ((name, def) ∷ slices) old r
  placed o none free m h = absurd h
  placed o (some (err e)) free m h = tt
  placed o (some (ok new)) free m h = λ other. elim (Bool-cases (name == other)) [
    | inl same ↦
        let here = (eq_iff name other).0 same in
        let found : lookup name new ≡ some o =
          (subst (λ d. Slot d (lookup name (insert name o old)) (lookup name new)) free (h name))
          ∙ (lookup-insert name name o old ∙ rw (eq_refl name) refl) in
        rw same (
          o,
          ap (λ k. lookup k new) (sym here) ∙ found,
          subst (λ k. IsMigrated def (lookup k old) o) here m,
        )
    | inr apart ↦ rw apart (
        subst (λ v. Slot (lookup other slices) v (lookup other new))
          (lookup-insert name other o old ∙ rw apart refl) (h other))
  ]

  chained :
      (r : Option (Result JsonObject)) (rest : JsonObject → Option (Result (Dict JsonObject)))
      → lookup name slices ≡ none
      → Migrates def (lookup name old) r
      → ((o : JsonObject) → Slots slices (insert name o old) (rest o))
      → Slots ((name, def) ∷ slices) old (and_then r rest)
  chained none rest free m later = absurd m
  chained (some (err e)) rest free m later = tt
  chained (some (ok o)) rest free m later = placed o (rest o) free m (later o)

migrate_slices-Slots :
    (slices : Dict SliceDefinition) (migrations : List MigrationDefinition) (old : Dict JsonObject)
    → IsDistinct slices
    → Slots slices old (migrate_slices slices migrations old)
unfolding migrate_slices
migrate_slices-Slots [] migrations old h = λ name. refl
migrate_slices-Slots ((name, def) ∷ slices) migrations old h =
    chained name def slices old (migrate_slice migrations def name (lookup name old)) _ h.0
      (migrate_slice-Migrates migrations def name (lookup name old))
      (λ o. migrate_slices-Slots slices migrations (insert name o old) h.1)

-- How the migration of a whole state ends.
abbrev pub MigratesState : Dict SliceDefinition → WorldState → Option (Result WorldState) → Type 0
MigratesState slices state none = ⊥
MigratesState slices state (some (err e)) = Unit
MigratesState slices state (some (ok out)) =
    (out.meta ≡ state.meta)
    × (out.core ≡ state.core)
    × ((name : String)
        → Slot (lookup name slices) (lookup name state.slices) (lookup name out.slices))

state_of :
    (slices : Dict SliceDefinition) (state : WorldState) (r : Option (Result (Dict JsonObject)))
    → Slots slices state.slices r
    → MigratesState slices state (with_slices state r)
state_of slices state none h = h
state_of slices state (some (err e)) h = tt
state_of slices state (some (ok next)) h = (refl, refl, h)

-- The migration always ends within the fuel, whatever the migrations are. If it succeeds, every
-- registered slice is the initial value, where the state had none, or the output of its schema on a
-- payload of exactly the registered version; a slice that is not registered, the meta data and the
-- engine's own part of the state are as they were.
pub apply_slice_migrations-MigratesState :
    (state : WorldState) (slices : Dict SliceDefinition) (migrations : List MigrationDefinition)
    → IsDistinct slices
    → MigratesState slices state (apply_slice_migrations state slices migrations)
unfolding apply_slice_migrations
apply_slice_migrations-MigratesState state slices migrations h =
    state_of slices state (migrate_slices slices migrations state.slices)
      (migrate_slices-Slots slices migrations state.slices h)
