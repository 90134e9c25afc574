-- ===== src/Contracts/Results.antt =====
-- packages/contracts/src/result.ts. A method of an object returns its result beside the object's
-- new state; `Unit` stands for a result without a value.
use rpenginext.Common.{
  ◌≡◌, refl, ◌⊎◌, inl, inr, Bool, true, false, Option, none, some, List, [], ◌∷◌, String, ◌==◌,
  if◌then◌else◌,
}
use rpenginext.Contracts.Json.{JsonValue, JsonObject, obj, end, field}

pub record Failure : Type 0 where
  pub code : String
  pub message : String
  pub details : Option JsonValue
  pub caused_by : Option (List String)

pub data Result {ℓ} (A : Type ℓ) : Type ℓ where
  ok : A → Result A
  err : Failure → Result A

abbrev pub ⊤ : Type 0
⊤ = Unit

-- `failure(code, message)` with no extras, with `details`, and with `causedBy`.
abbrev pub failure : String → String → Failure
failure c m = record { code = c; message = m; details = none; caused_by = none }

abbrev pub failure_details : String → String → Option JsonValue → Failure
failure_details c m d = record { code = c; message = m; details = d; caused_by = none }

abbrev pub failure_caused_by : String → String → List String → Failure
failure_caused_by c m by = record { code = c; message = m; details = none; caused_by = some by }

-- `moduleFailure` with a `moduleId` and the other details.
pub module_failure : String → String → Option String → JsonObject → Failure
module_failure c m id rest = record {
  code = c;
  message = m;
  details = elim rest [ end ↦ none | field k v o ↦ some (obj (field k v o)) ];
  caused_by = elim id [ none ↦ none | some i ↦ if i == "" then none else some (i ∷ []) ];
}

-- `a || b` on texts.
abbrev pub or_text : String → String → String
or_text a b = if a == "" then b else a

module _ {ℓ κ} {A : Type ℓ} {B : Type κ} where
  infixl 5 ◌>>=◌
  -- `if (!r.ok) return r`, and the rest of the function on the value.
  abbrev pub ◌>>=◌ : Result A → (A → Result B) → Result B
  err failed >>= rest = err failed
  ok value >>= rest = rest value

  -- What a successful chain went through.
  pub >>=-ok :
      (r : Result A) (rest : A → Result B) {out : B}
      → (r >>= rest) ≡ ok out
      → (value : A) × (r ≡ ok value) × (rest value ≡ ok out)
  >>=-ok (err failed) rest ends = cc
  >>=-ok (ok value) rest ends = (value, refl, ends)

infixl 5 ◌>>◌
abbrev pub ◌>>◌ {ℓ} : {B : Type ℓ} → Result ⊤ → Result B → Result B
checked >> rest = checked >>= λ _. rest

abbrev pub map_result {ℓ κ} : {A : Type ℓ} {B : Type κ} → Result A → (A → B) → Result B
map_result (ok a) f = ok (f a)
map_result (err e) f = err e

abbrev pub map_error {ℓ} : {A : Type ℓ} → (Failure → Failure) → Result A → Result A
map_error f (ok a) = ok a
map_error f (err e) = err (f e)

abbrev pub is_ok {ℓ} : {A : Type ℓ} → Result A → Bool
is_ok (ok a) = true
is_ok (err e) = false

pub Result-cases {ℓ} :
    {A : Type ℓ} (r : Result A) → ((a : A) × (r ≡ ok a)) ⊎ ((e : Failure) × (r ≡ err e))
Result-cases (ok a) = inl (a, refl)
Result-cases (err e) = inr (e, refl)

pub ok-injective {ℓ} : {A : Type ℓ} {a b : A} → ok a ≡ ok b → a ≡ b
ok-injective e = cc
