-- ===== src/Common/Dicts.antt =====
-- A JavaScript `Map` or record keyed by texts, in insertion order: a write to a key that is there
-- keeps its place, a new key goes last.
use Prim.Native.String.{String}
use mathlib.Core.Path.{◌≡◌, refl, subst}
use mathlib.Core.Bool.{Bool}
use mathlib.Core.Logic.{inl, inr}
use rpenginext.Common.Lists.{All}
use mathlib.Core.Option.{Option, none, some}
use mathlib.Core.List.{List, [], ◌∷◌}
use native.Mathlib.Omega.{arith}
use text.Mathlib.Text.{◌==◌}
use text.Mathlib.TextEquality.{eq_iff}
use rpenginext.Common.Tests.{if◌then◌else◌, is_some, Bool-cases}

abbrev pub Dict {ℓ} : Type ℓ → Type ℓ
Dict V = List (String × V)

module _ {ℓ} {V : Type ℓ} where
  abbrev pub lookup : String → Dict V → Option V
  lookup k [] = none
  lookup k ((j, v) ∷ d) = if j == k then some v else lookup k d

  abbrev pub has_key : String → Dict V → Bool
  has_key k d = is_some (lookup k d)

  abbrev pub insert : String → V → Dict V → Dict V
  insert k v [] = (k, v) ∷ []
  insert k v ((j, w) ∷ d) = if j == k then (k, v) ∷ d else (j, w) ∷ insert k v d

  abbrev pub erase : String → Dict V → Dict V
  erase k [] = []
  erase k ((j, w) ∷ d) = let rest = erase k d in if j == k then rest else (j, w) ∷ rest

  abbrev pub keys : Dict V → List String
  keys [] = []
  keys ((k, v) ∷ d) = k ∷ keys d

  pub lookup-insert :
      (k j : String) (v : V) (d : Dict V)
      → lookup j (insert k v d) ≡ (if k == j then some v else lookup j d)
  lookup-insert k j v [] = refl
  lookup-insert k j v ((i, w) ∷ d) =
      ground (arith, eq_iff k j, eq_iff i k, eq_iff i j, lookup-insert k j v d)

  pub lookup-erase :
      (k j : String) (d : Dict V) → lookup j (erase k d) ≡ (if k == j then none else lookup j d)
  lookup-erase k j [] = ground arith
  lookup-erase k j ((i, w) ∷ d) =
      ground (arith, eq_iff k j, eq_iff i k, eq_iff i j, lookup-erase k j d)

-- What holds of every entry holds of the one that a look-up finds.
pub lookup-All {ℓ κ} :
    {V : Type ℓ} (P : String × V → Type κ) (k : String) (d : Dict V) {v : V}
    → lookup k d ≡ some v
    → All P d
    → P (k, v)
lookup-All P k [] e h = absurd (ground arith)
lookup-All P k ((j, w) ∷ d) {v} e h = elim (Bool-cases (j == k)) [
  | inl same ↦
      let hit : some w ≡ some v = rw same at e in
      let whole : (j, w) ≡ (k, v) = cc ((eq_iff j k).0 same, hit) in subst P whole h.0
  | inr other ↦ lookup-All P k d (rw other at e) h.1
]

pub insert-All {ℓ κ} :
    {V : Type ℓ} (P : String × V → Type κ) (k : String) (v : V) (d : Dict V)
    → P (k, v)
    → All P d
    → All P (insert k v d)
insert-All P k v [] p h = (p, tt)
insert-All P k v ((j, w) ∷ d) p h = elim (Bool-cases (j == k)) [
  | inl same ↦ rw same (p, h.1)
  | inr other ↦ rw other (h.0, insert-All P k v d p h.1)
]

-- No key stands twice.
abbrev pub IsDistinct {ℓ} : {V : Type ℓ} → Dict V → Type ℓ
IsDistinct [] = Unit
IsDistinct ((k, v) ∷ d) = (lookup k d ≡ none) × IsDistinct d

module _ {ℓ} {V : Type ℓ} where
  pub insert-IsDistinct :
      (k : String) (v : V) (d : Dict V) → IsDistinct d → IsDistinct (insert k v d)
  insert-IsDistinct k v [] h = (refl, tt)
  insert-IsDistinct k v ((j, w) ∷ d) h =
      ground (arith, eq_iff j k, eq_iff k j, lookup-insert k j v d, insert-IsDistinct k v d h.1)

  pub erase-IsDistinct : (k : String) (d : Dict V) → IsDistinct d → IsDistinct (erase k d)
  erase-IsDistinct k [] h = tt
  erase-IsDistinct k ((j, w) ∷ d) h =
      ground (arith, eq_iff j k, eq_iff k j, lookup-erase k j d, erase-IsDistinct k d h.1)

pub erase-All {ℓ κ} :
    {V : Type ℓ} (P : String × V → Type κ) (k : String) (d : Dict V) → All P d → All P (erase k d)
erase-All P k [] h = tt
erase-All P k ((j, w) ∷ d) h = elim (Bool-cases (j == k)) [
  | inl same ↦ rw same (erase-All P k d h.1)
  | inr other ↦ rw other (h.0, erase-All P k d h.1)
]
