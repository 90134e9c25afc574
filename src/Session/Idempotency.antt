-- ===== src/Session/Idempotency.antt =====
-- `rememberIdempotency` of packages/core/src/session/session-runtime.ts: what is remembered and how
-- much of it.
use rpenginext.Common.{
  ℕ, zero, suc, ◌-◌, ◌≤◌, ◌≡◌, refl, ◌∙◌, ap, subst, none, some, [], ◌∷◌, String, ◌==◌, eq_iff,
  eq_refl, Dict, lookup, insert, erase, keys, lookup-insert, IsDistinct, insert-IsDistinct, length,
  drop, length-drop, leb, leb_iff, Bool-cases, Option-cases, inl, inr, arith,
}
use rpenginext.Pipeline.Commit.{TurnResult}
use rpenginext.Session.{delete_keys, remember_idempotency}

erase-absent : (k : String) (d : Dict TurnResult) → lookup k d ≡ none → erase k d ≡ d
erase-absent k [] h = refl
erase-absent k ((j, v) ∷ d) h = ground (arith, eq_iff j k, erase-absent k d)

delete_keys-drop :
    (n : ℕ) (d : Dict TurnResult) → IsDistinct d → delete_keys n (keys d) d ≡ drop n d
unfolding delete_keys
delete_keys-drop zero d h = refl
delete_keys-drop (suc n) [] h = refl
delete_keys-drop (suc n) ((k, v) ∷ d) h =
    rw (eq_refl k) (rw (erase-absent k d h.0) (delete_keys-drop n d h.1))

length-insert-new :
    (k : String) (v : TurnResult) (d : Dict TurnResult)
    → lookup k d ≡ none
    → length (insert k v d) ≡ suc (length d)
length-insert-new k v [] h = refl
length-insert-new k v ((j, w) ∷ d) h = ground (arith, eq_iff j k, length-insert-new k v d)

length-insert-old :
    (k : String) (v u : TurnResult) (d : Dict TurnResult)
    → lookup k d ≡ some u
    → length (insert k v d) ≡ length d
length-insert-old k v u [] h = absurd (ground arith)
length-insert-old k v u ((j, w) ∷ d) h = ground (arith, eq_iff j k, length-insert-old k v u d)

lookup-drop-new :
    (n : ℕ) (k : String) (v : TurnResult) (d : Dict TurnResult)
    → lookup k d ≡ none
    → n ≤ length d
    → lookup k (drop n (insert k v d)) ≡ some v
lookup-drop-new zero k v d h few = lookup-insert k k v d ∙ rw (eq_refl k) refl
lookup-drop-new (suc n) k v [] h few = absurd (omega (arith, few))
lookup-drop-new (suc n) k v ((j, w) ∷ d) h few = elim (Bool-cases (j == k)) [
  | inl same ↦ absurd (ground arith)
  | inr other ↦ rw other (lookup-drop-new n k v d (rw other at h) (omega (arith, few)))
]

remember-drop :
    (limit : ℕ) (id : String) (result : TurnResult) (d : Dict TurnResult)
    → IsDistinct d
    → remember_idempotency limit id result d
      ≡ drop (length (insert id result d) - limit) (insert id result d)
unfolding remember_idempotency
remember-drop limit id result d h =
    let d' = insert id result d in
    elim (Bool-cases (leb (length d') limit)) [
      | inl few ↦ rw few (
          ap (λ n. drop n d')
            (let le = (leb_iff (length d') limit).0 few in
              let z : 0 ≡ length d' - limit = omega (arith, le) in z))
      | inr many ↦
          rw many (delete_keys-drop (length d' - limit) d' (insert-IsDistinct id result d h))
    ]

kept :
    (limit : ℕ) (id : String) (result : TurnResult) (d : Dict TurnResult)
    → length d ≤ limit
    → length (drop (length (insert id result d) - limit) (insert id result d)) ≤ limit
kept limit id result d few =
    omega (arith, length-drop (length (insert id result d) - limit) (insert id result d))

newest :
    (limit : ℕ) (id : String) (result : TurnResult) (d : Dict TurnResult)
    → length d ≤ limit
    → 1 ≤ limit
    → lookup id (drop (length (insert id result d) - limit) (insert id result d)) ≡ some result
newest limit id result d few one = elim (Option-cases (lookup id d)) [
  | inl new ↦
      lookup-drop-new (length (insert id result d) - limit) id result d new
        (omega (arith, length-insert-new id result d new, one))
  | inr (u, old) ↦
      let nothing : 0 ≡ length (insert id result d) - limit =
        omega (arith, length-insert-old id result u d old, few) in
      subst (λ n. lookup id (drop n (insert id result d)) ≡ some result) nothing
        (lookup-insert id id result d ∙ rw (eq_refl id) refl)
]

-- A session that remembers at most `limit` answers, `limit` not 0: after an answer is remembered it
-- still does, the new answer is found under its action, and what was forgotten are the first entries
-- of the map, as many as are too many.
pub remember_idempotency-bounds :
    (limit : ℕ) (id : String) (result : TurnResult) (d : Dict TurnResult)
    → IsDistinct d
    → length d ≤ limit
    → 1 ≤ limit
    → let out = remember_idempotency limit id result d in
      (length out ≤ limit)
      × (lookup id out ≡ some result)
      × (out ≡ drop (length (insert id result d) - limit) (insert id result d))
remember_idempotency-bounds limit id result d h few one =
    let d' = insert id result d in
    let cut = remember-drop limit id result d h in
    (
      rw cut (kept limit id result d few),
      ap (lookup id) cut ∙ newest limit id result d few one,
      cut,
    )
