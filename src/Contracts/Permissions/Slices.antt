-- ===== src/Contracts/Permissions/Slices.antt =====
-- Which grants cover a proposal to a slice (packages/contracts/src/modules/permissions.ts).
use Prim.Native.String.{◌++◌}
use Prim.Native.Char.{Char, code}
use text.Mathlib.Text.{starts_with}
use text.Mathlib.TextEquality.{starts_with_iff}
use text.Mathlib.TextPositions.{starts_with-append}
use text.Mathlib.TextLemmas.{cons-append, head-eq_of_cons-eq}
use rpenginext.Common.{
  ◌≡◌, sym, ap, ◌∙◌, true, false, List, [], ◌∷◌, String, eq_iff, Has, Bool-cases, inl, inr, ◌⊎◌,
  ◌↔◌, arith,
}
use rpenginext.Contracts.Permissions.{
  permission_covers, has_permission, propose_permission_for_slice,
}

abbrev letter_a : Char
letter_a = "a"

abbrev letter_s : Char
letter_s = "s"

starts_apart : (r s : String) → "agent:call:" ++ r ≡ "state:propose:" ++ s → ⊥
starts_apart r s e =
    let h : letter_a ≡ letter_s =
      head-eq_of_cons-eq (
        sym (cons-append letter_a "gent:call:" r) ∙ (e ∙ cons-append letter_s "tate:propose:" s)) in
    absurd (omega (arith, ap code h))

no_agent_call : (s : String) → starts_with ("state:propose:" ++ s) "agent:call:" ≡ false
no_agent_call s = elim (Bool-cases (starts_with ("state:propose:" ++ s) "agent:call:")) [
  | inl starts ↦
      let (r, e) = (starts_with_iff ("state:propose:" ++ s) "agent:call:").0 starts in
      absurd (starts_apart r s e)
  | inr apart ↦ apart
]

-- One grant covers the proposal exactly when it is the slice's own token or the one for all slices.
permission_covers_iff :
    (granted slice : String)
    → (permission_covers granted (propose_permission_for_slice slice) ≡ true)
      ↔ ((granted ≡ propose_permission_for_slice slice) ⊎ (granted ≡ "state:propose:*"))
unfolding permission_covers propose_permission_for_slice
permission_covers_iff granted slice = ground (
  arith,
  eq_iff granted ("state:propose:" ++ slice),
  eq_iff granted "state:propose:*",
  starts_with-append "state:propose:" slice,
  no_agent_call slice,
)

granted_of :
    (granted : List String) (slice : String)
    → has_permission granted (propose_permission_for_slice slice) ≡ true
    → Has (propose_permission_for_slice slice) granted ⊎ Has "state:propose:*" granted
unfolding has_permission
granted_of [] slice h = absurd (ground arith)
granted_of (g ∷ gs) slice h =
    elim (Bool-cases (permission_covers g (propose_permission_for_slice slice))) [
      | inl covers ↦ elim ((permission_covers_iff g slice).0 covers) [
        | inl own ↦ inl (inl own)
        | inr all ↦ inr (inl all)
      ]
      | inr misses ↦ elim (granted_of gs slice (rw misses at h)) [
        | inl own ↦ inl (inr own)
        | inr all ↦ inr (inr all)
      ]
    ]

permission_of :
    (granted : List String) (slice : String)
    → Has (propose_permission_for_slice slice) granted ⊎ Has "state:propose:*" granted
    → has_permission granted (propose_permission_for_slice slice) ≡ true
unfolding has_permission
permission_of [] slice (inl h) = absurd h
permission_of [] slice (inr h) = absurd h
permission_of (g ∷ gs) slice h =
    ground (arith, permission_covers_iff g slice, permission_of gs slice, h)

-- A module may propose to a slice exactly when it holds the slice's own token or the one for all
-- slices; no other grant, and no grant to call agents, is enough.
pub has_permission_iff :
    (granted : List String) (slice : String)
    → (has_permission granted (propose_permission_for_slice slice) ≡ true)
      ↔ (Has (propose_permission_for_slice slice) granted ⊎ Has "state:propose:*" granted)
has_permission_iff granted slice = (granted_of granted slice, permission_of granted slice)
