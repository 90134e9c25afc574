-- ===== src/Pipeline/Steps.antt =====
-- The steps of the stages of packages/core/src/pipeline/turn-pipeline.ts: a step reads and writes a
-- state `S` and gives a result. A failure ends the stage and keeps what was written before it.
use rpenginext.Common.{◌≡◌, refl, ◌∙◌, arith}
use rpenginext.Contracts.{Result, ok, err, ⊤}

abbrev pub Step : Type 0 → Type 0 → Type 0
Step S A = S → Result A × S

module _ {S A B : Type 0} where
  abbrev pub then_on : Result A × S → (A → Step S B) → Result B × S
  then_on (ok a, s) rest = rest a s
  then_on (err e, s) rest = (err e, s)

  infixl 5 ◌>>=◌
  abbrev pub ◌>>=◌ : Step S A → (A → Step S B) → Step S B
  (first >>= rest) s = then_on (first s) rest

infixl 5 ◌>>◌
abbrev pub ◌>>◌ : {S B : Type 0} → Step S ⊤ → Step S B → Step S B
first >> rest = first >>= λ _. rest

abbrev pub done : {S A : Type 0} → A → Step S A
done a s = (ok a, s)

abbrev pub lift : {S A : Type 0} → Result A → Step S A
lift r s = (r, s)

abbrev pub modify : {S : Type 0} → (S → S) → Step S ⊤
modify f s = (ok tt, f s)

abbrev pub read : {S : Type 0} → Step S S
read s = (ok s, s)

-- What a chain that succeeded went through.
pub then_on-ok :
    {S A B : Type 0} (o : Result A × S) (rest : A → Step S B) (out : Result B × S) {b : B}
    → then_on o rest ≡ out
    → out.0 ≡ ok b
    → (a : A) × (u : S) × (o ≡ (ok a, u)) × (rest a u ≡ out)
then_on-ok (ok a, u) rest out e h = (a, u, refl, e)
then_on-ok (err f, u) rest out e h = absurd (ground arith)

-- A step that leaves what `view` shows of the state, however it ends.
abbrev pub Keeps : {S A X : Type 0} → (S → X) → Step S A → Type 0
Keeps {S} view step = (s : S) → view (step s).1 ≡ view s

module _ {S X : Type 0} (view : S → X) where
  pub Keeps-then_on :
      {A B : Type 0} (o : Result A × S) (rest : A → Step S B)
      → ((a : A) → Keeps view (rest a))
      → view (then_on o rest).1 ≡ view o.1
  Keeps-then_on (ok a, s) rest later = later a s
  Keeps-then_on (err e, s) rest later = refl

  pub Keeps->>= :
      {A B : Type 0} (first : Step S A) (rest : A → Step S B)
      → Keeps view first
      → ((a : A) → Keeps view (rest a))
      → Keeps view (first >>= rest)
  Keeps->>= first rest now later s = Keeps-then_on (first s) rest later ∙ now s
