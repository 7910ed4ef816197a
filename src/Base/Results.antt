-- ===== src/Base/Results.antt =====
-- Results of code that can fail with an error, and what holds of a result if there is one.
use mathlib.Core.Path.{◌≡◌, refl}

pub data Result {κ} (E : Type 0) (B : Type κ) : Type κ where
  err : E → Result E B
  ok : B → Result E B

-- `r >>= next` and `check >> rest`: the first error ends the call.
module _ {E : Type 0} where
  infixl 5 ◌>>◌ ◌>>=◌
  abbrev pub ◌>>=◌ {κ μ} : {B : Type κ} {C : Type μ} → Result E B → (B → Result E C) → Result E C
  r >>= next = elim r [ err code ↦ err code | ok b ↦ next b ]

  abbrev pub ◌>>◌ {κ} : {C : Type κ} → Result E (Unit {0}) → Result E C → Result E C
  check >> rest = elim check [ err code ↦ err code | ok u ↦ rest ]

-- `P` holds of the value, if there is one.
pub data Holds {κ} {E : Type 0} {B : Type κ} (P : B → Type 0) : Result E B → Type κ where
  raises : {code : E} → Holds P (err code)
  returns : {b : B} → P b → Holds P (ok b)

module _ {E : Type 0} where
  pub Holds-ok {κ} : {B : Type κ} {P : B → Type 0} {b : B} → Holds {E = E} P (ok b) → P b
  Holds-ok (returns p) = p

  pub bind-Holds {κ μ} :
      {B : Type κ} {C : Type μ} {P : C → Type 0} {next : B → Result E C} (r : Result E B)
      → ((b : B) → r ≡ ok b → Holds P (next b))
      → Holds P (r >>= next)
  bind-Holds (err code) h = raises
  bind-Holds (ok b) h = h b refl
