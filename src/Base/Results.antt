-- ===== src/Base/Results.antt =====
-- A Go function that returns `(value, error)`: the value, or the error.
use mathlib.Core.Path.{◌≡◌, refl}

pub data Outcome {ℓ κ} (E : Type ℓ) (A : Type κ) : Type (ℓ ⊔ κ) where
  err : E → Outcome E A
  ok : A → Outcome E A

-- `if err != nil { return err }`
infixl 5 ◌>>=◌
abbrev pub ◌>>=◌ {ℓ κ μ} :
    {A : Type ℓ} {B : Type κ} {E : Type μ} (result : Outcome E A) (rest : A → Outcome E B)
    → Outcome E B
err problem >>= rest = err problem
ok value >>= rest = rest value

-- A chain that succeeds went through a first step that did.
pub >>=-eq-ok {ℓ κ μ} :
    {A : Type ℓ} {B : Type κ} {E : Type μ} (result : Outcome E A) (rest : A → Outcome E B) {end : B}
    → (result >>= rest) ≡ ok end
    → (value : A) × (result ≡ ok value) × (rest value ≡ ok end)
>>=-eq-ok (err problem) rest went = cc
>>=-eq-ok (ok value) rest went = (value, refl, went)
