-- ===== src/Base/Maybe.antt =====
-- Chains of computations that may have no result.
use starter_template_fastapi.Base.{◌≡◌, refl, Option, none, some}

infixl 5 ◌>>=◌
abbrev pub ◌>>=◌ {ℓ κ} : {T : Type ℓ} {U : Type κ} → Option T → (T → Option U) → Option U
first >>= rest = elim first [ none ↦ none | some value ↦ rest value ]

-- A chain that has a result has had one at its first step.
pub >>=-eq-some {ℓ κ} :
    {T : Type ℓ} {U : Type κ} (first : Option T) (rest : T → Option U) {u : U}
    → (first >>= rest) ≡ some u
    → (value : T) × (first ≡ some value) × (rest value ≡ some u)
>>=-eq-some none rest done = cc
>>=-eq-some (some value) rest done = (value, refl, done)
