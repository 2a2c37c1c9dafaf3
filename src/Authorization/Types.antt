-- ===== src/Authorization/Types.antt =====
-- Relationship tuples, and the exceptions of the registry and the engine.
use starter_template_fastapi.Base.{String, ◌≡◌, refl}

-- `Relationship`: subject_type:subject_id has `relation` on resource_type:resource_id.
pub record Relationship : Type 0 where
  pub resource_type : String
  pub resource_id : String
  pub relation : String
  pub subject_type : String
  pub subject_id : String

-- RuntimeError, ValueError, KeyError and UnknownActionError. `out_of_fuel` stands for a walk over
-- parents that has not ended within the fuel.
pub data Error : Type 0 where
  runtime_error value_error key_error unknown_action_error out_of_fuel : Error

pub data Result {ℓ} (A : Type ℓ) : Type ℓ where
  ok : A → Result A
  err : Error → Result A

-- A call inside an expression: an exception of the callee leaves the caller too.
infixl 5 ◌>>=◌ ◌>>◌
abbrev pub ◌>>=◌ {ℓ κ} : {T : Type ℓ} {U : Type κ} → Result T → (T → Result U) → Result U
callee >>= rest = elim callee [ err e ↦ err e | ok value ↦ rest value ]

abbrev pub ◌>>◌ {ℓ} : {U : Type ℓ} → Result (Unit {0}) → Result U → Result U
guard >> rest = elim guard [ err e ↦ err e | ok _ ↦ rest ]

-- A caller that returns had a callee that returned.
pub returned {ℓ κ} :
    {T : Type ℓ} {U : Type κ} (callee : Result T) (rest : T → Result U) {u : U}
    → (callee >>= rest) ≡ ok u
    → (value : T) × (callee ≡ ok value) × (rest value ≡ ok u)
returned (err e) rest done = cc
returned (ok value) rest done = (value, refl, done)
