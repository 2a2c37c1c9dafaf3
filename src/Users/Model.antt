-- ===== src/Users/Model.antt =====
-- src/features/users/domain/user.py and application/errors.py: `UserTable` and the domain's `User`
-- have the same fields.
use starter_template_fastapi.Base.{ℕ, String, Bool, Option}

pub record User : Type 0 where
  pub id : ℕ
  pub email : String
  pub is_active : Bool
  pub is_verified : Bool
  pub is_erased : Bool
  pub authz_version : ℕ
  pub created_at : ℕ
  pub updated_at : ℕ
  pub last_login_at : Option ℕ

-- `UserNotFoundError` and `UserAlreadyExistsError`
pub data UserError : Type 0 where
  user_not_found user_already_exists : UserError

-- `Result[User, UserError]`
pub data UserResult : Type 0 where
  ok : User → UserResult
  err : UserError → UserResult
