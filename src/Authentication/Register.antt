-- ===== src/Authentication/Register.antt =====
-- src/features/authentication/application/use_cases/auth/register_user.py, in the transaction of
-- `register_user_transaction`, which rolls back when its block raises.
pub mod Laws
use starter_template_fastapi.Base.{ℕ, String, Option, none, some, List}
use starter_template_fastapi.Base.Json.{end}
use starter_template_fastapi.Users.Model.{
  User, UserResult, ok, err, user_not_found, user_already_exists,
}
use starter_template_fastapi.Users.Repository.{create}
use starter_template_fastapi.Authentication.Models.{Credential, AuthDb}
use starter_template_fastapi.Authentication.Refresh.{Raised, Call}
use starter_template_fastapi.Authentication.Store.{upsert_credential, record_audit_event}
use starter_template_fastapi.Authentication.Login.{audit}

pub data RegisterResult : Type 0 where
  registered : User → RegisterResult
  duplicate_email not_found : RegisterResult
  raised : Raised → RegisterResult

abbrev pub with_credential :
    Call → User → List User → Option Raised × List Credential → AuthDb → RegisterResult × AuthDb
with_credential call user users (some exc, credentials) db = (raised exc, db)
with_credential call user users (none, credentials) db = (
  registered user,
  record_audit_event (audit call "auth.user_registered" (some user.id) end)
      (record db { users = users; credentials = credentials }),
)

-- `call.fresh_id` is the id of the user, `credential_id` that of the credential.
module _ (lower strip : String → String) (hash_password : String → String) (call : Call)
    (credential_id : ℕ) where
  abbrev pub with_user : String → UserResult × List User → AuthDb → RegisterResult × AuthDb
  with_user password_hash (err user_already_exists, users) db = (duplicate_email, db)
  with_user password_hash (err user_not_found, users) db = (not_found, db)
  with_user password_hash (ok user, users) db =
      with_credential call user users
        (upsert_credential credential_id call.utc_now user.id "argon2" password_hash db.credentials)
        db

  -- `execute`
  unfoldable pub execute : String → String → AuthDb → RegisterResult × AuthDb
  unfolding create upsert_credential record_audit_event
  execute email password db =
      with_user (hash_password password)
        (create lower strip call.fresh_id call.utc_now (lower (strip email)) db.users) db
