-- ===== src/Authentication/Login.antt =====
-- src/features/authentication/application/use_cases/auth/login_user.py. Each call of the repository
-- commits by itself, so that an exception leaves what was written before it.
pub mod Laws
use starter_template_fastapi.Base.{
  ℕ, String, Bool, not, ◌&&◌, ◌||◌, Option, none, some, List, if◌then◌else◌,
}
use starter_template_fastapi.Base.Clock.{days, add_time}
use starter_template_fastapi.Base.Json.{Fields, end, field, text}
use starter_template_fastapi.Users.Model.{User}
use starter_template_fastapi.Users.Repository.{get_by_email, update_last_login}
use starter_template_fastapi.Authentication.Models.{
  RefreshToken, AuditEvent, Credential, Principal, IssuedTokens, AuthDb,
}
use starter_template_fastapi.Authentication.Refresh.{
  Raised, overflow_error, Call, create_refresh_token, principal_from_user,
}
use starter_template_fastapi.Authentication.Store.{find_credential, record_audit_event}

-- What `execute` returns, and what it raises.
pub data LoginResult : Type 0 where
  logged_in : IssuedTokens → Principal → LoginResult
  invalid_credentials inactive_user email_not_verified : LoginResult
  raised : Raised → LoginResult

-- What a call draws from outside besides the values of `Call`, and the setting
-- `auth_require_email_verification`.
pub record LoginCall : Type 0 where
  pub call : Call
  pub family_id : ℕ
  pub logged_at : ℕ
  pub require_email_verification : Bool

abbrev pub audit : Call → String → Option ℕ → Fields → AuditEvent
audit call event_type user_id metadata = record {
  id = call.event_id;
  user_id = user_id;
  event_type = event_type;
  metadata = metadata;
  created_at = call.utc_now;
  ip_address = call.ip_address;
  user_agent = call.user_agent;
}

abbrev pub id_of : Option User → Option ℕ
id_of none = none
id_of (some user) = some user.id

-- The credential lookup with the id, or with the sentinel, which finds none.
abbrev pub credential_of : Option User → List Credential → Option Credential
credential_of none credentials = none
credential_of (some user) credentials = find_credential user.id "argon2" credentials

abbrev pub hash_or : String → Option Credential → String
hash_or dummy none = dummy
hash_or dummy (some c) = c.hash

-- The refresh token of a new session.
abbrev pub session_token : LoginCall → User → String → ℕ → RefreshToken
session_token c user token_hash expires_at = record {
  id = c.call.fresh_id;
  user_id = user.id;
  token_hash = token_hash;
  family_id = c.family_id;
  expires_at = expires_at;
  revoked_at = none;
  replaced_by_token_id = none;
  created_at = c.call.utc_now;
  created_ip = c.call.ip_address;
  user_agent = c.call.user_agent;
}

-- `login_failed` and its reason
unfoldable pub refuse : Call → Option ℕ → String → LoginResult → AuthDb → LoginResult × AuthDb
unfolding record_audit_event
refuse call user_id reason answer db = (
  answer,
  record_audit_event (audit call "auth.login_failed" user_id (field "reason" (text reason) end)) db,
)

module _ (hash_token : String → String) (c : LoginCall) where
  abbrev pub after_create : User → Option Raised × List RefreshToken → AuthDb → LoginResult × AuthDb
  after_create user (some exc, tokens) db = (raised exc, db)
  after_create user (none, tokens) db =
      let (access_token, expires_in) = c.call.issue user.id user.authz_version in
      (
        logged_in
            (record {
              access_token = access_token;
              refresh_token = c.call.opaque_token;
              expires_in = expires_in;
            })
            (principal_from_user user),
        record_audit_event (audit c.call "auth.login_succeeded" (some user.id) end)
            (record db { refresh_tokens = tokens }),
      )

  abbrev pub with_expiry : User → Option ℕ → AuthDb → LoginResult × AuthDb
  with_expiry user none db = (raised overflow_error, db)
  with_expiry user (some expires_at) db =
      after_create user
        (create_refresh_token (session_token c user (hash_token c.call.opaque_token) expires_at)
          db.refresh_tokens)
        db

  -- The tokens of a user who may log in
  unfoldable pub open_session : User → AuthDb → LoginResult × AuthDb
  unfolding update_last_login add_time create_refresh_token record_audit_event
  open_session user db =
      with_expiry user (add_time c.call.now (days c.call.expire_days))
        (record db { users = update_last_login c.logged_at user.id db.users })

  abbrev pub login_user : Option User → Bool → AuthDb → LoginResult × AuthDb
  login_user none password_ok db = refuse c.call none "invalid_credentials" invalid_credentials db
  login_user (some user) password_ok db =
      if not password_ok
      then refuse c.call (some user.id) "invalid_credentials" invalid_credentials db
      else if not user.is_active
      then refuse c.call (some user.id) "inactive_user" inactive_user db
      else if c.require_email_verification && not user.is_verified
      then refuse c.call (some user.id) "email_not_verified" email_not_verified db
      else open_session user db

-- `str.lower`, `str.strip`, `hash_token`, and `verify_password` of the password service with the
-- constant `FIXED_DUMMY_ARGON2_HASH`.
module _ (lower strip hash_token : String → String) (verify_password : String → String → Bool)
    (dummy_hash : String) (c : LoginCall) where
  -- `execute`
  unfoldable pub execute : String → String → AuthDb → LoginResult × AuthDb
  unfolding get_by_email find_credential refuse open_session
  execute email password db =
      let user = get_by_email lower strip (lower (strip email)) db.users in
      let password_hash = hash_or dummy_hash (credential_of user db.credentials) in
      login_user hash_token c user (verify_password password_hash password) db
