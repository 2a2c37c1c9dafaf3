-- ===== src/Authentication/Confirm.antt =====
-- src/features/authentication/application/use_cases/auth/confirm_password_reset.py and
-- confirm_email_verification.py, in the transaction of `internal_token_transaction`.
pub mod Laws
use starter_template_fastapi.Base.{ℕ, String, Option, none, some, List, leb, if◌then◌else◌, is_some}
use starter_template_fastapi.Base.Json.{end}
use starter_template_fastapi.Users.Repository.{mark_verified, bump_authz_version}
use starter_template_fastapi.Authentication.Models.{Credential, InternalToken, AuthDb}
use starter_template_fastapi.Authentication.Refresh.{Raised, Call}
use starter_template_fastapi.Authentication.Store.{
  upsert_credential, revoke_user_refresh_tokens, find_internal_token, mark_internal_token_used,
  record_audit_event,
}
use starter_template_fastapi.Authentication.Login.{audit}
use starter_template_fastapi.Authentication.Logout.{invalidated}

-- `Result[None, AuthError]`, with the user whose token was consumed, and what is raised.
pub data ConfirmResult : Type 0 where
  confirmed : ℕ → ConfirmResult
  invalid_token token_already_used : ConfirmResult
  raised : Raised → ConfirmResult

-- What the transaction does with the row that it has read: `consume` of the user and of the token.
abbrev pub confirm :
    ℕ
    → (ℕ → InternalToken → AuthDb → ConfirmResult × AuthDb)
    → Option InternalToken
    → AuthDb
    → ConfirmResult × AuthDb
confirm now consume none db = (invalid_token, db)
confirm now consume (some stored) db =
    if leb stored.expires_at now
    then (invalid_token, db)
    else if is_some stored.used_at
    then (token_already_used, db)
    else elim stored.user_id [
      | none ↦ (invalid_token, db)
      | some user_id ↦ consume user_id stored db
    ]

-- The call of the cache after the commit.
abbrev pub invalidate_confirmed {ℓ} :
    {C : Type ℓ} → (ℕ → C → C) → ConfirmResult → Option C → Option C
invalidate_confirmed invalidate_user (confirmed user_id) cache =
    invalidated invalidate_user user_id cache
invalidate_confirmed invalidate_user invalid_token cache = cache
invalidate_confirmed invalidate_user token_already_used cache = cache
invalidate_confirmed invalidate_user (raised exc) cache = cache

module _ (hash_token : String → String) (call : Call) where
  -- The writes of a password reset; `call.fresh_id` is the id of a new credential.
  abbrev pub reset :
      ℕ → InternalToken → Option Raised × List Credential → AuthDb → ConfirmResult × AuthDb
  reset user_id stored (some exc, credentials) db = (raised exc, db)
  reset user_id stored (none, credentials) db = (
    confirmed user_id,
    record_audit_event (audit call "auth.password_reset_completed" (some user_id) end) (record db {
      credentials = credentials;
      users = bump_authz_version call.utc_now user_id db.users;
      internal_tokens = mark_internal_token_used call.utc_now stored.id db.internal_tokens;
      refresh_tokens = revoke_user_refresh_tokens call.utc_now user_id db.refresh_tokens;
    }),
  )

  abbrev pub consume_reset : String → ℕ → InternalToken → AuthDb → ConfirmResult × AuthDb
  consume_reset new_hash user_id stored db =
      reset user_id stored
        (upsert_credential call.fresh_id call.utc_now user_id "argon2" new_hash db.credentials) db

  -- `ConfirmPasswordReset.execute`, up to the call of the cache
  unfoldable pub confirm_password_reset :
      (String → String) → String → String → AuthDb → ConfirmResult × AuthDb
  unfolding upsert_credential revoke_user_refresh_tokens find_internal_token
      mark_internal_token_used record_audit_event bump_authz_version
  confirm_password_reset hash_password token new_password db =
      confirm call.now (consume_reset (hash_password new_password))
        (find_internal_token (hash_token token) "password_reset" db.internal_tokens) db

  abbrev pub verify_email : ℕ → InternalToken → AuthDb → ConfirmResult × AuthDb
  verify_email user_id stored db = (
    confirmed user_id,
    record_audit_event (audit call "auth.email_verified" (some user_id) end) (record db {
      users = mark_verified call.utc_now user_id db.users;
      internal_tokens = mark_internal_token_used call.utc_now stored.id db.internal_tokens;
    }),
  )

  -- `ConfirmEmailVerification.execute`, up to the call of the cache
  unfoldable pub confirm_email_verification : String → AuthDb → ConfirmResult × AuthDb
  unfolding find_internal_token mark_internal_token_used record_audit_event mark_verified
  confirm_email_verification token db =
      confirm call.now verify_email
        (find_internal_token (hash_token token) "email_verify" db.internal_tokens) db

-- `execute` whole: the cache is told of the user after the commit.
unfoldable pub and_invalidate {ℓ} :
    {C : Type ℓ}
    → (ℕ → C → C)
    → ConfirmResult × AuthDb
    → Option C
    → ConfirmResult × (Option C × AuthDb)
and_invalidate invalidate_user (answer, db) cache =
    (answer, (invalidate_confirmed invalidate_user answer cache, db))
