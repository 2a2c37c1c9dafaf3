-- ===== src/Authentication/Logout.antt =====
-- src/features/authentication/application/use_cases/auth/logout_user.py
use starter_template_fastapi.Base.{ℕ, String, Option, none, some, str_eq, if◌then◌else◌, is_some}
use starter_template_fastapi.Base.Json.{end}
use starter_template_fastapi.Authentication.Models.{RefreshToken, AuthDb}
use starter_template_fastapi.Authentication.Refresh.{Call, find_token, revoke_refresh_token}
use starter_template_fastapi.Authentication.Store.{revoke_user_refresh_tokens, record_audit_event}
use starter_template_fastapi.Authentication.Login.{audit}

abbrev revoke_found : ℕ → Option RefreshToken → AuthDb → AuthDb
revoke_found now none db = db
revoke_found now (some stored) db =
    if is_some stored.revoked_at
    then db
    else record db { refresh_tokens = revoke_refresh_token now stored.id none db.refresh_tokens }

-- `LogoutUser.execute`
unfoldable pub logout_user : (String → String) → ℕ → Option String → AuthDb → AuthDb
unfolding find_token revoke_refresh_token
logout_user hash_token now none db = db
logout_user hash_token now (some refresh_token) db =
    if str_eq refresh_token ""
    then db
    else revoke_found now (find_token (hash_token refresh_token) db.refresh_tokens) db

-- `cache.invalidate_user(user_id)`, when a cache is wired
abbrev pub invalidated {ℓ} : {C : Type ℓ} → (ℕ → C → C) → ℕ → Option C → Option C
invalidated invalidate_user user_id none = none
invalidated invalidate_user user_id (some cache) = some (invalidate_user user_id cache)

-- `LogoutAllSessions.execute`
unfoldable pub logout_all {ℓ} :
    {C : Type ℓ} → (ℕ → C → C) → Call → ℕ → Option C → AuthDb → Option C × AuthDb
unfolding revoke_user_refresh_tokens record_audit_event
logout_all invalidate_user call user_id cache db = (
  invalidated invalidate_user user_id cache,
  record_audit_event (audit call "auth.logout_all" (some user_id) end) (record db {
    refresh_tokens = revoke_user_refresh_tokens call.utc_now user_id db.refresh_tokens;
  }),
)
