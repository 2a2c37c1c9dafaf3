-- ===== src/Authentication/Refresh.antt =====
-- src/features/authentication/application/use_cases/auth/refresh_token.py, and
-- `_SessionRefreshTokenTransaction` of
-- src/features/authentication/adapters/outbound/persistence/sqlmodel/repository.py. A transaction
-- commits when its block is left by `return` or at its end, and rolls back when the block raises.
pub mod Live
pub mod Reuse
pub mod Issue
use starter_template_fastapi.Base.{
  ℕ, String, Bool, false, not, ◌||◌, Option, none, some, List, [], ◌∷◌, ◌++◌, map, str_eq, leb,
  ◌==◌, if◌then◌else◌, is_some,
}
use starter_template_fastapi.Base.Clock.{days, add_time}
use starter_template_fastapi.Base.Keys.{has_id}
use starter_template_fastapi.Base.Json.{Fields, end, field, text}
use starter_template_fastapi.Users.Model.{User}
use starter_template_fastapi.Users.Repository.{get_by_id}
use starter_template_fastapi.Authentication.Models.{
  RefreshToken, AuditEvent, Principal, IssuedTokens, AuthDb,
}

pub data Raised : Type 0 where
  value_error integrity_error overflow_error : Raised

-- What `execute` returns, and what it raises.
pub data RotateResult : Type 0 where
  issued : IssuedTokens → Principal → RotateResult
  invalid_token invalid_credentials inactive_user : RotateResult
  raised : Raised → RotateResult

-- What a call draws from outside: the caller's address and agent, the clocks of the use case and of
-- the database writes, the ids and the token that are generated, the text of an id, and the access
-- token service.
pub record Call : Type 0 where
  pub ip_address : Option String
  pub user_agent : Option String
  pub now : ℕ
  pub utc_now : ℕ
  pub fresh_id : ℕ
  pub event_id : ℕ
  pub str_uuid : ℕ → String
  pub opaque_token : String
  pub issue : ℕ → ℕ → String × ℕ
  pub expire_days : ℕ

-- The SELECT by `token_hash`, which is unique.
unfoldable pub find_token : String → List RefreshToken → Option RefreshToken
find_token token_hash [] = none
find_token token_hash (t ∷ tokens) =
    if str_eq t.token_hash token_hash then some t else find_token token_hash tokens

-- The SELECT of a family's `user_id` with LIMIT 1.
unfoldable pub family_owner : ℕ → List RefreshToken → Option ℕ
family_owner family_id [] = none
family_owner family_id (t ∷ tokens) =
    if t.family_id == family_id then some t.user_id else family_owner family_id tokens

-- token.revoked_at or at
abbrev pub or_now : Option ℕ → ℕ → Option ℕ
or_now none at = some at
or_now (some t) at = some t

unfoldable pub revoke_refresh_token : ℕ → ℕ → Option ℕ → List RefreshToken → List RefreshToken
revoke_refresh_token at token_id replaced_by tokens =
    map
      (λ t.
        if t.id == token_id
        then record t { revoked_at = or_now t.revoked_at at; replaced_by_token_id = replaced_by }
        else t)
      tokens

unfoldable pub revoke_refresh_family : ℕ → ℕ → List RefreshToken → List RefreshToken
revoke_refresh_family at family_id tokens =
    map
      (λ t.
        if t.family_id == family_id then record t { revoked_at = or_now t.revoked_at at } else t)
      tokens

-- The row that `create_refresh_token` inserts.
abbrev pub new_token : Call → RefreshToken → String → ℕ → RefreshToken
new_token call stored token_hash expires_at = record {
  id = call.fresh_id;
  user_id = stored.user_id;
  token_hash = token_hash;
  family_id = stored.family_id;
  expires_at = expires_at;
  revoked_at = none;
  replaced_by_token_id = none;
  created_at = call.utc_now;
  created_ip = call.ip_address;
  user_agent = call.user_agent;
}

abbrev other_owner : Option ℕ → ℕ → Bool
other_owner none user_id = false
other_owner (some owner) user_id = not (owner == user_id)

-- `create_refresh_token`: the INSERT raises IntegrityError on a hash or an id that is there.
unfoldable pub create_refresh_token :
    RefreshToken → List RefreshToken → Option Raised × List RefreshToken
unfolding find_token family_owner
create_refresh_token t tokens =
    if other_owner (family_owner t.family_id tokens) t.user_id
    then (some value_error, tokens)
    else if is_some (find_token t.token_hash tokens)
        || has_id (λ (x : RefreshToken). x.id) tokens t.id
    then (some integrity_error, tokens)
    else (none, tokens ++ t ∷ [])

abbrev pub principal_from_user : User → Principal
principal_from_user u = record {
  user_id = u.id;
  email = u.email;
  is_active = u.is_active;
  is_verified = u.is_verified;
  authz_version = u.authz_version;
}

abbrev event : Call → String → RefreshToken → Fields → AuditEvent
event call event_type stored metadata = record {
  id = call.event_id;
  user_id = some stored.user_id;
  event_type = event_type;
  metadata = metadata;
  created_at = call.utc_now;
  ip_address = call.ip_address;
  user_agent = call.user_agent;
}

-- `hash_token` is the SHA-256 digest of a token.
module _ (hash_token : String → String) (call : Call) where
  abbrev pub replacement : RefreshToken → ℕ → RefreshToken
  replacement stored expires_at = new_token call stored (hash_token call.opaque_token) expires_at

  abbrev pub after_create :
      RefreshToken → User → Option Raised × List RefreshToken → AuthDb → RotateResult × AuthDb
  after_create stored user (some exc, tokens) db = (raised exc, db)
  after_create stored user (none, tokens) db =
      let (access_token, expires_in) = call.issue stored.user_id user.authz_version in
      (
        issued
            (record {
              access_token = access_token;
              refresh_token = call.opaque_token;
              expires_in = expires_in;
            })
            (principal_from_user user),
        record db {
          refresh_tokens = revoke_refresh_token call.utc_now stored.id (some call.fresh_id) tokens;
          audit_events = db.audit_events ++ event call "auth.refresh_succeeded" stored end ∷ [];
        },
      )

  -- The branch of a token that is neither revoked nor expired.
  unfoldable pub renew : RefreshToken → Option User → AuthDb → RotateResult × AuthDb
  unfolding add_time create_refresh_token revoke_refresh_token
  renew stored none db = (invalid_credentials, db)
  renew stored (some user) db =
      if not user.is_active
      then (inactive_user, db)
      else elim (add_time call.now (days call.expire_days)) [
        | none ↦ (raised overflow_error, db)
        | some expires_at ↦
            after_create stored user
              (create_refresh_token (replacement stored expires_at) db.refresh_tokens) db
      ]

  unfoldable pub present : Option RefreshToken → AuthDb → RotateResult × AuthDb
  unfolding revoke_refresh_family revoke_refresh_token get_by_id
  present none db = (invalid_token, db)
  present (some stored) db =
      if is_some stored.revoked_at
      then (
        invalid_token,
        record db {
          refresh_tokens = revoke_refresh_family call.utc_now stored.family_id db.refresh_tokens;
          audit_events =
              db.audit_events
              ++ event call "auth.refresh_reuse_detected" stored
                  (field "family_id" (text (call.str_uuid stored.family_id)) end)
                ∷ [];
        },
      )
      else if leb stored.expires_at call.now
      then (
        invalid_token,
        record db {
          refresh_tokens = revoke_refresh_token call.utc_now stored.id none db.refresh_tokens;
        },
      )
      else renew stored (get_by_id stored.user_id db.users) db

  -- `_execute`
  unfoldable pub execute : Option String → AuthDb → RotateResult × AuthDb
  unfolding find_token
  execute none db = (invalid_token, db)
  execute (some refresh_token) db =
      if str_eq refresh_token ""
      then (invalid_token, db)
      else present (find_token (hash_token refresh_token) db.refresh_tokens) db
