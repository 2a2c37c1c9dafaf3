-- ===== src/Authentication/Models.antt =====
-- The rows of src/features/authentication/adapters/outbound/persistence/sqlmodel/models.py, and what
-- the use cases hand on.
use starter_template_fastapi.Base.{ℕ, String, Bool, Option, List}
use starter_template_fastapi.Base.Json.{Fields}
use starter_template_fastapi.Users.Model.{User}
use starter_template_fastapi.Outbox.Message.{Db}

-- `RefreshTokenTable`, and the domain's `RefreshToken`, which has the same fields.
pub record RefreshToken : Type 0 where
  pub id : ℕ
  pub user_id : ℕ
  pub token_hash : String
  pub family_id : ℕ
  pub expires_at : ℕ
  pub revoked_at : Option ℕ
  pub replaced_by_token_id : Option ℕ
  pub created_at : ℕ
  pub created_ip : Option String
  pub user_agent : Option String

-- `AuthAuditEventTable`, and the domain's `AuditEvent`
pub record AuditEvent : Type 0 where
  pub id : ℕ
  pub user_id : Option ℕ
  pub event_type : String
  pub metadata : Fields
  pub created_at : ℕ
  pub ip_address : Option String
  pub user_agent : Option String

-- `CredentialTable`, and the domain's `Credential`
pub record Credential : Type 0 where
  pub id : ℕ
  pub user_id : ℕ
  pub algorithm : String
  pub hash : String
  pub last_changed_at : ℕ
  pub created_at : ℕ

-- `AuthInternalTokenTable`, and the domain's `InternalToken`
pub record InternalToken : Type 0 where
  pub id : ℕ
  pub user_id : Option ℕ
  pub purpose : String
  pub token_hash : String
  pub expires_at : ℕ
  pub used_at : Option ℕ
  pub created_at : ℕ
  pub created_ip : Option String

pub record Principal : Type 0 where
  pub user_id : ℕ
  pub email : String
  pub is_active : Bool
  pub is_verified : Bool
  pub authz_version : ℕ

-- The token type is always "bearer".
pub record IssuedTokens : Type 0 where
  pub access_token : String
  pub refresh_token : String
  pub expires_in : ℕ

-- The tables of the feature, the `users` table, and those of the outbox.
pub record AuthDb : Type 0 where
  pub refresh_tokens : List RefreshToken
  pub audit_events : List AuditEvent
  pub users : List User
  pub credentials : List Credential
  pub internal_tokens : List InternalToken
  pub outbox : Db
