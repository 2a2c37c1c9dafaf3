-- ===== src/Authentication/RequestToken.antt =====
-- src/features/authentication/application/use_cases/auth/request_password_reset.py and
-- request_email_verification.py, in the transaction of `issue_internal_token_transaction`, which the
-- outbox commits. `verify_password`, whose result is thrown away, has no part in the result.
pub mod Laws
pub mod Verify
use starter_template_fastapi.Base.{
  ℕ, ◌*◌, String, Bool, Option, none, some, List, str_append, if◌then◌else◌,
}
use starter_template_fastapi.Base.Clock.{seconds, add_time}
use starter_template_fastapi.Base.Json.{Fields, end, field, text, object, number}
use starter_template_fastapi.Users.Model.{User}
use starter_template_fastapi.Users.Repository.{get_by_id, get_by_email}
use starter_template_fastapi.Authentication.Models.{InternalToken, AuthDb}
use starter_template_fastapi.Authentication.Refresh.{Raised, overflow_error, Call}
use starter_template_fastapi.Authentication.Store.{
  invalidate_unused_tokens_for, create_internal_token, record_audit_event,
}
use starter_template_fastapi.Authentication.Login.{audit}
use starter_template_fastapi.Outbox.Message.{Row}
use starter_template_fastapi.Outbox.Producer.{
  EnqueueResult, staged, value_error, enqueue, commit_row,
}

-- `InternalTokenResult`
pub record InternalTokenResult : Type 0 where
  pub token : Option String
  pub expires_at : Option ℕ

pub data RequestResult : Type 0 where
  requested : InternalTokenResult → RequestResult
  not_found : RequestResult
  raised : Raised → RequestResult

-- What tells the two requests apart: the purpose, the audit event, the template, the key and the path of
-- the link, and the lifetime in minutes.
pub record Purpose : Type 0 where
  pub purpose : String
  pub event_type : String
  pub template_name : String
  pub url_key : String
  pub url_path : String
  pub expire_minutes : ℕ

-- What a call draws from outside besides the values of `Call`, and the settings that it reads:
-- `minutes_text` writes a number into the payload.
pub record RequestCall : Type 0 where
  pub call : Call
  pub message_id : ℕ
  pub enqueued_at : ℕ
  pub carrier : Fields
  pub app_name : String
  pub public_url : String
  pub rstrip_slash : String → String
  pub minutes_text : ℕ → String
  pub return_internal_tokens : Bool

module _ (hash_token : String → String) (c : RequestCall) (p : Purpose) where
  -- `_reset_url` and `_verify_url`; `rstrip_slash` is `rstrip('/')`.
  abbrev pub token_url : String → String
  token_url token = str_append (c.rstrip_slash c.public_url) (str_append p.url_path token)

  abbrev pub new_internal_token : User → ℕ → InternalToken
  new_internal_token user expires_at = record {
    id = c.call.fresh_id;
    user_id = some user.id;
    purpose = p.purpose;
    token_hash = hash_token c.call.opaque_token;
    expires_at = expires_at;
    used_at = none;
    created_at = c.call.utc_now;
    created_ip = c.call.ip_address;
  }

  -- The payload of the `send_email` job.
  abbrev pub email_payload : User → Fields
  email_payload user = field "to" (text user.email) (
      field "template_name" (text p.template_name) (
        field "context"
          (object (
            field "app_name" (text c.app_name) (
              field "email" (text user.email) (
                field p.url_key (text (token_url c.call.opaque_token))
                  (field "expires_in_minutes" (number (c.minutes_text p.expire_minutes)) end)))))
          end))

  abbrev pub with_message :
      User → ℕ → List InternalToken → EnqueueResult → AuthDb → RequestResult × AuthDb
  with_message user expires_at tokens value_error db = (raised Raised.value_error, db)
  with_message user expires_at tokens (staged row) db = (
    requested (record {
      token = if c.return_internal_tokens then some c.call.opaque_token else none;
      expires_at = some expires_at;
    }),
    record_audit_event (record (audit c.call p.event_type (some user.id) end) { user_agent = none })
        (record db { internal_tokens = tokens; outbox = commit_row row db.outbox }),
  )

  abbrev pub with_token :
      User → ℕ → Option Raised × List InternalToken → AuthDb → RequestResult × AuthDb
  with_token user expires_at (some exc, tokens) db = (raised exc, db)
  with_token user expires_at (none, tokens) db =
      with_message user expires_at tokens
        (enqueue c.message_id c.enqueued_at c.carrier "send_email" (email_payload user) none) db

  abbrev pub with_expiry : User → Option ℕ → AuthDb → RequestResult × AuthDb
  with_expiry user none db = (raised overflow_error, db)
  with_expiry user (some expires_at) db =
      with_token user expires_at
        (create_internal_token (new_internal_token user expires_at)
          (invalidate_unused_tokens_for c.call.utc_now user.id p.purpose db.internal_tokens).1)
        db

  -- The transaction of a user who was found
  unfoldable pub issue_token : User → AuthDb → RequestResult × AuthDb
  unfolding add_time invalidate_unused_tokens_for create_internal_token record_audit_event enqueue
  issue_token user db = with_expiry user (add_time c.call.now (seconds (p.expire_minutes * 60))) db

  abbrev pub reset_for : Option User → AuthDb → RequestResult × AuthDb
  reset_for none db = (requested (record { token = none; expires_at = none }), db)
  reset_for (some user) db = issue_token user db

  abbrev pub verification_for : Option User → AuthDb → RequestResult × AuthDb
  verification_for none db = (not_found, db)
  verification_for (some user) db = issue_token user db

abbrev pub password_reset : ℕ → Purpose
password_reset minutes = record {
  purpose = "password_reset";
  event_type = "auth.password_reset_requested";
  template_name = "authentication/password_reset";
  url_key = "reset_url";
  url_path = "/auth/password/reset?token=";
  expire_minutes = minutes;
}

abbrev pub email_verification : ℕ → Purpose
email_verification minutes = record {
  purpose = "email_verify";
  event_type = "auth.email_verify_requested";
  template_name = "authentication/verify_email";
  url_key = "verify_url";
  url_path = "/auth/email/verify?token=";
  expire_minutes = minutes;
}

-- `RequestPasswordReset.execute`
unfoldable pub request_password_reset :
    (String → String)
    → (String → String)
    → (String → String)
    → ℕ
    → RequestCall
    → String
    → AuthDb
    → RequestResult × AuthDb
unfolding issue_token get_by_email
request_password_reset lower strip hash_token minutes c email db =
    reset_for hash_token c (password_reset minutes)
      (get_by_email lower strip (lower (strip email)) db.users) db

-- `RequestEmailVerification.execute`
unfoldable pub request_email_verification :
    (String → String) → ℕ → RequestCall → ℕ → AuthDb → RequestResult × AuthDb
unfolding issue_token get_by_id
request_email_verification hash_token minutes c user_id db =
    verification_for hash_token c (email_verification minutes) (get_by_id user_id db.users) db
