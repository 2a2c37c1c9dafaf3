-- ===== src/Users/Erase.antt =====
-- src/features/users/application/use_cases/erase_user.py, with `SQLModelAuthArtifactsCleanupAdapter` of
-- src/features/authentication/adapters/outbound/auth_artifacts_cleanup/sqlmodel.py, in one transaction.
pub mod Laws
use starter_template_fastapi.Base.{
  ℕ, String, Bool, not, Option, none, some, List, [], ◌∷◌, ◌++◌, map, filter, if◌then◌else◌, ◌==◌,
}
use starter_template_fastapi.Base.Json.{Fields, end, field, text, without_key}
use starter_template_fastapi.Base.Keys.{has_id}
use starter_template_fastapi.Users.Model.{User, user_not_found}
use starter_template_fastapi.Users.Repository.{
  get_raw_by_id, ScrubResult, scrubbed, integrity_error, scrub_for_erasure,
}
use starter_template_fastapi.Users.Deactivate.{
  UserDone, done, failed, raises, Cleanup, enqueue_cleanup, commit_with,
}
use starter_template_fastapi.Authentication.Models.{
  RefreshToken, AuditEvent, Credential, InternalToken, AuthDb,
}
use starter_template_fastapi.Authentication.Store.{
  is_user, delete_refresh_tokens, record_audit_event,
}

-- metadata - 'family_id' - 'ip_address' - 'user_agent'
unfoldable pub strip_pii : Fields → Fields
unfolding without_key
strip_pii metadata =
    without_key "user_agent" (without_key "ip_address" (without_key "family_id" metadata))

-- `_scrub_audit_events_on_session`
unfoldable pub scrub_audit_events : ℕ → List AuditEvent → List AuditEvent
unfolding strip_pii
scrub_audit_events user_id events =
    map
      (λ e.
        if is_user user_id e.user_id
        then record e { ip_address = none; user_agent = none; metadata = strip_pii e.metadata }
        else e)
      events

-- `_delete_artifacts_on_session`
unfoldable pub delete_credentials_and_tokens : ℕ → AuthDb → AuthDb
unfolding delete_refresh_tokens
delete_credentials_and_tokens user_id db = record db {
  credentials = filter (λ c. not (c.user_id == user_id)) db.credentials;
  refresh_tokens = delete_refresh_tokens (λ t. t.user_id == user_id) db.refresh_tokens;
  internal_tokens = filter (λ t. not (is_user user_id t.user_id)) db.internal_tokens;
}

-- The event of `record_user_erased_event`; `str_uuid` is `str` of a UUID.
abbrev pub erased_event : (ℕ → String) → ℕ → ℕ → ℕ → String → AuditEvent
erased_event str_uuid event_id now user_id reason = record {
  id = event_id;
  user_id = some user_id;
  event_type = "user.erased";
  metadata = field "user_id" (text (str_uuid user_id)) (field "reason" (text reason) end);
  created_at = now;
  ip_address = none;
  user_agent = none;
}

module _ (str_uuid : ℕ → String) (event_id now : ℕ) (cleanup : Cleanup) (user_id : ℕ)
    (reason : String) where
  -- The rest of the transaction, once the user's row is scrubbed.
  abbrev pub erase_scrubbed : ScrubResult → AuthDb → AuthDb → UserDone × AuthDb
  erase_scrubbed integrity_error db cleared = (raises, db)
  erase_scrubbed (scrubbed did users) db cleared =
      commit_with (enqueue_cleanup str_uuid cleanup user_id) db (
        record_audit_event (erased_event str_uuid event_id now user_id reason)
          (record cleared { users = users }))

  abbrev pub erase_found : Option User → AuthDb → UserDone × AuthDb
  erase_found none db = (failed user_not_found, db)
  erase_found (some existing) db =
      if existing.is_erased
      then (done, db)
      else erase_scrubbed (scrub_for_erasure str_uuid now user_id db.users) db (
          delete_credentials_and_tokens user_id
            (record db { audit_events = scrub_audit_events user_id db.audit_events }))

  -- `execute`
  unfoldable pub erase_user : AuthDb → UserDone × AuthDb
  unfolding get_raw_by_id scrub_for_erasure delete_credentials_and_tokens scrub_audit_events
  erase_user db = erase_found (get_raw_by_id user_id db.users) db
