-- ===== src/Authentication/Store.antt =====
-- Statements of src/features/authentication/adapters/outbound/persistence/sqlmodel/repository.py on
-- the credentials, the refresh tokens of a user and the internal tokens. The id of a new audit event is
-- taken as new.
pub mod Laws
use starter_template_fastapi.Base.{
  ℕ, String, Bool, false, not, ◌&&◌, ◌||◌, Option, none, some, List, [], ◌∷◌, ◌++◌, map, filter,
  count, str_eq, ◌==◌, if◌then◌else◌, is_some, any,
}
use starter_template_fastapi.Base.Json.{Fields}
use starter_template_fastapi.Base.Keys.{has_id}
use starter_template_fastapi.Authentication.Models.{
  RefreshToken, AuditEvent, Credential, InternalToken, AuthDb,
}
use starter_template_fastapi.Authentication.Refresh.{Raised, integrity_error, or_now}

-- user_id = :user_id, on a column that may be NULL
abbrev pub is_user : ℕ → Option ℕ → Bool
is_user user_id none = false
is_user user_id (some id) = id == user_id

-- `get_credential_for_user`
unfoldable pub find_credential : ℕ → String → List Credential → Option Credential
find_credential user_id algorithm [] = none
find_credential user_id algorithm (c ∷ credentials) =
    if c.user_id == user_id && str_eq c.algorithm algorithm
    then some c
    else find_credential user_id algorithm credentials

abbrev pub new_credential : ℕ → ℕ → ℕ → String → String → Credential
new_credential id now user_id algorithm hash = record {
  id = id;
  user_id = user_id;
  algorithm = algorithm;
  hash = hash;
  last_changed_at = now;
  created_at = now;
}

-- `upsert_credential`: the pair of user and algorithm is unique; the INSERT raises on an id that is
-- there.
unfoldable pub upsert_credential :
    ℕ → ℕ → ℕ → String → String → List Credential → Option Raised × List Credential
unfolding find_credential
upsert_credential id now user_id algorithm hash credentials =
    if is_some (find_credential user_id algorithm credentials)
    then (
      none,
      map
          (λ c.
            if c.user_id == user_id && str_eq c.algorithm algorithm
            then record c { hash = hash; last_changed_at = now }
            else c)
          credentials,
    )
    else if has_id (λ (c : Credential). c.id) credentials id
    then (some integrity_error, credentials)
    else (none, credentials ++ new_credential id now user_id algorithm hash ∷ [])

-- `revoke_user_refresh_tokens`
unfoldable pub revoke_user_refresh_tokens : ℕ → ℕ → List RefreshToken → List RefreshToken
revoke_user_refresh_tokens now user_id tokens =
    map
      (λ t.
        if t.user_id == user_id && not (is_some t.revoked_at)
        then record t { revoked_at = some now }
        else t)
      tokens

-- ON DELETE SET NULL of `replaced_by_token_id`
abbrev pub unlinked : List RefreshToken → Option ℕ → Option ℕ
unlinked kept none = none
unlinked kept (some id) = if has_id (λ (t : RefreshToken). t.id) kept id then some id else none

abbrev pub unlink : List RefreshToken → RefreshToken → RefreshToken
unlink kept t = record t { replaced_by_token_id = unlinked kept t.replaced_by_token_id }

-- DELETE of the rows that pass a test
unfoldable pub delete_refresh_tokens : (RefreshToken → Bool) → List RefreshToken → List RefreshToken
delete_refresh_tokens doomed tokens =
    let kept = filter (λ t. not (doomed t)) tokens in map (unlink kept) kept

-- `get_internal_token`, and `get_internal_token_for_update`
unfoldable pub find_internal_token : String → String → List InternalToken → Option InternalToken
find_internal_token token_hash purpose [] = none
find_internal_token token_hash purpose (t ∷ tokens) =
    if str_eq t.token_hash token_hash && str_eq t.purpose purpose
    then some t
    else find_internal_token token_hash purpose tokens

-- `mark_internal_token_used`
unfoldable pub mark_internal_token_used : ℕ → ℕ → List InternalToken → List InternalToken
mark_internal_token_used now token_id tokens =
    map (λ t. if t.id == token_id then record t { used_at = or_now t.used_at now } else t) tokens

-- An unused token of a user for a purpose.
unfoldable pub unused_for : ℕ → String → InternalToken → Bool
unused_for user_id purpose t =
    is_user user_id t.user_id && str_eq t.purpose purpose && not (is_some t.used_at)

-- `invalidate_unused_tokens_for` returns the rowcount.
unfoldable pub invalidate_unused_tokens_for :
    ℕ → ℕ → String → List InternalToken → ℕ × List InternalToken
unfolding unused_for
invalidate_unused_tokens_for now user_id purpose tokens = (
  count (unused_for user_id purpose) tokens,
  map (λ t. if unused_for user_id purpose t then record t { used_at = some now } else t) tokens,
)

-- `create_internal_token`: the INSERT raises IntegrityError on a hash or an id that is there.
unfoldable pub create_internal_token :
    InternalToken → List InternalToken → Option Raised × List InternalToken
create_internal_token t tokens =
    if any (λ x. str_eq x.token_hash t.token_hash) tokens
      || has_id (λ (x : InternalToken). x.id) tokens t.id
    then (some integrity_error, tokens)
    else (none, tokens ++ t ∷ [])

-- `record_audit_event`
unfoldable pub record_audit_event : AuditEvent → AuthDb → AuthDb
record_audit_event e db = record db { audit_events = db.audit_events ++ e ∷ [] }
