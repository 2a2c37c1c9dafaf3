-- ===== src/Authentication/Purge.antt =====
-- src/features/authentication/application/use_cases/maintenance/purge_expired_tokens.py, and the
-- batched deletes of adapters/outbound/persistence/sqlmodel/repository.py. A batch is a transaction.
pub mod Exact
use starter_template_fastapi.Base.{ℕ, Bool, ◌||◌, Option, none, some, List, map, ltb}
use starter_template_fastapi.Base.Clock.{days, sub_time}
use starter_template_fastapi.Base.Maybe.{◌>>=◌}
use starter_template_fastapi.Authentication.Models.{RefreshToken, InternalToken, AuthDb}
use starter_template_fastapi.Authentication.Store.{unlink}
use starter_template_fastapi.Outbox.Prune.{drain}
use starter_template_fastapi.Outbox.Repository.{before_cutoff, delete_oldest}

-- expires_at < :cutoff OR revoked_at < :cutoff
unfoldable pub refresh_expired : ℕ → RefreshToken → Bool
refresh_expired cutoff t = ltb t.expires_at cutoff || before_cutoff cutoff t.revoked_at

-- used_at < :cutoff OR expires_at < :cutoff
unfoldable pub internal_expired : ℕ → InternalToken → Bool
internal_expired cutoff t = before_cutoff cutoff t.used_at || ltb t.expires_at cutoff

abbrev pub batch_limit : ℕ
batch_limit = 10000

-- One batch. No ORDER BY fixes which rows the LIMIT lets through: `scan` orders them.
unfoldable pub delete_refresh_batch :
    ℕ → (RefreshToken → Option ℕ) → List RefreshToken → ℕ × List RefreshToken
unfolding delete_oldest refresh_expired
delete_refresh_batch cutoff scan tokens =
    let (deleted, kept) =
      delete_oldest (λ t. t.id) (refresh_expired cutoff) scan batch_limit tokens in
    (deleted, map (unlink kept) kept)

unfoldable pub delete_internal_batch :
    ℕ → (InternalToken → Option ℕ) → List InternalToken → ℕ × List InternalToken
unfolding delete_oldest internal_expired
delete_internal_batch cutoff scan =
    delete_oldest (λ t. t.id) (internal_expired cutoff) scan batch_limit

-- `delete_expired_refresh_tokens`, its loop on fuel
unfoldable pub delete_expired_refresh_tokens :
    ℕ → ℕ → (RefreshToken → Option ℕ) → List RefreshToken → Option (ℕ × List RefreshToken)
unfolding drain delete_refresh_batch
delete_expired_refresh_tokens fuel cutoff scan tokens =
    drain fuel (delete_refresh_batch cutoff scan) 0 tokens

-- `delete_expired_internal_tokens`, its loop on fuel
unfoldable pub delete_expired_internal_tokens :
    ℕ → ℕ → (InternalToken → Option ℕ) → List InternalToken → Option (ℕ × List InternalToken)
unfolding drain delete_internal_batch
delete_expired_internal_tokens fuel cutoff scan tokens =
    drain fuel (delete_internal_batch cutoff scan) 0 tokens

pub record PurgeReport : Type 0 where
  pub refresh_tokens_deleted : ℕ
  pub internal_tokens_deleted : ℕ

-- OverflowError comes from `now - timedelta(…)`.
pub data PurgeResult : Type 0 where
  report : PurgeReport → PurgeResult
  overflow_error : PurgeResult

module _ (fuel : ℕ) (refresh_scan : RefreshToken → Option ℕ)
    (internal_scan : InternalToken → Option ℕ) where
  unfoldable pub purge_before : ℕ → AuthDb → Option (PurgeResult × AuthDb)
  unfolding delete_expired_refresh_tokens delete_expired_internal_tokens
  purge_before cutoff db = do
    (refresh_deleted, refresh_tokens) ←
        delete_expired_refresh_tokens fuel cutoff refresh_scan db.refresh_tokens
    (internal_deleted, internal_tokens) ←
        delete_expired_internal_tokens fuel cutoff internal_scan db.internal_tokens
    some (
      report (record {
        refresh_tokens_deleted = refresh_deleted;
        internal_tokens_deleted = internal_deleted;
      }),
      record db { refresh_tokens = refresh_tokens; internal_tokens = internal_tokens },
    )

  -- `PurgeExpiredTokens.execute` at the instant `now`
  unfoldable pub purge_expired_tokens : ℕ → ℕ → AuthDb → Option (PurgeResult × AuthDb)
  unfolding sub_time purge_before
  purge_expired_tokens now retention_days db = elim (sub_time now (days retention_days)) [
    | none ↦ some (overflow_error, db)
    | some cutoff ↦ purge_before cutoff db
  ]
