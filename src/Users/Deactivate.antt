-- ===== src/Users/Deactivate.antt =====
-- src/features/users/application/use_cases/deactivate_user.py, with the revoker that main.py wires:
-- `logout_all_sessions`, which commits by itself.
pub mod Laws
use starter_template_fastapi.Base.{ℕ, String, Bool, false, Option, none, some, if◌then◌else◌}
use starter_template_fastapi.Base.Json.{Fields, end, field, text}
use starter_template_fastapi.Users.Model.{User, UserError, user_not_found}
use starter_template_fastapi.Users.Repository.{get_by_id, set_active}
use starter_template_fastapi.Authentication.Models.{AuthDb}
use starter_template_fastapi.Authentication.Refresh.{Call}
use starter_template_fastapi.Authentication.Logout.{logout_all}
use starter_template_fastapi.Outbox.Producer.{
  EnqueueResult, staged, value_error, enqueue, commit_row,
}

-- `Result[None, UserError]`
pub data UserDone : Type 0 where
  done : UserDone
  failed : UserError → UserDone
  raises : UserDone

-- What the enqueue of the cleanup job draws: the id and the time of the row, and the trace carrier.
pub record Cleanup : Type 0 where
  pub message_id : ℕ
  pub enqueued_at : ℕ
  pub carrier : Fields

-- `writer.enqueue` of the job `delete_user_assets`
abbrev pub enqueue_cleanup : (ℕ → String) → Cleanup → ℕ → EnqueueResult
enqueue_cleanup str_uuid c user_id =
    enqueue c.message_id c.enqueued_at c.carrier "delete_user_assets"
      (field "user_id" (text (str_uuid user_id)) end) none

-- The commit of the outbox transaction: the rows that the block wrote, and the message.
abbrev pub commit_with : EnqueueResult → AuthDb → AuthDb → UserDone × AuthDb
commit_with value_error db written = (raises, db)
commit_with (staged row) db written =
    (done, record written { outbox = commit_row row written.outbox })

module _ {C : Type 0} (invalidate_user : ℕ → C → C) (call : Call) (cleanup : Cleanup)
    (now : ℕ) where
  -- The outbox transaction, or the repository's own.
  abbrev pub flip : Bool → ℕ → AuthDb → UserDone × AuthDb
  flip outbox_wired user_id db =
      let written = record db { users = set_active now false user_id db.users } in
      if outbox_wired
      then commit_with (enqueue_cleanup call.str_uuid cleanup user_id) db written
      else (done, written)

  abbrev pub deactivate_found :
      Bool → Bool → ℕ → Option User → Option C → AuthDb → UserDone × (Option C × AuthDb)
  deactivate_found revoker_wired outbox_wired user_id none cache db =
      (failed user_not_found, (cache, db))
  deactivate_found revoker_wired outbox_wired user_id (some existing) cache db =
      let revoked =
        if revoker_wired then logout_all invalidate_user call user_id cache db else (cache, db) in
      let flipped = flip outbox_wired user_id revoked.1 in (flipped.0, (revoked.0, flipped.1))

  -- `execute`
  unfoldable pub deactivate_user :
      Bool → Bool → ℕ → Option C → AuthDb → UserDone × (Option C × AuthDb)
  unfolding get_by_id set_active logout_all enqueue
  deactivate_user revoker_wired outbox_wired user_id cache db =
      deactivate_found revoker_wired outbox_wired user_id (get_by_id user_id db.users) cache db
