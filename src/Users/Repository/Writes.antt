-- ===== src/Users/Repository/Writes.antt =====
-- The methods of the users repository that write, as one step each.
use starter_template_fastapi.Base.{ℕ, String, Bool, List}
use starter_template_fastapi.Users.Model.{User}
use starter_template_fastapi.Users.Repository.{
  mark_verified, bump_authz_version, set_active, update_last_login, ScrubResult, scrubbed,
  integrity_error, scrub_for_erasure, create, update_email,
}

-- A call of a writing method, with the time that it reads and the id that it draws.
pub data Write : Type 0 where
  creates : ℕ → ℕ → String → Write
  verifies bumps : ℕ → ℕ → Write
  renames : ℕ → ℕ → String → Write
  activates : ℕ → Bool → ℕ → Write
  logs_in erases : ℕ → ℕ → Write

abbrev pub kept_or : ScrubResult → List User → List User
kept_or (scrubbed done after) rows = after
kept_or integrity_error rows = rows

module _ (lower strip : String → String) (str_uuid : ℕ → String) where
  unfoldable pub written : Write → List User → List User
  unfolding create update_email mark_verified bump_authz_version set_active update_last_login
      scrub_for_erasure
  written (creates id now email) rows = (create lower strip id now email rows).1
  written (verifies now user_id) rows = mark_verified now user_id rows
  written (bumps now user_id) rows = bump_authz_version now user_id rows
  written (renames now user_id email) rows = (update_email lower strip now user_id email rows).1
  written (activates now is_active user_id) rows = set_active now is_active user_id rows
  written (logs_in at user_id) rows = update_last_login at user_id rows
  written (erases now user_id) rows = kept_or (scrub_for_erasure str_uuid now user_id rows) rows
