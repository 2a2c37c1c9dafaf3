-- ===== src/Authentication/Tests/Accounts.antt =====
-- The theorems of accounts, sessions and single-use tokens at a small database.
use starter_template_fastapi.Base.{
  ℕ, ◌≡◌, ◌⊎◌, refl, String, Bool, true, false, Option, none, some, List, [], ◌∷◌, ◌++◌, str_append,
  arith, str_eq, if◌then◌else◌, length, suc,
}
use starter_template_fastapi.Base.Clock.{add_time}
use starter_template_fastapi.Base.Json.{end, get, text}
use starter_template_fastapi.Users.Model.{User}
use starter_template_fastapi.Users.Repository.{
  update_row, get_raw_by_id, get_by_id, find_email, get_by_email, new_user, create, email_taken,
  scrub_for_erasure,
}
use starter_template_fastapi.Users.Deactivate.{done, Cleanup, deactivate_user}
use starter_template_fastapi.Users.Deactivate.Laws.{
  Inactive, belongs, deactivate_user-ends_sessions,
}
use starter_template_fastapi.Users.Erase.{erase_user}
use starter_template_fastapi.Users.Erase.Laws.{Erased, erase_user-Erased}
use starter_template_fastapi.Outbox.Message.{Row}
use starter_template_fastapi.Outbox.Producer.{enqueue}
use starter_template_fastapi.Authentication.Models.{
  RefreshToken, InternalToken, Principal, IssuedTokens, AuthDb,
}
use starter_template_fastapi.Authentication.Refresh.{
  Call, find_token, family_owner, create_refresh_token,
}
use starter_template_fastapi.Authentication.Refresh as Refresh
use starter_template_fastapi.Authentication.Store.{
  find_credential, upsert_credential, find_internal_token, create_internal_token,
}
use starter_template_fastapi.Authentication.Login.{
  LoginCall, logged_in, invalid_credentials, open_session, credential_of, hash_or,
}
use starter_template_fastapi.Authentication.Login as Login
use starter_template_fastapi.Authentication.Login.Laws.{
  Admitted, Authenticated, OnlyFailure, execute-Admitted, execute-invalid_credentials,
}
use starter_template_fastapi.Authentication.Register.{registered}
use starter_template_fastapi.Authentication.Register as Register
use starter_template_fastapi.Authentication.Register.Laws.{FreshSession, Opened, execute-Opened}
use starter_template_fastapi.Authentication.Confirm.{
  confirmed, invalid_token, token_already_used, confirm_password_reset, confirm_email_verification,
}
use starter_template_fastapi.Authentication.Confirm.Laws.{
  confirm_password_reset-once, confirm_password_reset-ends_sessions,
}
use starter_template_fastapi.Authentication.Store.Laws.{HasHash}
use starter_template_fastapi.Authentication.RequestToken.{
  RequestCall, InternalTokenResult, requested, raised, email_verification, issue_token,
  request_email_verification,
}
use starter_template_fastapi.Authentication.RequestToken.Laws.{Sent, issue_token-Sent}
use starter_template_fastapi.Authentication.RequestToken.Verify.{
  Verified, mail_entry, request_email_verification-confirmed,
}
use starter_template_fastapi.Authentication.Tests.{digest, call, token, user, db}

-- A hash is the password, and the dummy hash verifies none.
abbrev verify : String → String → Bool
verify hash password = if str_eq hash "" then false else str_eq hash password

abbrev login_call : LoginCall
login_call = record {
  call = call 20 14 "four";
  family_id = 2;
  logged_at = 20;
  require_email_verification = false;
}

abbrev newcomer : User
newcomer = new_user 8 10 "new@b"

abbrev registered_db : AuthDb
registered_db = (Register.execute digest digest digest (call 10 8 "none") 31 "new@b" "pw" db).1

registers :
    Register.execute digest digest digest (call 10 8 "none") 31 "new@b" "pw" db
    ≡ (registered newcomer, registered_db)
unfolding Register.execute create email_taken upsert_credential find_credential
registers = refl

fresh : FreshSession digest login_call registered_db.refresh_tokens
unfolding Register.execute create email_taken upsert_credential find_credential find_token
    family_owner add_time
fresh = record {
  expires_at = 2592000000020;
  lasts = refl;
  new_hash = refl;
  new_id = refl;
  new_family = refl;
}

execute-Opened_example :
    Opened digest newcomer
      (Login.execute digest digest digest verify "" login_call "new@b" "pw" registered_db)
execute-Opened_example =
    execute-Opened digest digest digest (call 10 8 "none") 31 digest verify "" login_call "new@b"
      "pw" db refl refl fresh registers

abbrev login_tokens : IssuedTokens
login_tokens = record { access_token = "jwt"; refresh_token = "four"; expires_in = 900 }

abbrev newcomer_principal : Principal
newcomer_principal = record {
  user_id = 8;
  email = "new@b";
  is_active = true;
  is_verified = false;
  authz_version = 1;
}

abbrev session_db : AuthDb
session_db = (Login.execute digest digest digest verify "" login_call "new@b" "pw" registered_db).1

logs_in :
    Login.execute digest digest digest verify "" login_call "new@b" "pw" registered_db
    ≡ (logged_in login_tokens newcomer_principal, session_db)
unfolding Register.execute create email_taken upsert_credential find_credential find_token
    family_owner add_time Login.execute open_session get_by_email find_email create_refresh_token
logs_in = refl

execute-Admitted_example :
    Admitted digest digest digest verify "" login_call "new@b" "pw" newcomer_principal registered_db
execute-Admitted_example =
    execute-Admitted digest digest digest verify "" login_call "new@b" "pw" registered_db
      (λ password. refl) logs_in

unknown : get_by_email digest digest "who@b" db.users ≡ none
unfolding get_by_email find_email
unknown = refl

execute-invalid_credentials_example :
    (let (answer, db') = Login.execute digest digest digest verify "" login_call "who@b" "pw" db in
      ((answer ≡ invalid_credentials) × OnlyFailure db db')
      ⊎ Authenticated digest digest digest verify "" login_call "who@b" "pw" db)
execute-invalid_credentials_example =
    execute-invalid_credentials digest digest digest verify "" login_call "who@b" "pw" db
      (λ text. refl)

-- The user 7 with a reset token that was sent at 10.
abbrev reset_token : InternalToken
reset_token = record {
  id = 41;
  user_id = some 7;
  purpose = "password_reset";
  token_hash = "reset";
  expires_at = 60;
  used_at = none;
  created_at = 10;
  created_ip = none;
}

abbrev asked_db : AuthDb
asked_db = record db { internal_tokens = reset_token ∷ [] }

abbrev reset_db : AuthDb
reset_db = (confirm_password_reset digest (call 20 51 "none") digest "reset" "new" asked_db).1

resets :
    confirm_password_reset digest (call 20 51 "none") digest "reset" "new" asked_db
    ≡ (confirmed 7, reset_db)
unfolding confirm_password_reset find_internal_token upsert_credential find_credential
resets = refl

confirm_password_reset-once_example :
    HasHash 7 "argon2" "new" reset_db.credentials
    × (let (answer, db'') =
          confirm_password_reset digest (call 30 52 "none") digest "reset" "other" reset_db in
        (db'' ≡ reset_db) × ((answer ≡ invalid_token) ⊎ (answer ≡ token_already_used)))
confirm_password_reset-once_example =
    confirm_password_reset-once digest (call 20 51 "none") digest "reset" "new" asked_db
      (call 30 52 "none") "other" resets

abbrev revoked : ℕ → RefreshToken → RefreshToken
revoked at t = record t { revoked_at = some at }

two_revoked : find_token "two" reset_db.refresh_tokens ≡ some (revoked 20 (token 12 "two" none))
unfolding confirm_password_reset find_internal_token upsert_credential find_credential find_token
two_revoked = refl

confirm_password_reset-ends_sessions_example :
    (Refresh.execute digest (call 30 52 "three") (some "two") reset_db).0 ≡ Refresh.invalid_token
confirm_password_reset-ends_sessions_example =
    confirm_password_reset-ends_sessions digest (call 20 51 "none") digest "reset" "new" asked_db
      (call 30 52 "three") "two" resets two_revoked refl

abbrev request_call : RequestCall
request_call = record {
  call = call 10 42 "mail";
  message_id = 61;
  enqueued_at = 10;
  carrier = end;
  app_name = "app";
  public_url = "http://x";
  rstrip_slash = digest;
  minutes_text = λ n. "60";
  return_internal_tokens = false;
}

issue_token-Sent_example :
    (let (answer, db') = issue_token digest request_call (email_verification 60) user asked_db in
      ((db' ≡ asked_db) × ((exc : Refresh.Raised) × (answer ≡ raised exc)))
      ⊎ Sent 7 "email_verify" asked_db db')
issue_token-Sent_example =
    issue_token-Sent digest request_call (email_verification 60) user asked_db

abbrev request_answer : InternalTokenResult
request_answer = record { token = none; expires_at = some 3600000010 }

abbrev requested_db : AuthDb
requested_db = (request_email_verification digest 60 request_call 7 asked_db).1

requests :
    request_email_verification digest 60 request_call 7 asked_db
    ≡ (requested request_answer, requested_db)
unfolding request_email_verification get_by_id get_raw_by_id issue_token add_time
    create_internal_token
requests = refl

request_email_verification-confirmed_example :
    (token : String) × (u : User) × (row : Row) × (get_by_id 7 asked_db.users ≡ some u)
    × (requested_db.outbox.messages ≡ asked_db.outbox.messages ++ row ∷ [])
    × (row.job_name ≡ "send_email")
    × (get "to" row.payload ≡ some (text u.email))
    × (mail_entry "verify_url" row.payload
        ≡ some (
            str_append
              (request_call.rstrip_slash request_call.public_url)
              (str_append "/auth/email/verify?token=" token)))
    × (let (answer, db'') =
          confirm_email_verification digest (call 30 53 "none") token requested_db in
        (answer ≡ confirmed 7) × Verified 7 db''.users)
request_email_verification-confirmed_example =
    request_email_verification-confirmed digest 60 request_call 7 asked_db (call 30 53 "none")
      requests refl (omega arith)

abbrev cleanup : Cleanup
cleanup = record { message_id = 62; enqueued_at = 40; carrier = end }

abbrev erased_db : AuthDb
erased_db = (erase_user (λ id. "id") 91 40 cleanup 7 "self_request" session_db).1

there : get_raw_by_id 7 session_db.users ≡ some user
unfolding Register.execute create email_taken upsert_credential find_credential find_token
    family_owner add_time Login.execute open_session get_by_email find_email create_refresh_token
    get_raw_by_id update_row
there = refl

erases : erase_user (λ id. "id") 91 40 cleanup 7 "self_request" session_db ≡ (done, erased_db)
unfolding Register.execute create email_taken upsert_credential find_credential find_token
    family_owner add_time Login.execute open_session get_by_email find_email create_refresh_token
    get_raw_by_id erase_user scrub_for_erasure get_by_id update_row enqueue
erases = refl

erase_user-Erased_example :
    Erased (λ id. "id") 40 7 user erased_db
    × (length erased_db.outbox.messages ≡ suc (length session_db.outbox.messages))
    × (erase_user (λ id. "id") 92 50 cleanup 7 "admin_request" erased_db ≡ (done, erased_db))
erase_user-Erased_example =
    erase_user-Erased (λ id. "id") 91 40 cleanup 7 "self_request" session_db 92 50 cleanup
      "admin_request" there refl erases

abbrev forget : ℕ → List ℕ → List ℕ
forget user_id users = user_id ∷ users

abbrev left_db : AuthDb
left_db = (deactivate_user forget (call 40 54 "none") cleanup 41 true true 7 (some []) db).1.1

leaves :
    deactivate_user forget (call 40 54 "none") cleanup 41 true true 7 (some []) db
    ≡ (done, (some (7 ∷ []), left_db))
unfolding deactivate_user get_by_id get_raw_by_id
leaves = refl

-- The token that is presented below is one of the user's.
two_left : belongs 7 (find_token "two" left_db.refresh_tokens) ≡ true
unfolding deactivate_user get_by_id get_raw_by_id find_token
two_left = refl

deactivate_user-ends_sessions_example :
    ((u : User) × (get_by_id 7 db.users ≡ some u) × Inactive u 7 left_db.users)
    × (◌≡◌ {A = Option (List ℕ)} (some (7 ∷ [])) (some (7 ∷ [])))
    × (length left_db.outbox.messages ≡ suc (length db.outbox.messages))
    × ((belongs 7 (find_token "two" left_db.refresh_tokens) ≡ false)
        ⊎ ((Refresh.execute digest (call 50 55 "three") (some "two") left_db).0
            ≡ Refresh.invalid_token))
deactivate_user-ends_sessions_example =
    deactivate_user-ends_sessions forget (call 40 54 "none") cleanup 41 7 (some []) db digest
      (call 50 55 "three") "two" leaves
