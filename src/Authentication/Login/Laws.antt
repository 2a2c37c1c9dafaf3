-- ===== src/Authentication/Login/Laws.antt =====
-- Who is let in by a login, and what a login that is refused has done.
use starter_template_fastapi.Base.{
  ℕ, ◌≡◌, ◌⊎◌, refl, inl, inr, String, Bool, true, false, not, ◌&&◌, Option, none, some, List,
  arith, if◌then◌else◌, Bool-cases, Option-cases,
}
use starter_template_fastapi.Base.Clock.{days, add_time}
use starter_template_fastapi.Users.Model.{User}
use starter_template_fastapi.Users.Repository.{get_by_email, update_last_login}
use starter_template_fastapi.Authentication.Models.{
  RefreshToken, AuditEvent, Credential, Principal, IssuedTokens, AuthDb,
}
use starter_template_fastapi.Authentication.Refresh.{Raised, principal_from_user}
use starter_template_fastapi.Authentication.Store.{find_credential, record_audit_event}
use starter_template_fastapi.Authentication.Login.{
  logged_in, invalid_credentials, inactive_user, email_not_verified, LoginCall, credential_of,
  hash_or, refuse, after_create, with_expiry, open_session, login_user, execute,
}

-- Nothing but one audit event `auth.login_failed` is new.
abbrev pub OnlyFailure : AuthDb → AuthDb → Type 0
OnlyFailure db db' =
    (e : AuditEvent) × (e.event_type ≡ "auth.login_failed") × (db' ≡ record_audit_event e db)

either_of : (a b : Bool) → (a && not b) ≡ false → (a ≡ false) ⊎ (b ≡ true)
either_of false b h = inl refl
either_of true b h = inr (ground arith)

module _ (hash_token : String → String) (c : LoginCall) where
  after_create-principal :
      (user : User) (created : Option Raised × List RefreshToken) (db : AuthDb)
      {tokens : IssuedTokens} {p : Principal} {db' : AuthDb}
      → after_create hash_token c user created db ≡ (logged_in tokens p, db')
      → p ≡ principal_from_user user
  after_create-principal user (some exc, tokens) db e = absurd (ground arith)
  after_create-principal user (none, tokens) db e = ground arith

  with_expiry-principal :
      (user : User) (expires_at : Option ℕ) (db : AuthDb) {tokens : IssuedTokens} {p : Principal}
      {db' : AuthDb}
      → with_expiry hash_token c user expires_at db ≡ (logged_in tokens p, db')
      → p ≡ principal_from_user user
  with_expiry-principal user none db e = absurd (ground arith)
  with_expiry-principal user (some expires_at) db e = after_create-principal user _ db e

  by_tests :
      (active unverified : Bool) (user : User) (db : AuthDb) {tokens : IssuedTokens} {p : Principal}
      {db' : AuthDb}
      → (if not active
          then refuse c.call (some user.id) "inactive_user" inactive_user db
          else if unverified
          then refuse c.call (some user.id) "email_not_verified" email_not_verified db
          else open_session hash_token c user db)
        ≡ (logged_in tokens p, db')
      → (active ≡ true) × (unverified ≡ false) × (p ≡ principal_from_user user)
  unfolding refuse open_session
  by_tests false unverified user db e = absurd (ground arith)
  by_tests true true user db e = absurd (ground arith)
  by_tests true false user db e =
      let opened : AuthDb = record db { users = update_last_login c.logged_at user.id db.users } in
      (
        refl,
        refl,
        with_expiry-principal user (add_time c.call.now (days c.call.expire_days)) opened e,
      )

  login_user-admits :
      (found : Option User) (password_ok : Bool) (db : AuthDb) {tokens : IssuedTokens}
      {p : Principal} {db' : AuthDb}
      → login_user hash_token c found password_ok db ≡ (logged_in tokens p, db')
      → (user : User) × (found ≡ some user)
        × (password_ok ≡ true)
        × (user.is_active ≡ true)
        × ((c.require_email_verification ≡ false) ⊎ (user.is_verified ≡ true))
        × (p ≡ principal_from_user user)
  unfolding refuse open_session
  login_user-admits none password_ok db e = absurd (ground arith)
  login_user-admits (some user) false db e = absurd (ground arith)
  login_user-admits (some user) true db e =
      let (active, fine, principal) =
        by_tests user.is_active (c.require_email_verification && not user.is_verified) user db e in
      (user, refl, refl, active, either_of _ _ fine, principal)

  login_user-same_answer :
      (found : Option User) (password_ok : Bool) (db : AuthDb)
      → (found ≡ none) ⊎ (password_ok ≡ false)
      → (let (answer, db') = login_user hash_token c found password_ok db in
          (answer ≡ invalid_credentials) × OnlyFailure db db')
  unfolding refuse
  login_user-same_answer none password_ok db h = (refl, (_, refl, refl))
  login_user-same_answer (some user) false db h = (refl, (_, refl, refl))
  login_user-same_answer (some user) true db (inl h) = absurd (ground arith)
  login_user-same_answer (some user) true db (inr h) = absurd (ground arith)

module _ (lower strip hash_token : String → String) (verify_password : String → String → Bool)
    (dummy_hash : String) (c : LoginCall) where
  -- The account that a login has let in.
  pub record Admitted (email password : String) (p : Principal) (db : AuthDb) : Type 0 where
    pub user : User
    pub found : get_by_email lower strip (lower (strip email)) db.users ≡ some user
    pub credential : Credential
    pub stored : find_credential user.id "argon2" db.credentials ≡ some credential
    pub verified : verify_password credential.hash password ≡ true
    pub active : user.is_active ≡ true
    pub mail_verified : (c.require_email_verification ≡ false) ⊎ (user.is_verified ≡ true)
    pub principal : p ≡ principal_from_user user

  credential_found :
      (credential : Option Credential) (password : String)
      → ((text : String) → verify_password dummy_hash text ≡ false)
      → verify_password (hash_or dummy_hash credential) password ≡ true
      → (stored : Credential) × (credential ≡ some stored)
        × (verify_password stored.hash password ≡ true)
  credential_found none password never h = let no = never password in absurd cc
  credential_found (some stored) password never h = (stored, refl, h)

  -- A login that issues tokens has found a user by the normalised e-mail, who is active, whose e-mail is
  -- verified if the setting asks for it, and whose stored credential the password verifies; the principal
  -- is that user's. The dummy hash is taken to verify no password.
  pub execute-Admitted :
      (email password : String) (db : AuthDb) {tokens : IssuedTokens} {p : Principal} {db' : AuthDb}
      → ((text : String) → verify_password dummy_hash text ≡ false)
      → execute lower strip hash_token verify_password dummy_hash c email password db
        ≡ (logged_in tokens p, db')
      → Admitted email password p db
  unfolding execute
  execute-Admitted email password db never e =
      let (user, found, password_ok, active, mail, principal) =
        login_user-admits hash_token c (get_by_email lower strip (lower (strip email)) db.users) _
          db e in
      let (credential, stored, verified) =
        credential_found
          (credential_of (get_by_email lower strip (lower (strip email)) db.users) db.credentials)
          password never password_ok in
      record {
        user = user;
        found = found;
        credential = credential;
        stored = rw found at stored;
        verified = verified;
        active = active;
        mail_verified = mail;
        principal = principal;
      }

  -- The account whose password the caller has.
  pub record Authenticated (email password : String) (db : AuthDb) : Type 0 where
    pub user : User
    pub found : get_by_email lower strip (lower (strip email)) db.users ≡ some user
    pub credential : Credential
    pub stored : find_credential user.id "argon2" db.credentials ≡ some credential
    pub verified : verify_password credential.hash password ≡ true

  -- A login, whatever e-mail and password are given, either answers `invalid_credentials` and only adds
  -- one audit event `auth.login_failed` to the database, or has found a user by the normalised e-mail
  -- whose stored credential the password verifies: every other answer, also that an account is inactive
  -- or not verified, goes to a caller who has the password. The dummy hash is taken to verify no
  -- password.
  pub execute-invalid_credentials :
      (email password : String) (db : AuthDb)
      → ((text : String) → verify_password dummy_hash text ≡ false)
      → (let (answer, db') =
            execute lower strip hash_token verify_password dummy_hash c email password db in
          ((answer ≡ invalid_credentials) × OnlyFailure db db') ⊎ Authenticated email password db)
  unfolding execute
  execute-invalid_credentials email password db never =
      let user = get_by_email lower strip (lower (strip email)) db.users in
      let credential = credential_of user db.credentials in
      let password_ok = verify_password (hash_or dummy_hash credential) password in
      elim (Option-cases user) [
        | inl unknown ↦ inl (login_user-same_answer hash_token c user password_ok db (inl unknown))
        | inr (account, found) ↦ elim (Bool-cases password_ok) [
          | inr wrong ↦ inl (login_user-same_answer hash_token c user password_ok db (inr wrong))
          | inl right ↦
              let (secret, stored, verified) = credential_found credential password never right in
              inr (record {
                user = account;
                found = found;
                credential = secret;
                stored = rw found at stored;
                verified = verified;
              })
        ]
      ]
