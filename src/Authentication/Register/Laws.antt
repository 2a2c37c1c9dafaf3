-- ===== src/Authentication/Register/Laws.antt =====
-- What a registration leaves, and the login that follows it.
use mathlib.Core.Path.{subst}
use starter_template_fastapi.Base.{
  ℕ, ◌≡◌, refl, sym, ap, ◌∙◌, String, Bool, true, false, not, ◌&&◌, Option, none, some, List, [],
  ◌∷◌, ◌++◌, arith, if◌then◌else◌, is_some,
}
use starter_template_fastapi.Base.Clock.{days, add_time}
use starter_template_fastapi.Base.Dict.{str_eq_self}
use starter_template_fastapi.Base.Keys.{has_id}
use starter_template_fastapi.Users.Model.{
  User, UserResult, ok, err, user_not_found, user_already_exists,
}
use starter_template_fastapi.Users.Repository.{new_user, find_email, get_by_email, create}
use starter_template_fastapi.Users.Profile.Laws.{create-ok, find_email-append_new}
use starter_template_fastapi.Authentication.Models.{RefreshToken, Credential, IssuedTokens, AuthDb}
use starter_template_fastapi.Authentication.Refresh.{
  Raised, Call, find_token, family_owner, create_refresh_token, principal_from_user,
}
use starter_template_fastapi.Authentication.Store.{upsert_credential, record_audit_event}
use starter_template_fastapi.Authentication.Store.Laws.{HasHash, upsert_credential-HasHash}
use starter_template_fastapi.Authentication.Login.{
  logged_in, inactive_user, email_not_verified, refuse, LoginCall, hash_or, credential_of,
  session_token, after_create, with_expiry, open_session, login_user,
}
use starter_template_fastapi.Authentication.Login as Login
use starter_template_fastapi.Authentication.Register.{
  registered, with_credential, with_user, execute,
}

module _ (call : Call) where
  with_credential-parts :
      (user : User) (users : List User) (made : Option Raised × List Credential) (db : AuthDb)
      {u : User} {db' : AuthDb}
      → with_credential call user users made db ≡ (registered u, db')
      → (made.0 ≡ none)
        × (user ≡ u)
        × (db'.users ≡ users)
        × (db'.credentials ≡ made.1)
        × (db'.refresh_tokens ≡ db.refresh_tokens)
  unfolding record_audit_event
  with_credential-parts user users (some exc, credentials) db e = absurd (ground arith)
  with_credential-parts user users (none, credentials) db e = (
    refl,
    cc,
    sym (ap (λ r. r.1.users) e),
    sym (ap (λ r. r.1.credentials) e),
    sym (ap (λ r. r.1.refresh_tokens) e),
  )

-- What a login needs of what it draws: a lifetime within the range of datetimes, and a token, an id and
-- a family that no row has.
pub record FreshSession (hash_token : String → String) (c : LoginCall) (tokens : List RefreshToken)
    : Type 0 where
  pub expires_at : ℕ
  pub lasts : add_time c.call.now (days c.call.expire_days) ≡ some expires_at
  pub new_hash : is_some (find_token (hash_token c.call.opaque_token) tokens) ≡ false
  pub new_id : has_id (λ (t : RefreshToken). t.id) tokens c.call.fresh_id ≡ false
  pub new_family : family_owner c.family_id tokens ≡ none

-- The answer of a login that has opened a session of a user.
pub record Opened (hash_token : String → String) (u : User) (result : Login.LoginResult × AuthDb)
    : Type 0 where
  pub issued : IssuedTokens
  pub answer : result.0 ≡ logged_in issued (principal_from_user u)
  pub token : RefreshToken
  pub stored : find_token (hash_token issued.refresh_token) result.1.refresh_tokens ≡ some token
  pub owner : token.user_id ≡ u.id
  pub alive : token.revoked_at ≡ none

find_token-append_new :
    (t : RefreshToken) (tokens : List RefreshToken)
    → is_some (find_token t.token_hash tokens) ≡ false
    → find_token t.token_hash (tokens ++ t ∷ []) ≡ some t
unfolding find_token
find_token-append_new t [] h = let self = str_eq_self t.token_hash in rw self refl
find_token-append_new t (x ∷ tokens) h = ground (arith, find_token-append_new t tokens)

module _ (hash_token : String → String) (c : LoginCall) where
  create_refresh_token-fresh :
      (t : RefreshToken) (tokens : List RefreshToken)
      → is_some (find_token t.token_hash tokens) ≡ false
      → has_id (λ (x : RefreshToken). x.id) tokens t.id ≡ false
      → family_owner t.family_id tokens ≡ none
      → create_refresh_token t tokens ≡ (none, tokens ++ t ∷ [])
  unfolding create_refresh_token
  create_refresh_token-fresh t tokens h i f = rw (f, h, i) refl

  open_session-Opened :
      (user : User) (db : AuthDb)
      → FreshSession hash_token c db.refresh_tokens
      → Opened hash_token user (open_session hash_token c user db)
  unfolding open_session
  open_session-Opened user db fresh =
      let t = session_token c user (hash_token c.call.opaque_token) fresh.expires_at in
      let made =
        create_refresh_token-fresh t db.refresh_tokens fresh.new_hash fresh.new_id
          fresh.new_family in
      rw (fresh.lasts) (
        rw made (record {
          issued = _;
          answer = refl;
          token = t;
          stored = find_token-append_new t db.refresh_tokens fresh.new_hash;
          owner = refl;
          alive = refl;
        }))

  login_user-opens :
      (u : User) (db : AuthDb)
      → u.is_active ≡ true
      → c.require_email_verification ≡ false
      → login_user hash_token c (some u) true db ≡ open_session hash_token c u db
  login_user-opens u db active unasked =
      let tests : Bool → Bool → Login.LoginResult × AuthDb = λ a r.
        if not a
        then refuse c.call (some u.id) "inactive_user" inactive_user db
        else if r && not u.is_verified
        then refuse c.call (some u.id) "email_not_verified" email_not_verified db
        else open_session hash_token c u db in
      ap (λ a. tests a c.require_email_verification) active ∙ ap (tests true) unasked

module _ (lower strip hash_password : String → String) (call : Call) (credential_id : ℕ) where
  -- What a registration has written.
  abbrev Written : String → String → User → AuthDb → Type 0
  Written email password u db =
      (get_by_email lower strip (lower (strip email)) db.users ≡ some u)
      × (u.is_active ≡ true)
      × HasHash u.id "argon2" (hash_password password) db.credentials

  created_user :
      (email : String) (rows : List User) {u : User} {users : List User}
      → create lower strip call.fresh_id call.utc_now (lower (strip email)) rows ≡ (ok u, users)
      → (get_by_email lower strip (lower (strip email)) users ≡ some u) × (u.is_active ≡ true)
  unfolding get_by_email
  created_user email rows made =
      let (same, after, absent, free) =
        create-ok lower strip call.fresh_id call.utc_now (lower (strip email)) rows made in
      let mail = lower (lower (strip email)) in
      let n = new_user call.fresh_id call.utc_now mail in
      let by_email : find_email mail (rows ++ n ∷ []) ≡ some n =
        find_email-append_new mail rows n free refl refl in
      (rw after (rw same by_email), ap (λ (v : User). v.is_active) same)

  with_user-Written :
      (email password : String) (made : UserResult × List User) (db : AuthDb) {u : User}
      {db' : AuthDb}
      → create lower strip call.fresh_id call.utc_now (lower (strip email)) db.users ≡ made
      → with_user lower strip hash_password call credential_id (hash_password password) made db
        ≡ (registered u, db')
      → Written email password u db'
  with_user-Written email password (err user_already_exists, users) db made e =
      absurd (ground arith)
  with_user-Written email password (err user_not_found, users) db made e = absurd (ground arith)
  with_user-Written email password (ok user, users) db made e =
      let upserted =
        upsert_credential credential_id call.utc_now user.id "argon2" (hash_password password)
          db.credentials in
      let (fine, same, us, cs, rs) = with_credential-parts call user users upserted db e in
      let (by_email, active) = created_user email db.users made in
      let hash : HasHash user.id "argon2" (hash_password password) upserted.1 =
        upsert_credential-HasHash credential_id call.utc_now user.id "argon2"
          (hash_password password) db.credentials (ap (λ o. (o, upserted.1)) fine) in
      rw (sym same) (rw us by_email, active, rw cs hash)

  execute-Written :
      (email password : String) (db : AuthDb) {u : User} {db' : AuthDb}
      → execute lower strip hash_password call credential_id email password db ≡ (registered u, db')
      → Written email password u db'
  unfolding execute
  execute-Written email password db e =
      with_user-Written email password
        (create lower strip call.fresh_id call.utc_now (lower (strip email)) db.users) db refl e

  module _ (hash_token : String → String) (verify_password : String → String → Bool)
      (dummy_hash : String) (c : LoginCall) where
    -- After a registration, a login with the same e-mail and password issues tokens for the new user, and
    -- its refresh token is stored, of that user and not revoked: given that the hash of the password
    -- verifies it, that the setting does not ask for a verified e-mail, and that what the login draws is
    -- new and in range.
    pub execute-Opened :
        (email password : String) (db : AuthDb) {u : User} {db' : AuthDb}
        → verify_password (hash_password password) password ≡ true
        → c.require_email_verification ≡ false
        → FreshSession hash_token c db'.refresh_tokens
        → execute lower strip hash_password call credential_id email password db
          ≡ (registered u, db')
        → Opened hash_token u
            (Login.execute lower strip hash_token verify_password dummy_hash c email password db')
    unfolding Login.execute
    execute-Opened email password db {u} {db'} verifies unasked fresh e =
        let (by_email, active, kept) = execute-Written email password db e in
        let (credential, stored, hash) = kept in
        let session = open_session-Opened hash_token c u db' fresh in
        rw by_email (
          rw stored (
            rw hash (
              rw verifies (
                subst (Opened hash_token u)
                  (sym (login_user-opens hash_token c u db' active unasked)) session))))
