-- ===== src/Authentication/Confirm/Laws.antt =====
-- What a confirmed password reset and a confirmed e-mail address leave, and that their tokens are used
-- once.
use starter_template_fastapi.Base.{
  ℕ, ◌≡◌, ◌⊎◌, refl, sym, ap, inl, inr, String, Bool, true, false, Option, none, some, List, arith,
  leb, if◌then◌else◌, is_some, count, Bool-cases,
}
use starter_template_fastapi.Users.Repository.{bump_authz_version}
use starter_template_fastapi.Authentication.Models.{RefreshToken, Credential, InternalToken, AuthDb}
use starter_template_fastapi.Authentication.Refresh.{Raised, Call, find_token, or_now}
use starter_template_fastapi.Authentication.Refresh as Refresh
use starter_template_fastapi.Authentication.Store.{
  upsert_credential, revoke_user_refresh_tokens, find_internal_token, mark_internal_token_used,
  record_audit_event,
}
use starter_template_fastapi.Authentication.Store.Laws.{
  HasHash, upsert_credential-HasHash, open_token, revoke_user_refresh_tokens-zero, execute-refused,
  find_internal_token-marked,
}
use starter_template_fastapi.Authentication.Confirm.{
  ConfirmResult, confirmed, invalid_token, token_already_used, confirm, reset, consume_reset,
  confirm_password_reset,
}

-- The token of a purpose cannot be consumed.
abbrev pub Spent : String → String → List InternalToken → Type 0
Spent token_hash purpose tokens =
    (t : InternalToken) × (find_internal_token token_hash purpose tokens ≡ some t)
    × (is_some t.used_at ≡ true)

or_now-some : (at : Option ℕ) (now : ℕ) → is_some (or_now at now) ≡ true
or_now-some none now = refl
or_now-some (some t) now = refl

mark-Spent :
    (now : ℕ) (token_hash purpose : String) (tokens : List InternalToken) {t : InternalToken}
    → find_internal_token token_hash purpose tokens ≡ some t
    → Spent token_hash purpose (mark_internal_token_used now t.id tokens)
mark-Spent now token_hash purpose tokens {t} found = (
  record t { used_at = or_now t.used_at now },
  find_internal_token-marked now token_hash purpose tokens found,
  or_now-some t.used_at now,
)

-- A transaction that confirms has consumed a row that it found.
confirm-consumed :
    (now : ℕ) (consume : ℕ → InternalToken → AuthDb → ConfirmResult × AuthDb)
    (found : Option InternalToken) (db : AuthDb) {user_id : ℕ} {db' : AuthDb}
    → confirm now consume found db ≡ (confirmed user_id, db')
    → (t : InternalToken) × (found ≡ some t)
      × (owner : ℕ) × (consume owner t db ≡ (confirmed user_id, db'))
confirm-consumed now consume none db e = absurd (ground arith)
confirm-consumed now consume (some t) db {user_id} {db'} e =
    let (owner, f) = by_tests (leb t.expires_at now) (is_some t.used_at) t.user_id e in
    (t, refl, owner, f)
  where
    by_tests :
        (expired used : Bool) (owner : Option ℕ)
        → ◌≡◌ {A = ConfirmResult × AuthDb}
            (if expired
              then (invalid_token, db)
              else if used
              then (token_already_used, db)
              else elim owner [ none ↦ (invalid_token, db) | some id ↦ consume id t db ])
            (confirmed user_id, db')
        → (id : ℕ) × (consume id t db ≡ (confirmed user_id, db'))
    by_tests true used owner e = absurd (ground arith)
    by_tests false true owner e = absurd (ground arith)
    by_tests false false none e = absurd (ground arith)
    by_tests false false (some id) e = (id, e)

-- A transaction with a spent token changes nothing.
confirm-spent :
    (now : ℕ) (consume : ℕ → InternalToken → AuthDb → ConfirmResult × AuthDb) (t : InternalToken)
    (db : AuthDb)
    → is_some t.used_at ≡ true
    → ((confirm now consume (some t) db).1 ≡ db)
      × (((confirm now consume (some t) db).0 ≡ invalid_token)
          ⊎ ((confirm now consume (some t) db).0 ≡ token_already_used))
confirm-spent now consume t db h = elim (Bool-cases (leb t.expires_at now)) [
  | inl e ↦ rw e (refl, inl refl)
  | inr e ↦ rw (e, h) (refl, inr refl)
]

module _ (hash_token : String → String) (call : Call) where
  reset-parts :
      (owner : ℕ) (t : InternalToken) (made : Option Raised × List Credential) (db : AuthDb)
      {user_id : ℕ} {db' : AuthDb}
      → reset hash_token call owner t made db ≡ (confirmed user_id, db')
      → (made.0 ≡ none)
        × (owner ≡ user_id)
        × (db'.credentials ≡ made.1)
        × (db'.users ≡ bump_authz_version call.utc_now owner db.users)
        × (db'.internal_tokens ≡ mark_internal_token_used call.utc_now t.id db.internal_tokens)
        × (db'.refresh_tokens ≡ revoke_user_refresh_tokens call.utc_now owner db.refresh_tokens)
  unfolding record_audit_event
  reset-parts owner t (some exc, credentials) db e = absurd (ground arith)
  reset-parts owner t (none, credentials) db e = (
    refl,
    cc,
    sym (ap (λ r. r.1.credentials) e),
    sym (ap (λ r. r.1.users) e),
    sym (ap (λ r. r.1.internal_tokens) e),
    sym (ap (λ r. r.1.refresh_tokens) e),
  )

  -- What a confirmed reset has done.
  pub record ResetDone (token new_hash : String) (user_id : ℕ) (db db' : AuthDb) : Type 0 where
    pub credential : HasHash user_id "argon2" new_hash db'.credentials
    pub sessions : count (open_token user_id) db'.refresh_tokens ≡ 0
    pub version : db'.users ≡ bump_authz_version call.utc_now user_id db.users
    pub spent : Spent (hash_token token) "password_reset" db'.internal_tokens

  pub confirm_password_reset-ResetDone :
      (hash_password : String → String) (token new_password : String) (db : AuthDb) {user_id : ℕ}
      {db' : AuthDb}
      → confirm_password_reset hash_token call hash_password token new_password db
        ≡ (confirmed user_id, db')
      → ResetDone token (hash_password new_password) user_id db db'
  unfolding confirm_password_reset
  confirm_password_reset-ResetDone hash_password token new_password db {user_id} {db'} e =
      let (t, found, owner, f) =
        confirm-consumed call.now (consume_reset hash_token call (hash_password new_password))
          (find_internal_token (hash_token token) "password_reset" db.internal_tokens) db e in
      let made =
        upsert_credential call.fresh_id call.utc_now owner "argon2" (hash_password new_password)
          db.credentials in
      let (fine, same, cs, us, is, rs) = reset-parts owner t made db f in
      let hash =
        upsert_credential-HasHash call.fresh_id call.utc_now owner "argon2"
          (hash_password new_password) db.credentials (ap (λ o. (o, made.1)) fine) in
      rw (sym same) (record {
        credential = rw cs hash;
        sessions = rw rs (revoke_user_refresh_tokens-zero call.utc_now owner db.refresh_tokens);
        version = us;
        spent =
            rw is (
              mark-Spent call.utc_now (hash_token token) "password_reset" db.internal_tokens found);
      })

  -- A reset token is consumed once: after a reset that was confirmed, the user's stored password hash is
  -- that of the new password, and presenting the token again, at any time and with any password, is
  -- refused and changes nothing.
  pub confirm_password_reset-once :
      (hash_password : String → String) (token new_password : String) (db : AuthDb) {user_id : ℕ}
      {db' : AuthDb} (later : Call) (other_password : String)
      → confirm_password_reset hash_token call hash_password token new_password db
        ≡ (confirmed user_id, db')
      → HasHash user_id "argon2" (hash_password new_password) db'.credentials
        × (let (answer, db'') =
              confirm_password_reset hash_token later hash_password token other_password db' in
            (db'' ≡ db') × ((answer ≡ invalid_token) ⊎ (answer ≡ token_already_used)))
  unfolding confirm_password_reset
  confirm_password_reset-once hash_password token new_password db {user_id} {db'} later
        other_password e =
      let done = confirm_password_reset-ResetDone hash_password token new_password db e in
      let (t, found, used) = done.spent in
      (
        done.credential,
        rw found (
            confirm-spent later.now (consume_reset hash_token later (hash_password other_password))
              t db' used),
      )

  -- A confirmed reset ends every session of its user: no refresh token of the user is rotated afterwards.
  pub confirm_password_reset-ends_sessions :
      (hash_password : String → String) (token new_password : String) (db : AuthDb) {user_id : ℕ}
      {db' : AuthDb} (later : Call) (refresh_token : String) {t : RefreshToken}
      → confirm_password_reset hash_token call hash_password token new_password db
        ≡ (confirmed user_id, db')
      → find_token (hash_token refresh_token) db'.refresh_tokens ≡ some t
      → t.user_id ≡ user_id
      → (Refresh.execute hash_token later (some refresh_token) db').0 ≡ Refresh.invalid_token
  confirm_password_reset-ends_sessions hash_password token new_password db {user_id} {db'} later
        refresh_token e found owner =
      execute-refused hash_token later user_id refresh_token db'
        (confirm_password_reset-ResetDone hash_password token new_password db e).sessions found
        owner
