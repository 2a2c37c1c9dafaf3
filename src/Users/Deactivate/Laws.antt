-- ===== src/Users/Deactivate/Laws.antt =====
-- What a deactivation leaves of a user's sessions.
use starter_template_fastapi.Base.{
  ℕ, suc, ◌+◌, ◌≡◌, refl, sym, ap, ◌∙◌, inl, inr, ◌⊎◌, Bool, String, true, false, Option, none,
  some, List, arith, ◌==◌, ==-refl, count, length, length-append_one, Bool-cases,
}
use starter_template_fastapi.Users.Model.{User}
use starter_template_fastapi.Users.Repository.{
  get_raw_by_id, visible, get_by_id, update_row, set_active,
}
use starter_template_fastapi.Users.Repository.Rows.{
  get_raw_by_id-update_row, get_raw_by_id-id, visible-some,
}
use starter_template_fastapi.Users.Deactivate.{
  done, Cleanup, flip, deactivate_found, deactivate_user,
}
use starter_template_fastapi.Authentication.Models.{RefreshToken, AuthDb}
use starter_template_fastapi.Authentication.Refresh.{Call, find_token, invalid_token, execute}
use starter_template_fastapi.Authentication.Store.{revoke_user_refresh_tokens, record_audit_event}
use starter_template_fastapi.Authentication.Store.Laws.{
  open_token, revoke_user_refresh_tokens-zero, execute-refused,
}
use starter_template_fastapi.Authentication.Logout.{invalidated, logout_all}
use starter_template_fastapi.Outbox.Producer.{enqueue}

-- The user is inactive, at the next version.
abbrev pub Inactive : User → ℕ → List User → Type 0
Inactive u user_id rows =
    (v : User) × (get_by_id user_id rows ≡ some v)
    × (v.is_active ≡ false)
    × (v.authz_version ≡ u.authz_version + 1)

visible-live : (u : User) → visible (some u) ≡ some u → u.is_erased ≡ false
visible-live u f = elim (Bool-cases u.is_erased) [
  | inl e ↦ absurd (let g = rw e at f in ground arith)
  | inr e ↦ e
]

set_active-Inactive :
    (now user_id : ℕ) (rows : List User) {u : User}
    → get_by_id user_id rows ≡ some u
    → Inactive u user_id (set_active now false user_id rows)
unfolding set_active get_by_id
set_active-Inactive now user_id rows {u} shown =
    let found = visible-some (get_raw_by_id user_id rows) shown in
    let change : User → User =
      λ v. record v { is_active = false; authz_version = v.authz_version + 1; updated_at = now } in
    let here : (u.id == user_id) ≡ true =
      (let same = get_raw_by_id-id user_id rows found in rw same (==-refl user_id)) in
    let raw : get_raw_by_id user_id (update_row user_id change rows) ≡ some (change u) =
      get_raw_by_id-update_row user_id change (λ v. refl) user_id rows ∙ rw found (rw here refl) in
    let live : u.is_erased ≡ false =
      (let f : visible (some u) ≡ some u = rw found at shown in visible-live u f) in
    (change u, rw raw (rw live refl), refl, refl)

-- Whether the token that was found is the user's.
abbrev pub belongs : ℕ → Option RefreshToken → Bool
belongs user_id none = false
belongs user_id (some t) = t.user_id == user_id

refused_or_other :
    (hash_token : String → String) (later : Call) (user_id : ℕ) (refresh_token : String)
    (db : AuthDb)
    → count (open_token user_id) db.refresh_tokens ≡ 0
    → (found : Option RefreshToken)
    → find_token (hash_token refresh_token) db.refresh_tokens ≡ found
    → (belongs user_id found ≡ false)
      ⊎ ((execute hash_token later (some refresh_token) db).0 ≡ invalid_token)
refused_or_other hash_token later user_id refresh_token db ended none e = inl refl
refused_or_other hash_token later user_id refresh_token db ended (some t) e =
    elim (Bool-cases (t.user_id == user_id)) [
      | inl mine ↦
          inr (execute-refused hash_token later user_id refresh_token db ended e (ground arith))
      | inr other ↦ inl other
    ]

module _ {C : Type 0} (invalidate_user : ℕ → C → C) (call : Call) (cleanup : Cleanup)
    (now : ℕ) where
  flip-parts :
      (user_id : ℕ) (db : AuthDb) {db' : AuthDb}
      → flip invalidate_user call cleanup now true user_id db ≡ (done, db')
      → (db'.users ≡ set_active now false user_id db.users)
        × (db'.refresh_tokens ≡ db.refresh_tokens)
        × (length db'.outbox.messages ≡ suc (length db.outbox.messages))
  unfolding enqueue
  flip-parts user_id db e = (
    sym (ap (λ r. r.1.users) e),
    sym (ap (λ r. r.1.refresh_tokens) e),
    sym (ap (λ r. length r.1.outbox.messages) e) ∙ length-append_one db.outbox.messages _,
  )

  deactivate_found-parts :
      (user_id : ℕ) (found : Option User) (cache : Option C) (db : AuthDb) {cache' : Option C}
      {db' : AuthDb}
      → deactivate_found invalidate_user call cleanup now true true user_id found cache db
        ≡ (done, (cache', db'))
      → (u : User) × (found ≡ some u)
        × (cache' ≡ invalidated invalidate_user user_id cache)
        × (db'.users ≡ set_active now false user_id db.users)
        × (db'.refresh_tokens ≡ revoke_user_refresh_tokens call.utc_now user_id db.refresh_tokens)
        × (length db'.outbox.messages ≡ suc (length db.outbox.messages))
  unfolding logout_all record_audit_event
  deactivate_found-parts user_id none cache db e = absurd (ground arith)
  deactivate_found-parts user_id (some u) cache db e =
      let (users, tokens, messages) =
        flip-parts user_id (logout_all invalidate_user call user_id cache db).1
          (ap (λ r. (r.0, r.1.1)) e) in
      (u, refl, sym (ap (λ r. r.1.0) e), users, tokens, messages)

  -- A deactivation that is done, wired as in production, leaves the user inactive at the next version and
  -- one more message in the outbox, and has the cache drop the user; afterwards whatever refresh token is
  -- presented is either not one of the user or refused.
  pub deactivate_user-ends_sessions :
      (user_id : ℕ) (cache : Option C) (db : AuthDb) {cache' : Option C} {db' : AuthDb}
      (hash_token : String → String) (later : Call) (refresh_token : String)
      → deactivate_user invalidate_user call cleanup now true true user_id cache db
        ≡ (done, (cache', db'))
      → ((u : User) × (get_by_id user_id db.users ≡ some u) × Inactive u user_id db'.users)
        × (cache' ≡ invalidated invalidate_user user_id cache)
        × (length db'.outbox.messages ≡ suc (length db.outbox.messages))
        × ((belongs user_id (find_token (hash_token refresh_token) db'.refresh_tokens) ≡ false)
            ⊎ ((execute hash_token later (some refresh_token) db').0 ≡ invalid_token))
  unfolding deactivate_user
  deactivate_user-ends_sessions user_id cache db {cache'} {db'} hash_token later refresh_token e =
      let (u, shown, dropped, users, tokens, messages) =
        deactivate_found-parts user_id (get_by_id user_id db.users) cache db e in
      let ended : count (open_token user_id) db'.refresh_tokens ≡ 0 =
        rw tokens (revoke_user_refresh_tokens-zero call.utc_now user_id db.refresh_tokens) in
      (
        (u, shown, rw users (set_active-Inactive now user_id db.users shown)),
        dropped,
        messages,
        refused_or_other hash_token later user_id refresh_token db' ended _ refl,
      )
