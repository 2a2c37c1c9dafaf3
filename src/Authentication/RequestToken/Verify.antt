-- ===== src/Authentication/RequestToken/Verify.antt =====
-- A request for an e-mail verification, and the confirmation of the token that it sent.
use starter_template_fastapi.Base.{
  ℕ, ◌*◌, str_append, ◌<◌, ◌≡◌, refl, sym, ap, ◌∙◌, inl, inr, String, Bool, true, false, ◌||◌,
  Option, none, some, List, [], ◌∷◌, ◌++◌, arith, str_eq, leb, ◌==◌, ==-refl, if◌then◌else◌, any,
  Bool-cases,
}
use starter_template_fastapi.Base.Clock.{seconds, add_time}
use starter_template_fastapi.Base.Dict.{str_eq_self}
use starter_template_fastapi.Base.Json.{Json, text, object, get, Fields}
use starter_template_fastapi.Base.Keys.{has_id}
use starter_template_fastapi.Users.Model.{User}
use starter_template_fastapi.Users.Repository.{get_raw_by_id, get_by_id, update_row, mark_verified}
use starter_template_fastapi.Users.Repository.Rows.{
  get_raw_by_id-update_row, get_raw_by_id-id, visible-some,
}
use starter_template_fastapi.Authentication.Models.{InternalToken, AuthDb}
use starter_template_fastapi.Authentication.Refresh.{Raised, Call}
use starter_template_fastapi.Authentication.Store.{
  invalidate_unused_tokens_for, find_internal_token, create_internal_token, record_audit_event,
}
use starter_template_fastapi.Authentication.Confirm.{
  confirmed, confirm, verify_email, confirm_email_verification,
}
use starter_template_fastapi.Authentication.RequestToken.{
  RequestResult, InternalTokenResult, requested, RequestCall, Purpose, email_payload,
  new_internal_token, with_token, with_expiry, issue_token, verification_for, email_verification,
  request_email_verification,
}
use starter_template_fastapi.Outbox.Message.{Row}
use starter_template_fastapi.Outbox.Producer.{enqueue}

-- The row of a user, verified.
abbrev pub Verified : ℕ → List User → Type 0
Verified user_id rows = (v : User) × (get_raw_by_id user_id rows ≡ some v) × (v.is_verified ≡ true)

mark_verified-Verified :
    (now user_id : ℕ) (rows : List User) {u : User}
    → get_raw_by_id user_id rows ≡ some u
    → Verified user_id (mark_verified now user_id rows)
unfolding mark_verified
mark_verified-Verified now user_id rows {u} h =
    let change : User → User = λ v. record v { is_verified = true; updated_at = now } in
    let after : Bool → List User = λ b. if b then rows else update_row user_id change rows in
    let here : (u.id == user_id) ≡ true =
      (let same = get_raw_by_id-id user_id rows h in rw same (==-refl user_id)) in
    rw h (elim (Bool-cases u.is_verified) [
      | inl e ↦ (u, ap (λ b. get_raw_by_id user_id (after b)) e ∙ h, e)
      | inr e ↦ (
        change u,
        ap (λ b. get_raw_by_id user_id (after b)) e
            ∙ get_raw_by_id-update_row user_id change (λ v. refl) user_id rows
            ∙ rw h (rw here refl),
        refl,
      )
    ])

find_internal_token-append_new :
    (t : InternalToken) (tokens : List InternalToken)
    → any (λ x. str_eq x.token_hash t.token_hash) tokens ≡ false
    → find_internal_token t.token_hash t.purpose (tokens ++ t ∷ []) ≡ some t
unfolding find_internal_token
find_internal_token-append_new t [] h =
    let self = str_eq_self t.token_hash in let same = str_eq_self t.purpose in rw (self, same) refl
find_internal_token-append_new t (x ∷ tokens) h =
    ground (arith, find_internal_token-append_new t tokens)

create_internal_token-found :
    (t : InternalToken) (tokens : List InternalToken)
    → (create_internal_token t tokens).0 ≡ none
    → find_internal_token t.token_hash t.purpose (create_internal_token t tokens).1 ≡ some t
unfolding create_internal_token
create_internal_token-found t tokens h =
    elim (Bool-cases (
      any (λ x. str_eq x.token_hash t.token_hash) tokens
      || has_id (λ (x : InternalToken). x.id) tokens t.id)) [
        | inl e ↦ absurd (let f = rw e at h in ground arith)
        | inr e ↦ rw e (find_internal_token-append_new t tokens (ground arith))
      ]

abbrev expiry_of : RequestResult → Option ℕ
expiry_of (requested r) = r.expires_at
expiry_of _ = none

-- What the mail of a `send_email` job says: the entry of a key in its context.
abbrev text_of : Option Json → Option String
text_of (some (text s)) = some s
text_of _ = none

abbrev entry_of : String → Option Json → Option String
entry_of key (some (object context)) = text_of (get key context)
entry_of key _ = none

abbrev pub mail_entry : String → Fields → Option String
mail_entry key payload = entry_of key (get "context" payload)

module _ (hash_token : String → String) (c : RequestCall) (p : Purpose) where
  -- The call added one job, of the mail to the user.
  abbrev Mailed : User → AuthDb → AuthDb → Type 0
  Mailed user db db' =
      (row : Row) × (db'.outbox.messages ≡ db.outbox.messages ++ row ∷ [])
      × (row.job_name ≡ "send_email")
      × (row.payload ≡ email_payload hash_token c p user)

  with_token-requested :
      (user : User) (expires_at : ℕ) (made : Option Raised × List InternalToken) (db : AuthDb)
      {r : InternalTokenResult} {db' : AuthDb}
      → with_token hash_token c p user expires_at made db ≡ (requested r, db')
      → (made.0 ≡ none)
        × (r.expires_at ≡ some expires_at)
        × (db'.internal_tokens ≡ made.1)
        × (db'.users ≡ db.users)
        × Mailed user db db'
  unfolding enqueue record_audit_event
  with_token-requested user expires_at (some exc, tokens) db e = absurd (ground arith)
  with_token-requested user expires_at (none, tokens) db {r} {db'} e = (
    refl,
    sym (ap (λ a. expiry_of a.0) e),
    sym (ap (λ a. a.1.internal_tokens) e),
    sym (ap (λ a. a.1.users) e),
    (_, sym (ap (λ a. a.1.outbox.messages) e), refl, refl),
  )

  -- What a request that answers has left: the token that it sends is found, unused, and its expiry is
  -- the one that it reports.
  issue_token-found :
      (user : User) (db : AuthDb) {r : InternalTokenResult} {db' : AuthDb}
      → issue_token hash_token c p user db ≡ (requested r, db')
      → (expires_at : ℕ) × (r.expires_at ≡ some expires_at)
        × (db'.users ≡ db.users)
        × (find_internal_token (hash_token c.call.opaque_token) p.purpose db'.internal_tokens
            ≡ some (new_internal_token hash_token c p user expires_at))
        × Mailed user db db'
  unfolding issue_token
  issue_token-found user db e = by_expiry (add_time c.call.now (seconds (p.expire_minutes * 60))) e
    where
      by_expiry :
          (expiry : Option ℕ) {r : InternalTokenResult} {db' : AuthDb}
          → with_expiry hash_token c p user expiry db ≡ (requested r, db')
          → (expires_at : ℕ) × (r.expires_at ≡ some expires_at)
            × (db'.users ≡ db.users)
            × (find_internal_token (hash_token c.call.opaque_token) p.purpose db'.internal_tokens
                ≡ some (new_internal_token hash_token c p user expires_at))
            × Mailed user db db'
      by_expiry none e = absurd (ground arith)
      by_expiry (some expires_at) e =
          let t = new_internal_token hash_token c p user expires_at in
          let kept =
            (invalidate_unused_tokens_for c.call.utc_now user.id p.purpose db.internal_tokens).1 in
          let (fine, expiry, tokens, users, mail) =
            with_token-requested user expires_at (create_internal_token t kept) db e in
          (expires_at, expiry, users, rw tokens (create_internal_token-found t kept fine), mail)

verify_email-unexpired :
    (hash_token : String → String) (later : Call) (t : InternalToken) (user_id : ℕ) (db : AuthDb)
    → later.now < t.expires_at
    → t.used_at ≡ none
    → t.user_id ≡ some user_id
    → confirm later.now (verify_email hash_token later) (some t) db
      ≡ verify_email hash_token later user_id t db
verify_email-unexpired hash_token later t user_id db soon unused owner =
    let live : leb t.expires_at later.now ≡ false = ground arith in rw (live, unused, owner) refl

verification_for-some :
    (hash_token : String → String) (c : RequestCall) (p : Purpose) (found : Option User)
    (db : AuthDb) {r : InternalTokenResult} {db' : AuthDb}
    → verification_for hash_token c p found db ≡ (requested r, db')
    → (user : User) × (found ≡ some user)
      × (issue_token hash_token c p user db ≡ (requested r, db'))
verification_for-some hash_token c p none db e = absurd (ground arith)
verification_for-some hash_token c p (some user) db e = (user, refl, e)

-- A request for e-mail verification that answers adds one job to the outbox: a mail to the user's
-- address, with a link that ends in a token. That token confirms the e-mail, before the expiry that the
-- request reported: afterwards the user's row is verified.
pub request_email_verification-confirmed :
    (hash_token : String → String) (minutes : ℕ) (c : RequestCall) (user_id : ℕ) (db : AuthDb)
    (later : Call) {r : InternalTokenResult} {expires_at : ℕ} {db' : AuthDb}
    → request_email_verification hash_token minutes c user_id db ≡ (requested r, db')
    → r.expires_at ≡ some expires_at
    → later.now < expires_at
    → (token : String) × (user : User) × (row : Row) × (get_by_id user_id db.users ≡ some user)
      × (db'.outbox.messages ≡ db.outbox.messages ++ row ∷ [])
      × (row.job_name ≡ "send_email")
      × (get "to" row.payload ≡ some (text user.email))
      × (mail_entry "verify_url" row.payload
          ≡ some (
              str_append
                (c.rstrip_slash c.public_url)
                (str_append "/auth/email/verify?token=" token)))
      × (let (answer, db'') = confirm_email_verification hash_token later token db' in
          (answer ≡ confirmed user_id) × Verified user_id db''.users)
unfolding request_email_verification confirm_email_verification record_audit_event get_by_id get
request_email_verification-confirmed hash_token minutes c user_id db later {r} {expires_at} {db'} e
      expiry soon =
    let (user, shown, issued) =
      verification_for-some hash_token c (email_verification minutes) (get_by_id user_id db.users)
        db e in
    let there = visible-some (get_raw_by_id user_id db.users) shown in
    let (at, expiry', users, found, (row, sent, job, mail)) =
      issue_token-found hash_token c (email_verification minutes) user db issued in
    let t = new_internal_token hash_token c (email_verification minutes) user at in
    let in_time : later.now < at =
      (let same : some at ≡ some expires_at = sym expiry' ∙ expiry in ground arith) in
    let live = verify_email-unexpired hash_token later t user.id db' in_time refl refl in
    let own = get_raw_by_id-id user_id db.users there in
    (
      c.call.opaque_token,
      user,
      row,
      shown,
      sent,
      job,
      ap (get "to") mail ∙ refl,
      ap (mail_entry "verify_url") mail ∙ refl,
      rw found (
          rw live (
            rw own (refl, rw users (mark_verified-Verified later.utc_now user_id db.users there)))),
    )
