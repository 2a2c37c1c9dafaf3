-- ===== src/Users/Erase/Laws.antt =====
-- What an erasure leaves of a user.
use starter_template_fastapi.Base.{
  ℕ, suc, ◌+◌, str_append, ◌≡◌, ◌⊎◌, refl, sym, ap, ◌∙◌, inl, inr, String, Bool, true, false, not,
  none, some, List, [], ◌∷◌, ◌++◌, map, arith, ◌==◌, ==-refl, if◌then◌else◌, count, filter, length,
  length-append_one, All, All-append, Bool-cases,
}
use starter_template_fastapi.Base.Json.{Fields, end, field, has_key, without_key}
use starter_template_fastapi.Users.Model.{User}
use starter_template_fastapi.Users.Repository.{
  get_raw_by_id, get_by_id, visible, update_row, erased_email, apply_erasure_scrub, email_taken,
  ScrubResult, scrubbed, integrity_error, scrub_row, scrub_for_erasure,
}
use starter_template_fastapi.Users.Repository.Rows.{get_raw_by_id-update_row, get_raw_by_id-id}
use starter_template_fastapi.Users.Deactivate.{done, Cleanup}
use starter_template_fastapi.Users.Erase.{
  strip_pii, scrub_audit_events, delete_credentials_and_tokens, erased_event, erase_scrubbed,
  erase_user,
}
use starter_template_fastapi.Authentication.Models.{RefreshToken, AuditEvent, AuthDb}
use starter_template_fastapi.Authentication.Store.{
  is_user, unlink, delete_refresh_tokens, record_audit_event,
}
use starter_template_fastapi.Outbox.Producer.{enqueue}

-- An audit event of another user, or one without the caller's address, agent and token family.
abbrev pub CleanEvent : ℕ → AuditEvent → Type 0
CleanEvent user_id e =
    (is_user user_id e.user_id ≡ false)
    ⊎ ((e.ip_address ≡ none)
        × (e.user_agent ≡ none)
        × (has_key "family_id" e.metadata ≡ false)
        × (has_key "ip_address" e.metadata ≡ false)
        × (has_key "user_agent" e.metadata ≡ false))

-- The row `u` of the user as an erasure at `now` leaves it: it keeps no data of the person.
pub record ErasedRow (str_uuid : ℕ → String) (now : ℕ) (u v : User) : Type 0 where
  pub email : v.email ≡ str_append "erased+" (str_append (str_uuid u.id) "@erased.invalid")
  pub last_login_at : v.last_login_at ≡ none
  pub is_active : v.is_active ≡ false
  pub is_erased : v.is_erased ≡ true
  pub authz_version : v.authz_version ≡ u.authz_version + 1
  pub updated_at : v.updated_at ≡ now

-- The user's row is scrubbed and hidden, and no credential, token or identifying audit event is left.
pub record Erased (str_uuid : ℕ → String) (now user_id : ℕ) (u : User) (db : AuthDb) : Type 0 where
  pub row : (v : User) × (get_raw_by_id user_id db.users ≡ some v) × ErasedRow str_uuid now u v
  pub unseen : get_by_id user_id db.users ≡ none
  pub credentials : count (λ c. c.user_id == user_id) db.credentials ≡ 0
  pub refresh_tokens : count (λ t. t.user_id == user_id) db.refresh_tokens ≡ 0
  pub internal_tokens : count (λ t. is_user user_id t.user_id) db.internal_tokens ≡ 0
  pub events : All (CleanEvent user_id) db.audit_events

has_key-without_key : (k : String) (fs : Fields) → has_key k (without_key k fs) ≡ false
unfolding has_key without_key
has_key-without_key k end = refl
has_key-without_key k (field j v fs) = ground (arith, has_key-without_key k fs)

has_key-without_key_kept :
    (k i : String) (fs : Fields) → has_key k fs ≡ false → has_key k (without_key i fs) ≡ false
unfolding has_key without_key
has_key-without_key_kept k i end h = refl
has_key-without_key_kept k i (field j v fs) h = ground (arith, has_key-without_key_kept k i fs)

strip_pii-has_key :
    (fs : Fields)
    → (has_key "family_id" (strip_pii fs) ≡ false)
      × (has_key "ip_address" (strip_pii fs) ≡ false)
      × (has_key "user_agent" (strip_pii fs) ≡ false)
unfolding strip_pii
strip_pii-has_key fs =
    let one = without_key "family_id" fs in
    let two = without_key "ip_address" one in
    (
      has_key-without_key_kept "family_id" "user_agent" two (
          has_key-without_key_kept "family_id" "ip_address" one
            (has_key-without_key "family_id" fs)),
      has_key-without_key_kept "ip_address" "user_agent" two (has_key-without_key "ip_address" one),
      has_key-without_key "user_agent" two,
    )

scrub_audit_events-CleanEvent :
    (user_id : ℕ) (events : List AuditEvent)
    → All (CleanEvent user_id) (scrub_audit_events user_id events)
unfolding scrub_audit_events
scrub_audit_events-CleanEvent user_id [] = tt
scrub_audit_events-CleanEvent user_id (e ∷ events) = (
  elim (Bool-cases (is_user user_id e.user_id)) [
    | inl h ↦
        let (family, address, agent) = strip_pii-has_key e.metadata in
        rw h (inr (refl, refl, family, address, agent))
    | inr h ↦ rw h (inl h)
  ],
  scrub_audit_events-CleanEvent user_id events,
)

module _ {ℓ} {A : Type ℓ} where
  count-filter-not : (p : A → Bool) (xs : List A) → count p (filter (λ x. not (p x)) xs) ≡ 0
  count-filter-not p [] = refl
  count-filter-not p (x ∷ xs) = ground (arith, count-filter-not p xs)

count-unlink :
    (user_id : ℕ) (kept tokens : List RefreshToken)
    → count (λ t. t.user_id == user_id) (map (unlink kept) tokens)
      ≡ count (λ t. t.user_id == user_id) tokens
count-unlink user_id kept [] = refl
count-unlink user_id kept (t ∷ tokens) = ground (arith, count-unlink user_id kept tokens)

scrub_for_erasure-row :
    (str_uuid : ℕ → String) (now user_id : ℕ) (rows : List User) {u : User} {did : Bool}
    {users : List User}
    → get_raw_by_id user_id rows ≡ some u
    → u.is_erased ≡ false
    → scrub_for_erasure str_uuid now user_id rows ≡ scrubbed did users
    → get_raw_by_id user_id users ≡ some (apply_erasure_scrub str_uuid now u)
unfolding scrub_for_erasure get_by_id apply_erasure_scrub
scrub_for_erasure-row str_uuid now user_id rows {u} {did} {users} found live e =
    let here : (u.id == user_id) ≡ true =
      (let same = get_raw_by_id-id user_id rows found in rw same (==-refl user_id)) in
    let shown : visible (get_raw_by_id user_id rows) ≡ some u = rw found (rw live refl) in
    let f : scrub_row str_uuid now user_id (some u) rows ≡ scrubbed did users =
      ap (λ o. scrub_row str_uuid now user_id o rows) (sym shown) ∙ e in
    elim (Bool-cases (email_taken (erased_email str_uuid user_id) user_id rows)) [
      | inl taken ↦ absurd (let g = rw taken at f in ground arith)
      | inr free ↦
          let g = rw free at f in
          let after : users ≡ update_row user_id (apply_erasure_scrub str_uuid now) rows =
            ground arith in
          rw after (
            get_raw_by_id-update_row user_id (apply_erasure_scrub str_uuid now) (λ v. refl) user_id
              rows
            ∙ rw found (rw here refl))
    ]

module _ (str_uuid : ℕ → String) (event_id now : ℕ) (cleanup : Cleanup) (user_id : ℕ)
    (reason : String) where
  erase_scrubbed-parts :
      (s : ScrubResult) (db cleared : AuthDb) {db' : AuthDb}
      → erase_scrubbed str_uuid event_id now cleanup user_id reason s db cleared ≡ (done, db')
      → (did : Bool) × (users : List User) × (s ≡ scrubbed did users)
        × (db'.users ≡ users)
        × (db'.credentials ≡ cleared.credentials)
        × (db'.refresh_tokens ≡ cleared.refresh_tokens)
        × (db'.internal_tokens ≡ cleared.internal_tokens)
        × (db'.audit_events
            ≡ cleared.audit_events ++ erased_event str_uuid event_id now user_id reason ∷ [])
        × (length db'.outbox.messages ≡ suc (length cleared.outbox.messages))
  unfolding record_audit_event enqueue
  erase_scrubbed-parts integrity_error db cleared e = absurd (ground arith)
  erase_scrubbed-parts (scrubbed did users) db cleared e = (
    did,
    users,
    refl,
    sym (ap (λ r. r.1.users) e),
    sym (ap (λ r. r.1.credentials) e),
    sym (ap (λ r. r.1.refresh_tokens) e),
    sym (ap (λ r. r.1.internal_tokens) e),
    sym (ap (λ r. r.1.audit_events) e),
    sym (ap (λ r. length r.1.outbox.messages) e) ∙ length-append_one cleared.outbox.messages _,
  )

  erase_live :
      (u : User) (s : ScrubResult) (db cleared : AuthDb)
      → u.is_erased ≡ false
      → erase_scrubbed str_uuid event_id now cleanup user_id reason s db cleared ≡ (
          if u.is_erased
          then (done, db)
          else erase_scrubbed str_uuid event_id now cleanup user_id reason s db cleared)
  erase_live u s db cleared live = rw live refl

  erased_event-CleanEvent : CleanEvent user_id (erased_event str_uuid event_id now user_id reason)
  unfolding has_key
  erased_event-CleanEvent = inr (refl, refl, refl, refl, refl)

  -- An erasure that is done, of a user who was not erased, leaves the row with a placeholder
  -- e-mail, no last login, inactive, erased, at the next version and unseen, no credential, refresh
  -- token or internal token of the user, and in the audit events of the user neither address nor
  -- agent nor family; one message is added to the outbox. Run again, at any time and for any
  -- reason, it changes nothing.
  pub erase_user-Erased :
      (db : AuthDb) {u : User} {db' : AuthDb} (event_id' now' : ℕ) (cleanup' : Cleanup)
      (reason' : String)
      → get_raw_by_id user_id db.users ≡ some u
      → u.is_erased ≡ false
      → erase_user str_uuid event_id now cleanup user_id reason db ≡ (done, db')
      → Erased str_uuid now user_id u db'
        × (length db'.outbox.messages ≡ suc (length db.outbox.messages))
        × (erase_user str_uuid event_id' now' cleanup' user_id reason' db' ≡ (done, db'))
  unfolding erase_user delete_credentials_and_tokens delete_refresh_tokens get_by_id
      apply_erasure_scrub
  erase_user-Erased db {u} {db'} event_id' now' cleanup' reason' found live e =
      let cleared =
        delete_credentials_and_tokens user_id
          (record db { audit_events = scrub_audit_events user_id db.audit_events }) in
      let f : erase_scrubbed str_uuid event_id now cleanup user_id reason
            (scrub_for_erasure str_uuid now user_id db.users) db cleared
          ≡ (done, db') =
        erase_live u (scrub_for_erasure str_uuid now user_id db.users) db cleared live
        ∙ (rw found at e) in
      let (did, users, scrub, us, cs, rs, is, es, ms) = erase_scrubbed-parts _ db cleared f in
      let row = scrub_for_erasure-row str_uuid now user_id db.users found live scrub in
      let raw : get_raw_by_id user_id db'.users ≡ some (apply_erasure_scrub str_uuid now u) =
        rw us row in
      let kept = filter (λ (t : RefreshToken). not (t.user_id == user_id)) db.refresh_tokens in
      (
        record {
          row = (
            apply_erasure_scrub str_uuid now u,
            raw,
            record {
              email = refl;
              last_login_at = refl;
              is_active = refl;
              is_erased = refl;
              authz_version = refl;
              updated_at = refl;
            },
          );
          unseen = rw raw refl;
          credentials = rw cs (count-filter-not _ db.credentials);
          refresh_tokens =
              rw rs (count-unlink user_id kept kept ∙ count-filter-not _ db.refresh_tokens);
          internal_tokens = rw is (count-filter-not _ db.internal_tokens);
          events = rw es (
              All-append (CleanEvent user_id) _ _
                (scrub_audit_events-CleanEvent user_id db.audit_events)
                (erased_event-CleanEvent, tt));
        },
        ms,
        rw raw refl,
      )
