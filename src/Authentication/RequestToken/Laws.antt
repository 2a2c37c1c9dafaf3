-- ===== src/Authentication/RequestToken/Laws.antt =====
-- What a request for a token leaves, and the confirmation of the token that it sends.
use starter_template_fastapi.Base.{
  ℕ, suc, ◌*◌, ◌≡◌, ◌⊎◌, refl, ap, ◌∙◌, inl, inr, String, true, false, ◌||◌, Option, none, some,
  List, [], ◌∷◌, ◌++◌, arith, str_eq, ==-refl, count, length, length-append_one, any, Bool-cases,
}
use starter_template_fastapi.Base.Clock.{seconds, add_time}
use starter_template_fastapi.Base.Dict.{str_eq_self}
use starter_template_fastapi.Base.Keys.{has_id}
use starter_template_fastapi.Users.Model.{User}
use starter_template_fastapi.Authentication.Models.{InternalToken, AuthDb}
use starter_template_fastapi.Authentication.Refresh.{Raised, overflow_error}
use starter_template_fastapi.Authentication.Store.{
  unused_for, invalidate_unused_tokens_for, create_internal_token, record_audit_event,
}
use starter_template_fastapi.Authentication.RequestToken.{
  raised, RequestCall, Purpose, new_internal_token, with_token, with_expiry, issue_token,
}
use starter_template_fastapi.Outbox.Producer.{enqueue}

module _ (user_id : ℕ) (purpose : String) where
  stamped-used :
      (now : ℕ) (t : InternalToken)
      → unused_for user_id purpose (record t { used_at = some now }) ≡ false
  unfolding unused_for
  stamped-used now t = ground arith

  count-invalidated :
      (now : ℕ) (tokens : List InternalToken)
      → count
          (unused_for user_id purpose)
          (invalidate_unused_tokens_for now user_id purpose tokens).1
        ≡ 0
  unfolding invalidate_unused_tokens_for unused_for
  count-invalidated now [] = refl
  count-invalidated now (t ∷ tokens) = elim (Bool-cases (unused_for user_id purpose t)) [
    | inl e ↦ rw e (let used = stamped-used now t in rw used (count-invalidated now tokens))
    | inr e ↦ rw (e, e) (count-invalidated now tokens)
  ]

  count-append_new :
      (t : InternalToken) (tokens : List InternalToken)
      → unused_for user_id purpose t ≡ true
      → count (unused_for user_id purpose) (tokens ++ t ∷ [])
        ≡ suc (count (unused_for user_id purpose) tokens)
  count-append_new t [] h = rw h refl
  count-append_new t (x ∷ tokens) h = ground (arith, count-append_new t tokens h)

-- What a request that answers has written.
pub record Sent (user_id : ℕ) (purpose : String) (db db' : AuthDb) : Type 0 where
  pub one_unused : count (unused_for user_id purpose) db'.internal_tokens ≡ 1
  pub message : length db'.outbox.messages ≡ suc (length db.outbox.messages)
  pub event : length db'.audit_events ≡ suc (length db.audit_events)

module _ (hash_token : String → String) (c : RequestCall) (p : Purpose) where
  new-unused :
      (user : User) (expires_at : ℕ)
      → unused_for user.id p.purpose (new_internal_token hash_token c p user expires_at) ≡ true
  unfolding unused_for
  new-unused user expires_at =
      let same = ==-refl user.id in let self = str_eq_self p.purpose in rw (same, self) refl

  with_token-Sent :
      (user : User) (expires_at : ℕ) (made : Option Raised × List InternalToken) (db : AuthDb)
      → (made.0 ≡ none → count (unused_for user.id p.purpose) made.1 ≡ 1)
      → (let (answer, db') = with_token hash_token c p user expires_at made db in
          ((db' ≡ db) × ((exc : Raised) × (answer ≡ raised exc))) ⊎ Sent user.id p.purpose db db')
  unfolding enqueue record_audit_event
  with_token-Sent user expires_at (some exc, tokens) db h = inl (refl, (exc, refl))
  with_token-Sent user expires_at (none, tokens) db h = inr (record {
    one_unused = h refl;
    message = length-append_one db.outbox.messages _;
    event = length-append_one db.audit_events _;
  })

  created-unused :
      (t : InternalToken) (user_id : ℕ) (now : ℕ) (tokens : List InternalToken)
      → unused_for user_id p.purpose t ≡ true
      → (let made =
            create_internal_token t (invalidate_unused_tokens_for now user_id p.purpose tokens).1 in
          made.0 ≡ none → count (unused_for user_id p.purpose) made.1 ≡ 1)
  unfolding create_internal_token
  created-unused t user_id now tokens unused =
      let kept = (invalidate_unused_tokens_for now user_id p.purpose tokens).1 in
      let zero_left = count-invalidated user_id p.purpose now tokens in
      elim (Bool-cases (
        any (λ x. str_eq x.token_hash t.token_hash) kept
        || has_id (λ (x : InternalToken). x.id) kept t.id)) [
          | inl e ↦ rw e (λ h. absurd (ground arith))
          | inr e ↦ rw e (λ h. count-append_new user_id p.purpose t kept unused ∙ ap suc zero_left)
        ]

  -- A request for a token of a user either raises and changes nothing, or leaves exactly one unused token
  -- of that user for the purpose, one more message in the outbox and one more audit event.
  pub issue_token-Sent :
      (user : User) (db : AuthDb)
      → (let (answer, db') = issue_token hash_token c p user db in
          ((db' ≡ db) × ((exc : Raised) × (answer ≡ raised exc))) ⊎ Sent user.id p.purpose db db')
  unfolding issue_token
  issue_token-Sent user db = by_expiry (add_time c.call.now (seconds (p.expire_minutes * 60)))
    where
      by_expiry :
          (expiry : Option ℕ)
          → (let (answer, db') = with_expiry hash_token c p user expiry db in
              ((db' ≡ db) × ((exc : Raised) × (answer ≡ raised exc)))
              ⊎ Sent user.id p.purpose db db')
      by_expiry none = inl (refl, (overflow_error, refl))
      by_expiry (some expires_at) = with_token-Sent user expires_at _ db (
          created-unused (new_internal_token hash_token c p user expires_at) user.id c.call.utc_now
            db.internal_tokens (new-unused user expires_at))
