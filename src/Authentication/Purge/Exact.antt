-- ===== src/Authentication/Purge/Exact.antt =====
-- The loops of the purge end, and leave the tokens that are not expired.
use starter_template_fastapi.Base.{
  ℕ, zero, suc, ◌+◌, ◌<◌, ◌≡◌, refl, sym, ap, ◌∙◌, inl, inr, true, false, not, Option, none, some,
  List, [], ◌∷◌, map, arith, ◌==◌, length, filter, count, Bool-cases, length-map, any-map,
  filter-map, map-map_eq,
}
use starter_template_fastapi.Base.Clock.{days, sub_time}
use starter_template_fastapi.Base.Filters.{count-add-filter-not, filter-not_of_none}
use starter_template_fastapi.Base.Keys.{Distinct}
use starter_template_fastapi.Authentication.Models.{RefreshToken, InternalToken, AuthDb}
use starter_template_fastapi.Authentication.Store.{unlink}
use starter_template_fastapi.Outbox.Prune.{drain}
use starter_template_fastapi.Outbox.Prune.Exact.{drain-exact}
use starter_template_fastapi.Outbox.Repository.{delete_oldest}
use starter_template_fastapi.Outbox.Repository.Delete.{
  delete_oldest-keeps, delete_oldest-count, delete_oldest-pos, delete_oldest_nothing,
  Distinct-delete_oldest,
}
use starter_template_fastapi.Authentication.Purge.{
  refresh_expired, internal_expired, batch_limit, delete_refresh_batch, delete_internal_batch,
  delete_expired_refresh_tokens, delete_expired_internal_tokens, PurgeResult, report, purge_before,
  purge_expired_tokens,
}

-- A refresh token without its link to the one that replaced it.
abbrev pub loose : RefreshToken → RefreshToken
loose t = record t { replaced_by_token_id = none }

module _ (kept : List RefreshToken) (cutoff : ℕ) where
  count-unlink :
      (tokens : List RefreshToken)
      → count (refresh_expired cutoff) (map (unlink kept) tokens)
        ≡ count (refresh_expired cutoff) tokens
  unfolding refresh_expired
  count-unlink [] = refl
  count-unlink (t ∷ tokens) = ground (arith, count-unlink tokens)

  loose-unlink :
      (tokens : List RefreshToken)
      → map loose (filter (λ t. not (refresh_expired cutoff t)) (map (unlink kept) tokens))
        ≡ map loose (filter (λ t. not (refresh_expired cutoff t)) tokens)
  unfolding refresh_expired
  loose-unlink tokens =
      ap (map loose) (
        filter-map (unlink kept) (λ t. not (refresh_expired cutoff t))
          (λ t. not (refresh_expired cutoff t)) tokens (λ t. refl))
      ∙ map-map_eq loose (unlink kept) loose (filter (λ t. not (refresh_expired cutoff t)) tokens)
          (λ t. refl)

  Distinct-unlink :
      (tokens : List RefreshToken)
      → Distinct (λ (t : RefreshToken). t.id) tokens
      → Distinct (λ (t : RefreshToken). t.id) (map (unlink kept) tokens)
  Distinct-unlink [] d = tt
  Distinct-unlink (t ∷ tokens) d = (
    any-map (unlink kept) (λ (s : RefreshToken). s.id == t.id) tokens ∙ d.0,
    Distinct-unlink tokens d.1,
  )

-- The tokens that are left when the loop ends, up to their links.
abbrev pub Left : ℕ → List RefreshToken → List RefreshToken → Type 0
Left cutoff tokens rest =
    map loose rest ≡ map loose (filter (λ t. not (refresh_expired cutoff t)) tokens)

is_zero : (n : ℕ) → (n == 0) ≡ true → n ≡ 0
is_zero n e = ground arith

shorter_fuel :
    (fuel deleted left : ℕ) → (deleted == 0) ≡ false → deleted + left < suc fuel → left < fuel
shorter_fuel fuel deleted left e f = ground arith

module _ (cutoff : ℕ) (scan : RefreshToken → Option ℕ) where
  abbrev doomed : List RefreshToken → ℕ
  doomed tokens = (delete_oldest (λ t. t.id) (refresh_expired cutoff) scan batch_limit tokens).0

  abbrev kept : List RefreshToken → List RefreshToken
  kept tokens = (delete_oldest (λ t. t.id) (refresh_expired cutoff) scan batch_limit tokens).1

  abbrev relinked : List RefreshToken → List RefreshToken
  relinked tokens = map (unlink (kept tokens)) (kept tokens)

  none_expired :
      (tokens : List RefreshToken) → doomed tokens ≡ 0 → count (refresh_expired cutoff) tokens ≡ 0
  none_expired tokens e =
      grind (arith, delete_oldest-pos (λ t. t.id) (refresh_expired cutoff) scan batch_limit tokens)

  relinked_shorter :
      (tokens : List RefreshToken) → doomed tokens + length (relinked tokens) ≡ length tokens
  relinked_shorter tokens =
      rw (length-map (unlink (kept tokens)) (kept tokens))
        (delete_oldest-count (λ t. t.id) (refresh_expired cutoff) scan batch_limit tokens)

  Left-nothing :
      (tokens : List RefreshToken)
      → count (refresh_expired cutoff) tokens ≡ 0
      → doomed tokens ≡ 0
      → Left cutoff tokens (relinked tokens)
  Left-nothing tokens z e =
      map-map_eq loose (unlink (kept tokens)) loose (kept tokens) (λ t. refl)
      ∙ ap (map loose) (
          delete_oldest_nothing _ (refresh_expired cutoff) scan batch_limit tokens e
          ∙ sym (filter-not_of_none (refresh_expired cutoff) tokens z))

  Left-relinked :
      (tokens rest : List RefreshToken)
      → Distinct (λ (t : RefreshToken). t.id) tokens
      → Left cutoff (relinked tokens) rest
      → Left cutoff tokens rest
  Left-relinked tokens rest d left =
      left
      ∙ loose-unlink (kept tokens) cutoff (kept tokens)
      ∙ ap (map loose) (delete_oldest-keeps _ (refresh_expired cutoff) scan batch_limit tokens d)

  count-relinked :
      (tokens : List RefreshToken)
      → Distinct (λ (t : RefreshToken). t.id) tokens
      → doomed tokens + count (refresh_expired cutoff) (relinked tokens)
        ≡ count (refresh_expired cutoff) tokens
  count-relinked tokens d = rw (count-unlink (kept tokens) cutoff (kept tokens)) (
      omega (
        arith,
        ap length (delete_oldest-keeps _ (refresh_expired cutoff) scan batch_limit tokens d),
        delete_oldest-count _ (refresh_expired cutoff) scan batch_limit tokens,
        count-add-filter-not (refresh_expired cutoff) tokens,
        count-add-filter-not (refresh_expired cutoff) (kept tokens),
      ))

  drain-Left :
      (fuel total : ℕ) (tokens : List RefreshToken)
      → Distinct (λ (t : RefreshToken). t.id) tokens
      → length tokens < fuel
      → (rest : List RefreshToken) × (drain fuel (delete_refresh_batch cutoff scan) total tokens
          ≡ some (total + count (refresh_expired cutoff) tokens, rest))
        × Left cutoff tokens rest
  unfolding drain delete_refresh_batch
  drain-Left zero total tokens d f = absurd (omega arith)
  drain-Left (suc fuel) total tokens d f = elim (Bool-cases (doomed tokens == 0)) [
    | inl e ↦
        let nothing = is_zero (doomed tokens) e in
        let z = none_expired tokens nothing in
        (
          relinked tokens,
          rw (e, z) (ap (λ (n : ℕ). some (n, relinked tokens)) (omega arith)),
          Left-nothing tokens z nothing,
        )
    | inr e ↦
        let (rest, ends, left) =
          drain-Left fuel (total + doomed tokens) (relinked tokens)
            (Distinct-unlink (kept tokens) cutoff (kept tokens)
              (Distinct-delete_oldest _ (refresh_expired cutoff) scan batch_limit tokens d))
            (shorter_fuel fuel (doomed tokens) (length (relinked tokens)) e
              (rw (relinked_shorter tokens) f)) in
        (
          rest,
          rw e (ends ∙ ap (λ (n : ℕ). some (n, rest)) (omega (arith, count-relinked tokens d))),
          Left-relinked tokens rest d left,
        )
  ]

module _ (fuel cutoff : ℕ) (refresh_scan : RefreshToken → Option ℕ)
    (internal_scan : InternalToken → Option ℕ) (db : AuthDb) where
  abbrev purged : PurgeResult
  purged = report (record {
    refresh_tokens_deleted = count (refresh_expired cutoff) db.refresh_tokens;
    internal_tokens_deleted = count (internal_expired cutoff) db.internal_tokens;
  })

  purge_before-Left :
      Distinct (λ (t : RefreshToken). t.id) db.refresh_tokens
      → Distinct (λ (t : InternalToken). t.id) db.internal_tokens
      → length db.refresh_tokens < fuel
      → length db.internal_tokens < fuel
      → (rest : List RefreshToken) × (purge_before fuel refresh_scan internal_scan cutoff db
          ≡ some (
            purged,
            record db {
              refresh_tokens = rest;
              internal_tokens = filter (λ t. not (internal_expired cutoff t)) db.internal_tokens;
            },
          ))
        × Left cutoff db.refresh_tokens rest
  unfolding purge_before delete_expired_refresh_tokens delete_expired_internal_tokens
      delete_internal_batch
  purge_before-Left dr di fr fi =
      let (rest, ends, left) = drain-Left cutoff refresh_scan fuel 0 db.refresh_tokens dr fr in
      (
        rest,
        rw (ends, purge_before)
            (rw
              (drain-exact _ (internal_expired cutoff) internal_scan batch_limit fuel 0
                db.internal_tokens (omega arith) di fi)
              (ground arith)),
        left,
      )

  -- If the cutoff is representable, the ids of both tables are distinct and the fuel is above the
  -- size of each, the purge ends, whatever rows each LIMIT lets through. It reports how many tokens
  -- of each table had expired. The refresh tokens left are those that had not expired, in order,
  -- equal but for their links to successors; the internal tokens left are those that had not
  -- expired, in order; nothing else changes.
  pub purge_expired_tokens-Left :
      (now retention_days : ℕ)
      → sub_time now (days retention_days) ≡ some cutoff
      → Distinct (λ (t : RefreshToken). t.id) db.refresh_tokens
      → Distinct (λ (t : InternalToken). t.id) db.internal_tokens
      → length db.refresh_tokens < fuel
      → length db.internal_tokens < fuel
      → (rest : List RefreshToken) × (purge_expired_tokens fuel refresh_scan internal_scan now
            retention_days db
          ≡ some (
            purged,
            record db {
              refresh_tokens = rest;
              internal_tokens = filter (λ t. not (internal_expired cutoff t)) db.internal_tokens;
            },
          ))
        × Left cutoff db.refresh_tokens rest
  unfolding purge_expired_tokens
  purge_expired_tokens-Left now retention_days e dr di fr fi =
      rw (e, purge_expired_tokens) (purge_before-Left dr di fr fi)
