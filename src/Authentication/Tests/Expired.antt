-- ===== src/Authentication/Tests/Expired.antt =====
-- The purge at a family whose first token was replaced by one that has expired.
use starter_template_fastapi.Base.{ℕ, ◌≡◌, refl, Option, none, some, List, [], ◌∷◌, arith}
use starter_template_fastapi.Base.Clock.{sub_time}
use starter_template_fastapi.Authentication.Models.{RefreshToken, InternalToken, AuthDb}
use starter_template_fastapi.Authentication.Purge.{
  report, refresh_expired, internal_expired, delete_expired_refresh_tokens, purge_expired_tokens,
}
use starter_template_fastapi.Authentication.Purge.Exact.{Left, purge_expired_tokens-Left}
use starter_template_fastapi.Authentication.Tests.{token, db}

abbrev replaced : RefreshToken
replaced = record (token 10 "one" (some 60)) { replaced_by_token_id = some 11 }

abbrev used : InternalToken
used = record {
  id = 20;
  user_id = some 7;
  purpose = "password_reset";
  token_hash = "reset";
  expires_at = 100;
  used_at = some 5;
  created_at = 0;
  created_ip = none;
}

abbrev old : AuthDb
old = record db {
  refresh_tokens = replaced ∷ token 11 "two" (some 20) ∷ token 12 "three" none ∷ [];
  internal_tokens = used ∷ [];
}

abbrev by_id : RefreshToken → Option ℕ
by_id t = some t.id

abbrev by_use : InternalToken → Option ℕ
by_use t = t.used_at

-- The link to the deleted token is gone.
unlinks :
    delete_expired_refresh_tokens 4 50 by_id old.refresh_tokens
    ≡ some (1, token 10 "one" (some 60) ∷ token 12 "three" none ∷ [])
unfolding delete_expired_refresh_tokens
unlinks = refl

day_before : sub_time 86400000050 86400000000 ≡ some 50
unfolding sub_time
day_before = refl

purge_expired_tokens-Left_example :
    (rest : List RefreshToken) × (purge_expired_tokens 4 by_id by_use 86400000050 1 old
      ≡ some (
        report (record { refresh_tokens_deleted = 1; internal_tokens_deleted = 1 }),
        record old { refresh_tokens = rest; internal_tokens = [] },
      ))
    × Left 50 old.refresh_tokens rest
unfolding refresh_expired internal_expired
purge_expired_tokens-Left_example =
    purge_expired_tokens-Left 4 50 by_id by_use old 86400000050 1 day_before
      (refl, (refl, (refl, tt))) (refl, tt) (omega arith) (omega arith)
