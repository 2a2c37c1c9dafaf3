-- ===== src/Authentication/Tests.antt =====
-- The rotation's theorems at a family of two tokens.
mod Accounts
mod Events
mod Expired
use starter_template_fastapi.Base.{
  ℕ, ◌≤◌, ◌≡◌, refl, String, true, false, Option, none, some, [], ◌∷◌, count,
}
use starter_template_fastapi.Users.Model.{User}
use starter_template_fastapi.Users.Repository.{get_raw_by_id, get_by_id}
use starter_template_fastapi.Authentication.Models.{RefreshToken, Principal, IssuedTokens, AuthDb}
use starter_template_fastapi.Authentication.Refresh.{
  issued, invalid_token, Call, find_token, create_refresh_token, renew, present, execute,
}
use starter_template_fastapi.Authentication.Refresh.Live.{live, execute-live}
use starter_template_fastapi.Authentication.Refresh.Reuse.{execute-execute}
use starter_template_fastapi.Authentication.Refresh.Issue.{execute-issued}

abbrev digest : String → String
digest s = s

abbrev token : ℕ → String → Option ℕ → RefreshToken
token id token_hash revoked_at = record {
  id = id;
  user_id = 7;
  token_hash = token_hash;
  family_id = 1;
  expires_at = 100;
  revoked_at = revoked_at;
  replaced_by_token_id = none;
  created_at = 0;
  created_ip = none;
  user_agent = none;
}

abbrev call : ℕ → ℕ → String → Call
call now fresh_id opaque_token = record {
  ip_address = none;
  user_agent = none;
  now = now;
  utc_now = now;
  fresh_id = fresh_id;
  event_id = 90;
  str_uuid = λ id. "id";
  opaque_token = opaque_token;
  issue = λ subject version. ("jwt", 900);
  expire_days = 30;
}

abbrev user : User
user = record {
  id = 7;
  email = "a@b";
  is_active = true;
  is_verified = true;
  is_erased = false;
  authz_version = 2;
  created_at = 0;
  updated_at = 0;
  last_login_at = none;
}

abbrev db : AuthDb
db = record {
  refresh_tokens = token 11 "one" (some 5) ∷ token 12 "two" none ∷ [];
  audit_events = [];
  users = user ∷ [];
  credentials = [];
  internal_tokens = [];
  outbox = record { messages = []; processed = [] };
}

abbrev tokens : IssuedTokens
tokens = record { access_token = "jwt"; refresh_token = "three"; expires_in = 900 }

abbrev principal : Principal
principal = record {
  user_id = 7;
  email = "a@b";
  is_active = true;
  is_verified = true;
  authz_version = 2;
}

abbrev rotated : AuthDb
rotated = (execute digest (call 10 13 "three") (some "two") db).1

rotates : execute digest (call 10 13 "three") (some "two") db ≡ (issued tokens principal, rotated)
unfolding execute present renew find_token get_by_id get_raw_by_id create_refresh_token
rotates = refl

-- The call that rotates leaves the one live token that it issued.
rotated_live : count (live 1) rotated.refresh_tokens ≡ 1
unfolding execute present renew find_token get_by_id get_raw_by_id create_refresh_token
rotated_live = refl

execute-live_example : count (live 1) rotated.refresh_tokens ≤ count (live 1) db.refresh_tokens
execute-live_example = execute-live digest (call 10 13 "three") 1 (some "two") db

execute-execute_example :
    (stored : RefreshToken) × (find_token "two" db.refresh_tokens ≡ some stored)
    × (let (answer, db'') = execute digest (call 20 14 "four") (some "two") rotated in
        (answer ≡ invalid_token) × (count (live stored.family_id) db''.refresh_tokens ≡ 0))
execute-execute_example =
    execute-execute digest (call 10 13 "three") (call 20 14 "four") "two" db rotates

execute-issued_example :
    (stored : RefreshToken) × (find_token "two" db.refresh_tokens ≡ some stored)
    × (new : RefreshToken) × (find_token "three" rotated.refresh_tokens ≡ some new)
    × (new.revoked_at ≡ none)
    × (new.user_id ≡ stored.user_id)
    × (new.family_id ≡ stored.family_id)
execute-issued_example = execute-issued digest (call 10 13 "three") "two" db rotates
