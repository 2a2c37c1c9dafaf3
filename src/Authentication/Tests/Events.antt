-- ===== src/Authentication/Tests/Events.antt =====
-- A client of the audit log at three events of two users.
use Prim.Native.String as Text
use starter_template_fastapi.Base.{ℕ, ◌≡◌, refl, Option, none, some, List, [], ◌∷◌, arith}
use starter_template_fastapi.Base.Json.{end}
use starter_template_fastapi.Base.Sort.{sort}
use starter_template_fastapi.Base.Cursor.Strokes.{lib, lib-RoundTrips}
use starter_template_fastapi.Authentication.Models.{AuditEvent}
use starter_template_fastapi.Authentication.AuditLog.{
  EventFilter, event_read, list_events, collect_events,
}
use starter_template_fastapi.Authentication.AuditLog.Walk.{collect_events-all}

abbrev logged : ℕ → Option ℕ → ℕ → AuditEvent
logged id user_id created_at = record {
  id = id;
  user_id = user_id;
  event_type = "auth.login_succeeded";
  metadata = end;
  created_at = created_at;
  ip_address = none;
  user_agent = none;
}

abbrev events : List AuditEvent
events = logged 3 (some 7) 5 ∷ logged 1 (some 8) 9 ∷ logged 2 (some 7) 6 ∷ []

abbrev of_seven : EventFilter
of_seven = record { user_id = some 7; event_type = some "auth.login_succeeded"; since = some 5 }

-- The newest event of the user is the first page of one.
first_page : list_events of_seven none 1 events ≡ logged 2 (some 7) 6 ∷ []
unfolding list_events
first_page = refl

collect_events-all_example :
    collect_events lib Text.count of_seven 4 1 events
    ≡ event_read (logged 2 (some 7) 6) ∷ event_read (logged 3 (some 7) 5) ∷ []
unfolding sort
collect_events-all_example =
    collect_events-all lib lib-RoundTrips Text.count of_seven 1 events (omega arith) (omega arith)
      refl 4 (refl, (refl, (refl, tt)))
      ((omega arith, omega arith), ((omega arith, omega arith), ((omega arith, omega arith), tt)))
      (omega arith)
