-- ===== src/Authentication/AuditLog.antt =====
-- `admin_list_audit_events` of src/features/authentication/adapters/inbound/http/admin.py, over
-- application/use_cases/admin/list_audit_events.py, and a client that follows its cursors.
pub mod Walk
use starter_template_fastapi.Base.{
  ℕ, String, Bool, true, false, ◌&&◌, Option, none, some, List, [], map, filter, leb, ◌==◌, str_eq,
  if◌then◌else◌, length, max, min,
}
use starter_template_fastapi.Base.Json.{Fields}
use starter_template_fastapi.Base.Keyset.{page, next_cursor}
use starter_template_fastapi.Base.Keyset.Client.{gather}
use starter_template_fastapi.Base.Cursor.{
  CursorLib, CursorError, Decoded, decoded, invalid, encode_cursor, decode_cursor,
}
use starter_template_fastapi.Users.Repository.{key_lt}
use starter_template_fastapi.Authentication.Models.{AuditEvent}

-- The three filters of the query
pub record EventFilter : Type 0 where
  pub user_id : Option ℕ
  pub event_type : Option String
  pub since : Option ℕ

abbrev pub event_key : AuditEvent → ℕ × ℕ
event_key e = (e.created_at, e.id)

-- The order of the query is descending.
abbrev pub newer : ℕ × ℕ → ℕ × ℕ → Bool
newer a b = key_lt b a

-- user_id = :user_id, which a row without a user does not meet
abbrev pub user_matches : Option ℕ → Option ℕ → Bool
user_matches none owner = true
user_matches (some user_id) none = false
user_matches (some user_id) (some owner) = owner == user_id

abbrev pub type_matches : Option String → String → Bool
type_matches none event_type = true
type_matches (some wanted) event_type = str_eq event_type wanted

abbrev pub not_before : Option ℕ → ℕ → Bool
not_before none created_at = true
not_before (some since) created_at = leb since created_at

abbrev pub event_matches : EventFilter → AuditEvent → Bool
event_matches f e =
    user_matches f.user_id e.user_id
    && (type_matches f.event_type e.event_type && not_before f.since e.created_at)

unfoldable pub list_audit_events :
    EventFilter → Option (ℕ × ℕ) → ℕ → List AuditEvent → List AuditEvent
unfolding page
list_audit_events f before limit rows =
    page event_key newer limit before (filter (event_matches f) rows)

-- `ListAuditEvents.execute`
unfoldable pub list_events : EventFilter → Option (ℕ × ℕ) → ℕ → List AuditEvent → List AuditEvent
unfolding list_audit_events
list_events f before limit rows = list_audit_events f before (max 1 (min limit 500)) rows

pub record AuditEventRead : Type 0 where
  pub id : ℕ
  pub user_id : Option ℕ
  pub event_type : String
  pub metadata : Fields
  pub created_at : ℕ

abbrev pub event_read : AuditEvent → AuditEventRead
event_read e = record {
  id = e.id;
  user_id = e.user_id;
  event_type = e.event_type;
  metadata = e.metadata;
  created_at = e.created_at;
}

pub record AuditLogRead (T : Type 0) : Type 0 where
  pub items : List AuditEventRead
  pub count : ℕ
  pub limit : ℕ
  pub next_before : Option T

-- The answer: a page, 400 for a malformed cursor, or 422 for a parameter out of its range
pub data AuditAnswer (T : Type 0) : Type 0 where
  shows : AuditLogRead T → AuditAnswer T
  bad_request : CursorError → AuditAnswer T
  unprocessable : AuditAnswer T

-- Query(min_length=1, max_length=150), where `len` is the length of a string
abbrev pub type_accepted : (String → ℕ) → Option String → Bool
type_accepted len none = true
type_accepted len (some event_type) = leb 1 (len event_type) && leb (len event_type) 150

module _ {T B : Type 0} (lib : CursorLib T B) (len : String → ℕ) (f : EventFilter) where
  abbrev pub next_token : Option (ℕ × ℕ) → Option T
  next_token none = none
  next_token (some (created_at, id)) = some (encode_cursor lib created_at id)

  abbrev pub log_page : ℕ → List AuditEvent → AuditAnswer T
  log_page limit events = shows (record {
    items = map event_read events;
    count = length (map event_read events);
    limit = limit;
    next_before = next_token (next_cursor event_key newer limit events);
  })

  abbrev pub log_decoded : Decoded → ℕ → List AuditEvent → AuditAnswer T
  log_decoded (invalid error) limit rows = bad_request error
  log_decoded (decoded created_at id) limit rows =
      log_page limit (list_events f (some (created_at, id)) limit rows)

  abbrev pub log_from : Option T → ℕ → List AuditEvent → AuditAnswer T
  log_from none limit rows = log_page limit (list_events f none limit rows)
  log_from (some before) limit rows = log_decoded (decode_cursor lib before) limit rows

  unfoldable pub admin_list_audit_events : Option T → ℕ → List AuditEvent → AuditAnswer T
  unfolding list_events next_cursor encode_cursor decode_cursor
  admin_list_audit_events before limit rows =
      if leb 1 limit && leb limit 500 && type_accepted len f.event_type
      then log_from before limit rows
      else unprocessable

  -- What a client reads of an answer; an error ends its walk.
  abbrev pub read_answer : AuditAnswer T → List AuditEventRead × Option T
  read_answer (shows p) = (p.items, p.next_before)
  read_answer (bad_request error) = ([], none)
  read_answer unprocessable = ([], none)

  -- The events that a client collects which sends each `next_before` back, on fuel.
  unfoldable pub collect_events : ℕ → ℕ → List AuditEvent → List AuditEventRead
  unfolding gather admin_list_audit_events
  collect_events fuel limit rows =
      gather (λ before. read_answer (admin_list_audit_events before limit rows)) fuel none
