-- ===== src/Authentication/AuditLog/Walk.antt =====
-- A client that follows the cursors of the audit log sees every event that its filter selects.
use starter_template_fastapi.Base.{
  ℕ, ◌≤◌, ◌<◌, ◌≡◌, refl, ap, true, String, Option, none, some, List, map, arith, leb, length,
  filter, All, max, min, ◌&&◌, count-le-length, length-filter,
}
use starter_template_fastapi.Base.Keys.{Distinct}
use starter_template_fastapi.Base.Keys.Kept.{Distinct-filter}
use starter_template_fastapi.Base.Sort.{sort}
use starter_template_fastapi.Base.Keyset.{in_order, page, next_cursor}
use starter_template_fastapi.Base.Keyset.Client.{token_of, InRange?, answer_of, gather-all}
use starter_template_fastapi.Base.Keyset.Kept.{All-filter_kept}
use starter_template_fastapi.Base.Keyset.Pages.{IsStrict, IsAscending-sort}
use starter_template_fastapi.Base.Cursor.{CursorLib, encode_cursor}
use starter_template_fastapi.Base.Cursor.RoundTrip.{
  RoundTrips, InRange, decode_cursor-encode_cursor,
}
use starter_template_fastapi.Authentication.Models.{AuditEvent}
use starter_template_fastapi.Authentication.AuditLog.{
  EventFilter, event_key, newer, event_matches, list_audit_events, list_events, event_read,
  type_accepted, next_token, log_page, admin_list_audit_events, read_answer, collect_events,
}

newer-IsStrict : IsStrict newer
newer-IsStrict = record {
  irrefl = λ k. ground arith;
  trans = λ i j k e f. ground arith;
  between = λ i j k e f. ground arith;
}

module _ {T B : Type 0} (lib : CursorLib T B) (laws : RoundTrips lib) (len : String → ℕ)
    (f : EventFilter) (limit : ℕ) (rows : List AuditEvent) (least : 1 ≤ limit) (most : limit ≤ 500)
    (accepted : type_accepted len f.event_type ≡ true) where
  abbrev encode : ℕ × ℕ → T
  encode (created_at, id) = encode_cursor lib created_at id

  abbrev query : Option (ℕ × ℕ) → List AuditEvent
  query before = page event_key newer limit before (filter (event_matches f) rows)

  list_events-eq_query : (before : Option (ℕ × ℕ)) → list_events f before limit rows ≡ query before
  unfolding list_events list_audit_events
  list_events-eq_query before =
      let bounded : max 1 (min limit 500) ≡ limit = omega (arith, least, most) in
      ap (λ n. page event_key newer n before (filter (event_matches f) rows)) bounded

  in_bounds : (leb 1 limit && leb limit 500 && type_accepted len f.event_type) ≡ true
  in_bounds = rw accepted (ground arith)

  next_token-eq_token_of :
      (before : Option (ℕ × ℕ))
      → next_token lib len f before ≡ token_of event_key newer event_read encode InRange before
  next_token-eq_token_of none = refl
  next_token-eq_token_of (some (t, i)) = refl

  read_answer-log_page :
      (events : List AuditEvent)
      → read_answer lib len f (log_page lib len f limit events)
        ≡ answer_of event_key newer event_read encode InRange limit events
  read_answer-log_page events =
      ap (λ token. (map event_read events, token))
        (next_token-eq_token_of (next_cursor event_key newer limit events))

  answers :
      (before : Option (ℕ × ℕ))
      → InRange? event_key newer event_read encode InRange before
      → read_answer lib len f (
          admin_list_audit_events lib len f
            (token_of event_key newer event_read encode InRange before)
            limit
            rows)
        ≡ answer_of event_key newer event_read encode InRange limit (query before)
  unfolding admin_list_audit_events
  answers none r =
      rw (in_bounds, list_events-eq_query none, admin_list_audit_events)
        (read_answer-log_page (query none))
  answers (some (t, i)) r =
      rw
        (
          in_bounds,
          decode_cursor-encode_cursor lib laws t i r.0 r.1,
          list_events-eq_query (some (t, i)),
          admin_list_audit_events,
        )
        (read_answer-log_page (query (some (t, i))))

  -- A client that reads the audit log by pages of 1 to 500, and sends back each cursor that it is
  -- given, collects every event that its filter selects, once and newest first, if it makes more
  -- requests than there are events: given that the type it asks for is of an accepted length, that
  -- ids are distinct, that times and ids fit their types, and that the cursor's formats read back
  -- what they write.
  pub collect_events-all :
      (fuel : ℕ)
      → Distinct (λ (e : AuditEvent). e.id) rows
      → All (λ e. InRange (event_key e)) rows
      → length rows < fuel
      → collect_events lib len f fuel limit rows
        ≡ map event_read (sort (in_order event_key newer) (filter (event_matches f) rows))
  unfolding collect_events
  collect_events-all fuel d range enough =
      gather-all event_key newer event_read encode InRange limit (filter (event_matches f) rows)
        (All-filter_kept _ (event_matches f) rows range)
        (λ before. read_answer lib len f (admin_list_audit_events lib len f before limit rows))
        answers fuel newer-IsStrict (omega (arith, least))
        (IsAscending-sort event_key newer newer-IsStrict (λ e. e.id) (λ x y e f. ground arith)
          (filter (event_matches f) rows) (Distinct-filter _ (event_matches f) rows d))
        (omega (
          arith,
          enough,
          count-le-length (event_matches f) rows,
          length-filter (event_matches f) rows,
        ))
