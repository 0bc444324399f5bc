-- ===== src/Routes/Listing.antt =====
-- `list_events` and `get_event` (app/api/routes.py).
pub mod Pages
pub mod Walk
use webhook_relay_api.Prelude.{
  ℕ, ◌+◌, String, Bool, true, ◌&&◌, ◌||◌, Option, none, some, List, ◌==◌, ltb, eqb, if◌then◌else◌,
  truthy, length, take, map, get_last?,
}
use webhook_relay_api.Result.{Result, ok, err, http_exception}
use webhook_relay_api.Datetime.{instant}
use webhook_relay_api.Text.Order.{text_lt}
use webhook_relay_api.Platform.{Platform}
use webhook_relay_api.Event.{Event, newer}
use webhook_relay_api.Database.{Database}
use webhook_relay_api.App.{App, Exec, pure, raise, lift, get_db, ◌>>=◌, ◌>>◌}
use webhook_relay_api.Routes.{EventItem, EventsListResponse, event_item}
use webhook_relay_api.Routes.Cursor.{encode_cursor, decode_cursor}

-- `if source: stmt = stmt.where(Event.source == source)`
abbrev pub from_source : Option String → Event → Bool
from_source none row = true
from_source (some source) row = if truthy source then row.source == source else true

-- `or_(received_at < ts, and_(received_at == ts, id < cursor_id))`
abbrev pub older_than : ℕ × String → Event → Bool
older_than (ts, id) row =
    ltb (instant row.received_at) ts || (eqb (instant row.received_at) ts && text_lt row.id id)

module _ (p : Platform) where
  -- `if cursor: ...`: the condition that it adds.
  unfoldable pub cursor_test : Option String → Result (Event → Bool)
  cursor_test none = ok (λ row. true)
  cursor_test (some cursor) =
      if truthy cursor
      then (elim (decode_cursor p cursor) [ ok at ↦ ok (older_than at) | err e ↦ err e ])
      else ok (λ row. true)

  -- `_encode_cursor` of the last item
  abbrev pub cursor_after : Option Event → Option String
  cursor_after none = none
  cursor_after (some tail) = some (encode_cursor p tail.received_at tail.id)

  -- The response for the rows that were fetched, one more than the limit at most.
  unfoldable pub page_of : ℕ → List Event → EventsListResponse
  page_of limit rows = record {
    events = map event_item (take limit rows);
    next_cursor =
        if ltb limit (length rows) then cursor_after (get_last? (take limit rows)) else none;
  }

  module _ {Db : Type 0} (db : Database Db) where
    abbrev pub fetch : Option String → ℕ → (Event → Bool) → Exec (App Db) EventsListResponse
    fetch source limit test = do
      rows ← get_db (λ d.
          ok (db.select_ordered (λ row. from_source source row && test row) newer (limit + 1) d, d))
      pure (page_of limit rows)

    unfoldable pub list_events :
        ℕ → Option String → Option String → Exec (App Db) EventsListResponse
    list_events limit cursor source = do test ← lift (cursor_test cursor); fetch source limit test

abbrev pub item_or_404 : {S : Type 0} → Option Event → Exec S EventItem
item_or_404 none = raise (http_exception 404 "Event not found")
item_or_404 (some event) = pure (event_item event)

unfoldable pub get_event : {Db : Type 0} → Database Db → String → Exec (App Db) EventItem
get_event db event_id = do event ← get_db (λ d. ok (db.get event_id d, d)); item_or_404 event
