-- ===== src/Routes.antt =====
-- app/api/routes.py and the schemas of app/schemas/api.py: what the routes return.
pub mod Results
pub mod SafeHeaders
pub mod Request
pub mod Intake
pub mod Cursor
pub mod Listing
pub mod Admin
pub mod Background
pub mod Probes
use webhook_relay_api.Prelude.{
  ℕ, String, Bool, false, not, Option, none, some, List, eqb, if◌then◌else◌,
}
use webhook_relay_api.Datetime.{Datetime, to_utc, as_utc}
use webhook_relay_api.Json.{Fields}
use webhook_relay_api.Event.{Headers, RelayColumns, Event}
use webhook_relay_api.Relay.{RelayResult}

pub record EventItem : Type 0 where
  pub event_id : String
  pub source : String
  pub received_at : Datetime
  pub payload : Fields
  pub headers : Headers
  pub request_id : String
  pub idempotency_key : Option String
  pub relay : Option RelayResult

pub record CreateWebhookResponse : Type 0 where
  pub event_id : String
  pub received_at : Datetime
  pub relay : Option RelayResult

pub record EventsListResponse : Type 0 where
  pub events : List EventItem
  pub next_cursor : Option String

-- `bool(n)`
abbrev pub bool_of : ℕ → Bool
bool_of n = not (eqb n 0)

-- `_event_relay_result`
unfoldable pub event_relay_result : Event → Option RelayResult
unfolding as_utc
event_relay_result event = elim event.relay.relay_status [
  | none ↦ none
  | some status ↦ some (record {
    attempted = bool_of event.relay.relay_attempted;
    success = bool_of event.relay.relay_success;
    reason = event.relay.relay_reason;
    status_code = event.relay.relay_last_status_code;
    attempts = event.relay.relay_attempts;
    last_error = event.relay.relay_last_error;
    last_attempt_at = as_utc event.relay.relay_last_attempt_at;
  })
]

-- `_event_item`
unfoldable pub event_item : Event → EventItem
unfolding event_relay_result to_utc
event_item event = record {
  event_id = event.id;
  source = event.source;
  received_at = to_utc event.received_at;
  payload = event.payload;
  headers = event.headers;
  request_id = event.request_id;
  idempotency_key = event.idempotency_key;
  relay = event_relay_result event;
}

-- `_create_response`
unfoldable pub create_response : Event → CreateWebhookResponse
unfolding event_relay_result to_utc
create_response event = record {
  event_id = event.id;
  received_at = to_utc event.received_at;
  relay = event_relay_result event;
}

abbrev pub relay_status_of : RelayResult → String
relay_status_of r = if not r.attempted then "skipped" else if r.success then "success" else "failed"

-- `_relay_update_values`
unfoldable pub relay_update_values : RelayResult → RelayColumns
relay_update_values r = record {
  relay_status = some (relay_status_of r);
  relay_attempted = if r.attempted then 1 else 0;
  relay_success = if r.success then 1 else 0;
  relay_attempts = r.attempts;
  relay_reason = r.reason;
  relay_last_error = r.last_error;
  relay_last_status_code = r.status_code;
  relay_last_attempt_at = r.last_attempt_at;
}

-- `_apply_relay_result`
unfoldable pub apply_relay_result : Event → RelayResult → Event
unfolding relay_update_values
apply_relay_result event r = record event { relay = relay_update_values r }

-- `_queue_full_relay_result`
abbrev pub queue_full_relay_result : RelayResult
queue_full_relay_result = record {
  attempted = false;
  success = false;
  reason = some "relay_queue_full";
  status_code = none;
  attempts = 0;
  last_error = some "relay queue is full";
  last_attempt_at = none;
}
