-- ===== src/Routes/Request.antt =====
-- The first part of `create_event` (app/api/routes.py): a request, the checks on it, and the event
-- and the job that are made of it.
pub mod Checks
pub mod Kept
pub mod Refusals
use webhook_relay_api.Prelude.{
  ℕ, String, not, ◌&&◌, Option, none, some, List, if◌then◌else◌, truthy, contains,
}
use webhook_relay_api.Result.{
  Error, http_exception, unicode_decode_error, value_error, other_error, Result, ok, err, raise_if,
  ◌>>=◌, ◌>>◌,
}
use webhook_relay_api.Datetime.{aware, utc, to_utc}
use webhook_relay_api.Json.{Json, obj, Fields}
use webhook_relay_api.Platform.{Platform, loaded, malformed, too_many_digits, too_deep}
use webhook_relay_api.Config.{Settings}
use webhook_relay_api.Security.{enforce_body_size_limit, verify_webhook_signature}
use webhook_relay_api.Event.{Headers, RelayColumns, no_relay, Event}
use webhook_relay_api.App.{Job}
use webhook_relay_api.Relay.Preflight.{is_empty}
use webhook_relay_api.Routes.SafeHeaders.{put, safe_headers}

-- A request, with what the handler draws from the context, from `uuid4` and from the clock.
pub record Call : Type 0 where
  pub source : String
  pub body : List ℕ
  -- `request.headers.get`
  pub header : String → Option String
  -- `request_id_ctx.get()`
  pub context_id : String
  pub fresh_request_id : String
  pub fresh_event_id : String
  pub now : ℕ

-- `if not isinstance(payload, dict): raise ...`
abbrev pub as_object : Json → Result Fields
as_object (obj fields) = ok fields
as_object _ = err (http_exception 422 "Payload must be a JSON object")

abbrev pub recursion_error : Error
recursion_error = other_error "RecursionError"

abbrev pub parse_json : Platform → String → Result Json
parse_json p text = elim (p.json_loads text) [
  | loaded value ↦ ok value
  | malformed ↦ err (http_exception 422 "Invalid JSON body")
  | too_many_digits ↦ err value_error
  | too_deep ↦ err recursion_error
]

abbrev pub decode_body : Platform → List ℕ → Result String
decode_body p body = elim (p.decode_utf8 body) [
  | none ↦ err unicode_decode_error
  | some text ↦ ok text
]

-- The checks before anything is stored.
unfoldable pub check_request : Platform → Settings → Call → Result Fields
check_request p settings call = do
  raise_if
      (not (is_empty settings.allowed_sources)
        && not (contains settings.allowed_sources call.source))
      (http_exception 404 "Not found")
  enforce_body_size_limit call.body settings.max_body_bytes
  verify_webhook_signature p call.body (call.header "X-Webhook-Signature") settings.webhook_secret
  text ← decode_body p call.body
  value ← parse_json p text
  as_object value

abbrev pub request_id_of : Call → String
request_id_of call = if truthy call.context_id then call.context_id else call.fresh_request_id

-- `{**_safe_headers(request), "x-request-id": request_id}`
abbrev pub headers_of : Call → Headers
headers_of call = put "x-request-id" (request_id_of call) (safe_headers call.header)

-- The event before its relay columns are set.
abbrev pub new_event : Call → Fields → Event
new_event call payload = record {
  id = call.fresh_event_id;
  source = call.source;
  received_at = aware call.now utc;
  payload = payload;
  headers = headers_of call;
  request_id = request_id_of call;
  idempotency_key = call.header "Idempotency-Key";
  relay = no_relay;
}

abbrev pub queue_full_columns : RelayColumns
queue_full_columns = record no_relay {
  relay_status = some "skipped";
  relay_reason = some "relay_queue_full";
  relay_last_error = some "relay queue is full";
}

abbrev pub scheduled_columns : RelayColumns
scheduled_columns = record no_relay {
  relay_status = some "scheduled";
  relay_reason = some "scheduled";
}

abbrev pub relay_job : Platform → Settings → Event → Job
relay_job p settings event = record {
  event_id = event.id;
  relay_payload = record {
    event_id = event.id;
    source = event.source;
    received_at = p.isoformat (to_utc event.received_at);
    payload = event.payload;
    headers = event.headers;
  };
  target_url = settings.target_url;
  request_id = event.request_id;
  relay_allow_hosts = settings.relay_allow_hosts;
  relay_allow_private_ips = settings.relay_allow_private_ips;
}
