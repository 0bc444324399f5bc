-- ===== src/Examples/Answers.antt =====
-- What a client gets at concrete requests.
use webhook_relay_api.Prelude.{
  ◌==◌, if◌then◌else◌, ◌≡◌, refl, Bool, true, false, some, List, [], ◌∷◌, ◌++◌, any, none,
}
use webhook_relay_api.Result.{ok}
use webhook_relay_api.Json.{end, null, field, Fields, str}
use webhook_relay_api.Event.{Event, clashes}
use webhook_relay_api.Database.{stored}
use webhook_relay_api.Database.Table.{table, drop_offset}
use webhook_relay_api.Security.{verify_webhook_signature, enforce_body_size_limit}
use webhook_relay_api.Routes.{create_response, CreateWebhookResponse, EventItem, event_item}
use webhook_relay_api.Routes.SafeHeaders.{get}
use webhook_relay_api.Routes.Request.{Call, check_request}
use webhook_relay_api.Routes.Intake.{count_received}
use webhook_relay_api.Routes.Intake.Stored.{queued}
use webhook_relay_api.Http.{
  Request, created, count_request, serve_webhook, item, error, listed, healthy, cleaned, exposed,
  unhandled_exception_handler, add_request_id,
}
use webhook_relay_api.Http.Served.{received, event, serve_webhook_traced}
use webhook_relay_api.Examples.Codec.{json_loads}
use webhook_relay_api.Examples.World.{
  header, platform, settings, call, unknown, app, idle, no_metrics,
}
use webhook_relay_api.App.{App, get_db}
use webhook_relay_api.Http.Endpoints.{
  Framework, post_webhook, get_one_event, call_next, serve_endpoint,
}
use webhook_relay_api.Http.Endpoints.Reading.{posted_then_read}
use webhook_relay_api.Routes.Listing.{get_event}
use webhook_relay_api.Main.{startup}
use webhook_relay_api.System.{Reach, booted}
use webhook_relay_api.System.Served.{serve_endpoint-Reach}

-- A request with an id of the client's.
abbrev named : Request
named = record {
  method = "POST";
  url_path = "/webhooks/shop";
  route = some (record { path = some "/webhooks/{source}" });
  header = λ name. if name == "x-request-id" then some "r7" else header name;
  fresh_id = "r8";
}

allowed :
    check_request platform settings (received table platform settings call named (app unknown))
    ≡ ok end
unfolding check_request enforce_body_size_limit verify_webhook_signature json_loads
allowed = refl

abbrev new_event : Event
new_event = event table platform settings call named (app unknown) end

new_event_fresh : any (clashes new_event) unknown ≡ false
unfolding clashes
new_event_fresh = refl

serve_webhook_traced_example :
    (d' : List Event) × (d' ≡ unknown ++ stored drop_offset new_event ∷ [])
    × (new_event.request_id ≡ "r7")
    × (get "x-request-id" new_event.headers ≡ some "r7")
    × (serve_webhook table platform settings call named (app unknown) ≡ (
      record {
        status_code = 200;
        content = created (create_response new_event);
        headers = ("x-request-id", "r7") ∷ [];
      },
      record (app unknown) {
        db = d';
        dispatcher = queued platform settings new_event (some idle);
        metrics = count_request "POST" "/webhooks/{source}" "n" (count_received "shop" no_metrics);
      },
    ))
unfolding table
serve_webhook_traced_example =
    serve_webhook_traced table platform settings call named (app unknown) end refl tt refl allowed
      new_event_fresh

-- A request of a source that is not allowed.
abbrev stranger : Call
stranger = record call { source = "bank" }

-- A payload with the field `nan` cannot be written, and the database answers.
abbrev writable : Fields → Bool
writable end = true
writable (field name value rest) = if name == "nan" then false else writable rest

abbrev framework : Framework (List Event)
framework = record {
  limit_errors = λ n. str "out of bounds";
  generate_latest = λ m. "metrics";
  can_render = λ content. elim content [
    | error details ↦ true
    | created answer ↦ true
    | listed page ↦ true
    | item found ↦ writable found.payload
    | healthy answer ↦ true
    | cleaned answer ↦ true
    | exposed text ↦ true
  ];
  answers_select = λ d. true;
}

abbrev reader : Request
reader = record {
  method = "GET";
  url_path = "/events/e9";
  route = some (record { path = some "/events/{event_id}" });
  header = λ name. none;
  fresh_id = "r9";
}

-- An event with such a payload is there, and cannot be read.
abbrev odd_event : Event
odd_event = record new_event { payload = field "nan" null end }

odd_event_fails :
    serve_endpoint table platform settings framework
      (get_one_event "e9")
      reader
      (app (odd_event ∷ []))
    ≡ (unhandled_exception_handler, app (odd_event ∷ []))
unfolding serve_endpoint call_next get_event get_db add_request_id table unhandled_exception_handler
    event_item
odd_event_fails = refl

posted_then_read_example :
    (answer : CreateWebhookResponse) × (after : App (List Event)) × (found : EventItem)
    × (serve_endpoint table platform settings framework (post_webhook call) named (app unknown) ≡ (
      record { status_code = 200; content = created answer; headers = ("x-request-id", "r7") ∷ [] },
      after,
    ))
    × ((serve_endpoint table platform settings framework
          (get_one_event answer.event_id)
          reader
          after).0
        ≡ (if framework.can_render (item found)
            then record {
              status_code = 200;
              content = item found;
              headers = ("x-request-id", "r9") ∷ [];
            }
            else unhandled_exception_handler))
    × (found.event_id ≡ answer.event_id)
    × (found.received_at ≡ answer.received_at)
    × (found.relay ≡ answer.relay)
    × (found.source ≡ "shop")
    × (found.payload ≡ end)
    × (found.idempotency_key ≡ some "k1")
    × (found.request_id ≡ "r7")
unfolding table
posted_then_read_example =
    posted_then_read table platform settings framework call named reader end (app unknown) refl tt
      refl allowed new_event_fresh

-- The process after its startup, and a webhook.
abbrev stopped : App (List Event)
stopped = record (app unknown) { session = false; client = false; dispatcher = none }

serve_endpoint-Reach_example :
    Reach table platform settings stopped []
      (serve_endpoint table platform settings framework
        (post_webhook call)
        named
        (startup settings stopped)).1
serve_endpoint-Reach_example =
    serve_endpoint-Reach table platform settings framework (post_webhook call) named (booted refl)
