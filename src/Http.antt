-- ===== src/Http.antt =====
-- The HTTP layer: app/core/errors.py, and of app/main.py `_label_path`, the middleware
-- `add_request_id` and `unhandled_exception_handler`. A handler of `HTTPException` stands inside
-- the middleware, the handler of `Exception` outside of it, as the framework has them.
pub mod Served
pub mod Failures
pub mod Endpoints
use webhook_relay_api.Prelude.{
  ℕ, ◌+◌, String, ◌&&◌, Option, none, some, [], ◌==◌, if◌then◌else◌, truthy,
}
use webhook_relay_api.Result.{Error, http_exception, Result, ok, err}
use webhook_relay_api.Json.{Json, str, obj, end, field, Fields}
use webhook_relay_api.Text.{underscored}
use webhook_relay_api.Platform.{Platform}
use webhook_relay_api.Config.{Settings}
use webhook_relay_api.Event.{Headers}
use webhook_relay_api.Database.{Database}
use webhook_relay_api.App.{App, Metrics, Exec, pure, ◌>>=◌, ◌>>◌}
use webhook_relay_api.Routes.{CreateWebhookResponse, EventItem, EventsListResponse}
use webhook_relay_api.Routes.Probes.{HealthResponse}
use webhook_relay_api.Routes.SafeHeaders.{put}
use webhook_relay_api.Routes.Request.{Call}
use webhook_relay_api.Routes.Intake.{create_event}

pub record CleanupResponse : Type 0 where
  pub deleted_count : ℕ

-- The content is that of an error, or what the route returns.
pub data Content : Type 0 where
  error : Json → Content
  created : CreateWebhookResponse → Content
  listed : EventsListResponse → Content
  item : EventItem → Content
  healthy : HealthResponse → Content
  cleaned : CleanupResponse → Content
  exposed : String → Content

-- A response; of its headers the one that the program sets.
pub record Response : Type 0 where
  pub status_code : ℕ
  pub content : Content
  pub headers : Headers

-- `request.scope.get("route")`
pub record Route : Type 0 where
  pub path : Option String

pub record Request : Type 0 where
  pub method : String
  pub url_path : String
  pub route : Option Route
  -- `request.headers.get`
  pub header : String → Option String
  -- `str(uuid4())`
  pub fresh_id : String

-- `if details is not None: payload["error"]["details"] = details`
abbrev pub details_of : Option Json → Fields
details_of none = end
details_of (some details) = field "details" details end

unfoldable pub error_response : ℕ → String → String → Option Json → Response
error_response status_code code message details = record {
  status_code = status_code;
  content = error (
      obj (
        field "error"
          (obj (field "code" (str code) (field "message" (str message) (details_of details))))
          end));
  headers = [];
}

-- `str(exc.detail).lower().replace(" ", "_")`; each detail of the program is a text.
abbrev pub error_code : Platform → String → String
error_code p detail = underscored (p.lower detail)

unfoldable pub http_exception_handler : Platform → ℕ → String → Response
http_exception_handler p status detail = error_response status (error_code p detail) detail none

unfoldable pub validation_exception_handler : Json → Response
validation_exception_handler errors =
    error_response 422 "validation_error" "Request validation failed" (some errors)

unfoldable pub unhandled_exception_handler : Response
unhandled_exception_handler =
    error_response 500 "internal_server_error" "Internal Server Error" none

-- `route is not None and getattr(route, "path", None)`
abbrev pub label_of : String → Option Route → String
label_of url_path none = url_path
label_of url_path (some route) = elim route.path [
  | none ↦ url_path
  | some path ↦ if truthy path then path else url_path
]

abbrev pub label_path : Request → String
label_path request = label_of request.url_path request.route

-- `request.headers.get("x-request-id") or str(uuid4())`
abbrev pub id_or_fresh : Option String → String → String
id_or_fresh none fresh = fresh
id_or_fresh (some given) fresh = if truthy given then given else fresh

abbrev pub req_id : Request → String
req_id request = id_or_fresh (request.header "x-request-id") request.fresh_id

-- `REQUEST_COUNT.labels(method, path, status).inc()` and `REQUEST_LATENCY.labels(...).observe(...)`
abbrev pub count_request : String → String → String → Metrics → Metrics
count_request method path status m = record m {
  requests =
      λ a b c. m.requests a b c + (if a == method && (b == path && c == status) then 1 else 0);
  request_latencies = λ a b. m.request_latencies a b + (if a == method && b == path then 1 else 0);
}

-- `app.add_exception_handler(StarletteHTTPException, http_exception_handler)`
abbrev pub handle_http_exception :
    {A : Type 0} → Platform → (A → Content) → Result A → Result Response
handle_http_exception p content_of (ok answer) =
    ok (record { status_code = 200; content = content_of answer; headers = [] })
handle_http_exception p content_of (err (http_exception status detail)) =
    ok (http_exception_handler p status detail)
handle_http_exception p content_of (err e) = err e

-- `@app.exception_handler(Exception)`
abbrev pub handle_exception : Result Response → Response
handle_exception (ok response) = response
handle_exception (err e) = unhandled_exception_handler

module _ {Db : Type 0} where
  abbrev pub observe_request : Platform → Request → ℕ → Exec (App Db) (Unit {0})
  observe_request p request status app = (
    ok tt,
    record app {
      metrics = count_request request.method (label_path request) (p.show status) app.metrics;
    },
  )

  -- `call_next` reads the id from the context.
  unfoldable pub add_request_id :
      Platform → Request → (String → Exec (App Db) Response) → Exec (App Db) Response
  add_request_id p request call_next = do
    response ← call_next (req_id request)
    observe_request p request response.status_code
    pure (record response { headers = put "x-request-id" (req_id request) response.headers })

  -- What a route returns or raises, as the middleware gets it.
  abbrev pub route_with :
      {A : Type 0} → Platform → (A → Content) → Exec (App Db) A → Exec (App Db) Response
  route_with p content_of run app =
      let (result, app') = run app in (handle_http_exception p content_of result, app')

  -- From the request to the response.
  abbrev pub serve :
      Platform → Request → (String → Exec (App Db) Response) → App Db → Response × App Db
  serve p request call_next app =
      let (result, app') = add_request_id p request call_next app in (handle_exception result, app')

  module _ (db : Database Db) (p : Platform) (settings : Settings) (call : Call) where
    -- The call as the route gets it: the headers of the request, and the id in the context.
    abbrev pub in_context : Request → String → Call
    in_context request id = record call { header = request.header; context_id = id }

    -- `POST /webhooks/{source}`
    unfoldable pub serve_webhook : Request → App Db → Response × App Db
    serve_webhook request =
        serve p request
          (λ id. route_with p created (create_event db p settings (in_context request id)))
