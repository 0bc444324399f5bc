-- ===== src/Http/Endpoints.antt =====
-- The routes of `router` (app/api/routes.py) and `/metrics` (app/main.py), from the request to the
-- response. Which route a request has, and the parameters of its path, its query and its headers,
-- come from the framework.
pub mod Rendered
pub mod Reads
pub mod Reading
use webhook_relay_api.Prelude.{ℕ, String, Bool, ◌&&◌, Option, none, some, leb, if◌then◌else◌}
use webhook_relay_api.Prelude.Int.{ℤ, pos, negsuc}
use webhook_relay_api.Json.{Json}
use webhook_relay_api.Result.{Result, ok, err, value_error}
use webhook_relay_api.Platform.{Platform}
use webhook_relay_api.Config.{Settings}
use webhook_relay_api.Database.{Database}
use webhook_relay_api.App.{App, Exec, Metrics, pure}
use webhook_relay_api.Routes.Request.{Call}
use webhook_relay_api.Routes.Intake.{create_event}
use webhook_relay_api.Routes.Listing.{list_events, get_event}
use webhook_relay_api.Routes.Admin.{admin_cleanup}
use webhook_relay_api.Routes.Probes.{health, ready}
use webhook_relay_api.Http.{
  Request, Response, Content, created, listed, item, healthy, cleaned, exposed, in_context, serve,
  route_with, http_exception_handler, validation_exception_handler,
}

pub data Endpoint : Type 0 where
  get_health get_ready get_metrics : Endpoint
  post_webhook : Call → Endpoint
  -- the limit, the cursor and the source
  get_events : Option ℤ → Option String → Option String → Endpoint
  get_one_event : String → Endpoint
  -- the clock and the header X-Admin-Token
  post_cleanup : ℕ → Option String → Endpoint
  -- No route has the path and the method: the framework raises its own HTTPException.
  unrouted : ℕ → String → Endpoint

-- `limit: int = Query(default=50, ge=1, le=100)`; what pydantic finds is the details of the error.
abbrev pub with_limit : {A : Type 0} → (ℤ → Json) → (Json → A) → Option ℤ → (ℕ → A) → A
with_limit limit_errors invalid none run = run 50
with_limit limit_errors invalid (some (pos n)) run =
    if leb 1 n && leb n 100 then run n else invalid (limit_errors (pos n))
with_limit limit_errors invalid (some (negsuc n)) run = invalid (limit_errors (negsuc n))

-- What the framework, the metrics' library and the database do for the routes.
pub record Framework (Db : Type 0) : Type 0 where
  -- the details of a limit that is out of bounds
  pub limit_errors : ℤ → Json
  pub generate_latest : Metrics → String
  -- Whether `JSONResponse` can write an answer that holds payloads: it raises ValueError for NaN, an
  -- infinity or half of a surrogate pair, which `json.loads` reads.
  pub can_render : Content → Bool
  -- Whether the database answers `SELECT 1`.
  pub answers_select : Db → Bool

-- `JSONResponse(content)`
abbrev pub render : {A : Type 0} → (Content → Bool) → (A → Content) → Result A → Result A
render can_render content_of (ok a) = if can_render (content_of a) then ok a else err value_error
render can_render content_of (err e) = err e

module _ {Db : Type 0} (db : Database Db) (p : Platform) (settings : Settings)
    (framework : Framework Db) where
  abbrev pub route_rendered :
      {A : Type 0} → (A → Content) → Exec (App Db) A → Exec (App Db) Response
  route_rendered content_of run =
      route_with p content_of (λ app.
        let (result, app') = run app in (render framework.can_render content_of result, app'))

  -- `Response(generate_latest(), media_type=CONTENT_TYPE_LATEST)`
  abbrev pub metrics : Exec (App Db) String
  metrics app = pure (framework.generate_latest app.metrics) app

  -- What the middleware calls, with the id in the context. The answers that are not rendered here hold
  -- no value of a client: numbers, times, ids and texts of the program, which can always be written.
  unfoldable pub call_next : Endpoint → Request → String → Exec (App Db) Response
  call_next get_health request id = route_with p healthy health
  call_next get_ready request id = route_with p healthy (ready framework.answers_select)
  call_next get_metrics request id = route_with p exposed metrics
  call_next (post_webhook call) request id =
      route_with p created (create_event db p settings (in_context db p settings call request id))
  call_next (get_events limit cursor source) request id =
      with_limit framework.limit_errors (λ details. pure (validation_exception_handler details))
        limit (λ n. route_rendered listed (list_events p db n cursor source))
  call_next (get_one_event event_id) request id = route_rendered item (get_event db event_id)
  call_next (post_cleanup now token) request id =
      route_with p (λ count. cleaned (record { deleted_count = count }))
        (admin_cleanup db now settings token)
  call_next (unrouted status detail) request id = pure (http_exception_handler p status detail)

  unfoldable pub serve_endpoint : Endpoint → Request → App Db → Response × App Db
  serve_endpoint endpoint request = serve p request (call_next endpoint request)
