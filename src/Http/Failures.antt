-- ===== src/Http/Failures.antt =====
-- What a client gets for a webhook that is refused or fails.
use webhook_relay_api.Prelude.{ℕ, ◌≡◌, String, ◌⊎◌, [], ◌∷◌}
use webhook_relay_api.Result.{
  Error, integrity_error, unicode_decode_error, type_error, value_error, Result,
}
use webhook_relay_api.Platform.{Platform}
use webhook_relay_api.Config.{Settings}
use webhook_relay_api.Database.{Database}
use webhook_relay_api.App.{App}
use webhook_relay_api.Routes.Request.{Call, recursion_error}
use webhook_relay_api.Json.{str, obj, field, end}
use webhook_relay_api.Http.{
  error_code, Content, error, Request, req_id, label_path, count_request, serve_webhook,
}

-- An exception that no handler inside of the middleware takes.
abbrev pub IsUncaught : Error → Type 0
IsUncaught e =
    (e ≡ unicode_decode_error)
    ⊎ ((e ≡ type_error) ⊎ ((e ≡ integrity_error) ⊎ ((e ≡ value_error) ⊎ (e ≡ recursion_error))))

-- `{"error": {"code": code, "message": message}}`
abbrev pub envelope : String → String → Content
envelope code message =
    error
      (obj (field "error" (obj (field "code" (str code) (field "message" (str message) end))) end))

module _ {Db : Type 0} (db : Database Db) (p : Platform) (settings : Settings) (call : Call)
    (request : Request) (app : App Db) where
  -- The answer that is counted and that names the request.
  abbrev pub Refused : ℕ → String → Type 0
  Refused status detail = serve_webhook db p settings call request app ≡ (
    record {
      status_code = status;
      content = envelope (error_code p detail) detail;
      headers = ("x-request-id", req_id request) ∷ [];
    },
    record app {
      metrics = count_request request.method (label_path request) (p.show status) app.metrics;
    },
  )

  -- The answer of the last handler: nothing is counted, and no id is in the headers.
  abbrev pub Failed : Type 0
  Failed = serve_webhook db p settings call request app ≡ (
    record {
      status_code = 500;
      content = envelope "internal_server_error" "Internal Server Error";
      headers = [];
    },
    app,
  )
