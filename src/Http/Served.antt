-- ===== src/Http/Served.antt =====
-- What a client gets for a webhook that is stored.
use webhook_relay_api.Prelude.{
  ◌≡◌, refl, ap, ◌∙◌, String, true, false, Option, none, some, [], ◌∷◌, ◌++◌, any, arith, truthy,
}
use webhook_relay_api.Result.{ok}
use webhook_relay_api.Json.{Fields}
use webhook_relay_api.Platform.{Platform}
use webhook_relay_api.Config.{Settings}
use webhook_relay_api.Event.{Event, clashes}
use webhook_relay_api.Database.{Database, stored}
use webhook_relay_api.App.{App}
use webhook_relay_api.Routes.{CreateWebhookResponse, create_response}
use webhook_relay_api.Routes.SafeHeaders.{put, get}
use webhook_relay_api.Routes.Request.{Call, check_request}
use webhook_relay_api.Routes.Request.Kept.{get-headers_of}
use webhook_relay_api.Routes.Intake.{create_event, count_received}
use webhook_relay_api.Routes.Intake.Stored.{IsRunning, planned, queued, create_event-stores}
use webhook_relay_api.Http.{
  created, Request, req_id, id_or_fresh, label_path, count_request, add_request_id, in_context,
  serve_webhook,
}

-- The id of a request is not empty, if `uuid4` gives none that is.
pub req_id-truthy :
    (request : Request) → truthy request.fresh_id ≡ true → truthy (req_id request) ≡ true
req_id-truthy request h = of_header (request.header "x-request-id") request.fresh_id h
  where
    of_header :
        (given : Option String) (fresh : String)
        → truthy fresh ≡ true
        → truthy (id_or_fresh given fresh) ≡ true
    of_header none fresh h = h
    of_header (some given) fresh h = ground arith

module _ {Db : Type 0} (db : Database Db) (p : Platform) (settings : Settings) (call : Call)
    (request : Request) (app : App Db) where
  -- The call as the route gets it.
  abbrev pub received : Call
  received = in_context db p settings call request (req_id request)

  -- The route returns: its answer, with the id, and one more request in the metrics.
  pub serve_webhook-ok :
      (answer : CreateWebhookResponse) (after : App Db)
      → create_event db p settings received app ≡ (ok answer, after)
      → serve_webhook db p settings call request app ≡ (
        record {
          status_code = 200;
          content = created answer;
          headers = ("x-request-id", req_id request) ∷ [];
        },
        record after {
          metrics = count_request request.method (label_path request) (p.show 200) after.metrics;
        },
      )
  unfolding serve_webhook add_request_id put
  serve_webhook-ok answer after h = rw h refl

  module _ (payload : Fields) where
    abbrev pub event : Event
    event = planned db p settings received payload app

    -- Where the session exists, the dispatcher is there, if the target is set, and `uuid4` gives no
    -- empty text: a request that is accepted and clashes with no row gets 200 with its event, which
    -- is added to the table, and with a header X-Request-ID that holds the client's own id of the
    -- request, or the fresh one where that is missing or empty. The same id is stored with the
    -- event, in its column and among its headers. The metrics count one event of the source and one
    -- request with the method, the path's label and the status.
    pub serve_webhook_traced :
        app.session ≡ true
        → IsRunning settings app.dispatcher
        → truthy request.fresh_id ≡ true
        → check_request p settings received ≡ ok payload
        → any (clashes event) (db.rows app.db) ≡ false
        → (d' : Db) × (db.rows d' ≡ db.rows app.db ++ stored db.store_time event ∷ [])
          × (event.request_id ≡ req_id request)
          × (get "x-request-id" event.headers ≡ some (req_id request))
          × (serve_webhook db p settings call request app ≡ (
            record {
              status_code = 200;
              content = created (create_response event);
              headers = ("x-request-id", req_id request) ∷ [];
            },
            record app {
              db = d';
              dispatcher = queued p settings event app.dispatcher;
              metrics =
                  count_request request.method
                    (label_path request)
                    (p.show 200)
                    (count_received call.source app.metrics);
            },
          ))
    serve_webhook_traced live running fresh_id accepted fresh =
        let (d', rows, run) =
          create_event-stores db p settings received payload app live running accepted fresh in
        let named = req_id-truthy request fresh_id in
        let same : event.request_id ≡ req_id request = rw named refl in
        (
          d',
          rows,
          same,
          get-headers_of received "x-request-id" ∙ ap some same,
          serve_webhook-ok _ _ run,
        )
