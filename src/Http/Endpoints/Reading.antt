-- ===== src/Http/Endpoints/Reading.antt =====
-- A webhook, and the request that reads its event.
use webhook_relay_api.Prelude.{
  String, ◌≡◌, refl, ap, ◌∙◌, true, false, Option, some, [], ◌∷◌, ◌++◌, any, truthy, inl, inr,
  Bool-cases, if◌then◌else◌, eq_iff,
}
use webhook_relay_api.Result.{ok}
use webhook_relay_api.Json.{Fields}
use webhook_relay_api.Platform.{Platform}
use webhook_relay_api.Config.{Settings}
use webhook_relay_api.Datetime.{Datetime}
use webhook_relay_api.Event.{Event, clashes}
use webhook_relay_api.Event.Lookup.{lookup, lookup-append, lookup-none}
use webhook_relay_api.Database.{Database, stored, stored_columns}
use webhook_relay_api.Database.View.{get-lookup}
use webhook_relay_api.App.{App, Dispatcher, get_db}
use webhook_relay_api.Routes.{
  CreateWebhookResponse, EventItem, create_response, event_item, event_relay_result,
}
use webhook_relay_api.Routes.SafeHeaders.{put}
use webhook_relay_api.Routes.Request.{Call, check_request}
use webhook_relay_api.Routes.Intake.Stored.{IsRunning, planned_columns, pre_full}
use webhook_relay_api.Routes.Listing.{get_event}
use webhook_relay_api.Http.{
  Request, created, item, req_id, add_request_id, serve_webhook, unhandled_exception_handler,
}
use webhook_relay_api.Http.Served.{received, event, serve_webhook_traced}
use webhook_relay_api.Http.Endpoints.{
  Framework, post_webhook, get_one_event, call_next, serve_endpoint,
}

-- The time of a relay is not set yet, so the relay columns are read as they were written.
planned_columns-stored :
    (store_time : Datetime → Datetime) (settings : Settings) (q : Option Dispatcher)
    → stored_columns store_time (planned_columns settings q) ≡ planned_columns settings q
planned_columns-stored store_time settings q = elim (Bool-cases (truthy settings.target_url)) [
  | inr off ↦ rw off refl
  | inl target ↦ elim (Bool-cases (pre_full settings q)) [
    | inl full ↦ rw target (rw full refl)
    | inr room ↦ rw target (rw room refl)
  ]
]

module _ {Db : Type 0} (db : Database Db) (p : Platform) (settings : Settings)
    (framework : Framework Db) (call : Call) (request later : Request) (payload : Fields)
    (app : App Db) where
  inserted_lem :
      (e : Event) (d' : Db)
      → any (clashes e) (db.rows app.db) ≡ false
      → db.rows d' ≡ db.rows app.db ++ stored db.store_time e ∷ []
      → db.get e.id d' ≡ some (stored db.store_time e)
  inserted_lem e d' fresh rows =
      let row = stored db.store_time e in
      get-lookup db e.id d'
      ∙ ap (lookup e.id) rows
      ∙ lookup-append e.id (db.rows app.db) row (lookup-none e (db.rows app.db) fresh)
      ∙ rw ((eq_iff e.id e.id).1 refl) refl

  read_lem :
      (id : String) (row : Event) (after : App Db)
      → after.session ≡ true
      → db.get id after.db ≡ some row
      → (serve_endpoint db p settings framework (get_one_event id) later after).0 ≡ (
          if framework.can_render (item (event_item row))
          then record {
            status_code = 200;
            content = item (event_item row);
            headers = ("x-request-id", req_id later) ∷ [];
          }
          else unhandled_exception_handler)
  unfolding serve_endpoint call_next add_request_id put get_event get_db
  read_lem id row after live there =
      elim (Bool-cases (framework.can_render (item (event_item row)))) [
        | inl fine ↦ rw live (rw there (rw fine refl))
        | inr bad ↦ rw live (rw there (rw bad refl))
      ]

  same_relay :
      event_relay_result (stored db.store_time (event db p settings call request app payload))
      ≡ event_relay_result (event db p settings call request app payload)
  unfolding event_relay_result
  same_relay =
      ap
        (λ u.
          event_relay_result (record (event db p settings call request app payload) { relay = u }))
        (planned_columns-stored db.store_time settings app.dispatcher)

  -- Where the session exists, the dispatcher is there, if the target is set, and `uuid4` gives no
  -- empty text: a webhook that is accepted and clashes with no row is answered with 200 and the id
  -- of its event, and the next request may be one for that event. It finds the row with the same
  -- id, time and relay as in the answer, and with the source, the payload, the idempotency key and
  -- the request's id of the webhook, and gets 200 with it, if it can be written as JSON, and the
  -- plain error 500 otherwise.
  pub posted_then_read :
      app.session ≡ true
      → IsRunning settings app.dispatcher
      → truthy request.fresh_id ≡ true
      → check_request p settings (received db p settings call request app) ≡ ok payload
      → any (clashes (event db p settings call request app payload)) (db.rows app.db) ≡ false
      → (answer : CreateWebhookResponse) × (after : App Db) × (found : EventItem) × (serve_endpoint
            db p settings framework
            (post_webhook call)
            request
            app
          ≡ (
            record {
              status_code = 200;
              content = created answer;
              headers = ("x-request-id", req_id request) ∷ [];
            },
            after,
          ))
        × ((serve_endpoint db p settings framework (get_one_event answer.event_id) later after).0
            ≡ (if framework.can_render (item found)
                then record {
                  status_code = 200;
                  content = item found;
                  headers = ("x-request-id", req_id later) ∷ [];
                }
                else unhandled_exception_handler))
        × (found.event_id ≡ answer.event_id)
        × (found.received_at ≡ answer.received_at)
        × (found.relay ≡ answer.relay)
        × (found.source ≡ call.source)
        × (found.payload ≡ payload)
        × (found.idempotency_key ≡ request.header "Idempotency-Key")
        × (found.request_id ≡ req_id request)
  unfolding serve_endpoint call_next serve_webhook create_response event_item
  posted_then_read live running named accepted fresh =
      let e = event db p settings call request app payload in
      let (d', rows, id, _, run) =
        serve_webhook_traced db p settings call request app payload live running named accepted
          fresh in
      (
        create_response e,
        _,
        event_item (stored db.store_time e),
        run,
        read_lem e.id (stored db.store_time e) _ live (inserted_lem e d' fresh rows),
        refl,
        db.store_time_utc call.now,
        same_relay,
        refl,
        refl,
        refl,
        id,
      )
