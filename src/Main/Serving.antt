-- ===== src/Main/Serving.antt =====
-- Requests after the startup and after the shutdown of the process.
use webhook_relay_api.Prelude.{
  ◌≡◌, refl, true, false, none, some, [], ◌∷◌, ◌++◌, any, truthy, max, ltb, lt→ltb, arith,
}
use webhook_relay_api.Result.{ok, err, runtime_error}
use webhook_relay_api.Json.{Fields}
use webhook_relay_api.Platform.{Platform}
use webhook_relay_api.Config.{Settings}
use webhook_relay_api.Event.{Event, clashes}
use webhook_relay_api.Database.{Database, stored}
use webhook_relay_api.App.{App}
use webhook_relay_api.Relay.Dispatch.{
  new_dispatcher, put_job, startup_relay_dispatcher, shutdown_relay_dispatcher, startup_http_client,
  shutdown_http_client, relay_queue_has_capacity,
}
use webhook_relay_api.Routes.{create_response}
use webhook_relay_api.Routes.Request.{Call, check_request, new_event, scheduled_columns, relay_job}
use webhook_relay_api.Routes.Intake.{create_event, mark_relay, count_received}
use webhook_relay_api.Routes.Intake.Stored.{create_event-stores}
use webhook_relay_api.Main.{startup, shutdown}

module _ {Db : Type 0} (db : Database Db) (p : Platform) (settings : Settings) (call : Call)
    (payload : Fields) (app : App Db) where
  -- The event of a request whose relay is scheduled.
  abbrev pub scheduled : Event
  scheduled = record (new_event call payload) { relay = scheduled_columns }

  -- The state after the startup, if no dispatcher was running.
  abbrev pub started : App Db
  started = record app {
    session = true;
    client = true;
    dispatcher = some (new_dispatcher settings.relay_worker_concurrency settings.relay_queue_size);
  }

  startup_lem : app.dispatcher ≡ none → startup settings app ≡ started
  unfolding startup startup_relay_dispatcher startup_http_client
  startup_lem off = rw off refl

  room : ltb 0 (max settings.relay_queue_size 1) ≡ true
  room = lt→ltb 0 (max settings.relay_queue_size 1) (omega arith)

  -- The first request after the startup of a process that was not running, if it is accepted,
  -- clashes with no row and the target is set: its event is stored as scheduled and its job is the
  -- only one in the queue, whatever worker count and queue size the settings hold.
  pub startup_serves :
      app.dispatcher ≡ none
      → truthy settings.target_url ≡ true
      → check_request p settings call ≡ ok payload
      → any (clashes scheduled) (db.rows app.db) ≡ false
      → (d' : Db) × (db.rows d' ≡ db.rows app.db ++ stored db.store_time scheduled ∷ [])
        × (create_event db p settings call (startup settings app) ≡ (
          ok (create_response scheduled),
          record started {
            db = d';
            dispatcher = some (
                put_job
                  (relay_job p settings scheduled)
                  (new_dispatcher settings.relay_worker_concurrency settings.relay_queue_size));
            metrics = count_received call.source app.metrics;
          },
        ))
  startup_serves off target accepted fresh =
      let stores = create_event-stores db p settings call payload started refl tt accepted in
      rw (startup_lem off) ((rw room at rw target at stores) fresh)

  -- After the shutdown an accepted request is not stored, if the target is set: the handler raises
  -- `RuntimeError`, and nothing changes.
  pub shutdown_refuses :
      truthy settings.target_url ≡ true
      → check_request p settings call ≡ ok payload
      → create_event db p settings call (shutdown app)
        ≡ (err (runtime_error "Relay dispatcher is not initialized"), shutdown app)
  unfolding create_event mark_relay relay_queue_has_capacity shutdown shutdown_relay_dispatcher
      shutdown_http_client
  shutdown_refuses target accepted = rw accepted (rw target refl)
