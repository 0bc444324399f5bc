-- ===== src/Main.antt =====
-- `lifespan` (app/main.py) with `init_db` (app/db/session.py): what runs before and after the requests.
pub mod Serving
use webhook_relay_api.Prelude.{true}
use webhook_relay_api.Config.{Settings}
use webhook_relay_api.App.{App}
use webhook_relay_api.Relay.Dispatch.{
  startup_relay_dispatcher, shutdown_relay_dispatcher, startup_http_client, shutdown_http_client,
}

module _ {Db : Type 0} where
  -- `init_db`: the tables that are there stay, so the rows are the same.
  abbrev pub init_db : App Db → App Db
  init_db app = record app { session = true }

  -- Up to the `yield`.
  unfoldable pub startup : Settings → App Db → App Db
  startup settings app =
      startup_relay_dispatcher settings.relay_worker_concurrency settings.relay_queue_size
        (startup_http_client (init_db app))

  -- The `finally`.
  unfoldable pub shutdown : App Db → App Db
  shutdown app = shutdown_http_client (shutdown_relay_dispatcher app)
