-- ===== src/System/Refined/Spec.antt =====
-- The promise of the service along a run of the process: what each step may do to the ledger.
use webhook_relay_api.Prelude.{ℕ, String, ◌≡◌, ◌⊎◌, true, Option, some, List}
use webhook_relay_api.Prelude.Int.{ℤ}
use webhook_relay_api.Result.{Result, ok, err}
use webhook_relay_api.Datetime.{minus_days}
use webhook_relay_api.Event.{Event}
use webhook_relay_api.Platform.{Platform}
use webhook_relay_api.Config.{Settings}
use webhook_relay_api.Database.{Database, stored_columns}
use webhook_relay_api.Security.{require_admin_token}
use webhook_relay_api.App.{App}
use webhook_relay_api.Routes.{CreateWebhookResponse, create_response, relay_update_values}
use webhook_relay_api.Routes.Request.{Call}
use webhook_relay_api.Routes.Intake.{same_key, create_event}
use webhook_relay_api.Routes.Admin.{admin_cleanup}
use webhook_relay_api.Main.{startup, shutdown}
use webhook_relay_api.System.{
  Reach, booted, request, cleanup, turn, restarted, counted, Turn, take_job, job_done, job_failed,
  turned,
}
use webhook_relay_api.Relay.{RelayResult}
use webhook_relay_api.Relay.Attempts.{relay_event}
use webhook_relay_api.System.Columns.{IsConsistent}
use webhook_relay_api.System.Ledger.{Ledger, Same, Adds, Settles, Expires}
use webhook_relay_api.System.Refined.Steps.{ledger_of}

-- A request that raises changes nothing. One that is answered is answered with an event of its
-- source and key that is there, and changes nothing, or adds the event that the answer names, under
-- the id that was drawn, with the source and the key of the request.
abbrev pub RequestFollows : Call → Ledger → Ledger → Result CreateWebhookResponse → Type 0
RequestFollows call f g (err e) = Same f g
RequestFollows call f g (ok answer) =
    ((existing : Event) × (f existing.id ≡ some existing)
      × (same_key call.source (call.header "Idempotency-Key") existing ≡ true)
      × (answer ≡ create_response existing)
      × Same f g)
    ⊎ ((e : Event) × (e.id ≡ call.fresh_event_id)
        × (answer.event_id ≡ e.id)
        × (e.source ≡ call.source)
        × (e.idempotency_key ≡ call.header "Idempotency-Key")
        × Adds e f g)

-- A cleanup that raises changes nothing. One that is answered had the administrator's token and a
-- retention, and the events that are older than it are gone.
abbrev pub CleanupFollows : Settings → ℕ → Option String → Ledger → Ledger → Result ℕ → Type 0
CleanupFollows settings now token f g (err e) = Same f g
CleanupFollows settings now token f g (ok count) =
    (days : ℤ) × (cutoff : ℕ) × (require_admin_token token settings.admin_token ≡ ok tt)
    × (settings.event_retention_days ≡ some days)
    × (minus_days now days ≡ ok cutoff)
    × Expires cutoff f g

module _ {Db : Type 0} (db : Database Db) (p : Platform) where
  -- Of the turns only the end of a job that has a result changes something: its own event gets the
  -- columns of the relay's result.
  abbrev pub TurnFollows : {app : App Db} → Turn db p app → Ledger → Ledger → Type 0
  TurnFollows (take_job d job queue before behind e first idle) f g = Same f g
  TurnFollows (job_done d job before behind net begin done e runs ran) f g =
      (r : RelayResult) × ((relay_event p net begin.client job.target_url job.relay_allow_hosts
          job.relay_allow_private_ips).0
        ≡ ok r)
      × IsConsistent (stored_columns db.store_time (relay_update_values r))
      × ¬ ((stored_columns db.store_time (relay_update_values r)).relay_status ≡ some "scheduled")
      × Settles job.event_id (stored_columns db.store_time (relay_update_values r)) f g
  TurnFollows (job_failed d job before behind net begin done x e runs ran) f g = Same f g

  -- Every step of the run does what is promised of it.
  abbrev pub Follows :
      (settings : Settings) {initial app : App Db} {lost : List String}
      → Reach db p settings initial lost app
      → Type 0
  Follows settings {initial} (booted off) =
      Same (ledger_of db initial) (ledger_of db (startup settings initial))
  Follows settings (request {app = app} call so_far) =
      RequestFollows call (ledger_of db app) (ledger_of db (create_event db p settings call app).1)
        (create_event db p settings call app).0
      × Follows settings so_far
  Follows settings (cleanup {app = app} now token so_far) =
      CleanupFollows settings now token (ledger_of db app)
        (ledger_of db (admin_cleanup db now settings token app).1)
        (admin_cleanup db now settings token app).0
      × Follows settings so_far
  Follows settings (turn {app = app} t so_far) =
      TurnFollows t (ledger_of db app) (ledger_of db (turned db p t)) × Follows settings so_far
  Follows settings (counted {app = app} metrics so_far) =
      Same (ledger_of db app) (ledger_of db (record app { metrics = metrics }))
      × Follows settings so_far
  Follows settings (restarted {app = app} metrics so_far) =
      Same (ledger_of db app)
        (ledger_of db (startup settings (record (shutdown app) { metrics = metrics })))
      × Follows settings so_far
