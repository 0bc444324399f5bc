-- ===== src/System/Refined.antt =====
-- The runs of the process against those of the ledger.
pub mod Steps
pub mod Spec
pub mod Turns
use webhook_relay_api.Prelude.{
  ℕ, ◌≤◌, String, ◌≡◌, refl, sym, ap, ◌∙◌, subst, inl, inr, true, Option, none, some, List, All,
  ◌==◌, one_if, Option-cases, eq_iff, arith, IsIn,
}
use webhook_relay_api.App.{App, Metrics}
use webhook_relay_api.Event.{Event}
use webhook_relay_api.Event.Unique.{IsUnique}
use webhook_relay_api.Platform.{Platform}
use webhook_relay_api.Config.{Settings}
use webhook_relay_api.Database.{Database, stored, stored_columns}
use webhook_relay_api.Relay.Dispatch.{
  startup_relay_dispatcher, startup_http_client, shutdown_relay_dispatcher, shutdown_http_client,
}
use webhook_relay_api.Relay.Outcome.{relay_event-IsOutcomeOf}
use webhook_relay_api.Routes.{CreateWebhookResponse, create_response, relay_update_values}
use webhook_relay_api.Routes.Request.{Call}
use webhook_relay_api.Routes.Intake.{create_event}
use webhook_relay_api.Routes.Intake.Stored.{IsRunning, planned}
use webhook_relay_api.Routes.Intake.Endings.{
  refused, accepted, replayed, violated, create_event-Ending,
}
use webhook_relay_api.Routes.Admin.{admin_cleanup}
use webhook_relay_api.Routes.Admin.Retention.{admin_cleanup-CleanupEnding, not_cleaned, cleaned}
use webhook_relay_api.Routes.Background.Ends.{relayed, done_lem, failed_lem}
use webhook_relay_api.Main.{startup, shutdown}
use webhook_relay_api.System.{
  Reach, booted, request, cleanup, turn, restarted, counted, Turn, take_job, job_done, job_failed,
  turned,
}
use webhook_relay_api.System.Columns.{result-IsConsistent}
use webhook_relay_api.System.Jobs.{count_jobs, count-freed, is_scheduled}
use webhook_relay_api.Event.Lookup.{lookup_of_IsIn}
use webhook_relay_api.Database.View.{get-lookup}
use webhook_relay_api.System.Ledger.{Ledger, Same, Change, stay, add, settle}
use webhook_relay_api.System.Refined.Turns.{turn-Follows}
use webhook_relay_api.System.Refined.Spec.{RequestFollows, CleanupFollows, TurnFollows, Follows}
use webhook_relay_api.Result.{Result, ok, err}
use webhook_relay_api.System.Moves.{not_scheduled, some_injective}
use webhook_relay_api.System.Once.{IsFresh, reach-IsOnce}
use webhook_relay_api.System.Pending.{IsScheduled}
use webhook_relay_api.System.Reached.{reach-IsTracked}
use webhook_relay_api.System.Tracked.{IsTracked}
use webhook_relay_api.System.Refined.Steps.{ledger_of, stored-step, cleanup-step, written-step}

module _ {Db : Type 0} (db : Database Db) (p : Platform) (settings : Settings) where
  -- While the session and the dispatcher are there, and every job's event says scheduled.
  request-Follows :
      {lost : List String} (call : Call) (app : App Db)
      → IsTracked db lost app
      → RequestFollows call
          (ledger_of db app)
          (ledger_of db (create_event db p settings call app).1)
          (create_event db p settings call app).0
  unfolding create_response
  request-Follows call app h =
      elim (create_event-Ending db p settings call app h.live
        (subst (IsRunning settings) (sym h.there) tt) h.unique) [
          | refused e bad run ↦ rw run (λ id. refl)
          | replayed existing there same run ↦ rw run (
              inl (
                existing,
                get-lookup db existing.id app.db
                    ∙ lookup_of_IsIn existing (db.rows app.db) h.unique there,
                same,
                refl,
                λ id. refl,
              ))
          | violated payload good clash run ↦ rw run (λ id. refl)
          | accepted payload d' good fresh rows run ↦ rw run (
              inr (
                stored db.store_time (planned db p settings call payload app),
                refl,
                refl,
                refl,
                refl,
                stored-step db p settings call payload app d' fresh rows,
              ))
        ]

  RequestFollows-Change :
      (call : Call) (f g : Ledger) (result : Result CreateWebhookResponse)
      → RequestFollows call f g result
      → Change f g
  RequestFollows-Change call f g (err e) same = stay same
  RequestFollows-Change call f g (ok answer) (inl (existing, _, _, _, same)) = stay same
  RequestFollows-Change call f g (ok answer) (inr (e, _, _, _, _, new)) = add e new

  pub request-step :
      {lost : List String} (call : Call) (app : App Db)
      → IsTracked db lost app
      → Change (ledger_of db app) (ledger_of db (create_event db p settings call app).1)
  request-step call app h = RequestFollows-Change call _ _ _ (request-Follows call app h)

  cleanup-Follows :
      {lost : List String} (now : ℕ) (token : Option String) (app : App Db)
      → IsTracked db lost app
      → CleanupFollows settings now token
          (ledger_of db app)
          (ledger_of db (admin_cleanup db now settings token app).1)
          (admin_cleanup db now settings token app).0
  cleanup-Follows now token app h =
      elim (admin_cleanup-CleanupEnding db now settings token app h.live) [
        | not_cleaned e run ↦ rw run (λ id. refl)
        | cleaned days cutoff d count allowed set time run good ↦
            rw run
              (days, cutoff, allowed, set, time, cleanup-step db cutoff app d h.unique good.kept)
      ]

  started-Same :
      (app : App Db)
      → app.dispatcher ≡ none
      → Same (ledger_of db app) (ledger_of db (startup settings app))
  unfolding startup startup_relay_dispatcher startup_http_client
  started-Same app off id = rw off refl

  restarted-Same :
      (metrics : Metrics) (app : App Db)
      → Same
          (ledger_of db app)
          (ledger_of db (startup settings (record (shutdown app) { metrics = metrics })))
  unfolding shutdown shutdown_relay_dispatcher shutdown_http_client
  restarted-Same metrics app = started-Same (record (shutdown app) { metrics = metrics }) refl

  pub restarted-step :
      (metrics : Metrics) (app : App Db)
      → Change
          (ledger_of db app)
          (ledger_of db (startup settings (record (shutdown app) { metrics = metrics })))
  restarted-step metrics app = stay (restarted-Same metrics app)

  -- After the startup of a process that was not running, on a table with unique rows of which none
  -- says scheduled, whatever requests, cleanups, turns of the workers and restarts follow, if no
  -- request draws the id of an event that has a job: each step does to the table, read by id, what is
  -- promised of it. A request that raises changes nothing. One that is answered is answered with an
  -- event of its source and key that is there, and changes nothing, or adds the event that the answer
  -- names, with the id that it drew, its source and its key, which clashes with no other, and which is
  -- not relayed, scheduled or skipped. A job that ends with a result changes its own event only, if
  -- that is there: the event said scheduled, and gets the columns of the relay's result, which are
  -- consistent and do not say scheduled. A cleanup that is answered had the token and a retention, and
  -- takes away exactly the events that are older; one that raises changes nothing. Jobs that are taken
  -- or fail, startups and shutdowns change nothing.
  pub reach-refines :
      {initial app : App Db} {lost : List String} (run : Reach db p settings initial lost app)
      → IsFresh db p settings run
      → IsUnique (db.rows initial.db)
      → All (λ row. ¬ IsScheduled row) (db.rows initial.db)
      → Follows db p settings run
  reach-refines {initial} (booted off) ids unique fresh = started-Same initial off
  reach-refines (request {lost = lost} {app = app} call so_far) (free, ids) unique fresh = (
    request-Follows call app (reach-IsTracked db p settings so_far unique fresh),
    reach-refines so_far ids unique fresh,
  )
  reach-refines (cleanup {lost = lost} {app = app} now token so_far) ids unique fresh = (
    cleanup-Follows now token app (reach-IsTracked db p settings so_far unique fresh),
    reach-refines so_far ids unique fresh,
  )
  reach-refines (turn t so_far) ids unique fresh = (
    turn-Follows db p t (reach-IsTracked db p settings so_far unique fresh).live
        (λ row within. reach-IsOnce db p settings row so_far ids unique fresh within),
    reach-refines so_far ids unique fresh,
  )
  reach-refines (counted {lost = lost} {app = app} metrics so_far) ids unique fresh =
      ((λ id. refl), reach-refines so_far ids unique fresh)
  reach-refines (restarted {lost = lost} {app = app} metrics so_far) ids unique fresh =
      (restarted-Same metrics app, reach-refines so_far ids unique fresh)
