-- ===== src/System/Delivered.antt =====
-- How often an event is relayed, over the whole life of the process and its restarts.
use webhook_relay_api.Prelude.{
  ℕ, ◌+◌, ◌≤◌, max, String, ◌≡◌, refl, sym, ap, subst, inl, inr, Option, none, some, List, All,
  arith, Bool-cases, true, ◌==◌, one_if, ◌&&◌, truthy, ltb, length,
}
use webhook_relay_api.App.{App, Dispatcher, Metrics}
use webhook_relay_api.Event.{Event}
use webhook_relay_api.Event.Unique.{IsUnique}
use webhook_relay_api.Platform.{Platform}
use webhook_relay_api.Config.{Settings}
use webhook_relay_api.Database.{Database}
use webhook_relay_api.Relay.Dispatch.{
  startup_relay_dispatcher, startup_http_client, shutdown_relay_dispatcher, shutdown_http_client,
}
use webhook_relay_api.Routes.Request.{Call, relay_job}
use webhook_relay_api.Routes.Intake.{create_event}
use webhook_relay_api.Routes.Intake.Stored.{IsRunning, planned, queued}
use webhook_relay_api.Routes.Intake.Endings.{
  refused, accepted, replayed, violated, create_event-Ending,
}
use webhook_relay_api.Routes.Admin.{admin_cleanup}
use webhook_relay_api.Routes.Admin.Retention.{admin_cleanup_cases}
use webhook_relay_api.Main.{startup, shutdown}
use webhook_relay_api.System.{
  Reach, booted, request, cleanup, turn, restarted, counted, Turn, take_job, job_done, job_failed,
  turned,
}
use webhook_relay_api.System.Pending.{IsScheduled}
use webhook_relay_api.System.Jobs.{count_jobs, count_queued-last, count-taken, count-freed}
use webhook_relay_api.System.Once.{idle_workers_work}
use webhook_relay_api.System.Tracked.{IsTracked}
use webhook_relay_api.System.Reached.{reach-IsTracked}

module _ {Db : Type 0} (db : Database Db) (p : Platform) (settings : Settings) (id : String) where
  -- The jobs of the event that end in a turn, returned or raised.
  abbrev pub ends : {app : App Db} → Turn db p app → ℕ
  ends (take_job _ _ _ _ _ _ _ _) = 0
  ends (job_done d job before behind net begin done _ _ _) = one_if (job.event_id == id)
  ends (job_failed d job before behind net begin done e _ _ _) = one_if (job.event_id == id)

  -- How many of its jobs have ended.
  abbrev pub relayed_times :
      {initial app : App Db} {lost : List String} → Reach db p settings initial lost app → ℕ
  relayed_times (booted off) = 0
  relayed_times (request call so_far) = relayed_times so_far
  relayed_times (cleanup now token so_far) = relayed_times so_far
  relayed_times (turn t so_far) = ends t + relayed_times so_far
  relayed_times (counted metrics so_far) = relayed_times so_far
  relayed_times (restarted metrics so_far) = relayed_times so_far

  -- How many requests have drawn the id.
  abbrev pub drawn_times :
      {initial app : App Db} {lost : List String} → Reach db p settings initial lost app → ℕ
  drawn_times (booted off) = 0
  drawn_times (request call so_far) = one_if (call.fresh_event_id == id) + drawn_times so_far
  drawn_times (cleanup now token so_far) = drawn_times so_far
  drawn_times (turn t so_far) = drawn_times so_far
  drawn_times (counted metrics so_far) = drawn_times so_far
  drawn_times (restarted metrics so_far) = drawn_times so_far

  queued-jobs :
      (event : Event) (q : Option Dispatcher)
      → count_jobs id (queued p settings event q) ≤ one_if (event.id == id) + count_jobs id q
  queued-jobs event none = omega arith
  queued-jobs event (some d) =
      elim (Bool-cases (truthy settings.target_url && ltb (length d.queue) d.maxsize)) [
        | inr no_room ↦ rw no_room (omega arith)
        | inl room ↦
            rw room (omega (arith, count_queued-last id d.queue (relay_job p settings event)))
      ]

  request-jobs :
      {lost : List String} (call : Call) (app : App Db)
      → IsTracked db lost app
      → count_jobs id (create_event db p settings call app).1.dispatcher
        ≤ one_if (call.fresh_event_id == id) + count_jobs id app.dispatcher
  request-jobs call app t =
      elim (create_event-Ending db p settings call app t.live
        (subst (IsRunning settings) (sym t.there) tt) t.unique) [
          | refused e bad run ↦ omega (arith, ap (λ x. count_jobs id x.1.dispatcher) run)
          | replayed existing there same run ↦
              omega (arith, ap (λ x. count_jobs id x.1.dispatcher) run)
          | violated payload good clash run ↦
              omega (arith, ap (λ x. count_jobs id x.1.dispatcher) run)
          | accepted payload d' good fresh rows run ↦ omega (
            arith,
            ap (λ x. count_jobs id x.1.dispatcher) run,
            queued-jobs (planned db p settings call payload app) app.dispatcher,
          )
        ]

  cleanup-jobs :
      (now : ℕ) (token : Option String) (app : App Db)
      → app.session ≡ true
      → count_jobs id (admin_cleanup db now settings token app).1.dispatcher
        ≡ count_jobs id app.dispatcher
  cleanup-jobs now token app live = elim (admin_cleanup_cases db now settings token app live) [
    | inl same ↦ ap (λ x. count_jobs id x.dispatcher) same
    | inr (cutoff, d, same, rows) ↦ ap (λ x. count_jobs id x.dispatcher) same
  ]

  turn-jobs :
      {app : App Db} (t : Turn db p app)
      → ends t + count_jobs id (turned db p t).dispatcher ≡ count_jobs id app.dispatcher
  turn-jobs (take_job d job queue before behind e first idle) =
      omega (arith, count-taken d job before behind id queue first idle, ap (count_jobs id) e)
  turn-jobs (job_done d job before behind net begin done e runs ran) =
      omega (arith, count-freed d job before behind id runs, ap (count_jobs id) e)
  turn-jobs (job_failed d job before behind net begin done error e runs ran) =
      omega (arith, count-freed d job before behind id runs, ap (count_jobs id) e)

  started-jobs :
      (app : App Db) → app.dispatcher ≡ none → count_jobs id (startup settings app).dispatcher ≡ 0
  unfolding startup startup_relay_dispatcher startup_http_client
  started-jobs app off =
      rw off (omega (arith, idle_workers_work id (max settings.relay_worker_concurrency 1)))

  restarted-jobs :
      (metrics : Metrics) (app : App Db)
      → count_jobs id (startup settings (record (shutdown app) { metrics = metrics })).dispatcher
        ≡ 0
  unfolding shutdown shutdown_relay_dispatcher shutdown_http_client
  restarted-jobs metrics app = started-jobs (record (shutdown app) { metrics = metrics }) refl

  -- After the startup of a process that was not running, on a table with unique rows of which none
  -- says scheduled, whatever requests, cleanups, turns of the workers and restarts follow: the
  -- relays of an event that have ended, with a result or an exception, and its jobs that wait or
  -- run are together no more than the requests that have drawn its id. So of an event whose id was
  -- drawn once one relay ends at most, over all restarts.
  pub reach-relayed_times :
      {initial app : App Db} {lost : List String} (run : Reach db p settings initial lost app)
      → IsUnique (db.rows initial.db)
      → All (λ row. ¬ IsScheduled row) (db.rows initial.db)
      → relayed_times run + count_jobs id app.dispatcher ≤ drawn_times run
  reach-relayed_times {initial} (booted off) unique fresh = omega (arith, started-jobs initial off)
  reach-relayed_times (request {lost = lost} {app = app} call so_far) unique fresh = omega (
    arith,
    request-jobs call app (reach-IsTracked db p settings so_far unique fresh),
    reach-relayed_times so_far unique fresh,
  )
  reach-relayed_times (cleanup {lost = lost} {app = app} now token so_far) unique fresh = omega (
    arith,
    cleanup-jobs now token app (reach-IsTracked db p settings so_far unique fresh).live,
    reach-relayed_times so_far unique fresh,
  )
  reach-relayed_times (turn t so_far) unique fresh =
      omega (arith, turn-jobs t, reach-relayed_times so_far unique fresh)
  reach-relayed_times (counted metrics so_far) unique fresh =
      reach-relayed_times so_far unique fresh
  reach-relayed_times (restarted {lost = lost} {app = app} metrics so_far) unique fresh =
      omega (arith, restarted-jobs metrics app, reach-relayed_times so_far unique fresh)
