-- ===== src/System/Bounded.antt =====
-- The dispatcher of the running process, against the steps of app/services/relay.py by itself.
use webhook_relay_api.Prelude.{
  ℕ, ◌≤◌, max, String, ◌≡◌, refl, sym, ap, subst, inl, inr, Option, none, some, List, [], ◌∷◌, ◌++◌,
  All, arith, Bool-cases, true, ◌&&◌, truthy, ltb, length,
}
use webhook_relay_api.App.{App, Job, Dispatcher, Metrics}
use webhook_relay_api.Event.{Event}
use webhook_relay_api.Event.Unique.{IsUnique}
use webhook_relay_api.Platform.{Platform}
use webhook_relay_api.Config.{Settings}
use webhook_relay_api.Database.{Database}
use webhook_relay_api.Relay.Dispatch.{
  Run, here, accept, start, end, new_dispatcher, startup_relay_dispatcher, startup_http_client,
  shutdown_relay_dispatcher, shutdown_http_client,
}
use webhook_relay_api.Relay.Dispatch.Bounds.{steps}
use webhook_relay_api.Routes.Request.{Call, relay_job}
use webhook_relay_api.Routes.Intake.{create_event}
use webhook_relay_api.Routes.Intake.Stored.{IsRunning, planned, queued}
use webhook_relay_api.Routes.Intake.Endings.{
  refused, accepted, replayed, violated, create_event-Ending,
}
use webhook_relay_api.Routes.Admin.{admin_cleanup}
use webhook_relay_api.Routes.Admin.Retention.{admin_cleanup_cases}
use webhook_relay_api.Main.{startup, shutdown}
use webhook_relay_api.System.{
  Reach, booted, request, cleanup, turn, restarted, counted, Turn, take_job, job_done, job_failed,
  turned,
}
use webhook_relay_api.System.Pending.{IsScheduled}
use webhook_relay_api.System.Tracked.{IsTracked}
use webhook_relay_api.System.Reached.{reach-IsTracked}

-- The dispatcher is there, and a run of the one that was started last leads to it.
abbrev pub IsRun : Settings → Option Dispatcher → Type 0
IsRun settings none = ⊥
IsRun settings (some d) =
    (taken_in : List Job) × (begun : List Job) × (finished : List Job) × Run
      (new_dispatcher settings.relay_worker_concurrency settings.relay_queue_size) taken_in begun
      finished d

module _ (settings : Settings) where
  -- A job is put where there is room.
  queued-IsRun :
      (p : Platform) (event : Event) (q : Option Dispatcher)
      → IsRun settings q
      → IsRun settings (queued p settings event q)
  queued-IsRun p event none h = elim h [ ]
  queued-IsRun p event (some d) (taken_in, begun, finished, run) =
      elim (Bool-cases (truthy settings.target_url && ltb (length d.queue) d.maxsize)) [
        | inr no_room ↦ rw no_room (taken_in, begun, finished, run)
        | inl room ↦
            let job = relay_job p settings event in
            rw room (taken_in ++ job ∷ [], begun, finished, accept job (ground (arith, room)) run)
      ]

  started-IsRun :
      {Db : Type 0} (app : App Db)
      → app.dispatcher ≡ none
      → IsRun settings (startup settings app).dispatcher
  unfolding startup startup_relay_dispatcher startup_http_client
  started-IsRun app off = rw off ([], [], [], here _)

  restarted-IsRun :
      {Db : Type 0} (metrics : Metrics) (app : App Db)
      → IsRun settings (startup settings (record (shutdown app) { metrics = metrics })).dispatcher
  unfolding shutdown shutdown_relay_dispatcher shutdown_http_client
  restarted-IsRun metrics app = started-IsRun (record (shutdown app) { metrics = metrics }) refl

module _ {Db : Type 0} (db : Database Db) (p : Platform) (settings : Settings) where
  request-IsRun :
      {lost : List String} (call : Call) (app : App Db)
      → IsTracked db lost app
      → IsRun settings app.dispatcher
      → IsRun settings (create_event db p settings call app).1.dispatcher
  request-IsRun call app t h =
      elim (create_event-Ending db p settings call app t.live
        (subst (IsRunning settings) (sym t.there) tt) t.unique) [
          | refused e bad run ↦ subst (IsRun settings) (sym (ap (λ x. x.1.dispatcher) run)) h
          | replayed existing there same run ↦
              subst (IsRun settings) (sym (ap (λ x. x.1.dispatcher) run)) h
          | violated payload good clash run ↦
              subst (IsRun settings) (sym (ap (λ x. x.1.dispatcher) run)) h
          | accepted payload d' good fresh rows run ↦
              subst (IsRun settings) (sym (ap (λ x. x.1.dispatcher) run))
                (queued-IsRun settings p (planned db p settings call payload app) app.dispatcher h)
        ]

  cleanup-IsRun :
      (now : ℕ) (token : Option String) (app : App Db)
      → app.session ≡ true
      → IsRun settings app.dispatcher
      → IsRun settings (admin_cleanup db now settings token app).1.dispatcher
  cleanup-IsRun now token app live h = elim (admin_cleanup_cases db now settings token app live) [
    | inl same ↦ subst (IsRun settings) (sym (ap (λ x. x.dispatcher) same)) h
    | inr (cutoff, d, same, rows) ↦ subst (IsRun settings) (sym (ap (λ x. x.dispatcher) same)) h
  ]

  turn-IsRun :
      {app : App Db} (t : Turn db p app)
      → IsRun settings app.dispatcher
      → IsRun settings (turned db p t).dispatcher
  turn-IsRun (take_job d job queue before behind e first idle) h =
      let (taken_in, begun, finished, run) = subst (IsRun settings) e h in
      (taken_in, begun ++ job ∷ [], finished, start job before behind first idle run)
  turn-IsRun (job_done d job before behind net begin done e runs ran) h =
      let (taken_in, begun, finished, run) = subst (IsRun settings) e h in
      (taken_in, begun, finished ++ job ∷ [], end job before behind runs run)
  turn-IsRun (job_failed d job before behind net begin done error e runs ran) h =
      let (taken_in, begun, finished, run) = subst (IsRun settings) e h in
      (taken_in, begun, finished ++ job ∷ [], end job before behind runs run)

  reach-IsRun :
      {initial app : App Db} {lost : List String}
      → Reach db p settings initial lost app
      → IsUnique (db.rows initial.db)
      → All (λ row. ¬ IsScheduled row) (db.rows initial.db)
      → IsRun settings app.dispatcher
  reach-IsRun {initial} (booted off) unique fresh = started-IsRun settings initial off
  reach-IsRun (request {lost = lost} {app = app} call so_far) unique fresh =
      request-IsRun call app (reach-IsTracked db p settings so_far unique fresh)
        (reach-IsRun so_far unique fresh)
  reach-IsRun (cleanup {lost = lost} {app = app} now token so_far) unique fresh =
      cleanup-IsRun now token app (reach-IsTracked db p settings so_far unique fresh).live
        (reach-IsRun so_far unique fresh)
  reach-IsRun (turn t so_far) unique fresh = turn-IsRun t (reach-IsRun so_far unique fresh)
  reach-IsRun (counted metrics so_far) unique fresh = reach-IsRun so_far unique fresh
  reach-IsRun (restarted {lost = lost} {app = app} metrics so_far) unique fresh =
      restarted-IsRun settings metrics app

  -- After the startup of a process that was not running, on a table with unique rows of which none
  -- says scheduled, whatever requests, cleanups, turns of the workers and restarts follow: the queue is
  -- within the configured size, or one where that is less, and the workers are as many as configured,
  -- or one where that is less.
  pub reach-IsBounded :
      {initial app : App Db} {lost : List String} (d : Dispatcher)
      → Reach db p settings initial lost app
      → IsUnique (db.rows initial.db)
      → All (λ row. ¬ IsScheduled row) (db.rows initial.db)
      → app.dispatcher ≡ some d
      → (length d.queue ≤ max settings.relay_queue_size 1)
        × (length d.workers ≡ max settings.relay_worker_concurrency 1)
  reach-IsBounded d so_far unique fresh there =
      let (taken_in, begun, finished, run) =
        subst (IsRun settings) there (reach-IsRun so_far unique fresh) in
      let bounded = steps settings.relay_worker_concurrency settings.relay_queue_size refl run in
      (omega (arith, bounded.room, bounded.size), bounded.crew)
