-- ===== src/System/Once.antt =====
-- No event is relayed twice.
use webhook_relay_api.Prelude.{
  ℕ, zero, suc, ◌≤◌, max, some, none, one_if, if◌then◌else◌, List, arith, true, ap, ◌∙◌, inl, inr,
  String, ◌≡◌, refl, sym, Option, All, subst, IsIn,
}
use webhook_relay_api.App.{App, Metrics}
use webhook_relay_api.Event.{Event, clashes}
use webhook_relay_api.Event.Unique.{IsUnique}
use webhook_relay_api.Platform.{Platform}
use webhook_relay_api.Config.{Settings}
use webhook_relay_api.Database.{Database}
use webhook_relay_api.Relay.Dispatch.{
  startup_relay_dispatcher, startup_http_client, shutdown_relay_dispatcher, shutdown_http_client,
  idle_workers,
}
use webhook_relay_api.Routes.Request.{Call}
use webhook_relay_api.Routes.Intake.{create_event}
use webhook_relay_api.Routes.Intake.Stored.{IsRunning, planned, queued}
use webhook_relay_api.Routes.Intake.Endings.{
  refused, accepted, replayed, violated, create_event-Ending,
}
use webhook_relay_api.Routes.Admin.{admin_cleanup}
use webhook_relay_api.Routes.Admin.Retention.{admin_cleanup_cases}
use webhook_relay_api.Main.{startup, shutdown}
use webhook_relay_api.System.{
  Reach, booted, request, cleanup, turn, restarted, counted, Turn, take_job, job_done, job_failed,
  turned,
}
use webhook_relay_api.System.Pending.{IsScheduled}
use webhook_relay_api.System.Tracked.{IsTracked}
use webhook_relay_api.System.Reached.{reach-IsTracked}
use webhook_relay_api.Routes.{relay_update_values}
use webhook_relay_api.Routes.Background.Ends.{done_lem, failed_lem}
use webhook_relay_api.System.Jobs.{
  count_working, count_jobs, is_scheduled, IsOnce, count-taken, failed-IsOnce, done-IsOnce,
  queued-IsOnce, planned-IsOnce,
}
use webhook_relay_api.Prelude.Alls.{
  All-append, All-keep, All-map, All-weaken, All_of_IsIn, All-both, All-each,
}

pub idle_workers_work : (id : String) (n : ℕ) → count_working id (idle_workers n) ≡ 0
unfolding idle_workers
idle_workers_work id zero = refl
idle_workers_work id (suc n) = idle_workers_work id n

module _ {Db : Type 0} (db : Database Db) (p : Platform) (settings : Settings) where
  -- `uuid4` gives no request the id of an event that has a job.
  abbrev pub IsFresh :
      {initial app : App Db} {lost : List String} → Reach db p settings initial lost app → Type 0
  IsFresh (booted off) = Unit
  IsFresh (request {lost = lost} {app = app} call so_far) =
      (count_jobs call.fresh_event_id app.dispatcher ≡ 0) × IsFresh so_far
  IsFresh (cleanup now token so_far) = IsFresh so_far
  IsFresh (turn t so_far) = IsFresh so_far
  IsFresh (counted metrics so_far) = IsFresh so_far
  IsFresh (restarted metrics so_far) = IsFresh so_far

  abbrev Jobs : App Db → Type 0
  Jobs app = All (IsOnce app.dispatcher) (db.rows app.db)

  turn-Jobs :
      {app : App Db} (t : Turn db p app) → app.session ≡ true → Jobs app → Jobs (turned db p t)
  turn-Jobs {app} (take_job d job queue before behind e first idle) live h =
      All-weaken (IsOnce (some d)) _ (db.rows app.db)
        (λ row one.
          subst (λ n. n ≤ one_if (is_scheduled row))
            (sym (count-taken d job before behind row.id queue first idle)) one)
        (subst (λ q. All (IsOnce q) (db.rows app.db)) e h)
  turn-Jobs {app} (job_done d job before behind net begin done e runs ran) live h =
      let (r, _, same) = done_lem db p net job begin app done live ran in
      let rows =
        ap (λ x. db.rows x.db) same
        ∙ db.rows-update_relay job.event_id (relay_update_values r) app.db in
      subst (All _) (sym rows) (
        All-map (IsOnce (some d)) _ _ (db.rows app.db)
          (λ row. done-IsOnce d job before behind db.store_time r row runs)
          (subst (λ q. All (IsOnce q) (db.rows app.db)) e h))
  turn-Jobs {app} (job_failed d job before behind net begin done error e runs ran) live h =
      let same = failed_lem db p net job begin app done error live ran in
      subst (All _) (sym (ap (λ x. db.rows x.db) same)) (
        All-weaken (IsOnce (some d)) _ (db.rows app.db)
          (λ row. failed-IsOnce d job before behind row runs)
          (subst (λ q. All (IsOnce q) (db.rows app.db)) e h))

  request-Jobs :
      {lost : List String} (call : Call) (app : App Db)
      → IsTracked db lost app
      → count_jobs call.fresh_event_id app.dispatcher ≡ 0
      → Jobs app
      → Jobs (create_event db p settings call app).1
  request-Jobs call app t free h =
      elim (create_event-Ending db p settings call app t.live
        (subst (IsRunning settings) (sym t.there) tt) t.unique) [
          | refused e bad run ↦ subst Jobs (sym (ap (λ x. x.1) run)) h
          | replayed existing there same run ↦ subst Jobs (sym (ap (λ x. x.1) run)) h
          | violated payload good clash run ↦ subst Jobs (sym (ap (λ x. x.1) run)) h
          | accepted payload d' good fresh rows run ↦
              let event = planned db p settings call payload app in
              let q = queued p settings event app.dispatcher in
              subst Jobs (sym (ap (λ x. x.1) run)) (
                subst (All (IsOnce q)) (sym rows) (
                  All-append (IsOnce q) (db.rows app.db) _
                    (All-both (IsOnce app.dispatcher) (IsOnce q) (clashes event) (db.rows app.db)
                      (λ row apart. queued-IsOnce p settings event app.dispatcher row apart) fresh
                      h)
                    (planned-IsOnce p settings event db.store_time app.dispatcher t.dispatcher
                      t.there refl free)))
        ]

  cleanup-Jobs :
      (now : ℕ) (token : Option String) (app : App Db)
      → app.session ≡ true
      → Jobs app
      → Jobs (admin_cleanup db now settings token app).1
  cleanup-Jobs now token app live h = elim (admin_cleanup_cases db now settings token app live) [
    | inl same ↦ subst Jobs (sym same) h
    | inr (cutoff, d, same, rows) ↦
        subst Jobs (sym same)
          (subst (All _) (sym rows) (All-keep (IsOnce app.dispatcher) _ (db.rows app.db) h))
  ]

  started-Jobs : (app : App Db) → app.dispatcher ≡ none → Jobs (startup settings app)
  unfolding startup startup_relay_dispatcher startup_http_client
  started-Jobs app off = rw off (
      All-each _ (db.rows app.db)
        (λ row. omega (arith, idle_workers_work row.id (max settings.relay_worker_concurrency 1))))

  restarted-Jobs :
      (metrics : Metrics) (app : App Db)
      → Jobs (startup settings (record (shutdown app) { metrics = metrics }))
  unfolding shutdown shutdown_relay_dispatcher shutdown_http_client
  restarted-Jobs metrics app = started-Jobs (record (shutdown app) { metrics = metrics }) refl

  reach-Jobs :
      {initial app : App Db} {lost : List String} (run : Reach db p settings initial lost app)
      → IsFresh run
      → IsUnique (db.rows initial.db)
      → All (λ row. ¬ IsScheduled row) (db.rows initial.db)
      → Jobs app
  reach-Jobs {initial} (booted off) ids unique fresh = started-Jobs initial off
  reach-Jobs (request {lost = lost} {app = app} call so_far) (free, ids) unique fresh =
      request-Jobs call app (reach-IsTracked db p settings so_far unique fresh) free
        (reach-Jobs so_far ids unique fresh)
  reach-Jobs (cleanup {lost = lost} {app = app} now token so_far) ids unique fresh =
      cleanup-Jobs now token app (reach-IsTracked db p settings so_far unique fresh).live
        (reach-Jobs so_far ids unique fresh)
  reach-Jobs (turn t so_far) ids unique fresh =
      turn-Jobs t (reach-IsTracked db p settings so_far unique fresh).live
        (reach-Jobs so_far ids unique fresh)
  reach-Jobs (counted {lost = lost} {app = app} metrics so_far) ids unique fresh =
      reach-Jobs so_far ids unique fresh
  reach-Jobs (restarted {lost = lost} {app = app} metrics so_far) ids unique fresh =
      restarted-Jobs metrics app

  -- After the startup of a process that was not running, on a table with unique rows of which none
  -- says scheduled, whatever requests, cleanups, turns of the workers and restarts follow, if no
  -- request draws the id of an event that has a job: an event in the table has one job at most, in the
  -- queue or at a worker, and none unless its row says scheduled.
  pub reach-IsOnce :
      {initial app : App Db} {lost : List String} (row : Event)
      (run : Reach db p settings initial lost app)
      → IsFresh run
      → IsUnique (db.rows initial.db)
      → All (λ row. ¬ IsScheduled row) (db.rows initial.db)
      → IsIn row (db.rows app.db)
      → count_jobs row.id app.dispatcher ≤ (if is_scheduled row then 1 else 0)
  reach-IsOnce {initial} {app} row run ids unique fresh there =
      All_of_IsIn (IsOnce app.dispatcher) row (db.rows app.db) there
        (reach-Jobs run ids unique fresh)
