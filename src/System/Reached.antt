-- ===== src/System/Reached.antt =====
-- No event is forgotten while the process serves.
use webhook_relay_api.Prelude.{
  ℕ, zero, suc, ◌≤◌, max, length, String, ◌≡◌, refl, sym, ap, ◌∙◌, inl, inr, false, Option, none,
  List, [], ◌∷◌, ◌++◌, arith, any, All, subst, IsIn,
}
use webhook_relay_api.App.{App, Metrics}
use webhook_relay_api.Event.{Event, clashes}
use webhook_relay_api.Json.{Fields}
use webhook_relay_api.Event.Unique.{IsUnique, IsUnique-append, IsUnique-keep}
use webhook_relay_api.Platform.{Platform}
use webhook_relay_api.Config.{Settings}
use webhook_relay_api.Database.{Database, stored}
use webhook_relay_api.Relay.Dispatch.{
  startup_relay_dispatcher, startup_http_client, new_dispatcher, idle_workers,
  shutdown_relay_dispatcher, shutdown_http_client,
}
use webhook_relay_api.Routes.Request.{Call}
use webhook_relay_api.Routes.Intake.{create_event, count_received}
use webhook_relay_api.Routes.Intake.Stored.{planned, queued, IsRunning}
use webhook_relay_api.Routes.Intake.Endings.{
  refused, accepted, replayed, violated, create_event-Ending,
}
use webhook_relay_api.Routes.Admin.{admin_cleanup}
use webhook_relay_api.Routes.Admin.Retention.{admin_cleanup_cases}
use webhook_relay_api.Main.{startup, shutdown}
use webhook_relay_api.System.{Reach, booted, request, cleanup, turn, dropped, restarted, counted}
use webhook_relay_api.System.Pending.{
  IsPending, IsScheduled, IsAccounted, IsPending-queued, IsPending-planned, queued-some,
}
use webhook_relay_api.System.Dropped.{IsIn-dropped}
use webhook_relay_api.System.Tracked.{IsTracked, turn-IsTracked}
use webhook_relay_api.Prelude.Alls.{All-append, All-keep, All-weaken, All_of_IsIn}

idle_workers_lem : (n : ℕ) → 1 ≤ n → 1 ≤ length (idle_workers n)
unfolding idle_workers
idle_workers_lem zero h = absurd (omega arith)
idle_workers_lem (suc n) h = omega arith

module _ {Db : Type 0} (db : Database Db) (p : Platform) (settings : Settings) where
  unchanged :
      {lost : List String} {app after : App Db}
      → after ≡ app
      → IsTracked db lost app
      → IsTracked db lost after
  unchanged {lost} same h = subst (IsTracked db lost) (sym same) h

  -- A request that is stored: the row is the last, and its job too, if it has one.
  stored_lem :
      {lost : List String} (call : Call) (app : App Db) (payload : Fields) (d' : Db)
      {after : App Db}
      → db.rows d'
        ≡ db.rows app.db ++ stored db.store_time (planned db p settings call payload app) ∷ []
      → any (clashes (planned db p settings call payload app)) (db.rows app.db) ≡ false
      → after ≡ record app {
        db = d';
        dispatcher = queued p settings (planned db p settings call payload app) app.dispatcher;
        metrics = count_received call.source app.metrics;
      }
      → IsTracked db lost app
      → IsTracked db lost after
  unfolding clashes
  stored_lem {lost} call app payload d' rows fresh run h =
      let event = planned db p settings call payload app in
      let (d, q, same) = queued-some p settings event h.dispatcher in
      unchanged run (record {
        live = h.live;
        dispatcher = d;
        there = ap (queued p settings event) h.there ∙ q;
        staffed = subst (λ w. 1 ≤ length w) (sym same) h.staffed;
        unique =
            subst IsUnique (sym rows)
              (IsUnique-append (db.rows app.db) (stored db.store_time event) h.unique fresh);
        accounted = subst (All _) (sym rows) (
            All-append _ (db.rows app.db) (stored db.store_time event)
              (All-weaken _ _ (db.rows app.db)
                (λ row before scheduled.
                  IsPending-queued p settings event lost row.id app.dispatcher h.dispatcher h.there
                    (before scheduled))
                h.accounted)
              (IsPending-planned p settings event lost app.dispatcher h.dispatcher h.there));
      })

  request-IsTracked :
      {lost : List String} (call : Call) (app : App Db)
      → IsTracked db lost app
      → IsTracked db lost (create_event db p settings call app).1
  request-IsTracked {lost} call app h =
      elim (create_event-Ending db p settings call app h.live
        (subst (IsRunning settings) (sym h.there) tt) h.unique) [
          | refused e bad run ↦ unchanged (ap (λ x. x.1) run) h
          | replayed existing there same run ↦ unchanged (ap (λ x. x.1) run) h
          | violated payload good clash run ↦ unchanged (ap (λ x. x.1) run) h
          | accepted payload d' good fresh rows run ↦
              stored_lem call app payload d' rows fresh (ap (λ x. x.1) run) h
        ]

  cleanup-IsTracked :
      {lost : List String} (now : ℕ) (token : Option String) (app : App Db)
      → IsTracked db lost app
      → IsTracked db lost (admin_cleanup db now settings token app).1
  cleanup-IsTracked {lost} now token app h =
      elim (admin_cleanup_cases db now settings token app h.live) [
        | inl same ↦ unchanged same h
        | inr (cutoff, d, same, rows) ↦ unchanged same (record {
          live = h.live;
          dispatcher = h.dispatcher;
          there = h.there;
          staffed = h.staffed;
          unique = subst IsUnique (sym rows) (IsUnique-keep _ (db.rows app.db) h.unique);
          accounted = subst (All _) (sym rows) (All-keep _ _ (db.rows app.db) h.accounted);
        })
      ]

  -- A startup where no dispatcher is: what says scheduled is lost already.
  started-IsTracked :
      (lost : List String) (app : App Db)
      → app.dispatcher ≡ none
      → IsUnique (db.rows app.db)
      → All (IsAccounted none lost) (db.rows app.db)
      → IsTracked db lost (startup settings app)
  unfolding startup startup_relay_dispatcher startup_http_client
  started-IsTracked lost app off unique gone = record {
    live = rw off refl;
    dispatcher = new_dispatcher settings.relay_worker_concurrency settings.relay_queue_size;
    there = rw off refl;
    staffed = idle_workers_lem (max settings.relay_worker_concurrency 1) (omega arith);
    unique = rw off unique;
    accounted =
        rw off (All-weaken _ _ (db.rows app.db) (λ row h scheduled. inr (inr (h scheduled))) gone);
  }

  counted-IsTracked :
      {lost : List String} (metrics : Metrics) (app : App Db)
      → IsTracked db lost app
      → IsTracked db lost (record app { metrics = metrics })
  counted-IsTracked metrics app h = record {
    live = h.live;
    dispatcher = h.dispatcher;
    there = h.there;
    staffed = h.staffed;
    unique = h.unique;
    accounted = h.accounted;
  }

  restart-IsTracked :
      {lost : List String} (metrics : Metrics) (app : App Db)
      → IsTracked db lost app
      → IsTracked db
          (dropped app.dispatcher ++ lost)
          (startup settings (record (shutdown app) { metrics = metrics }))
  unfolding shutdown shutdown_relay_dispatcher shutdown_http_client
  restart-IsTracked {lost} metrics app h =
      started-IsTracked (dropped app.dispatcher ++ lost)
        (record (shutdown app) { metrics = metrics }) refl h.unique
        (All-weaken _ _ (db.rows app.db)
          (λ row before scheduled. IsIn-dropped row.id app.dispatcher lost (before scheduled))
          h.accounted)

  pub reach-IsTracked :
      {initial app : App Db} {lost : List String}
      → Reach db p settings initial lost app
      → IsUnique (db.rows initial.db)
      → All (λ row. ¬ IsScheduled row) (db.rows initial.db)
      → IsTracked db lost app
  reach-IsTracked {initial} (booted off) unique fresh = started-IsTracked [] initial off unique (
      All-weaken _ _ (db.rows initial.db) (λ row not_yet scheduled. absurd (not_yet scheduled))
        fresh)
  reach-IsTracked {initial} (request {lost = lost} {app = app} call so_far) unique fresh =
      request-IsTracked call app (reach-IsTracked so_far unique fresh)
  reach-IsTracked {initial} (cleanup {lost = lost} {app = app} now token so_far) unique fresh =
      cleanup-IsTracked now token app (reach-IsTracked so_far unique fresh)
  reach-IsTracked {initial} (turn t so_far) unique fresh =
      turn-IsTracked db p t (reach-IsTracked so_far unique fresh)
  reach-IsTracked {initial} (counted {lost = lost} {app = app} metrics so_far) unique fresh =
      counted-IsTracked metrics app (reach-IsTracked so_far unique fresh)
  reach-IsTracked {initial} (restarted {lost = lost} {app = app} metrics so_far) unique fresh =
      restart-IsTracked metrics app (reach-IsTracked so_far unique fresh)

  -- After the startup of a process that was not running, on a table with unique rows of which none
  -- says scheduled, whatever requests, cleanups, turns of the workers and restarts follow: a row that
  -- says scheduled has its job in the queue or at a worker, unless the job has raised an exception or
  -- was dropped by a shutdown.
  pub reach-IsPending :
      {initial app : App Db} {lost : List String} (row : Event)
      → Reach db p settings initial lost app
      → IsUnique (db.rows initial.db)
      → All (λ row. ¬ IsScheduled row) (db.rows initial.db)
      → IsIn row (db.rows app.db)
      → IsScheduled row
      → IsPending row.id app.dispatcher lost
  reach-IsPending {initial} {app} {lost} row so_far unique fresh there =
      All_of_IsIn (IsAccounted app.dispatcher lost) row (db.rows app.db) there
        (reach-IsTracked so_far unique fresh).accounted
