-- ===== src/System/Statuses.antt =====
-- The relay columns of the rows, in every state of the process.
use webhook_relay_api.Prelude.{
  true, ap, ◌∙◌, Bool-cases, inl, inr, ◌==◌, ℕ, String, ◌≡◌, refl, sym, Option, none, List, All,
  subst, IsIn,
}
use webhook_relay_api.App.{App, Metrics}
use webhook_relay_api.Event.{Event}
use webhook_relay_api.Event.Unique.{IsUnique}
use webhook_relay_api.Platform.{Platform}
use webhook_relay_api.Config.{Settings}
use webhook_relay_api.Database.{Database}
use webhook_relay_api.Relay.Dispatch.{
  startup_relay_dispatcher, startup_http_client, shutdown_relay_dispatcher, shutdown_http_client,
}
use webhook_relay_api.Routes.Request.{Call}
use webhook_relay_api.Routes.Intake.{create_event}
use webhook_relay_api.Routes.Intake.Stored.{IsRunning}
use webhook_relay_api.Routes.Intake.Endings.{
  refused, accepted, replayed, violated, create_event-Ending,
}
use webhook_relay_api.Routes.Admin.{admin_cleanup}
use webhook_relay_api.Routes.Admin.Retention.{admin_cleanup_cases}
use webhook_relay_api.Main.{startup, shutdown}
use webhook_relay_api.System.{
  Reach, booted, request, cleanup, turn, restarted, counted, Turn, take_job, job_done, job_failed,
  turned,
}
use webhook_relay_api.System.Pending.{IsScheduled}
use webhook_relay_api.System.Tracked.{IsTracked}
use webhook_relay_api.Relay.Outcome.{relay_event-IsOutcomeOf}
use webhook_relay_api.System.Reached.{reach-IsTracked}
use webhook_relay_api.Routes.{relay_update_values}
use webhook_relay_api.Routes.Background.Ends.{relayed, done_lem, failed_lem}
use webhook_relay_api.System.Columns.{IsConsistent, result-IsConsistent, planned-IsConsistent}
use webhook_relay_api.Prelude.Alls.{All-append, All-keep, All-map, All_of_IsIn}

module _ {Db : Type 0} (db : Database Db) (p : Platform) (settings : Settings) where
  abbrev IsConsistentRow : Event → Type 0
  IsConsistentRow row = IsConsistent row.relay

  abbrev pub Rows : App Db → Type 0
  Rows app = All IsConsistentRow (db.rows app.db)

  turn-Rows :
      {app : App Db} (t : Turn db p app) → app.session ≡ true → Rows app → Rows (turned db p t)
  turn-Rows (take_job d job queue before behind e first idle) live h = h
  turn-Rows {app} (job_done d job before behind net begin done e runs ran) live h =
      let (r, returned, same) = done_lem db p net job begin app done live ran in
      let outcome =
        relay_event-IsOutcomeOf p net begin.client job.target_url job.relay_allow_hosts
          job.relay_allow_private_ips r _ (λ i. (returned i, (relayed db p net job begin app).1)) in
      let rows =
        ap (λ x. db.rows x.db) same
        ∙ db.rows-update_relay job.event_id (relay_update_values r) app.db in
      subst (All _) (sym rows) (
        All-map IsConsistentRow IsConsistentRow _ (db.rows app.db)
          (λ row before_it. elim (Bool-cases (row.id == job.event_id)) [
            | inl own ↦ rw own (result-IsConsistent db.store_time r _ outcome)
            | inr other ↦ rw other before_it
          ])
          h)
  turn-Rows {app} (job_failed d job before behind net begin done error e runs ran) live h =
      let same = failed_lem db p net job begin app done error live ran in
      subst (All _) (sym (ap (λ x. db.rows x.db) same)) h

  request-Rows :
      {lost : List String} (call : Call) (app : App Db)
      → IsTracked db lost app
      → Rows app
      → Rows (create_event db p settings call app).1
  request-Rows call app t h =
      elim (create_event-Ending db p settings call app t.live
        (subst (IsRunning settings) (sym t.there) tt) t.unique) [
          | refused e bad run ↦ subst Rows (sym (ap (λ x. x.1) run)) h
          | replayed existing there same run ↦ subst Rows (sym (ap (λ x. x.1) run)) h
          | violated payload good clash run ↦ subst Rows (sym (ap (λ x. x.1) run)) h
          | accepted payload d' good fresh rows run ↦ subst Rows (sym (ap (λ x. x.1) run)) (
              subst (All _) (sym rows) (
                All-append IsConsistentRow (db.rows app.db) _ h
                  (planned-IsConsistent db.store_time settings app.dispatcher)))
        ]

  cleanup-Rows :
      (now : ℕ) (token : Option String) (app : App Db)
      → app.session ≡ true
      → Rows app
      → Rows (admin_cleanup db now settings token app).1
  cleanup-Rows now token app live h = elim (admin_cleanup_cases db now settings token app live) [
    | inl same ↦ subst Rows (sym same) h
    | inr (cutoff, d, same, rows) ↦
        subst Rows (sym same)
          (subst (All _) (sym rows) (All-keep IsConsistentRow _ (db.rows app.db) h))
  ]

  started-Rows : (app : App Db) → app.dispatcher ≡ none → Rows app → Rows (startup settings app)
  unfolding startup startup_relay_dispatcher startup_http_client
  started-Rows app off h = rw off h

  restarted-Rows :
      (metrics : Metrics) (app : App Db)
      → Rows app
      → Rows (startup settings (record (shutdown app) { metrics = metrics }))
  unfolding shutdown shutdown_relay_dispatcher shutdown_http_client
  restarted-Rows metrics app h = started-Rows (record (shutdown app) { metrics = metrics }) refl h

  reach-Rows :
      {initial app : App Db} {lost : List String}
      → Reach db p settings initial lost app
      → IsUnique (db.rows initial.db)
      → All (λ row. ¬ IsScheduled row) (db.rows initial.db)
      → Rows initial
      → Rows app
  reach-Rows {initial} (booted off) unique fresh h = started-Rows initial off h
  reach-Rows (request {lost = lost} {app = app} call so_far) unique fresh h =
      request-Rows call app (reach-IsTracked db p settings so_far unique fresh)
        (reach-Rows so_far unique fresh h)
  reach-Rows (cleanup {lost = lost} {app = app} now token so_far) unique fresh h =
      cleanup-Rows now token app (reach-IsTracked db p settings so_far unique fresh).live
        (reach-Rows so_far unique fresh h)
  reach-Rows (turn t so_far) unique fresh h =
      turn-Rows t (reach-IsTracked db p settings so_far unique fresh).live
        (reach-Rows so_far unique fresh h)
  reach-Rows (counted {lost = lost} {app = app} metrics so_far) unique fresh h =
      reach-Rows so_far unique fresh h
  reach-Rows (restarted {lost = lost} {app = app} metrics so_far) unique fresh h =
      restarted-Rows metrics app (reach-Rows so_far unique fresh h)

  -- After the startup of a process that was not running, on a table with unique rows of which none
  -- says scheduled and whose relay columns are consistent, whatever requests, cleanups, turns of
  -- the workers and restarts follow: the relay columns of each row are consistent. They are those
  -- of no relay, or of a scheduled one; or they say skipped, with one of six reasons and no
  -- attempt; or success, with one to four attempts and a 2xx status; or failed, with one of four
  -- reasons, four attempts and an error.
  pub reach-IsConsistent :
      {initial app : App Db} {lost : List String} (row : Event)
      → Reach db p settings initial lost app
      → IsUnique (db.rows initial.db)
      → All (λ row. ¬ IsScheduled row) (db.rows initial.db)
      → Rows initial
      → IsIn row (db.rows app.db)
      → IsConsistent row.relay
  reach-IsConsistent {initial} {app} row so_far unique fresh h there =
      All_of_IsIn IsConsistentRow row (db.rows app.db) there (reach-Rows so_far unique fresh h)
