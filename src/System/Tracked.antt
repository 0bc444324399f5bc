-- ===== src/System/Tracked.antt =====
-- An invariant of the process, and that the workers' turns keep it.
use webhook_relay_api.Prelude.{
  ◌≤◌, length, length-append, String, ◌≡◌, refl, sym, ap, ◌∙◌, true, Option, some, List, ◌∷◌, ◌++◌,
  arith, All, subst,
}
use webhook_relay_api.App.{Job, Dispatcher, App}
use webhook_relay_api.Event.Unique.{IsUnique}
use webhook_relay_api.Platform.{Platform}
use webhook_relay_api.Database.{Database}
use webhook_relay_api.Routes.{relay_update_values}
use webhook_relay_api.System.{Turn, take_job, job_done, job_failed, turned, lost_by}
use webhook_relay_api.System.Pending.{IsAccounted}
use webhook_relay_api.Routes.Background.Ends.{done_lem, failed_lem}
use webhook_relay_api.Routes.Intake.Constraints.{Rows-update_relay}
use webhook_relay_api.System.Moves.{done-IsAccounted, failed-IsAccounted, taken-IsAccounted}
use webhook_relay_api.Prelude.Alls.{All-map, All-weaken}

staffed_lem :
    (before : List (Option Job)) (w : Option Job) (behind : List (Option Job))
    → 1 ≤ length (before ++ w ∷ behind)
staffed_lem before w behind = omega (arith, length-append before (w ∷ behind))

module _ {Db : Type 0} (db : Database Db) where
  -- The session and the dispatcher are there, the rows are unique and every row that says scheduled
  -- has a job.
  pub record IsTracked (lost : List String) (app : App Db) : Type 0 where
    pub live : app.session ≡ true
    pub dispatcher : Dispatcher
    pub there : app.dispatcher ≡ some dispatcher
    pub staffed : 1 ≤ length dispatcher.workers
    pub unique : IsUnique (db.rows app.db)
    pub accounted : All (IsAccounted app.dispatcher lost) (db.rows app.db)

  jobs_of :
      {lost : List String} {app : App Db} (d : Dispatcher)
      → app.dispatcher ≡ some d
      → IsTracked lost app
      → All (IsAccounted (some d) lost) (db.rows app.db)
  jobs_of {lost} {app} d e h = subst (λ q. All (IsAccounted q lost) (db.rows app.db)) e h.accounted

  module _ (p : Platform) where
    pub turn-IsTracked :
        {lost : List String} {app : App Db} (t : Turn db p app)
        → IsTracked lost app
        → IsTracked (lost_by db p t lost) (turned db p t)
    turn-IsTracked {lost} {app} (take_job d job queue before behind e first idle) h = record {
      live = h.live;
      dispatcher = _;
      there = refl;
      staffed = staffed_lem before _ behind;
      unique = h.unique;
      accounted =
          All-weaken _ _ (db.rows app.db)
            (λ row. taken-IsAccounted db lost d job before behind queue row first idle)
            (jobs_of d e h);
    }
    turn-IsTracked {lost} {app} (job_done d job before behind net begin done e runs ran) h =
        let (r, _, same) = done_lem db p net job begin app done h.live ran in
        let rows =
          ap (λ x. db.rows x.db) same
          ∙ db.rows-update_relay job.event_id (relay_update_values r) app.db in
        record {
          live = ap (λ x. x.session) same ∙ h.live;
          dispatcher = _;
          there = refl;
          staffed = staffed_lem before _ behind;
          unique =
              subst (λ x. IsUnique (db.rows x.db)) (sym same)
                (Rows-update_relay db job.event_id _ app.db h.unique);
          accounted = subst (All _) (sym rows) (
              All-map _ _ _ (db.rows app.db)
                (λ row. done-IsAccounted db lost d job before behind r row runs) (jobs_of d e h));
        }
    turn-IsTracked {lost} {app} (job_failed d job before behind net begin done error e runs ran) h =
        let same = failed_lem db p net job begin app done error h.live ran in
        record {
          live = ap (λ x. x.session) same ∙ h.live;
          dispatcher = _;
          there = refl;
          staffed = staffed_lem before _ behind;
          unique = subst (λ x. IsUnique (db.rows x.db)) (sym same) h.unique;
          accounted = subst (All _) (sym (ap (λ x. db.rows x.db) same)) (
              All-weaken _ _ (db.rows app.db)
                (λ row. failed-IsAccounted db lost d job before behind row runs) (jobs_of d e h));
        }
