-- ===== src/System/Refined/Turns.antt =====
-- The turns of the workers against the ledger.
use webhook_relay_api.Prelude.{
  ◌≤◌, ◌≡◌, refl, sym, ap, ◌∙◌, subst, inl, inr, true, some, ◌==◌, one_if, Option-cases, eq_iff,
  arith, IsIn,
}
use webhook_relay_api.App.{App}
use webhook_relay_api.Event.{Event}
use webhook_relay_api.Platform.{Platform}
use webhook_relay_api.Database.{Database, stored_columns}
use webhook_relay_api.Relay.Outcome.{relay_event-IsOutcomeOf}
use webhook_relay_api.Routes.{relay_update_values}
use webhook_relay_api.Routes.Background.Ends.{relayed, done_lem, failed_lem}
use webhook_relay_api.System.{Turn, take_job, job_done, job_failed, turned}
use webhook_relay_api.System.Columns.{result-IsConsistent}
use webhook_relay_api.System.Jobs.{count_jobs, count-freed, is_scheduled}
use webhook_relay_api.System.Ledger.{Ledger, Change, stay, settle}
use webhook_relay_api.System.Refined.Spec.{TurnFollows}
use webhook_relay_api.System.Moves.{not_scheduled, some_injective}
use webhook_relay_api.System.Pending.{IsScheduled}
use webhook_relay_api.System.Refined.Steps.{ledger_of, written-step}

is_scheduled-IsScheduled : (row : Event) → 1 ≤ one_if (is_scheduled row) → IsScheduled row
is_scheduled-IsScheduled row h = elim (Option-cases row.relay.relay_status) [
  | inl nothing ↦ absurd (ground (arith, h, nothing))
  | inr (status, says) ↦ says ∙ ap some ((eq_iff status "scheduled").0 (ground (arith, h, says)))
]

module _ {Db : Type 0} (db : Database Db) (p : Platform) where
  pub turn-Follows :
      {app : App Db} (t : Turn db p app)
      → app.session ≡ true
      → ((row : Event)
          → IsIn row (db.rows app.db)
          → count_jobs row.id app.dispatcher ≤ one_if (is_scheduled row))
      → TurnFollows db p t (ledger_of db app) (ledger_of db (turned db p t))
  unfolding relay_update_values
  turn-Follows (take_job d job queue before behind e first idle) live once = λ id. refl
  turn-Follows {app} (job_done d job before behind net start done e runs ran) live once =
      let (r, returned, same) = done_lem db p net job start app done live ran in
      let outcome =
        relay_event-IsOutcomeOf p net start.client job.target_url job.relay_allow_hosts
          job.relay_allow_private_ips r _ (λ i. (returned i, (relayed db p net job start app).1)) in
      (
        r,
        returned,
        result-IsConsistent db.store_time r _ outcome,
        (λ wrong. not_scheduled r (some_injective wrong)),
        written-step db job.event_id (stored_columns db.store_time (relay_update_values r)) app
            done.db
            (ap (λ x. db.rows x.db) same
              ∙ db.rows-update_relay job.event_id (relay_update_values r) app.db)
            (λ row within named.
              let runs_once : count_jobs row.id (some d) ≤ one_if (is_scheduled row) =
                subst (λ q. count_jobs row.id q ≤ one_if (is_scheduled row)) e (once row within) in
              let own : one_if (job.event_id == row.id) ≡ 1 =
                ap one_if ((eq_iff job.event_id row.id).1 (sym named)) in
              is_scheduled-IsScheduled row
                (omega (arith, count-freed d job before behind row.id runs, own, runs_once))),
      )
  turn-Follows {app} (job_failed d job before behind net start done error e runs ran) live once =
      λ id. ap (λ x. db.get id x.db) (failed_lem db p net job start app done error live ran)

  TurnFollows-Change :
      {app : App Db} (t : Turn db p app) (f g : Ledger) → TurnFollows db p t f g → Change f g
  TurnFollows-Change (take_job d job queue before behind e first idle) f g same = stay same
  TurnFollows-Change (job_done d job before behind net start done e runs ran) f g
        (r, _, _, _, settles) =
      settle job.event_id _ settles
  TurnFollows-Change (job_failed d job before behind net start done x e runs ran) f g same =
      stay same

  pub turn-step :
      {app : App Db} (t : Turn db p app)
      → app.session ≡ true
      → ((row : Event)
          → IsIn row (db.rows app.db)
          → count_jobs row.id app.dispatcher ≤ one_if (is_scheduled row))
      → Change (ledger_of db app) (ledger_of db (turned db p t))
  turn-step t live once = TurnFollows-Change t _ _ (turn-Follows t live once)
