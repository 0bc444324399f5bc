-- ===== src/Routes/Intake/Errors.antt =====
-- Every exception that `create_event` lets through.
use webhook_relay_api.Prelude.{◌≡◌, sym, ap, ◌∙◌, ◌⊎◌, inl, inr, true, any}
use webhook_relay_api.Result.{Error, integrity_error, Result, ok, err}
use webhook_relay_api.Json.{Fields}
use webhook_relay_api.Platform.{Platform}
use webhook_relay_api.Config.{Settings}
use webhook_relay_api.Event.{clashes}
use webhook_relay_api.Event.Unique.{IsUnique}
use webhook_relay_api.Database.{Database}
use webhook_relay_api.App.{App}
use webhook_relay_api.Routes.Request.{Call, check_request}
use webhook_relay_api.Routes.Request.Refusals.{Refusal, check_request-Refusal}
use webhook_relay_api.Routes.Intake.{create_event}
use webhook_relay_api.Routes.Intake.Stored.{IsRunning, planned}
use webhook_relay_api.Routes.Intake.Endings.{
  refused, accepted, replayed, violated, create_event-Ending,
}

apart : {A : Type 0} (m : Result A) (a : A) (e : Error) → m ≡ ok a → m ≡ err e → ⊥
apart m a e returned raised = cc

same_error : {A : Type 0} (m : Result A) (e x : Error) → m ≡ err e → m ≡ err x → x ≡ e
same_error m e x h raised = cc

module _ {Db : Type 0} (db : Database Db) (p : Platform) (settings : Settings) (call : Call)
    (app : App Db) where
  -- Where the session exists, the dispatcher is there, if the target is set, and the rows are unique:
  -- a request that ends with an exception has changed nothing, and the exception is one of the
  -- refusals, with the status that each has, or TypeError for a signature outside ASCII, or
  -- UnicodeDecodeError for a body that is not UTF-8, or ValueError or RecursionError for a JSON text
  -- with too many digits or too deep, or it is IntegrityError for an accepted request whose event
  -- clashes with a row.
  pub create_event_errors :
      (e : Error)
      → app.session ≡ true
      → IsRunning settings app.dispatcher
      → IsUnique (db.rows app.db)
      → (create_event db p settings call app).0 ≡ err e
      → ((create_event db p settings call app).1 ≡ app)
        × (Refusal p settings call e
            ⊎ ((e ≡ integrity_error)
                × (payload : Fields) × (check_request p settings call ≡ ok payload)
                × (any (clashes (planned db p settings call payload app)) (db.rows app.db) ≡ true)))
  create_event_errors e live running unique raised =
      elim (create_event-Ending db p settings call app live running unique) [
        | refused x bad run ↦
            let same =
              same_error (create_event db p settings call app).0 x e (ap (λ r. r.0) run) raised in
            (
              ap (λ r. r.1) run,
              inl (check_request-Refusal p settings call e (bad ∙ ap err (sym same))),
            )
        | accepted payload d' good fresh rows run ↦ absurd (apart _ _ e (ap (λ r. r.0) run) raised)
        | replayed existing there same run ↦ absurd (apart _ _ e (ap (λ r. r.0) run) raised)
        | violated payload good clash run ↦
            let same =
              same_error (create_event db p settings call app).0 integrity_error e
                (ap (λ r. r.0) run) raised in
            (ap (λ r. r.1) run, inr (same, payload, good, clash))
      ]
