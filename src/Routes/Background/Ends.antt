-- ===== src/Routes/Background/Ends.antt =====
-- The two ways in which a relay job ends while the session exists.
use webhook_relay_api.Prelude.{◌≡◌, refl, sym, ap, ◌∙◌, true, inl, inr}
use webhook_relay_api.Result.{Error, Result, ok, err, Result-cases}
use webhook_relay_api.Platform.{Platform}
use webhook_relay_api.Database.{Database}
use webhook_relay_api.App.{App, Job, get_db}
use webhook_relay_api.Relay.{RelayResult}
use webhook_relay_api.Relay.Attempts.{Network, Trace, relay_event}
use webhook_relay_api.Routes.{relay_update_values}
use webhook_relay_api.Routes.Background.{count_relay, persist, relay_and_persist}

apart : (m : Result (Unit {0})) (e : Error) → m ≡ ok tt → m ≡ err e → ⊥
apart m e returned raised = cc

module _ {Db : Type 0} (db : Database Db) (p : Platform) (net : Network) (job : Job)
    (begin app : App Db) where
  abbrev pub relayed : Result RelayResult × Trace
  relayed =
      relay_event p net begin.client job.target_url job.relay_allow_hosts
        job.relay_allow_private_ips

  abbrev pub counted : App Db
  counted = record app { metrics = count_relay relayed.1 app.metrics }

  run-ok :
      (r : RelayResult)
      → relayed.0 ≡ ok r
      → app.session ≡ true
      → relay_and_persist db p net (λ _. app) job begin ≡ (
        ok tt,
        record counted { db = db.update_relay job.event_id (relay_update_values r) app.db },
      )
  unfolding relay_and_persist persist get_db
  run-ok r h live = rw h (rw live refl)

  run-err :
      (e : Error)
      → relayed.0 ≡ err e
      → relay_and_persist db p net (λ _. app) job begin ≡ (err e, counted)
  unfolding relay_and_persist persist
  run-err e h = rw h refl

  -- A job that has returned has written its result.
  pub done_lem :
      (done : App Db)
      → app.session ≡ true
      → relay_and_persist db p net (λ _. app) job begin ≡ (ok tt, done)
      → (r : RelayResult) × (relayed.0 ≡ ok r)
        × (done
            ≡ record counted { db = db.update_relay job.event_id (relay_update_values r) app.db })
  done_lem done live h = elim (Result-cases relayed.0) [
    | inl (r, e) ↦ (r, e, ap (λ x. x.1) (sym h ∙ run-ok r e live))
    | inr (e, raised) ↦ absurd (apart _ e (ap (λ x. x.0) h) (ap (λ x. x.0) (run-err e raised)))
  ]

  -- A job that has raised has written nothing.
  pub failed_lem :
      (done : App Db) (e : Error)
      → app.session ≡ true
      → relay_and_persist db p net (λ _. app) job begin ≡ (err e, done)
      → done ≡ counted
  failed_lem done e live h = elim (Result-cases relayed.0) [
    | inl (r, returned) ↦
        absurd (apart _ e (ap (λ x. x.0) (run-ok r returned live)) (ap (λ x. x.0) h))
    | inr (e', raised) ↦ ap (λ x. x.1) (sym h ∙ run-err e' raised)
  ]
