-- ===== src/Routes/Probes.antt =====
-- `health` and `ready` (app/api/routes.py), and `check_db` (app/services/health.py).
use webhook_relay_api.Prelude.{
  String, Bool, true, ◌≡◌, refl, if◌then◌else◌, inl, inr, Bool-cases, Option-cases, arith,
}
use webhook_relay_api.Result.{ok, err, runtime_error, other_error}
use webhook_relay_api.Config.{Settings}
use webhook_relay_api.App.{App, Exec, pure, get_db, ◌>>◌}
use webhook_relay_api.Relay.Dispatch.{startup_relay_dispatcher, startup_http_client}
use webhook_relay_api.Main.{startup}

pub record HealthResponse : Type 0 where
  pub status : String

module _ {Db : Type 0} where
  unfoldable pub health : Exec (App Db) HealthResponse
  health = pure (record { status = "ok" })

  -- `SELECT 1` changes nothing; it raises if the database does not answer it.
  unfoldable pub check_db : (Db → Bool) → Exec (App Db) (Unit {0})
  check_db answers_select =
      get_db (λ d. if answers_select d then ok (tt, d) else err (other_error "OperationalError"))

  unfoldable pub ready : (Db → Bool) → Exec (App Db) HealthResponse
  ready answers_select = check_db answers_select >> pure (record { status = "ok" })

  -- The probe changes nothing. It says that the process is ready exactly if the session exists and
  -- the database answers.
  ready_lem :
      (answers_select : Db → Bool) (app : App Db)
      → ready answers_select app ≡ (
        if app.session
            then if answers_select app.db
              then ok (record { status = "ok" })
              else err (other_error "OperationalError")
            else err (runtime_error "Database not initialized"),
        app,
      )
  unfolding ready check_db get_db
  ready_lem answers_select app = elim (Bool-cases app.session) [
    | inr off ↦ rw off refl
    | inl live ↦ elim (Bool-cases (answers_select app.db)) [
      | inl up ↦ rw live (rw up refl)
      | inr down ↦ rw live (rw down refl)
    ]
  ]

  -- It is ready after the startup, if the database answers then.
  startup-ready :
      (answers_select : Db → Bool) (settings : Settings) (app : App Db)
      → answers_select (startup settings app).db ≡ true
      → (ready answers_select (startup settings app)).0 ≡ ok (record { status = "ok" })
  unfolding ready check_db get_db startup startup_relay_dispatcher startup_http_client
  startup-ready answers_select settings app up = elim (Option-cases app.dispatcher) [
    | inl off ↦ ground (arith, off, up)
    | inr (running, on) ↦ ground (arith, on, up)
  ]
