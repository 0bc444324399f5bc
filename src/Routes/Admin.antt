-- ===== src/Routes/Admin.antt =====
-- `admin_cleanup` (app/api/routes.py), the retention cleanup (app/services/cleanup.py) and its
-- command line (app/scripts/cleanup.py).
pub mod Retention
use webhook_relay_api.Prelude.{ℕ, String, Bool, Option, none, some, ltb}
use webhook_relay_api.Prelude.Int.{ℤ}
use webhook_relay_api.Result.{ok, http_exception}
use webhook_relay_api.Datetime.{instant, minus_days}
use webhook_relay_api.Security.{require_admin_token}
use webhook_relay_api.Config.{Settings}
use webhook_relay_api.Event.{Event}
use webhook_relay_api.Database.{Database}
use webhook_relay_api.App.{App, Exec, pure, raise, lift, get_db, ◌>>=◌, ◌>>◌}

-- `Event.received_at < cutoff`
abbrev pub is_older : ℕ → Event → Bool
is_older cutoff row = ltb (instant row.received_at) cutoff

module _ {Db : Type 0} (db : Database Db) where
  -- `now` is the clock.
  unfoldable pub cleanup_old_events : ℕ → ℤ → Exec (App Db) ℕ
  cleanup_old_events now retention_days = do
    cutoff ← lift (minus_days now retention_days)
    get_db (λ d. let (d', count) = db.delete (is_older cutoff) d in ok (count, d'))

  -- `if settings.event_retention_days is None: raise ...`
  abbrev pub retention_or_400 : Option ℤ → Exec (App Db) ℤ
  retention_or_400 none = raise (http_exception 400 "EVENT_RETENTION_DAYS is not set")
  retention_or_400 (some days) = pure days

  unfoldable pub admin_cleanup : ℕ → Settings → Option String → Exec (App Db) ℕ
  admin_cleanup now settings x_admin_token = do
    lift (require_admin_token x_admin_token settings.admin_token)
    days ← retention_or_400 settings.event_retention_days
    cleanup_old_events now days

  -- `main` of the script, after the settings and `init_db`: the exit code.
  unfoldable pub cleanup_main : ℕ → Option ℤ → Exec (App Db) ℕ
  cleanup_main now none = pure 2
  cleanup_main now (some days) = do deleted ← cleanup_old_events now days; pure 0
