-- ===== src/Examples/Access.antt =====
-- The settings, the checks of the secrets and the cleanup at concrete inputs.
use webhook_relay_api.Prelude.{
  ◌≤◌, String, ◌≡◌, refl, ◌↔◌, ◌⊎◌, true, false, none, some, [], ◌∷◌, IsIn, truthy,
}
use webhook_relay_api.Prelude.Int.{pos}
use webhook_relay_api.Result.{ok, err, http_exception, type_error, integrity_error}
use webhook_relay_api.Text.{strip, split, is_ascii}
use webhook_relay_api.Config.{Settings, csv_set, env_bool, get_settings}
use webhook_relay_api.Config.Laws.{IsItem, get_settings-bounds, csv_set_iff}
use webhook_relay_api.Security.{verify_webhook_signature, require_admin_token}
use webhook_relay_api.Security.Laws.{
  verify_webhook_signature_iff, verify_webhook_signature_non_ascii, require_admin_token_iff,
  require_admin_token_errors,
}
use webhook_relay_api.Event.{Event, clashes}
use webhook_relay_api.Database.Table.{table}
use webhook_relay_api.App.{get_db, get_db-err}
use webhook_relay_api.Routes.Intake.{add_event}
use webhook_relay_api.Routes.Intake.Constraints.{IsSound}
use webhook_relay_api.Routes.Admin.{admin_cleanup}
use webhook_relay_api.Routes.Admin.Retention.{admin_cleanup-IsSound}
use webhook_relay_api.Examples.World.{platform, settings, row, known, app}

abbrev root : String
root = "root"

abbrev defaults : Settings
defaults = record {
  app_host = "0.0.0.0";
  app_port = pos 8;
  database_url = "sqlite:///./data/app.db";
  target_url = "";
  log_level = "INFO";
  webhook_secret = "";
  max_body_bytes = pos 8;
  allowed_sources = [];
  relay_allow_hosts = [];
  relay_allow_private_ips = false;
  relay_worker_concurrency = 8;
  relay_queue_size = 8;
  event_retention_days = none;
  admin_token = "";
}

default_settings : get_settings platform (λ name. none) ≡ ok defaults
unfolding get_settings
default_settings = refl

room_for_one : (1 ≤ 8) × (1 ≤ 8)
room_for_one = get_settings-bounds platform (λ name. none) defaults default_settings

csv_members : IsIn "b" (csv_set (some "a, b,,")) ↔ IsItem "b" (split b',' "a, b,,")
csv_members = csv_set_iff "a, b,," "b" refl

csv_sets :
    (csv_set (some "a, b,,") ≡ "a" ∷ "b" ∷ [])
    × (csv_set none ≡ [])
    × (env_bool platform (some " on ") false ≡ ok true)
unfolding csv_set env_bool
csv_sets = (refl, refl, refl)

verify_webhook_signature_iff_example :
    (verify_webhook_signature platform [] (some " abc ") "abc" ≡ ok tt) ↔ (
      (h : String) × (some " abc " ≡ some h)
      × (truthy h ≡ true)
      × (is_ascii "abc" ≡ true)
      × (strip h ≡ "abc"))
verify_webhook_signature_iff_example =
    verify_webhook_signature_iff platform [] (some " abc ") "abc" refl

non_ascii_raises : verify_webhook_signature platform [] (some "é") "abc" ≡ err type_error
unfolding is_ascii strip
non_ascii_raises = verify_webhook_signature_non_ascii platform [] "é" "abc" refl refl refl

require_admin_token_iff_example :
    (require_admin_token (some "root") "root" ≡ ok tt)
    ↔ ((truthy "root" ≡ true) × (is_ascii "root" ≡ true) × (some root ≡ some root))
require_admin_token_iff_example = require_admin_token_iff (some "root") "root"

wrong_token :
    require_admin_token (some "guess") "root" ≡ err (http_exception 401 "Invalid admin token")
unfolding require_admin_token
wrong_token = refl

token_refusal :
    ((true ≡ false)
      × (http_exception 401 "Invalid admin token" ≡ http_exception 403 "Admin endpoint disabled"))
    ⊎ ((true ≡ true)
        × (http_exception 401 "Invalid admin token" ≡ http_exception 401 "Invalid admin token"))
    ⊎ ((true ≡ true) × (http_exception 401 "Invalid admin token" ≡ type_error))
token_refusal =
    require_admin_token_errors (some "guess") "root" (http_exception 401 "Invalid admin token")
      wrong_token

IsSound-after_cleanup : IsSound table (admin_cleanup table 15 settings (some "root") (app known)).1
unfolding table clashes
IsSound-after_cleanup =
    admin_cleanup-IsSound table 15 settings (some "root") (app known) (refl, (refl, tt))

-- A row that is there already is refused, and the table stays as it was.
refused : (get_db (add_event table (row "e1" 10 none)) (app known)).0 ≡ err integrity_error
unfolding get_db table clashes
refused = refl

refused_unchanged : (get_db (add_event table (row "e1" 10 none)) (app known)).1 ≡ app known
refused_unchanged =
    get_db-err (add_event table (row "e1" 10 none)) (app known) integrity_error refused
