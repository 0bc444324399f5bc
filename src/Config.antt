-- ===== src/Config.antt =====
-- app/core/config.py: settings from the environment. A set of texts is the list of its members.

pub mod Laws
use webhook_relay_api.Prelude.{
  ℕ, String, Bool, true, false, Option, none, some, List, [], ◌∷◌, if◌then◌else◌, truthy, keep, map,
  contains, leb,
}
use webhook_relay_api.Prelude.Int.{ℤ, pos, negsuc}
use webhook_relay_api.Result.{Result, ok, err, value_error, ◌>>=◌}
use webhook_relay_api.Text.{strip, split}
use webhook_relay_api.Platform.{Platform}

-- `{item.strip() for item in value.split(",") if item.strip()}`
unfoldable pub csv_set : Option String → List String
unfolding strip split
csv_set none = []
csv_set (some value) =
    if truthy value then map strip (keep (λ item. truthy (strip item)) (split b',' value)) else []

abbrev pub true_words : List String
true_words = "1" ∷ "true" ∷ "yes" ∷ "on" ∷ []

abbrev pub false_words : List String
false_words = "0" ∷ "false" ∷ "no" ∷ "off" ∷ "" ∷ []

pub record Settings : Type 0 where
  pub app_host : String
  pub app_port : ℤ
  pub database_url : String
  pub target_url : String
  pub log_level : String
  pub webhook_secret : String
  pub max_body_bytes : ℤ
  pub allowed_sources : List String
  pub relay_allow_hosts : List String
  pub relay_allow_private_ips : Bool
  pub relay_worker_concurrency : ℕ
  pub relay_queue_size : ℕ
  pub event_retention_days : Option ℤ
  pub admin_token : String

-- `max(n, 1)`
abbrev pub at_least_one : ℤ → ℕ
at_least_one (pos n) = if leb n 1 then 1 else n
at_least_one (negsuc n) = 1

-- `os.getenv` over an environment, and with a default.
abbrev pub Environment : Type 0
Environment = String → Option String

abbrev pub getenv : Environment → String → String → String
getenv env name default = elim (env name) [ none ↦ default | some value ↦ value ]

module _ (p : Platform) where
  -- `_env_bool`
  unfoldable pub env_bool : Option String → Bool → Result Bool
  unfolding strip
  env_bool none default = ok default
  env_bool (some raw) default =
      let value = p.lower (strip raw) in
      if contains true_words value
      then ok true
      else if contains false_words value
      then ok false
      else err value_error

  abbrev pub int_or_raise : String → Result ℤ
  int_or_raise text = elim (p.int_of text) [ none ↦ err value_error | some n ↦ ok n ]

  -- `int(raw) if raw else None`
  unfoldable pub optional_int : String → Result (Option ℤ)
  optional_int raw =
      let parsed = (int_or_raise raw >>= λ n. ok (some n)) in if truthy raw then parsed else ok none

  -- `Settings.target_url_host`
  unfoldable pub target_url_host : Settings → Result String
  target_url_host settings =
      if truthy settings.target_url
      then (elim (p.urlparse settings.target_url) [
        | none ↦ err value_error
        | some parsed ↦ ok (elim parsed.hostname [ none ↦ "" | some host ↦ p.lower host ])
      ])
      else ok ""

  -- `get_settings`, without its cache
  unfoldable pub get_settings : Environment → Result Settings
  unfolding csv_set env_bool optional_int
  get_settings env = do
    app_port ← int_or_raise (getenv env "APP_PORT" "8000")
    max_body_bytes ← int_or_raise (getenv env "MAX_BODY_BYTES" "1048576")
    relay_allow_private_ips ← env_bool (env "RELAY_ALLOW_PRIVATE_IPS") false
    workers ← int_or_raise (getenv env "RELAY_WORKER_CONCURRENCY" "8")
    queue_size ← int_or_raise (getenv env "RELAY_QUEUE_SIZE" "1000")
    event_retention_days ← optional_int (strip (getenv env "EVENT_RETENTION_DAYS" ""))
    ok (record {
      app_host = getenv env "APP_HOST" "0.0.0.0";
      app_port = app_port;
      database_url = getenv env "DATABASE_URL" "sqlite:///./data/app.db";
      target_url = strip (getenv env "TARGET_URL" "");
      log_level = getenv env "LOG_LEVEL" "INFO";
      webhook_secret = getenv env "WEBHOOK_SECRET" "";
      max_body_bytes = max_body_bytes;
      allowed_sources = csv_set (env "ALLOWED_SOURCES");
      relay_allow_hosts = map p.lower (csv_set (env "RELAY_ALLOW_HOSTS"));
      relay_allow_private_ips = relay_allow_private_ips;
      relay_worker_concurrency = at_least_one workers;
      relay_queue_size = at_least_one queue_size;
      event_retention_days = event_retention_days;
      admin_token = getenv env "ADMIN_TOKEN" "";
    })
