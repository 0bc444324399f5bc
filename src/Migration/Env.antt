-- ===== src/Migration/Env.antt =====
-- alembic/env.py: which database the migrations run on. alembic's context and configuration, and
-- SQLAlchemy's engine, are an interface with laws.
use webhook_relay_api.Prelude.{String, ◌≡◌, Bool, true, false, Option, none, some, if◌then◌else◌}
use webhook_relay_api.Result.{Result, ok, err, value_error, ◌>>=◌}
use webhook_relay_api.Text.{has_char, lone_percent}
use webhook_relay_api.Config.{Settings}

-- A section of the configuration, by key.
abbrev pub Section : Type 0
Section = String → Option String

pub record Alembic (Config World Connection : Type 0) : Type 0 where
  pub config_file_name : Config → Option String
  pub file_config : String → World → Result World
  -- `config.set_main_option`, `config.get_main_option`, and `config.get_section` of the main section
  pub set_main_option : String → String → Config → Result Config
  pub get_main_option : String → Config → Result (Option String)
  pub get_main_section : Config → Result Section
  pub is_offline_mode : Bool
  -- `context.configure`, by a URL or by a connection
  pub configure_url : Option String → World → Result World
  pub configure_connection : Connection → World → Result World
  -- `with context.begin_transaction(): ...`
  pub begin_transaction : (World → Result World) → World → Result World
  pub run_migrations : World → Result World
  -- `with engine_from_config(section, ...).connect() as connection: ...`
  pub with_connection : Section → (Connection → World → Result World) → World → Result World
  -- A value without `%` is read back as it is, and the section has it under its key.
  pub set_plain :
      (key value : String) (config : Config)
      → has_char b'%' value ≡ false
      → (config' : Config) × (section : Section) × (set_main_option key value config ≡ ok config')
        × (get_main_option key config' ≡ ok (some value))
        × (get_main_section config' ≡ ok section)
        × (section key ≡ some value)
  -- `%` begins an interpolation, or stands for itself when doubled: `ConfigParser` refuses any other.
  pub set_refused :
      (key value : String) (config : Config)
      → has_char b'(' value ≡ false
      → lone_percent value ≡ true
      → set_main_option key value config ≡ err value_error

module _ {Config World Connection : Type 0} (alembic : Alembic Config World Connection) where
  unfoldable pub run_migrations_offline : Config → World → Result World
  run_migrations_offline config w0 = do
    url ← alembic.get_main_option "sqlalchemy.url" config
    w1 ← alembic.configure_url url w0
    alembic.begin_transaction alembic.run_migrations w1

  -- With the connection.
  abbrev pub migrate_on : Connection → World → Result World
  migrate_on connection w0 = do
    w1 ← alembic.configure_connection connection w0
    alembic.begin_transaction alembic.run_migrations w1

  unfoldable pub run_migrations_online : Config → World → Result World
  run_migrations_online config w0 = do
    section ← alembic.get_main_section config
    alembic.with_connection section migrate_on w0

  -- `if config.config_file_name is not None: ...`
  abbrev pub configure_logging : Option String → World → Result World
  configure_logging none w0 = ok w0
  configure_logging (some name) w0 = alembic.file_config name w0

  -- The module, when alembic runs it; `settings` is what `get_settings()` gives.
  unfoldable pub env : Result Settings → Config → World → Result World
  env settings_or_error config w0 = do
    w1 ← configure_logging (alembic.config_file_name config) w0
    settings ← settings_or_error
    config' ← alembic.set_main_option "sqlalchemy.url" settings.database_url config
    if alembic.is_offline_mode
        then run_migrations_offline config' w1
        else run_migrations_online config' w1
