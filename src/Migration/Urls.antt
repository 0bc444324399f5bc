-- ===== src/Migration/Urls.antt =====
-- The URL of the database in the migrations.
use webhook_relay_api.Prelude.{String, ◌≡◌, refl, inl, inr, true, false, Bool-cases, some}
use webhook_relay_api.Result.{Result, ok, err, value_error, ◌>>=◌}
use webhook_relay_api.Text.{has_char, lone_percent}
use webhook_relay_api.Config.{Settings}
use webhook_relay_api.Migration.Env.{
  Section, Alembic, migrate_on, configure_logging, env, run_migrations_offline,
  run_migrations_online,
}

module _ {Config World Connection : Type 0} (alembic : Alembic Config World Connection)
    (settings : Settings) (config : Config) (start logged : World) where
  -- The migrations run on the URL: by a script for it, or on a connection of the section that has it.
  pub data RunsOn (url : String) (result : Result World) : Type 0 where
    offline :
        alembic.is_offline_mode ≡ true
        → result ≡ (
            alembic.configure_url (some url) logged >>= λ w.
            alembic.begin_transaction alembic.run_migrations w)
        → RunsOn url result
    online :
        (section : Section)
        → alembic.is_offline_mode ≡ false
        → section "sqlalchemy.url" ≡ some url
        → result ≡ alembic.with_connection section (migrate_on alembic) logged
        → RunsOn url result

  -- Where the logging can be set up and DATABASE_URL has no percent sign, the migrations run on
  -- that URL, offline and online, whatever URL the file of alembic has.
  pub env-RunsOn :
      configure_logging alembic (alembic.config_file_name config) start ≡ ok logged
      → has_char b'%' settings.database_url ≡ false
      → RunsOn settings.database_url (env alembic (ok settings) config start)
  unfolding env run_migrations_offline run_migrations_online
  env-RunsOn log plain =
      let (config', section, set, url, all, own) =
        alembic.set_plain "sqlalchemy.url" settings.database_url config plain in
      elim (Bool-cases alembic.is_offline_mode) [
        | inl off ↦ offline off (rw log (rw set (rw off (rw url refl))))
        | inr on ↦ online section on own (rw log (rw set (rw on (rw all refl))))
      ]

  -- Where the logging can be set up and DATABASE_URL has no parenthesis and a percent sign that is
  -- not doubled, as in an encoded password, no migration runs: the module raises ValueError.
  pub env_refuses :
      configure_logging alembic (alembic.config_file_name config) start ≡ ok logged
      → has_char b'(' settings.database_url ≡ false
      → lone_percent settings.database_url ≡ true
      → env alembic (ok settings) config start ≡ err value_error
  unfolding env
  env_refuses log no_name lone =
      rw log
        (rw (alembic.set_refused "sqlalchemy.url" settings.database_url config no_name lone) refl)
