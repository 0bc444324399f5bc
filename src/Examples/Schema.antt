-- ===== src/Examples/Schema.antt =====
-- The migration on an empty schema, and the counts of the receiver.
use webhook_relay_api.Prelude.{
  ℕ, ◌+◌, one_if, leb, ltb, ◌&&◌, length, ◌/◌, ◌≡◌, refl, none, [], ◌∷◌, ◌==◌, if◌then◌else◌, map,
  some, true, false,
}
use webhook_relay_api.Prelude.Int.{pos}
use webhook_relay_api.Result.{ok, Error, err, value_error}
use webhook_relay_api.Migration.{events_table, upgrade, downgrade}
use webhook_relay_api.Migration.Plain.{PlainSchema, plain}
use webhook_relay_api.Migration.Roundtrip.{Holds, made, downgrade-upgrade}
use webhook_relay_api.Receiver.{
  ReceiverSettings, receiver_settings, Counters, begin_post, end_post, Served, idle, begun, ended,
}
use webhook_relay_api.Receiver.Counting.{served_counts, times, recorded}
use webhook_relay_api.Receiver.Rates.{failing}
use webhook_relay_api.Examples.World.{platform, settings}
use mathlib.Core.List.{Perm}
use webhook_relay_api.Migration.Model.{create_events}
use webhook_relay_api.Migration.Agreement.{no_defaults, upgrade-create_events}
use webhook_relay_api.Migration.Plain.Creation.{plain_creation}
use webhook_relay_api.Text.{has_char, lone_percent}
use webhook_relay_api.Config.{Settings}
use webhook_relay_api.Migration.Env.{env, run_migrations_offline}
use webhook_relay_api.Migration.Urls.{RunsOn, env-RunsOn, env_refuses}
use webhook_relay_api.Migration.Plain.Context.{IniFile, noting, set_option}

abbrev empty : PlainSchema
empty = record { tables = []; indexes = [] }

downgrade-upgrade_example :
    (up : PlainSchema) × (down : PlainSchema) × (upgrade plain empty ≡ ok up)
    × (downgrade plain up ≡ ok down)
    × Holds plain up (events_table ∷ []) (made [])
    × Holds plain down [] []
unfolding plain
downgrade-upgrade_example =
    downgrade-upgrade plain empty refl refl (refl, refl, refl, refl, refl, refl)

upgrade-create_events_example :
    (migrated : PlainSchema) × (created : PlainSchema) × (e : Error) × (upgrade plain empty
      ≡ ok migrated)
    × (create_events plain_creation empty ≡ ok created)
    × (map no_defaults migrated.tables ≡ map no_defaults created.tables)
    × Perm migrated.indexes created.indexes
    × (create_events plain_creation migrated ≡ ok migrated)
    × (upgrade plain created ≡ err e)
unfolding plain
upgrade-create_events_example =
    upgrade-create_events plain plain_creation empty refl (refl, refl, refl, refl, refl, refl)

-- A file of alembic with a URL of its own, and no logging.
abbrev alembic_ini : IniFile
alembic_ini = record { file_name = none; section = λ key. some "sqlite:///./data/other.db" }

env-RunsOn_example :
    RunsOn
      (noting true)
      settings
      alembic_ini
      []
      []
      settings.database_url
      (env (noting true) (ok settings) alembic_ini [])
unfolding noting has_char
env-RunsOn_example = env-RunsOn (noting true) settings alembic_ini [] [] refl refl

-- The script is for the program's database.
env_runs :
    env (noting true) (ok settings) alembic_ini []
    ≡ ok ("sqlite:///./data/app.db" ∷ "begin" ∷ "migrate" ∷ "commit" ∷ [])
unfolding env run_migrations_offline noting set_option has_char lone_percent
env_runs = refl

-- A password with an encoded `@`.
abbrev encoded : Settings
encoded = record settings { database_url = "postgresql://app:p%40ss@db/app" }

encoded_refused : env (noting false) (ok encoded) alembic_ini [] ≡ err value_error
unfolding noting has_char lone_percent
encoded_refused = env_refuses (noting false) encoded alembic_ini [] [] refl refl refl

-- One request that is recorded, and one that has its number.
abbrev flaky : ReceiverSettings
flaky = receiver_settings platform "flaky" (pos 2)

abbrev counters : ℕ → ℕ → Counters
counters next_number total = record {
  next_number = next_number;
  requests_total = total;
  requests_failed_total = 0;
}

two_served : Served platform flaky (end_post flaky 1 [] (counters 3 0)).1 (2 ∷ [])
unfolding begin_post
two_served = ended 1 [] (2 ∷ []) [] refl (
    begun "/ingest" none [] 2 [] (counters 3 0) refl
      (begun "/ingest" none [] 1 [] (counters 2 0) refl idle))

served_counts_example :
    ((n : ℕ)
      → times n (recorded platform flaky two_served) + times n (2 ∷ [])
        ≡ one_if (leb 1 n && ltb n (end_post flaky 1 [] (counters 3 0)).1.next_number))
    × (length (recorded platform flaky two_served)
        ≡ (end_post flaky 1 [] (counters 3 0)).1.requests_total)
    × (1 + ((end_post flaky 1 [] (counters 3 0)).1.requests_total + 1)
        ≡ (end_post flaky 1 [] (counters 3 0)).1.next_number)
    × ((end_post flaky 1 [] (counters 3 0)).1.requests_failed_total + failing flaky (2 ∷ []) ≡ (
        if flaky.mode == "flaky"
        then ((end_post flaky 1 [] (counters 3 0)).1.requests_total + 1) / flaky.fail_every
        else 0))
served_counts_example = served_counts platform "flaky" (pos 2) two_served
