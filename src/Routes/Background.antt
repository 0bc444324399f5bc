-- ===== src/Routes/Background.antt =====
-- `_relay_and_persist` (app/api/routes.py): what a worker of the dispatcher runs for a job.
pub mod Persisted
pub mod Settled
pub mod Ends
use webhook_relay_api.Prelude.{◌+◌, String}
use webhook_relay_api.Result.{Result, ok, err}
use webhook_relay_api.Platform.{Platform}
use webhook_relay_api.Database.{Database}
use webhook_relay_api.App.{Metrics, App, Job, Exec, raise, get_db}
use webhook_relay_api.Relay.{RelayResult}
use webhook_relay_api.Relay.Attempts.{Network, Trace, relay_event}
use webhook_relay_api.Routes.{relay_update_values}

-- The counters of `relay_event`.
abbrev pub count_relay : Trace → Metrics → Metrics
count_relay t m = record m {
  relay_attempts = m.relay_attempts + t.attempts_total;
  relay_successes = m.relay_successes + t.successes_total;
  relay_latencies = m.relay_latencies + t.latency_samples;
}

module _ {Db : Type 0} (db : Database Db) where
  -- The UPDATE after the relay.
  unfoldable pub persist : String → Result RelayResult → Exec (App Db) (Unit {0})
  persist event_id (err e) = raise e
  persist event_id (ok result) =
      get_db (λ d. ok (tt, db.update_relay event_id (relay_update_values result) d))

  -- While the relay waits for the network other tasks run: `meanwhile` is what they do.
  unfoldable pub relay_and_persist :
      Platform → Network → (App Db → App Db) → Job → Exec (App Db) (Unit {0})
  relay_and_persist p net meanwhile job app =
      let (result, t) =
        relay_event p net app.client job.target_url job.relay_allow_hosts
          job.relay_allow_private_ips in
      let later = meanwhile app in
      persist job.event_id result (record later { metrics = count_relay t later.metrics })
