-- ===== src/Examples/Relaying.antt =====
-- The preflight, the retries and the dispatcher at concrete inputs.
use webhook_relay_api.Prelude.{
  ℕ, suc, zero, ◌+◌, ◌≤◌, ◌<◌, ◌≡◌, refl, ◌↔◌, ◌⊎◌, true, false, none, some, List, [], ◌∷◌, inl,
  inr, length, arith, String, map,
}
use webhook_relay_api.Result.{ok}
use webhook_relay_api.Datetime.{aware, utc}
use webhook_relay_api.Event.{Event}
use webhook_relay_api.Database.{set_relay, stored_columns}
use webhook_relay_api.Database.Table.{table, drop_offset}
use webhook_relay_api.App.{App, Job, Dispatcher}
use webhook_relay_api.Relay.{RelayResult, to_dict}
use webhook_relay_api.Relay.Preflight.{preflight_target, preflight_runs}
use webhook_relay_api.Relay.Preflight.Laws.{IsUnflagged, IsCleared, preflight_target-pass_iff}
use webhook_relay_api.Relay.Preflight.Addresses.{preflight_target-IsUnflagged}
use webhook_relay_api.Relay.Attempts.{
  Trace, max_attempts, at_start, no_trace, delay, relay_event, attempt_loop, relay_runs,
}
use webhook_relay_api.Relay.Attempts.Rounds.{IsRetryable, delivered, delay_bounds}
use webhook_relay_api.Relay.Attempts.Laws.{attempt_loop-delivered, attempt_loop-gave_up}
use webhook_relay_api.Relay.Outcome.{IsOutcomeOf, relay_event-IsOutcomeOf, relay_event-sends}
use webhook_relay_api.Relay.Dispatch.{
  idle_workers, Run, here, accept, start, put_job, new_dispatcher, startup_relay_dispatcher,
  enqueue_relay_job,
}
use webhook_relay_api.Relay.Dispatch.Bounds.{IsBounded, startup-IsBounded, enqueue_relay_job-Run}
use webhook_relay_api.Routes.{event_item, relay_update_values}
use webhook_relay_api.Routes.Request.{relay_job}
use webhook_relay_api.Routes.Listing.{get_event}
use webhook_relay_api.Routes.Background.{count_relay, relay_and_persist}
use webhook_relay_api.Routes.Background.Persisted.{relayed, relay_and_persist-shows}
use webhook_relay_api.Examples.World.{
  platform, settings, row, known, app, no_metrics, recovering, down,
}

abbrev hosts : List String
hosts = "example.org" ∷ []

passes : preflight_target platform "example.org" hosts false ≡ ok none
unfolding preflight_runs
passes = refl

preflight_target-IsUnflagged_example : IsUnflagged platform "8.8.8.8"
preflight_target-IsUnflagged_example =
    preflight_target-IsUnflagged platform "example.org" hosts
      (record { scheme = "https"; hostname = some "example.org" }) "8.8.8.8" passes refl
      (inr (some "8.8.8.8" ∷ [], refl, refl, inl refl))

preflight_target-pass_iff_example :
    (preflight_target platform "example.org" hosts false ≡ ok none)
    ↔ IsCleared platform "example.org" hosts false
preflight_target-pass_iff_example = preflight_target-pass_iff platform "example.org" hosts false

-- The third attempt delivers.
abbrev third : RelayResult
third = to_dict (delivered 204 3 (aware 3 utc))

abbrev third_trace : Trace
third_trace = record {
  attempts_total = 3;
  successes_total = 1;
  latency_samples = 3;
  sleeps = 200000 ∷ 400000 ∷ [];
}

relay_recovers :
    relay_event platform recovering true "example.org" hosts false ≡ (ok third, third_trace)
unfolding relay_runs
relay_recovers = refl

relay_event-IsOutcomeOf_example : IsOutcomeOf third third_trace
relay_event-IsOutcomeOf_example =
    relay_event-IsOutcomeOf platform recovering true "example.org" hosts false third third_trace
      relay_recovers

sends : 1 ≤ (relay_event platform recovering true "example.org" hosts false).1.attempts_total
sends = rw relay_recovers (omega arith)

relay_event-sends_example : (true ≡ true) × IsCleared platform "example.org" hosts false
relay_event-sends_example =
    relay_event-sends platform recovering true "example.org" hosts false sends

first_two : (i : ℕ) → i < 2 → IsRetryable (recovering.post (1 + i))
first_two zero h = refl
first_two (suc zero) h = tt
first_two (suc (suc i)) h = absurd (omega arith)

attempt_loop-delivered_example :
    attempt_loop platform recovering max_attempts 1 at_start no_trace
    ≡ (ok (delivered 204 3 (aware 3 utc)), third_trace)
unfolding delay
attempt_loop-delivered_example =
    attempt_loop-delivered platform recovering 2 204 (omega arith) first_two refl refl

all_time_out : (i : ℕ) → i < 4 → IsRetryable (down.post (1 + i))
all_time_out i h = tt

attempt_loop-gave_up_example : attempt_loop platform down max_attempts 1 at_start no_trace ≡ (
  ok (record {
    attempted = true;
    success = false;
    reason = some "timeout";
    status_code = none;
    attempts = 4;
    last_error = some "slow";
    last_attempt_at = some (aware 4 utc);
  }),
  record {
    attempts_total = 4;
    successes_total = 0;
    latency_samples = 4;
    sleeps = 200000 ∷ 400000 ∷ 800000 ∷ [];
  },
)
unfolding delay
attempt_loop-gave_up_example = attempt_loop-gave_up platform down all_time_out

delay_bounds_example : (320000 ≤ delay 2 900) × (delay 2 900 ≤ 480000)
delay_bounds_example = delay_bounds 2 900 (omega arith) (omega arith) (omega arith) (omega arith)

-- The job of the first row, while it is relayed: another task adds nothing.
abbrev job : Job
job = relay_job platform settings (row "e1" 10 (some "k1"))

relay_and_persist-shows_example :
    (after : App (List Event)) × (relay_and_persist table platform recovering
        (λ a. a)
        job
        (app known)
      ≡ (ok tt, after))
    × (after.db
        ≡ map (set_relay "e1" (stored_columns drop_offset (relay_update_values third))) known)
    × (after.metrics ≡ count_relay third_trace no_metrics)
    × (get_event table "e1" after
        ≡ (ok (event_item (relayed table third (row "e1" 10 (some "k1")))), after))
    × ((event_item (relayed table third (row "e1" 10 (some "k1")))).relay ≡ some third)
unfolding table
relay_and_persist-shows_example =
    relay_and_persist-shows table platform recovering (λ a. a) job (app known) third third_trace
      (row "e1" 10 (some "k1")) [] relay_recovers refl refl (inr (3, refl))

-- A dispatcher with one worker and room for two jobs: the first job runs, the second waits.
abbrev busy : Dispatcher
busy = record { queue = job ∷ []; maxsize = 2; workers = some job ∷ [] }

busy_run : Run (new_dispatcher 1 2) (job ∷ job ∷ []) (job ∷ []) [] busy
unfolding idle_workers
busy_run = accept job refl (start job [] [] refl refl (accept job refl (here (new_dispatcher 1 2))))

startup-IsBounded_example : IsBounded 1 2 (job ∷ job ∷ []) (job ∷ []) [] busy
unfolding startup_relay_dispatcher
startup-IsBounded_example =
    startup-IsBounded 1 2 (record (app known) { dispatcher = none }) (new_dispatcher 1 2) busy
      (job ∷ job ∷ []) (job ∷ []) [] refl refl busy_run

enqueued_at_end :
    ((length (job ∷ []) ≡ 2)
      × (enqueue_relay_job job (record (app known) { dispatcher = some busy })
          ≡ (ok false, record (app known) { dispatcher = some busy })))
    ⊎ ((1 < 2)
        × (enqueue_relay_job job (record (app known) { dispatcher = some busy })
            ≡ (ok true, record (app known) { dispatcher = some (put_job job busy) }))
        × Run (new_dispatcher 1 2) (job ∷ job ∷ job ∷ []) (job ∷ []) [] (put_job job busy))
enqueued_at_end =
    enqueue_relay_job-Run 1 2 (record (app known) { dispatcher = some busy }) job busy
      (job ∷ job ∷ []) (job ∷ []) [] refl busy_run
