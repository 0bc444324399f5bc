-- ===== src/Relay/Attempts.antt =====
-- `relay_event` (app/services/relay.py): at most four attempts with jittered exponential backoff.
-- Times are in microseconds and the jitter in thousandths, so the delays are exact.
pub mod Rounds
pub mod Laws
use webhook_relay_api.Prelude.{
  ℕ, zero, suc, ◌+◌, ◌-◌, ◌*◌, ◌^◌, String, Bool, true, false, ◌&&◌, Option, none, some, List, [],
  ◌∷◌, ◌++◌, if◌then◌else◌, ltb, leb, truthy, min, max,
}
use Prim.Native.String.{◌++◌ as concat}
use webhook_relay_api.Datetime.{Datetime}
use webhook_relay_api.Result.{Error, runtime_error, Result, ok, err}
use webhook_relay_api.Platform.{Platform}
use webhook_relay_api.Relay.{RelayOutcome, RelayResult, to_dict}
use webhook_relay_api.Relay.Preflight.{preflight_target, preflight_runs}

-- What `client.post` does: a response, or an exception of `httpx` with its text, or another.
-- A connect timeout is a `TimeoutException`, which is caught first.
pub data Reply : Type 0 where
  response : ℕ → Reply
  timeout connect_error http_error : String → Reply
  raised : Error → Reply

-- What the network, the clock and the random numbers answer at each attempt.
pub record Network : Type 0 where
  pub post : ℕ → Reply
  pub now : ℕ → Datetime
  -- 1000 * (1 + random.uniform(-0.2, 0.2))
  pub jitter : ℕ → ℕ

-- What an execution leaves behind: the counters it increments, and how long it sleeps.
pub record Trace : Type 0 where
  pub attempts_total : ℕ
  pub successes_total : ℕ
  pub latency_samples : ℕ
  pub sleeps : List ℕ

abbrev pub no_trace : Trace
no_trace = record { attempts_total = 0; successes_total = 0; latency_samples = 0; sleeps = [] }

-- The variables of the loop.
pub record Progress : Type 0 where
  pub last_status : Option ℕ
  pub last_error : Option String
  pub reason : String
  pub last_attempt_at : Option Datetime

abbrev pub max_attempts : ℕ
max_attempts = 4

-- `min(base_delay * (factor ** (attempt - 1)), 1.6)`, in milliseconds, times the jitter; at least
-- 0.01 seconds.
unfoldable pub delay : ℕ → ℕ → ℕ
delay attempt jitter = max (min (200 * 2 ^ (attempt - 1)) 1600 * jitter) 10000

-- `str(exc) or default`
abbrev pub or_default : String → String → String
or_default text default = if truthy text then text else default

abbrev pub is_2xx : ℕ → Bool
is_2xx status = leb 200 status && ltb status 300

-- How the body of the loop ends: by `return`, by going on, or by an exception.
pub data Settled : Type 0 where
  finished : RelayOutcome → Settled
  retry : Progress → Settled
  thrown : Error → Settled

-- After the last attempt.
abbrev pub gave_up : Progress → RelayOutcome
gave_up s = record {
  attempted = true;
  success = false;
  reason = some s.reason;
  status_code = s.last_status;
  attempts = max_attempts;
  last_error = s.last_error;
  last_attempt_at = s.last_attempt_at;
}

abbrev pub count_attempt : Trace → Trace
count_attempt t = record t { attempts_total = t.attempts_total + 1 }

abbrev pub observe : Trace → Trace
observe t = record t { latency_samples = t.latency_samples + 1 }

abbrev pub count_success : Trace → Trace
count_success t = record t { successes_total = t.successes_total + 1 }

abbrev pub pause : Network → ℕ → Trace → Trace
pause net attempt t =
    if ltb attempt max_attempts
    then record t { sleeps = t.sleeps ++ delay attempt (net.jitter attempt) ∷ [] }
    else t

abbrev pub at_start : Progress
at_start = record {
  last_status = none;
  last_error = none;
  reason = "non_2xx";
  last_attempt_at = none;
}

abbrev pub dict_of : Result RelayOutcome × Trace → Result RelayResult × Trace
dict_of (ok outcome, t) = (ok (to_dict outcome), t)
dict_of (err e, t) = (err e, t)

-- `_get_client`: `client` says that the client is there.
abbrev pub get_client : Bool → Result (Unit {0})
get_client true = ok tt
get_client false = err (runtime_error "Relay HTTP client not initialized")

module _ (p : Platform) where
  unfoldable pub settle : Reply → ℕ → Progress → Settled
  settle (response status) attempt s =
      if is_2xx status
      then finished (record {
        attempted = true;
        success = true;
        reason = some "success";
        status_code = some status;
        attempts = attempt;
        last_error = none;
        last_attempt_at = s.last_attempt_at;
      })
      else retry (record s {
        last_status = some status;
        reason = "non_2xx";
        last_error = some (concat "non-2xx response: " (p.show status));
      })
  settle (timeout text) attempt s =
      retry (record s { reason = "timeout"; last_error = some (or_default text "timeout") })
  settle (connect_error text) attempt s = retry (record s {
    reason = "connection_error";
    last_error = some (or_default text "connection error");
  })
  settle (http_error text) attempt s =
      retry (record s { reason = "http_error"; last_error = some text })
  settle (raised e) attempt s = thrown e

  -- `for attempt in range(attempt, attempt + left)`
  unfoldable pub attempt_loop : Network → ℕ → ℕ → Progress → Trace → Result RelayOutcome × Trace
  unfolding settle delay
  attempt_loop net zero attempt s t = (ok (gave_up s), t)
  attempt_loop net (suc left) attempt s t =
      let started = record s { last_attempt_at = some (net.now attempt) } in
      elim (settle (net.post attempt) attempt started) [
        | finished outcome ↦ (ok outcome, count_success (observe (count_attempt t)))
        | retry s' ↦
            attempt_loop net left (attempt + 1) s' (pause net attempt (observe (count_attempt t)))
        | thrown e ↦ (err e, count_attempt t)
      ]

  -- The rest of `relay_event`, after the preflight.
  unfoldable pub send_event :
      Network → Bool → Result (Option RelayOutcome) → Result RelayResult × Trace
  send_event net client (err e) = (err e, no_trace)
  send_event net client (ok (some outcome)) = (ok (to_dict outcome), no_trace)
  send_event net client (ok none) = elim (get_client client) [
    | ok _ ↦ dict_of (attempt_loop net max_attempts 1 at_start no_trace)
    | err e ↦ (err e, no_trace)
  ]

  unfoldable pub relay_event :
      Network → Bool → String → List String → Bool → Result RelayResult × Trace
  relay_event net client target_url relay_allow_hosts allow_private =
      send_event net client (preflight_target p target_url relay_allow_hosts allow_private)

-- To compute with all of a relay.
unfoldable pub relay_runs : Unit {0}
unfolding relay_event send_event attempt_loop preflight_runs
relay_runs = tt
