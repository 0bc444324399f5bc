-- ===== src/Relay/Attempts/Rounds.antt =====
-- One round of the retry loop of `relay_event` (app/services/relay.py), for each kind of reply.
use webhook_relay_api.Prelude.{
  ℕ, zero, suc, ◌+◌, ◌*◌, ◌≤◌, ◌<◌, ◌≡◌, refl, true, false, Option, none, some, List, [], ◌∷◌, ◌++◌,
  arith, ◌^◌, ◌-◌, lt→ltb, String,
}
use Prim.Native.String.{◌++◌ as concat}
use webhook_relay_api.Datetime.{Datetime}
use webhook_relay_api.Result.{Error, ok, err}
use webhook_relay_api.Platform.{Platform}
use webhook_relay_api.Relay.{RelayOutcome}
use webhook_relay_api.Relay.Attempts.{
  or_default, Reply, response, timeout, connect_error, http_error, raised, Network, Trace, Progress,
  delay, is_2xx, retry, settle, gave_up, count_attempt, observe, count_success, attempt_loop,
}

-- A reply after which the loop goes on.
abbrev pub IsRetryable : Reply → Type 0
IsRetryable (response status) = is_2xx status ≡ false
IsRetryable (raised e) = ⊥
IsRetryable _ = Unit

-- The delays before the attempts `attempt + 1` to `attempt + k`.
abbrev pub delays : Network → ℕ → ℕ → List ℕ
delays net attempt zero = []
delays net attempt (suc k) = delay attempt (net.jitter attempt) ∷ delays net (attempt + 1) k

-- After the attempts 1 to 3, with a jitter of at most a fifth either way, the delay lies within a
-- fifth of 200 milliseconds, doubled after each attempt.
pub delay_bounds :
    (attempt jitter : ℕ)
    → 1 ≤ attempt
    → attempt ≤ 3
    → 800 ≤ jitter
    → jitter ≤ 1200
    → (160000 * 2 ^ (attempt - 1) ≤ delay attempt jitter)
      × (delay attempt jitter ≤ 240000 * 2 ^ (attempt - 1))
unfolding delay
delay_bounds (suc zero) j a b c d = omega arith
delay_bounds (suc (suc zero)) j a b c d = omega arith
delay_bounds (suc (suc (suc zero))) j a b c d = omega arith
delay_bounds (suc (suc (suc (suc n)))) j a b c d = absurd (omega arith)
delay_bounds zero j a b c d = absurd (omega arith)

-- The outcome of a delivery.
abbrev pub delivered : ℕ → ℕ → Datetime → RelayOutcome
delivered status attempts at = record {
  attempted = true;
  success = true;
  reason = some "success";
  status_code = some status;
  attempts = attempts;
  last_error = none;
  last_attempt_at = some at;
}

-- What a failed attempt is reported as.
abbrev pub reason_of : Reply → String
reason_of (response status) = "non_2xx"
reason_of (timeout text) = "timeout"
reason_of (connect_error text) = "connection_error"
reason_of (http_error text) = "http_error"
reason_of (raised e) = ""

abbrev pub error_of : Platform → Reply → String
error_of p (response status) = concat "non-2xx response: " (p.show status)
error_of p (timeout text) = or_default text "timeout"
error_of p (connect_error text) = or_default text "connection error"
error_of p (http_error text) = text
error_of p (raised e) = ""

-- The status of the last response so far.
abbrev pub status_after : Reply → Option ℕ → Option ℕ
status_after (response status) before = some status
status_after _ before = before

abbrev pub after_reply : Platform → Reply → Progress → Progress
after_reply p r s = record s {
  last_status = status_after r s.last_status;
  reason = reason_of r;
  last_error = some (error_of p r);
}

settle-retry :
    (p : Platform) (r : Reply) (attempt : ℕ) (s : Progress)
    → IsRetryable r
    → settle p r attempt s ≡ retry (after_reply p r s)
unfolding settle
settle-retry p (response c) attempt s h = rw h
settle-retry p (timeout text) attempt s h = refl
settle-retry p (connect_error text) attempt s h = refl
settle-retry p (http_error text) attempt s h = refl
settle-retry p (raised e) attempt s h = absurd h

module _ (p : Platform) (net : Network) where
  abbrev pub started : ℕ → Progress → Progress
  started attempt s = record s { last_attempt_at = some (net.now attempt) }

  -- One round that goes on, after which there is another.
  pub loop-retry :
      (left attempt : ℕ) (s : Progress) (t : Trace)
      → IsRetryable (net.post attempt)
      → attempt < 4
      → attempt_loop p net (suc left) attempt s t
        ≡ attempt_loop p net left
            (attempt + 1)
            (after_reply p (net.post attempt) (started attempt s))
            (record {
              attempts_total = t.attempts_total + 1;
              successes_total = t.successes_total;
              latency_samples = t.latency_samples + 1;
              sleeps = t.sleeps ++ delay attempt (net.jitter attempt) ∷ [];
            })
  unfolding attempt_loop
  loop-retry left attempt s t h lt =
      let e = settle-retry p (net.post attempt) attempt (started attempt s) h in
      rw (e, attempt_loop) (rw (lt→ltb attempt 4 lt) refl)

  -- The last round, if it does not deliver.
  pub loop-last :
      (s : Progress) (t : Trace)
      → IsRetryable (net.post 4)
      → attempt_loop p net 1 4 s t
        ≡ (ok (gave_up (after_reply p (net.post 4) (started 4 s))), observe (count_attempt t))
  unfolding attempt_loop
  loop-last s t h =
      let e = settle-retry p (net.post 4) 4 (started 4 s) h in rw (e, attempt_loop) refl

  pub loop-thrown :
      (left attempt : ℕ) (s : Progress) (t : Trace) (e : Error)
      → net.post attempt ≡ raised e
      → attempt_loop p net (suc left) attempt s t ≡ (err e, count_attempt t)
  unfolding attempt_loop settle
  loop-thrown left attempt s t e h = rw (h, attempt_loop, settle) refl

  pub loop-delivered :
      (left attempt status : ℕ) (s : Progress) (t : Trace)
      → net.post attempt ≡ response status
      → is_2xx status ≡ true
      → attempt_loop p net (suc left) attempt s t ≡ (
        ok (delivered status attempt (net.now attempt)),
        count_success (observe (count_attempt t)),
      )
  unfolding attempt_loop settle
  loop-delivered left attempt status s t e good = rw (e, attempt_loop, settle) (rw (good) refl)
