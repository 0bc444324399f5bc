-- ===== src/Relay/Attempts/Laws.antt =====
-- What the retry loop of `relay_event` returns, counts and waits for, after any number of rounds.
use webhook_relay_api.Prelude.{
  ℕ, zero, suc, ◌+◌, ◌≤◌, ◌<◌, ◌≡◌, refl, ap, subst, ◌∙◌, true, false, Option, none, some, [], ◌∷◌,
  ◌++◌, arith, ◌-◌,
}
use native.Mathlib.Nat.{zero-add, add-zero}
use mathlib.Core.List.{append_assoc, append-nil}
use webhook_relay_api.Result.{Result, ok}
use webhook_relay_api.Platform.{Platform}
use webhook_relay_api.Relay.{RelayOutcome}
use webhook_relay_api.Relay.Attempts.{
  response, Network, Trace, no_trace, Progress, max_attempts, delay, is_2xx, attempt_loop, at_start,
}
use webhook_relay_api.Relay.Attempts.Rounds.{
  IsRetryable, delays, delivered, reason_of, error_of, status_after, after_reply, started,
  loop-retry, loop-last, loop-delivered,
}

module _ (p : Platform) (net : Network) where
  -- The status of the last response among `k` replies.
  abbrev pub statuses : ℕ → ℕ → Option ℕ → Option ℕ
  statuses attempt zero before = before
  statuses attempt (suc k) before =
      statuses (attempt + 1) k (status_after (net.post attempt) before)

  -- A trace after `k` rounds that went on, the first of them `attempt`.
  abbrev pub retried : ℕ → ℕ → Trace → Trace
  retried attempt k t = record {
    attempts_total = t.attempts_total + k;
    successes_total = t.successes_total;
    latency_samples = t.latency_samples + k;
    sleeps = t.sleeps ++ delays net attempt k;
  }

  retried-retried :
      (attempt k : ℕ) (t : Trace)
      → retried (attempt + 1) k (retried attempt 1 t) ≡ retried attempt (suc k) t
  retried-retried attempt k t =
      let same =
        append_assoc t.sleeps (delay attempt (net.jitter attempt) ∷ [])
          (delays net (attempt + 1) k) in
      ground (arith, same)

  loop-retries :
      (k left attempt : ℕ) (s : Progress) (t : Trace)
      → ((i : ℕ) → i < k → IsRetryable (net.post (attempt + i)))
      → attempt + k ≤ 4
      → (s' : Progress) × (attempt_loop p net (k + left) attempt s t
          ≡ attempt_loop p net left (attempt + k) s' (retried attempt k t))
        × (s'.last_status ≡ statuses attempt k s.last_status)
  loop-retries zero left attempt s t h b = (s, simp (zero-add, add-zero, append-nil), refl)
  loop-retries (suc k) left attempt s t h b =
      let first : IsRetryable (net.post attempt) =
        subst (λ n. IsRetryable (net.post n)) (add-zero attempt) (h 0 (omega arith)) in
      let e1 = loop-retry p net (k + left) attempt s t first (omega arith) in
      let s1 = after_reply p (net.post attempt) (started p net attempt s) in
      let (s2, e2, same) =
        loop-retries k left (attempt + 1) s1 (retried attempt 1 t)
          (λ i lt. subst (λ n. IsRetryable (net.post n)) (omega arith) (h (suc i) (omega arith)))
          (omega arith) in
      let shift : attempt + 1 + k ≡ attempt + suc k = omega arith in
      let split : suc k + left ≡ suc (k + left) = omega arith in
      (s2, rw split (e1 ∙ rw (shift, retried-retried attempt k t) at e2), same)

  -- If the first `k` replies, fewer than four, let the loop go on and the next one is a 2xx
  -- response, the event is delivered at attempt `k + 1`: no further request is made, and `k` delays
  -- have passed.
  pub attempt_loop-delivered :
      (k status : ℕ)
      → k < 4
      → ((i : ℕ) → i < k → IsRetryable (net.post (1 + i)))
      → net.post (1 + k) ≡ response status
      → is_2xx status ≡ true
      → attempt_loop p net max_attempts 1 at_start no_trace ≡ (
        ok (delivered status (1 + k) (net.now (1 + k))),
        record {
          attempts_total = k + 1;
          successes_total = 1;
          latency_samples = k + 1;
          sleeps = delays net 1 k;
        },
      )
  attempt_loop-delivered k status lt h final good =
      let (s, e, _) = loop-retries k (suc (3 - k)) 1 at_start no_trace h (omega arith) in
      let four : k + suc (3 - k) ≡ 4 = omega arith in
      (rw four at e)
      ∙ loop-delivered p net (3 - k) (1 + k) status s (retried 1 k no_trace) final good
      ∙ simp zero-add

  abbrev given_up : Option ℕ → Result RelayOutcome × Trace
  given_up status = (
    ok (record {
      attempted = true;
      success = false;
      reason = some (reason_of (net.post 4));
      status_code = status_after (net.post 4) status;
      attempts = 4;
      last_error = some (error_of p (net.post 4));
      last_attempt_at = some (net.now 4);
    }),
    record {
      attempts_total = 4;
      successes_total = 0;
      latency_samples = 4;
      sleeps = delays net 1 3;
    },
  )

  -- If no reply of the four ends the loop, the event is given up after four attempts: the reason
  -- and the error are those of the last reply, the status that of the last response, if there was
  -- one, and three delays have passed.
  pub attempt_loop-gave_up :
      ((i : ℕ) → i < 4 → IsRetryable (net.post (1 + i)))
      → attempt_loop p net max_attempts 1 at_start no_trace ≡ (
        ok (record {
          attempted = true;
          success = false;
          reason = some (reason_of (net.post 4));
          status_code = statuses 1 4 none;
          attempts = 4;
          last_error = some (error_of p (net.post 4));
          last_attempt_at = some (net.now 4);
        }),
        record {
          attempts_total = 4;
          successes_total = 0;
          latency_samples = 4;
          sleeps = delays net 1 3;
        },
      )
  attempt_loop-gave_up h =
      let (s, e, same) =
        loop-retries 3 1 1 at_start no_trace (λ i lt. h i (omega arith)) (omega arith) in
      e ∙ loop-last p net s (retried 1 3 no_trace) (h 3 (omega arith)) ∙ ap given_up same
