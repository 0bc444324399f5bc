-- ===== src/Relay/Outcome.antt =====
-- What every result of `relay_event` looks like, and when a request leaves the process.
use webhook_relay_api.Prelude.{
  ℕ, zero, suc, ◌+◌, ◌≤◌, ◌≡◌, refl, subst, ◌⊎◌, inl, inr, Bool, true, false, Option, none, some,
  List, [], ◌∷◌, arith, length, is_some, Bool-cases, length-append, String, IsIn,
}
use webhook_relay_api.Result.{Error, Result, ok, err}
use webhook_relay_api.Platform.{Platform}
use webhook_relay_api.Relay.{RelayOutcome, RelayResult, to_dict}
use webhook_relay_api.Relay.Preflight.{preflight_target}
use webhook_relay_api.Relay.Preflight.Skips.{IsSkip, Skips, preflight_target-Skips}
use webhook_relay_api.Relay.Preflight.Laws.{IsCleared, preflight_target-pass_iff}
use webhook_relay_api.Relay.Attempts.{
  Reply, response, timeout, connect_error, http_error, raised, Network, Trace, no_trace, Progress,
  is_2xx, delay, attempt_loop, at_start, dict_of, send_event, relay_event,
}
use webhook_relay_api.Relay.Attempts.Rounds.{
  IsRetryable, loop-retry, loop-last, loop-thrown, loop-delivered, reason_of,
}

Reply-cases :
    (r : Reply)
    → IsRetryable r
      ⊎ ((c : ℕ) × (r ≡ response c) × (is_2xx c ≡ true))
      ⊎ ((e : Error) × (r ≡ raised e))
Reply-cases (response c) = elim (Bool-cases (is_2xx c)) [
  | inl good ↦ inr (inl (c, refl, good))
  | inr bad ↦ inl bad
]
Reply-cases (timeout text) = inl tt
Reply-cases (connect_error text) = inl tt
Reply-cases (http_error text) = inl tt
Reply-cases (raised e) = inr (inr (e, refl))

-- What a failed relay gives as its reason.
abbrev pub failure_reasons : List String
failure_reasons = "non_2xx" ∷ "timeout" ∷ "connection_error" ∷ "http_error" ∷ []

reason_of-IsIn : (r : Reply) → IsRetryable r → IsIn (reason_of r) failure_reasons
reason_of-IsIn (response c) h = inl refl
reason_of-IsIn (timeout text) h = inr (inl refl)
reason_of-IsIn (connect_error text) h = inr (inr (inl refl))
reason_of-IsIn (http_error text) h = inr (inr (inr (inl refl)))
reason_of-IsIn (raised e) h = absurd h

-- How an outcome of the loop agrees with what was done.
pub record IsAccounted (o : RelayOutcome) (t : Trace) : Type 0 where
  pub attempted : o.attempted ≡ true
  pub counted : t.attempts_total ≡ o.attempts
  pub some_attempt : 1 ≤ o.attempts
  pub few_attempts : o.attempts ≤ 4
  pub observed : t.latency_samples ≡ o.attempts
  pub delays_between : length t.sleeps + 1 ≡ o.attempts
  -- either delivered, with a 2xx status, or given up after four attempts, with an error
  pub ending :
      ((o.success ≡ true)
        × (t.successes_total ≡ 1)
        × (o.reason ≡ some "success")
        × ((c : ℕ) × (o.status_code ≡ some c) × (is_2xx c ≡ true)))
      ⊎ ((o.success ≡ false)
          × (t.successes_total ≡ 0)
          × (o.attempts ≡ 4)
          × (is_some o.last_error ≡ true)
          × ((reason : String) × (o.reason ≡ some reason) × IsIn reason failure_reasons))

-- What holds before the round `attempt`.
record IsReady (attempt : ℕ) (t : Trace) : Type 0 where
  counted : t.attempts_total + 1 ≡ attempt
  observed : t.latency_samples + 1 ≡ attempt
  slept : length t.sleeps + 1 ≡ attempt
  fresh : t.successes_total ≡ 0

abbrev Accounts : Result RelayOutcome × Trace → Type 0
Accounts (ok o, t) = IsAccounted o t
Accounts (err e, t) = Unit

module _ (p : Platform) (net : Network) where
  round-Accounts :
      (left attempt : ℕ) (s : Progress) (t : Trace)
      → attempt + suc left ≡ 5
      → IsReady attempt t
      → (IsRetryable (net.post attempt) → Accounts (attempt_loop p net (suc left) attempt s t))
      → Accounts (attempt_loop p net (suc left) attempt s t)
  round-Accounts left attempt s t five ready again = elim (Reply-cases (net.post attempt)) [
    | inl go ↦ again go
    | inr (inl (c, final, good)) ↦ rw (loop-delivered p net left attempt c s t final good) (record {
      attempted = refl;
      counted = omega arith;
      some_attempt = omega arith;
      few_attempts = omega arith;
      observed = omega arith;
      delays_between = omega arith;
      ending = inl (refl, omega arith, refl, (c, refl, good));
    })
    | inr (inr (x, final)) ↦ rw (loop-thrown p net left attempt s t x final) tt
  ]

  loop-Accounts :
      (left attempt : ℕ) (s : Progress) (t : Trace)
      → attempt + suc left ≡ 5
      → IsReady attempt t
      → Accounts (attempt_loop p net (suc left) attempt s t)
  loop-Accounts zero attempt s t five ready = round-Accounts zero attempt s t five ready λ go.
      let four : attempt ≡ 4 = omega arith in
      rw four (
        rw (loop-last p net s t (rw four at go)) (record {
          attempted = refl;
          counted = omega arith;
          some_attempt = omega arith;
          few_attempts = omega arith;
          observed = omega arith;
          delays_between = omega arith;
          ending = inr (
            refl,
            omega arith,
            refl,
            refl,
            (reason_of (net.post 4), refl, reason_of-IsIn (net.post 4) (rw four at go)),
          );
        }))
  loop-Accounts (suc left) attempt s t five ready =
      round-Accounts (suc left) attempt s t five ready λ go.
        rw (loop-retry p net (suc left) attempt s t go (omega arith)) (
          loop-Accounts left (attempt + 1) _ _ (omega arith) (record {
            counted = omega arith;
            observed = omega arith;
            slept =
                omega (arith, length-append {0} t.sleeps (delay attempt (net.jitter attempt) ∷ []));
            fresh = ready.fresh;
          }))

-- The outcome as it is returned and stored.
pub record IsOutcomeOf (r : RelayResult) (t : Trace) : Type 0 where
  pub outcome : RelayOutcome
  pub shown : r ≡ to_dict outcome
  pub accounted : (IsSkip outcome × (t ≡ no_trace)) ⊎ IsAccounted outcome t

module _ (p : Platform) (net : Network) where
  IsReady-at_start : IsReady 1 no_trace
  IsReady-at_start = omega arith

  abbrev Shows : Result RelayResult × Trace → Type 0
  Shows (ok r, t) = IsOutcomeOf r t
  Shows (err e, t) = Unit

  dict_of-Shows : (x : Result RelayOutcome × Trace) → Accounts x → Shows (dict_of x)
  dict_of-Shows (ok o, t) h = record { outcome = o; shown = refl; accounted = inr h }
  dict_of-Shows (err e, t) h = tt

  send_event-Shows :
      (client : Bool) (r : Result (Option RelayOutcome))
      → Skips r
      → Shows (send_event p net client r)
  unfolding send_event
  send_event-Shows client (err e) h = tt
  send_event-Shows client (ok (some o)) h = record {
    outcome = o;
    shown = refl;
    accounted = inl (h, refl);
  }
  send_event-Shows false (ok none) h = tt
  send_event-Shows true (ok none) h =
      dict_of-Shows _ (loop-Accounts p net 3 1 at_start no_trace (omega arith) IsReady-at_start)

  relay_event-Shows :
      (client : Bool) (url : String) (hosts : List String) (allow : Bool)
      → Shows (relay_event p net client url hosts allow)
  unfolding relay_event
  relay_event-Shows client url hosts allow =
      send_event-Shows client (preflight_target p url hosts allow)
        (preflight_target-Skips p url hosts allow)

  -- A result that `relay_event` returns is a skip by the preflight, after no attempt at all, or
  -- it is delivered or given up as the attempts, the counters and the delays say.
  pub relay_event-IsOutcomeOf :
      (client : Bool) (url : String) (hosts : List String) (allow : Bool) (r : RelayResult)
      (t : Trace)
      → relay_event p net client url hosts allow ≡ (ok r, t)
      → IsOutcomeOf r t
  relay_event-IsOutcomeOf client url hosts allow r t e =
      subst Shows e (relay_event-Shows client url hosts allow)

  send_event-sends :
      (client : Bool) (r : Result (Option RelayOutcome))
      → 1 ≤ (send_event p net client r).1.attempts_total
      → (client ≡ true) × (r ≡ ok none)
  unfolding send_event
  send_event-sends client (err e) h = absurd (omega arith)
  send_event-sends client (ok (some o)) h = absurd (omega arith)
  send_event-sends false (ok none) h = absurd (omega arith)
  send_event-sends true (ok none) h = (refl, refl)

  -- A request leaves the process only if the client is there and the target is cleared: its scheme,
  -- its host and its addresses have passed the policy.
  pub relay_event-sends :
      (client : Bool) (url : String) (hosts : List String) (allow : Bool)
      → 1 ≤ (relay_event p net client url hosts allow).1.attempts_total
      → (client ≡ true) × IsCleared p url hosts allow
  unfolding relay_event
  relay_event-sends client url hosts allow h =
      let (there, passed) = send_event-sends client (preflight_target p url hosts allow) h in
      (there, (preflight_target-pass_iff p url hosts allow).0 passed)
