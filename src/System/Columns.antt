-- ===== src/System/Columns.antt =====
-- What the relay columns of a row can be.
use webhook_relay_api.Prelude.{
  String, List, [], ◌∷◌, IsIn, ℕ, ◌≤◌, ◌≡◌, refl, sym, subst, inl, inr, true, Option, some, is_some,
  truthy, Bool-cases,
}
use webhook_relay_api.Datetime.{Datetime}
use webhook_relay_api.Config.{Settings}
use webhook_relay_api.Event.{RelayColumns, no_relay}
use webhook_relay_api.Database.{stored_columns}
use webhook_relay_api.App.{Dispatcher}
use webhook_relay_api.Relay.{RelayResult, RelayOutcome, to_dict}
use webhook_relay_api.Relay.Attempts.{Trace, is_2xx}
use webhook_relay_api.Relay.Outcome.{IsOutcomeOf, IsAccounted, failure_reasons}
use webhook_relay_api.Relay.Preflight.Skips.{IsSkip}
use webhook_relay_api.Routes.{relay_update_values}
use webhook_relay_api.Routes.Request.{scheduled_columns}
use webhook_relay_api.Routes.Intake.Stored.{planned_columns, pre_full}

-- What a relay that is not tried gives as its reason.
abbrev pub skip_reasons : List String
skip_reasons =
    "relay_queue_full" ∷ "unsupported_scheme" ∷ "invalid_target_url" ∷ "host_not_allowed"
    ∷ "blocked_ip" ∷ "dns_error" ∷ []

-- Nothing is relayed; the job is queued or runs; the relay was not tried, by the full queue or by
-- the preflight; it succeeded, after one to four attempts, with a 2xx status; it failed, after four
-- attempts, with an error.
pub data IsConsistent (u : RelayColumns) : Type 0 where
  unrelayed : u ≡ no_relay → IsConsistent u
  awaiting : u ≡ scheduled_columns → IsConsistent u
  skipped :
      u.relay_status ≡ some "skipped"
      → u.relay_attempted ≡ 0
      → u.relay_success ≡ 0
      → u.relay_attempts ≡ 0
      → (reason : String) → u.relay_reason ≡ some reason
      → IsIn reason skip_reasons
      → IsConsistent u
  succeeded :
      (c : ℕ)
      → u.relay_status ≡ some "success"
      → u.relay_attempted ≡ 1
      → u.relay_success ≡ 1
      → 1 ≤ u.relay_attempts
      → u.relay_attempts ≤ 4
      → u.relay_last_status_code ≡ some c
      → is_2xx c ≡ true
      → u.relay_reason ≡ some "success"
      → IsConsistent u
  failed :
      u.relay_status ≡ some "failed"
      → u.relay_attempted ≡ 1
      → u.relay_success ≡ 0
      → u.relay_attempts ≡ 4
      → is_some u.relay_last_error ≡ true
      → (reason : String) → u.relay_reason ≡ some reason
      → IsIn reason failure_reasons
      → IsConsistent u

module _ (store_time : Datetime → Datetime) where
  outcome-IsConsistent :
      (o : RelayOutcome) (t : Trace)
      → IsAccounted o t
      → IsConsistent (stored_columns store_time (relay_update_values (to_dict o)))
  unfolding relay_update_values
  outcome-IsConsistent o t h = elim h.ending [
    | inl (good, _, why, (c, code, final)) ↦
        succeeded c (rw h.attempted (rw good refl)) (rw h.attempted refl) (rw good refl)
          h.some_attempt h.few_attempts code final why
    | inr (bad, _, four, error, (reason, why, known)) ↦
        failed (rw h.attempted (rw bad refl)) (rw h.attempted refl) (rw bad refl) four error reason
          why known
  ]

  skip-IsConsistent :
      (o : RelayOutcome)
      → IsSkip o
      → IsConsistent (stored_columns store_time (relay_update_values (to_dict o)))
  unfolding relay_update_values
  skip-IsConsistent o (reason, error, same, known) =
      rw same (skipped refl refl refl refl reason refl (inr known))

  -- What a relay writes.
  pub result-IsConsistent :
      (r : RelayResult) (t : Trace)
      → IsOutcomeOf r t
      → IsConsistent (stored_columns store_time (relay_update_values r))
  result-IsConsistent r t h =
      let columns = λ (x : RelayResult). stored_columns store_time (relay_update_values x) in
      subst (λ x. IsConsistent (columns x)) (sym h.shown)
        (elim h.accounted [
          | inl (skip, _) ↦ skip-IsConsistent h.outcome skip
          | inr accounted ↦ outcome-IsConsistent h.outcome t accounted
        ])

  -- What a new row holds.
  pub planned-IsConsistent :
      (settings : Settings) (q : Option Dispatcher)
      → IsConsistent (stored_columns store_time (planned_columns settings q))
  planned-IsConsistent settings q = elim (Bool-cases (truthy settings.target_url)) [
    | inr off ↦ rw off (unrelayed refl)
    | inl target ↦ elim (Bool-cases (pre_full settings q)) [
      | inl full ↦
          rw target (rw full (skipped refl refl refl refl "relay_queue_full" refl (inl refl)))
      | inr room ↦ rw target (rw room (awaiting refl))
    ]
  ]
