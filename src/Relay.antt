-- ===== src/Relay.antt =====
-- app/services/relay.py: the outcome of a relay, and its parts.
pub mod Preflight
pub mod Attempts
pub mod Outcome
pub mod Dispatch
use webhook_relay_api.Prelude.{ℕ, String, Bool, false, Option, none, some}
use webhook_relay_api.Datetime.{Datetime}

-- `RelayOutcome`
pub record RelayOutcome : Type 0 where
  pub attempted : Bool
  pub success : Bool
  pub reason : Option String
  pub status_code : Option ℕ
  pub attempts : ℕ
  pub last_error : Option String
  pub last_attempt_at : Option Datetime

-- The dict that `to_dict` returns; also the schema `RelayResult` of app/schemas/api.py.
pub record RelayResult : Type 0 where
  pub attempted : Bool
  pub success : Bool
  pub reason : Option String
  pub status_code : Option ℕ
  pub attempts : ℕ
  pub last_error : Option String
  pub last_attempt_at : Option Datetime

abbrev pub to_dict : RelayOutcome → RelayResult
to_dict o = record {
  attempted = o.attempted;
  success = o.success;
  reason = o.reason;
  status_code = o.status_code;
  attempts = o.attempts;
  last_error = o.last_error;
  last_attempt_at = o.last_attempt_at;
}

-- `RelayOutcome(attempted=False, success=False, reason=reason, last_error=error)`
abbrev pub skipped : String → Option String → RelayOutcome
skipped reason error = record {
  attempted = false;
  success = false;
  reason = some reason;
  status_code = none;
  attempts = 0;
  last_error = error;
  last_attempt_at = none;
}
