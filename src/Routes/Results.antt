-- ===== src/Routes/Results.antt =====
-- What a client reads of a relay result that has been stored.
use webhook_relay_api.Prelude.{◌≡◌, some, arith}
use webhook_relay_api.Datetime.{as_utc}
use webhook_relay_api.Event.{Event}
use webhook_relay_api.Relay.{RelayResult}
use webhook_relay_api.Routes.{event_relay_result, apply_relay_result}

-- A stored relay result is read back as it was, with its time in UTC.
pub event_relay_result-apply :
    (event : Event) (r : RelayResult)
    → event_relay_result (apply_relay_result event r)
      ≡ some (record r { last_attempt_at = as_utc r.last_attempt_at })
unfolding event_relay_result apply_relay_result
event_relay_result-apply event r = ground arith
