-- ===== src/Examples/Intake.antt =====
-- `create_event` at concrete requests.
use webhook_relay_api.Prelude.{
  String, ◌≡◌, refl, false, none, some, List, [], ◌∷◌, ◌++◌, inl, inr, any, arith, Option, ◌==◌,
  if◌then◌else◌, ◌↔◌,
}
use webhook_relay_api.Result.{ok, err, unicode_decode_error, integrity_error, http_exception}
use webhook_relay_api.Json.{end}
use webhook_relay_api.Security.{verify_webhook_signature, enforce_body_size_limit}
use webhook_relay_api.Event.{Event, clashes}
use webhook_relay_api.Event.Unique.{IsUnique}
use webhook_relay_api.Database.{stored}
use webhook_relay_api.Database.Table.{table, drop_offset}
use webhook_relay_api.Routes.{create_response}
use webhook_relay_api.Routes.Request.{Call, check_request}
use webhook_relay_api.Routes.Request.Checks.{
  IsAccepted, check_request-ok_iff, check_request_bad_utf8,
}
use webhook_relay_api.Routes.Intake.{create_event, count_received}
use webhook_relay_api.Routes.Intake.Stored.{planned, queued, create_event-stores}
use webhook_relay_api.Routes.Intake.Replay.{create_event-replays, create_event_empty_key}
use webhook_relay_api.Routes.Intake.Constraints.{IsSound, create_event-IsSound}
use webhook_relay_api.Examples.World.{
  platform, settings, call, row, known, unknown, app, idle, no_metrics,
}
use webhook_relay_api.Examples.Codec.{json_loads}
use webhook_relay_api.Prelude.Int.{pos}

accepted : check_request platform settings call ≡ ok end
unfolding check_request enforce_body_size_limit verify_webhook_signature json_loads
accepted = refl

known-IsUnique : IsUnique known
unfolding clashes
known-IsUnique = (refl, (refl, tt))

-- The event that the request makes, among rows that do not have its key.
abbrev new_row : Event
new_row = planned table platform settings call end (app unknown)

new_row_fresh : any (clashes new_row) unknown ≡ false
unfolding clashes
new_row_fresh = refl

create_event-stores_example :
    (d' : List Event) × (d' ≡ unknown ++ stored drop_offset new_row ∷ [])
    × (create_event table platform settings call (app unknown) ≡ (
      ok (create_response new_row),
      record (app unknown) {
        db = d';
        dispatcher = queued platform settings new_row (some idle);
        metrics = count_received "shop" no_metrics;
      },
    ))
unfolding table
create_event-stores_example =
    create_event-stores table platform settings call end (app unknown) refl tt accepted
      new_row_fresh

create_event-replays_example :
    create_event table platform settings call (app known)
    ≡ (ok (create_response (row "e1" 10 (some "k1"))), app known)
unfolding table
create_event-replays_example =
    create_event-replays table platform settings call end (app known) "k1" (row "e1" 10 (some "k1"))
      refl tt accepted refl refl known-IsUnique (inl refl) refl refl

IsSound-after_request : IsSound table (create_event table platform settings call (app known)).1
unfolding table
IsSound-after_request = create_event-IsSound table platform settings call (app known) known-IsUnique

-- A request with an empty key, and a row with one.
abbrev empty_header : String → Option String
empty_header name =
    if name == "X-Webhook-Signature"
    then some " abc "
    else if name == "Idempotency-Key"
    then some ""
    else none

empty_accepted : check_request platform settings (record call { header = empty_header }) ≡ ok end
unfolding check_request enforce_body_size_limit verify_webhook_signature json_loads
empty_accepted = refl

create_event_empty_key_example :
    create_event table platform settings
      (record call { header = empty_header })
      (app (row "e1" 10 (some "") ∷ []))
    ≡ (err integrity_error, app (row "e1" 10 (some "") ∷ []))
unfolding table
create_event_empty_key_example =
    create_event_empty_key table platform settings (record call { header = empty_header }) end
      (app (row "e1" 10 (some "") ∷ [])) (row "e1" 10 (some "")) refl tt empty_accepted refl
      (inl refl) refl refl

check_request-ok_iff_example :
    (check_request platform settings call ≡ ok end) ↔ IsAccepted platform settings call end
check_request-ok_iff_example = check_request-ok_iff platform settings call end

-- A request whose body no decoder of UTF-8 accepts: a number that is no code point.
abbrev bad_call : Call
bad_call = record call { body = 55296 ∷ [] }

bad_call_signed : verify_webhook_signature platform (55296 ∷ []) (some " abc ") "abc" ≡ ok tt
unfolding verify_webhook_signature
bad_call_signed = refl

bad_bytes_raise : check_request platform settings bad_call ≡ err unicode_decode_error
bad_bytes_raise =
    check_request_bad_utf8 platform settings bad_call (inr (inl refl)) (omega arith) bad_call_signed
      refl

-- The answers of the branches that no example above reaches.
refusals :
    (check_request platform settings (record call { source = "other" })
      ≡ err (http_exception 404 "Not found"))
    × (check_request platform settings (record call { body = [] })
        ≡ err (http_exception 422 "Invalid JSON body"))
    × (check_request platform (record settings { max_body_bytes = pos 1 }) call
        ≡ err (http_exception 413 "Request body too large"))
    × (check_request platform settings (record call { header = λ name. none })
        ≡ err (http_exception 401 "Missing webhook signature"))
unfolding check_request enforce_body_size_limit verify_webhook_signature json_loads
refusals = (refl, refl, refl, refl)
