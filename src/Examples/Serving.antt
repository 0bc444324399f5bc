-- ===== src/Examples/Serving.antt =====
-- Requests after startup and shutdown, and the headers that are kept, at concrete inputs.
use webhook_relay_api.Prelude.{true, inr, ◌≡◌, refl, false, none, some, List, [], ◌∷◌, ◌++◌, any}
use webhook_relay_api.Datetime.{aware, utc}
use webhook_relay_api.Relay.{RelayResult, to_dict}
use webhook_relay_api.Relay.Attempts.{Trace, relay_event, relay_runs}
use webhook_relay_api.Relay.Attempts.Rounds.{delivered}
use webhook_relay_api.Routes.Intake.Stored.{planned}
use webhook_relay_api.Routes.Listing.{get_event}
use webhook_relay_api.Routes.Background.{relay_and_persist}
use webhook_relay_api.Routes.Background.Settled.{create_event_settles}
use webhook_relay_api.Result.{ok, err, runtime_error}
use webhook_relay_api.Json.{end}
use webhook_relay_api.Security.{verify_webhook_signature, enforce_body_size_limit}
use webhook_relay_api.Event.{Event, clashes}
use webhook_relay_api.Database.{stored}
use webhook_relay_api.Database.Table.{table, drop_offset}
use webhook_relay_api.App.{App}
use webhook_relay_api.Relay.Dispatch.{put_job, new_dispatcher}
use webhook_relay_api.Routes.{EventItem, create_response}
use webhook_relay_api.Routes.SafeHeaders.{get}
use webhook_relay_api.Routes.Request.{check_request, headers_of, relay_job}
use webhook_relay_api.Routes.Request.Kept.{get-headers_of}
use webhook_relay_api.Routes.Intake.{create_event, count_received}
use webhook_relay_api.Main.{startup, shutdown}
use webhook_relay_api.Main.Serving.{scheduled, startup_serves, shutdown_refuses}
use webhook_relay_api.Examples.Codec.{json_loads}
use webhook_relay_api.Examples.World.{
  platform, settings, call, unknown, app, no_metrics, recovering,
}

abbrev stopped : App (List Event)
stopped = record (app unknown) { session = false; client = false; dispatcher = none }

allowed : check_request platform settings call ≡ ok end
unfolding check_request enforce_body_size_limit verify_webhook_signature json_loads
allowed = refl

abbrev first_event : Event
first_event = scheduled table platform settings call end stopped

first_event_fresh : any (clashes first_event) unknown ≡ false
unfolding clashes
first_event_fresh = refl

first_served :
    (d' : List Event) × (d' ≡ unknown ++ stored drop_offset first_event ∷ [])
    × (create_event table platform settings call (startup settings stopped) ≡ (
      ok (create_response first_event),
      record (app unknown) {
        db = d';
        dispatcher = some (put_job (relay_job platform settings first_event) (new_dispatcher 1 2));
        metrics = count_received "shop" no_metrics;
      },
    ))
unfolding table
first_served =
    startup_serves table platform settings call end stopped refl refl allowed first_event_fresh

last_refused :
    create_event table platform settings call (shutdown (app unknown))
    ≡ (err (runtime_error "Relay dispatcher is not initialized"), shutdown (app unknown))
last_refused = shutdown_refuses table platform settings call end (app unknown) refl allowed

kept_id : get "x-request-id" (headers_of call) ≡ some "r1"
kept_id = get-headers_of call "x-request-id"

-- The request, and then its job over a network that recovers.
abbrev result : RelayResult
result = to_dict (delivered 204 3 (aware 3 utc))

abbrev trace : Trace
trace = record {
  attempts_total = 3;
  successes_total = 1;
  latency_samples = 3;
  sleeps = 200000 ∷ 400000 ∷ [];
}

relayed_in_three :
    relay_event platform recovering true "example.org" ("example.org" ∷ []) false
    ≡ (ok result, trace)
unfolding relay_runs
relayed_in_three = refl

abbrev queued_event : Event
queued_event = planned table platform settings call end (app unknown)

queued_event_fresh : any (clashes queued_event) unknown ≡ false
unfolding clashes
queued_event_fresh = refl

create_event_settles_example :
    (after : App (List Event)) × (item : EventItem) × (relay_and_persist table platform recovering
        (λ later. later)
        (relay_job platform settings queued_event)
        (create_event table platform settings call (app unknown)).1
      ≡ (ok tt, after))
    × (get_event table "e9" after ≡ (ok item, after))
    × (item.event_id ≡ "e9")
    × (item.relay ≡ some result)
unfolding table
create_event_settles_example =
    create_event_settles table platform recovering settings call end (app unknown) result trace refl
      tt allowed queued_event_fresh relayed_in_three (inr (3, refl))
