-- ===== src/Examples/Running.antt =====
-- The process after its startup and one request, and the errors of a request, at concrete inputs.
use webhook_relay_api.Prelude.{
  length, ◌≤◌, ◌+◌, String, ◌≡◌, refl, sym, ap, ◌∙◌, subst, inl, inr, false, none, some, List, [],
  any, All, IsIn,
}
use webhook_relay_api.Result.{ok}
use webhook_relay_api.Json.{end}
use webhook_relay_api.Event.{Event, clashes}
use webhook_relay_api.Event.Unique.{IsUnique}
use webhook_relay_api.Database.{stored}
use webhook_relay_api.Database.Table.{table, drop_offset}
use webhook_relay_api.App.{App}
use webhook_relay_api.Relay.Dispatch.{
  new_dispatcher, put_job, startup_relay_dispatcher, startup_http_client, idle_workers,
}
use webhook_relay_api.Routes.Request.{check_request, relay_job}
use webhook_relay_api.Routes.Intake.{create_event}
use webhook_relay_api.Routes.Intake.Stored.{planned}
use webhook_relay_api.Main.{startup}
use webhook_relay_api.Main.Serving.{scheduled, startup_serves}
use webhook_relay_api.System.{
  turns_left, Turn, take_job, turned, Reach, booted, request, Turns, stay, next, same_state,
  then_request,
}
use webhook_relay_api.System.Pending.{IsPending, IsScheduled}
use webhook_relay_api.System.Reached.{reach-IsPending}
use webhook_relay_api.System.Drain.{Turns-turns_left}
use webhook_relay_api.System.Columns.{IsConsistent, unrelayed}
use webhook_relay_api.System.Statuses.{reach-IsConsistent}
use webhook_relay_api.System.Jobs.{count_jobs}
use webhook_relay_api.System.Refined.Spec.{Follows}
use webhook_relay_api.System.Bounded.{reach-IsBounded}
use webhook_relay_api.System.Delivered.{reach-relayed_times}
use webhook_relay_api.System.Final.{reach-final}
use webhook_relay_api.System.Refined.{reach-refines}
use webhook_relay_api.System.Once.{IsFresh, reach-IsOnce}
use webhook_relay_api.Migration.Widths.{RelayFits, reach-RelayFits}
use webhook_relay_api.Routes.{create_response}
use webhook_relay_api.System.Retried.{retry_replays}
use webhook_relay_api.System.Quiet.{drains, AnsweredBy}
use webhook_relay_api.Examples.Codec.{json_loads}
use webhook_relay_api.Security.{verify_webhook_signature, enforce_body_size_limit}
use webhook_relay_api.Examples.World.{platform, settings, call, row, unknown, app, idle, down}

abbrev stopped : App (List Event)
stopped = record (app unknown) { session = false; client = false; dispatcher = none }

allowed : check_request platform settings call ≡ ok end
unfolding check_request enforce_body_size_limit verify_webhook_signature json_loads
allowed = refl

abbrev first_event : Event
first_event = scheduled table platform settings call end stopped

first_event_fresh : any (clashes first_event) unknown ≡ false
unfolding clashes
first_event_fresh = refl

unknown-IsUnique : IsUnique unknown
unfolding clashes
unknown-IsUnique = (refl, (refl, tt))

none-IsScheduled : All (λ row. ¬ IsScheduled row) unknown
none-IsScheduled = (λ h. cc, (λ h. cc, tt))

abbrev serving : App (List Event)
serving = (create_event table platform settings call (startup settings stopped)).1

abbrev just_started : Reach table platform settings stopped [] (startup settings stopped)
just_started = booted refl

abbrev reached : Reach table platform settings stopped [] serving
reached = request call just_started

first_event_there : IsIn (stored drop_offset first_event) serving.db
unfolding table
first_event_there =
    let (d', rows, run) =
      startup_serves table platform settings call end stopped refl refl allowed first_event_fresh in
    subst (IsIn (stored drop_offset first_event)) (sym (ap (λ x. x.1.db) run ∙ rows))
      (inr (inr (inl refl)))

reach-IsPending_example : IsPending "e9" serving.dispatcher []
unfolding table
reach-IsPending_example =
    reach-IsPending table platform settings (stored drop_offset first_event) reached
      unknown-IsUnique none-IsScheduled first_event_there refl

reach-IsConsistent_example : IsConsistent (stored drop_offset first_event).relay
unfolding table
reach-IsConsistent_example =
    reach-IsConsistent table platform settings (stored drop_offset first_event) reached
      unknown-IsUnique none-IsScheduled (unrelayed refl, (unrelayed refl, tt)) first_event_there

reach-RelayFits_example : RelayFits (stored drop_offset first_event).relay
unfolding table
reach-RelayFits_example =
    reach-RelayFits table platform settings (stored drop_offset first_event) reached
      unknown-IsUnique none-IsScheduled (unrelayed refl, (unrelayed refl, tt)) first_event_there

reached-IsFresh : IsFresh table platform settings reached
unfolding startup startup_relay_dispatcher startup_http_client idle_workers
reached-IsFresh = (refl, tt)

reach-IsOnce_example : count_jobs "e9" serving.dispatcher ≤ 1
unfolding table
reach-IsOnce_example =
    reach-IsOnce table platform settings (stored drop_offset first_event) reached reached-IsFresh
      unknown-IsUnique none-IsScheduled first_event_there

reach-refines_example : Follows table platform settings reached
unfolding table
reach-refines_example =
    reach-refines table platform settings reached reached-IsFresh unknown-IsUnique none-IsScheduled

-- The request again, with another id, at the state after it.
allowed_again : check_request platform settings (record call { fresh_event_id = "e10" }) ≡ ok end
unfolding check_request enforce_body_size_limit verify_webhook_signature json_loads
allowed_again = refl

call-clashes :
    any (clashes (planned table platform settings call end (startup settings stopped))) unknown
    ≡ false
unfolding clashes
call-clashes = refl

retry_replays_example :
    (existing : Event) × IsIn existing serving.db
    × (existing.id ≡ "e9")
    × (existing.source ≡ "shop")
    × (existing.idempotency_key ≡ some "k1")
    × (create_event table platform settings (record call { fresh_event_id = "e10" }) serving
        ≡ (ok (create_response existing), serving))
unfolding table startup startup_relay_dispatcher startup_http_client
retry_replays_example =
    retry_replays table platform settings call (record call { fresh_event_id = "e10" }) end end "k1"
      just_started unknown-IsUnique none-IsScheduled allowed refl refl call-clashes same_state
      allowed_again refl refl

drains_example :
    (gone : List String) × (quiet : App (List Event)) × (turns : Turns table platform
      (turns_left serving.dispatcher)
      []
      serving
      gone
      quiet)
    × AnsweredBy table platform (λ now. down) turns
    × (turns_left quiet.dispatcher ≡ 0)
    × ((row : Event) → IsIn row quiet.db → IsScheduled row → IsIn row.id gone)
unfolding table
drains_example =
    drains table platform settings (λ now. down) stopped unknown-IsUnique none-IsScheduled []
      serving reached

-- A worker takes the only job of the queue.
abbrev waiting : App (List Event)
waiting = record (app unknown) {
  dispatcher = some (put_job (relay_job platform settings first_event) idle);
}

abbrev taking : Turn table platform waiting
taking = take_job _ (relay_job platform settings first_event) [] [] [] refl refl refl

Turns-turns_left_example : 1 + turns_left (turned table platform taking).dispatcher ≡ 2
Turns-turns_left_example = Turns-turns_left table platform (next taking (stay [] waiting))

-- A row that was there before the startup, and a request after it.
first_row_there : table.get "e1" (startup settings stopped).db ≡ some (row "e1" 10 (some "k0"))
unfolding table startup startup_relay_dispatcher startup_http_client
first_row_there = refl

reach-final_example : table.get "e1" serving.db ≡ some (row "e1" 10 (some "k0"))
unfolding table
reach-final_example =
    reach-final table platform settings "e1" (row "e1" 10 (some "k0")) just_started
      (then_request call same_state) reached-IsFresh unknown-IsUnique none-IsScheduled
      first_row_there (λ h. cc)

serving_dispatcher :
    serving.dispatcher
    ≡ some (put_job (relay_job platform settings first_event) (new_dispatcher 1 2))
unfolding table
serving_dispatcher =
    let (d', rows, run) =
      startup_serves table platform settings call end stopped refl refl allowed first_event_fresh in
    ap (λ x. x.1.dispatcher) run

reach-IsBounded_example : (1 ≤ 2) × (length (idle_workers 1) ≡ 1)
unfolding table
reach-IsBounded_example =
    reach-IsBounded table platform settings
      (put_job (relay_job platform settings first_event) (new_dispatcher 1 2)) reached
      unknown-IsUnique none-IsScheduled serving_dispatcher

reach-relayed_times_example : 0 + count_jobs "e9" serving.dispatcher ≤ 1
unfolding table
reach-relayed_times_example =
    reach-relayed_times table platform settings "e9" reached unknown-IsUnique none-IsScheduled
