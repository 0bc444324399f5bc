-- ===== src/Routes/Intake.antt =====
-- `create_event` (app/api/routes.py): POST /webhooks/{source}. After the body has been read the
-- handler does not wait, so no other task of the process runs between its steps.
pub mod Constraints
pub mod Endings
pub mod Errors
pub mod Replay
pub mod Stored
use webhook_relay_api.Prelude.{
  ◌+◌, String, Bool, true, false, not, ◌&&◌, Option, none, some, List, [], ◌∷◌, ◌==◌, if◌then◌else◌,
  truthy, truthy?,
}
use webhook_relay_api.Result.{integrity_error, other_error, Result, ok, err}
use webhook_relay_api.Platform.{Platform}
use webhook_relay_api.Config.{Settings}
use webhook_relay_api.Event.{Event, sql_eq}
use webhook_relay_api.Database.{Database}
use webhook_relay_api.App.{Metrics, App, Exec, pure, raise, lift, get_db, ◌>>=◌, ◌>>◌}
use webhook_relay_api.Relay.Dispatch.{enqueue_relay_job, relay_queue_has_capacity}
use webhook_relay_api.Routes.{
  CreateWebhookResponse, create_response, apply_relay_result, relay_update_values,
  queue_full_relay_result,
}
use webhook_relay_api.Routes.Request.{
  Call, check_request, new_event, queue_full_columns, scheduled_columns, relay_job,
}

-- `EVENTS_RECEIVED_TOTAL.labels(source=source).inc()`
abbrev pub count_received : String → Metrics → Metrics
count_received source m = record m {
  events_received = λ s. if s == source then m.events_received s + 1 else m.events_received s;
}

-- `scalar_one_or_none()`
abbrev pub one_or_none : List Event → Result (Option Event)
one_or_none [] = ok none
one_or_none (e ∷ []) = ok (some e)
one_or_none (e ∷ f ∷ more) = err (other_error "MultipleResultsFound")

-- `and_(Event.source == source, Event.idempotency_key == idempotency_key)`
abbrev pub same_key : String → Option String → Event → Bool
same_key source key row = row.source == source && sql_eq row.idempotency_key key

module _ {Db : Type 0} (db : Database Db) where
  -- `db.add(event)` and the commit.
  abbrev pub add_event : Event → Db → Result (Unit {0} × Db)
  add_event event d = elim (db.insert event d) [
    | none ↦ err integrity_error
    | some d' ↦ ok (tt, d')
  ]

  abbrev pub with_state : Db → Result (Option Event) → Result (Option Event × Db)
  with_state d (ok found) = ok (found, d)
  with_state d (err e) = err e

  abbrev pub find_event : String → Option String → Db → Result (Option Event × Db)
  find_event source key d = with_state d (one_or_none (db.select (same_key source key) d))

  -- `if settings.target_url:` before the insert: the relay columns, and `queue_pre_full`.
  unfoldable pub mark_relay : Settings → Event → Exec (App Db) (Event × Bool)
  mark_relay settings event =
      if truthy settings.target_url
      then (do
        free ← relay_queue_has_capacity
        pure (
            if free
            then (record event { relay = scheduled_columns }, false)
            else (record event { relay = queue_full_columns }, true)))
      else pure (event, false)

  -- `if existing is None: raise`
  abbrev pub or_raise : Option Event → Exec (App Db) (Option Event)
  or_raise none = raise integrity_error
  or_raise (some existing) = pure (some existing)

  -- `except IntegrityError:`; the result is the event that is there already, if it is a replay.
  unfoldable pub after_insert : Event → Result (Unit {0}) → Exec (App Db) (Option Event)
  after_insert event (ok _) = pure none
  after_insert event (err integrity_error) =
      if truthy? event.idempotency_key
      then (do found ← get_db (find_event event.source event.idempotency_key); or_raise found)
      else raise integrity_error
  after_insert event (err e) = raise e

  unfoldable pub store_event : Event → Exec (App Db) (Option Event)
  store_event event app = let (r, app') = get_db (add_event event) app in after_insert event r app'

  -- `if not relay.enqueue_relay_job(relay_job):`
  unfoldable pub after_enqueue : Event → Bool → Exec (App Db) Event
  after_enqueue event true = pure event
  after_enqueue event false = do
    get_db (λ d. ok (tt, db.update_relay event.id (relay_update_values queue_full_relay_result) d))
    pure (apply_relay_result event queue_full_relay_result)

  unfoldable pub enqueue_event : Platform → Settings → Event → Bool → Exec (App Db) Event
  enqueue_event p settings event queue_pre_full =
      if truthy settings.target_url && not queue_pre_full
      then (do
        accepted ← enqueue_relay_job (relay_job p settings event)
        after_enqueue event accepted)
      else pure event

  abbrev pub count_event : Event → Exec (App Db) (Unit {0})
  count_event event app = (ok tt, record app { metrics = count_received event.source app.metrics })

  -- The rest of the handler, given what the insert found.
  unfoldable pub respond :
      Platform → Settings → Event → Bool → Option Event → Exec (App Db) CreateWebhookResponse
  respond p settings event queue_pre_full (some existing) = pure (create_response existing)
  respond p settings event queue_pre_full none = do
    count_event event
    final ← enqueue_event p settings event queue_pre_full
    pure (create_response final)

  unfoldable pub create_event : Platform → Settings → Call → Exec (App Db) CreateWebhookResponse
  create_event p settings call = do
    payload ← lift (check_request p settings call)
    (event, queue_pre_full) ← mark_relay settings (new_event call payload)
    existing ← store_event event
    respond p settings event queue_pre_full existing
