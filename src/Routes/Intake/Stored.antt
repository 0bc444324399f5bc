-- ===== src/Routes/Intake/Stored.antt =====
-- What `create_event` stores and answers for a new event.
use webhook_relay_api.Prelude.{
  ◌≡◌, refl, Bool, true, false, Option, none, some, [], ◌∷◌, ◌++◌, arith, truthy, any, length, ltb,
  if◌then◌else◌, not, ◌&&◌,
}
use webhook_relay_api.Result.{ok}
use webhook_relay_api.Json.{Fields}
use webhook_relay_api.Platform.{Platform}
use webhook_relay_api.Config.{Settings}
use webhook_relay_api.Event.{Event, RelayColumns, no_relay, clashes}
use webhook_relay_api.Database.{Database, stored}
use webhook_relay_api.App.{App, Dispatcher, get_db}
use webhook_relay_api.Relay.Dispatch.{enqueue_relay_job, relay_queue_has_capacity}
use webhook_relay_api.Routes.{create_response}
use webhook_relay_api.Routes.Request.{
  Call, check_request, new_event, queue_full_columns, scheduled_columns, relay_job,
}
use webhook_relay_api.Routes.Intake.{
  count_received, mark_relay, store_event, after_insert, respond, enqueue_event, after_enqueue,
  create_event,
}

-- Whether there is no room for a job, where one is wanted.
abbrev pub pre_full : Settings → Option Dispatcher → Bool
pre_full settings none = false
pre_full settings (some d) = truthy settings.target_url && not (ltb (length d.queue) d.maxsize)

-- The relay columns of a new event.
abbrev pub planned_columns : Settings → Option Dispatcher → RelayColumns
planned_columns settings q =
    if not (truthy settings.target_url)
    then no_relay
    else if pre_full settings q
    then queue_full_columns
    else scheduled_columns

-- The queue afterwards: one more job, if the target is set and there is room.
abbrev pub queued : Platform → Settings → Event → Option Dispatcher → Option Dispatcher
queued p settings event none = none
queued p settings event (some d) =
    if truthy settings.target_url && ltb (length d.queue) d.maxsize
    then some (record d { queue = d.queue ++ relay_job p settings event ∷ [] })
    else some d

-- The dispatcher is there, if it is needed.
abbrev pub IsRunning : Settings → Option Dispatcher → Type 0
IsRunning settings none = truthy settings.target_url ≡ false
IsRunning settings (some d) = Unit

module _ {Db : Type 0} (db : Database Db) where
  pub mark_relay_lem :
      (settings : Settings) (event : Event) (app : App Db) (q : Option Dispatcher)
      → app.dispatcher ≡ q
      → event.relay ≡ no_relay
      → IsRunning settings q
      → mark_relay db settings event app
        ≡ (ok (record event { relay = planned_columns settings q }, pre_full settings q), app)
  unfolding mark_relay relay_queue_has_capacity
  mark_relay_lem settings event app none e fresh running = ground arith
  mark_relay_lem settings event app (some d) e fresh running = ground arith

  store_event_lem :
      (event : Event) (app : App Db) (d' : Db)
      → app.session ≡ true
      → db.insert event app.db ≡ some d'
      → store_event db event app ≡ (ok none, record app { db = d' })
  unfolding store_event after_insert get_db
  store_event_lem event app d' live e = ground arith

  enqueue_event_lem :
      (p : Platform) (settings : Settings) (event : Event) (app : App Db) (q : Option Dispatcher)
      → app.dispatcher ≡ q
      → IsRunning settings q
      → enqueue_event db p settings event (pre_full settings q) app
        ≡ (ok event, record app { dispatcher = queued p settings event q })
  unfolding enqueue_event enqueue_relay_job after_enqueue
  enqueue_event_lem p settings event app none e running = ground arith
  enqueue_event_lem p settings event app (some d) e running = ground arith

module _ {Db : Type 0} (db : Database Db) (p : Platform) (settings : Settings) (call : Call)
    (payload : Fields) (app : App Db) where
  -- The new event, with the relay columns that the handler gives it.
  abbrev pub planned : Event
  planned = record (new_event call payload) { relay = planned_columns settings app.dispatcher }

  respond_lem :
      (d' : Db)
      → IsRunning settings app.dispatcher
      → respond db p settings planned
          (pre_full settings app.dispatcher)
          none
          (record app { db = d' })
        ≡ (
          ok (create_response planned),
          record app {
            db = d';
            dispatcher = queued p settings planned app.dispatcher;
            metrics = count_received call.source app.metrics;
          },
        )
  unfolding respond
  respond_lem d' running = rw (
      enqueue_event_lem db p settings planned
        (record app { db = d'; metrics = count_received call.source app.metrics }) app.dispatcher
        refl running)

  -- Where the session exists and the dispatcher is there, if the target is set: an accepted request
  -- that clashes with no row adds its event to the table and one to the counter
  -- of its source, and answers with the event. The event is scheduled, with its job at the end of
  -- the queue, exactly if the target is set and the queue has room; if it is set and the queue is
  -- full, the event is skipped and the queue is as before.
  pub create_event-stores :
      app.session ≡ true
      → IsRunning settings app.dispatcher
      → check_request p settings call ≡ ok payload
      → any (clashes planned) (db.rows app.db) ≡ false
      → (d' : Db) × (db.rows d' ≡ db.rows app.db ++ stored db.store_time planned ∷ [])
        × (create_event db p settings call app ≡ (
          ok (create_response planned),
          record app {
            db = d';
            dispatcher = queued p settings planned app.dispatcher;
            metrics = count_received call.source app.metrics;
          },
        ))
  unfolding create_event
  create_event-stores live running accepted fresh =
      let (d', inserted, same) = db.insert_fresh planned app.db fresh in
      (
        d',
        same,
        rw accepted (
            rw
              (mark_relay_lem db settings (new_event call payload) app app.dispatcher refl refl
                running)
              (rw (store_event_lem db planned app d' live inserted) (respond_lem d' running))),
      )
