-- ===== src/Routes/Background/Settled.antt =====
-- From the request to the stored result: `create_event` and then the job that it has queued.
use webhook_relay_api.Prelude.{
  ◌≡◌, refl, ap, ◌∙◌, true, false, some, List, [], ◌∷◌, ◌++◌, ◌==◌, arith, any, keep, eq_iff,
  keep-true,
}
use webhook_relay_api.Result.{ok}
use webhook_relay_api.Datetime.{Datetime}
use webhook_relay_api.Json.{Fields}
use webhook_relay_api.Platform.{Platform}
use webhook_relay_api.Config.{Settings}
use webhook_relay_api.Event.{Event, clashes}
use webhook_relay_api.Database.{Database, stored}
use webhook_relay_api.App.{App}
use webhook_relay_api.Relay.{RelayResult}
use webhook_relay_api.Relay.Attempts.{Network, Trace, relay_event}
use webhook_relay_api.Routes.{EventItem, event_item}
use webhook_relay_api.Routes.Request.{Call, check_request, relay_job}
use webhook_relay_api.Routes.Intake.{create_event, count_received}
use webhook_relay_api.Routes.Intake.Stored.{IsRunning, planned, queued, create_event-stores}
use webhook_relay_api.Routes.Listing.{get_event}
use webhook_relay_api.Routes.Background.{relay_and_persist}
use webhook_relay_api.Routes.Background.Persisted.{IsClockTime, relayed, relay_and_persist-shows}

-- A new row is the only one with its id.
keep-stored :
    (store_time : Datetime → Datetime) (e : Event) (rows : List Event)
    → any (clashes e) rows ≡ false
    → keep (λ row. row.id == e.id) (rows ++ stored store_time e ∷ []) ≡ stored store_time e ∷ []
unfolding clashes
keep-stored store_time e [] h =
    keep-true (λ row. row.id == e.id) (stored store_time e) [] ((eq_iff e.id e.id).1 refl)
keep-stored store_time e (x ∷ rows) h = ground (arith, keep-stored store_time e rows)

module _ {Db : Type 0} (db : Database Db) (p : Platform) (net : Network) (settings : Settings)
    (call : Call) (payload : Fields) (app : App Db) where
  -- Where the session exists and the dispatcher is there, if the target is set: if an accepted
  -- request clashes with no row, and the relay of its event returns a result whose time is one of the
  -- clock or absent, then the request followed by its job makes `get_event` answer with the event and
  -- with exactly that result.
  pub create_event_settles :
      (r : RelayResult) (t : Trace)
      → app.session ≡ true
      → IsRunning settings app.dispatcher
      → check_request p settings call ≡ ok payload
      → any (clashes (planned db p settings call payload app)) (db.rows app.db) ≡ false
      → relay_event p net app.client settings.target_url settings.relay_allow_hosts
          settings.relay_allow_private_ips
        ≡ (ok r, t)
      → IsClockTime r.last_attempt_at
      → (after : App Db) × (item : EventItem) × (relay_and_persist db p net
            (λ later. later)
            (relay_job p settings (planned db p settings call payload app))
            (create_event db p settings call app).1
          ≡ (ok tt, after))
        × (get_event db call.fresh_event_id after ≡ (ok item, after))
        × (item.event_id ≡ call.fresh_event_id)
        × (item.relay ≡ some r)
  unfolding event_item
  create_event_settles r t live running accepted fresh done clock =
      let event = planned db p settings call payload app in
      let (d', same, run) =
        create_event-stores db p settings call payload app live running accepted fresh in
      let created = ap (λ x. x.1) run in
      let found =
        ap (keep (λ row. row.id == event.id)) same
        ∙ keep-stored db.store_time event (db.rows app.db) fresh in
      let job = relay_job p settings event in
      let (after, ran, _, _, read, shown) =
        relay_and_persist-shows db p net (λ later. later) job
          (record app {
            db = d';
            dispatcher = queued p settings event app.dispatcher;
            metrics = count_received call.source app.metrics;
          })
          r t (stored db.store_time event) [] done live found clock in
      (
        after,
        event_item (relayed db r (stored db.store_time event)),
        ap (relay_and_persist db p net (λ later. later) job) created ∙ ran,
        read,
        refl,
        shown,
      )
