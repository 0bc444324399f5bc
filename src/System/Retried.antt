-- ===== src/System/Retried.antt =====
-- A retry of a webhook, however much later.
use webhook_relay_api.Prelude.Alls.{IsIn-append, IsIn-last, IsIn-map}
use webhook_relay_api.Prelude.{
  ◌++◌, map, List, some, any, false, truthy, refl, sym, inl, inr, true, ap, ◌∙◌, Bool-cases, ◌==◌,
  String, ◌≡◌, All, subst, IsIn,
}
use webhook_relay_api.App.{App, Metrics}
use webhook_relay_api.Event.{Event, RelayColumns, clashes}
use webhook_relay_api.Event.Unique.{IsUnique}
use webhook_relay_api.Platform.{Platform}
use webhook_relay_api.Config.{Settings}
use webhook_relay_api.Database.{Database, stored, set_relay}
use webhook_relay_api.Relay.Dispatch.{
  startup_relay_dispatcher, startup_http_client, shutdown_relay_dispatcher, shutdown_http_client,
}
use webhook_relay_api.Routes.Request.{Call, check_request}
use webhook_relay_api.Routes.Intake.{create_event}
use webhook_relay_api.Routes.Intake.Stored.{IsRunning, planned, create_event-stores}
use webhook_relay_api.Routes.Intake.Endings.{
  refused, accepted, replayed, violated, create_event-Ending,
}
use webhook_relay_api.Main.{startup, shutdown}
use webhook_relay_api.System.{
  Reach, request, turn, restarted, counted, Turn, take_job, job_done, job_failed, turned, lost_by,
  dropped, Onward, same_state, then_request, then_turn, then_restart, then_counted,
}
use webhook_relay_api.System.Pending.{IsScheduled}
use webhook_relay_api.System.Tracked.{IsTracked}
use webhook_relay_api.System.Reached.{reach-IsTracked}
use webhook_relay_api.Routes.{relay_update_values, create_response}
use webhook_relay_api.Routes.Background.Ends.{done_lem, failed_lem}
use webhook_relay_api.Json.{Fields}
use webhook_relay_api.Result.{ok}
use webhook_relay_api.Routes.Intake.Replay.{create_event-replays}

-- The row of an event, whatever its relay columns.
pub record HasRow (id source key : String) (rows : List Event) : Type 0 where
  pub row : Event
  pub listed : IsIn row rows
  pub same_id : row.id ≡ id
  pub same_source : row.source ≡ source
  pub same_key : row.idempotency_key ≡ some key

set_relay-HasRow :
    (target : String) (u : RelayColumns) {id source key : String} (rows : List Event)
    → HasRow id source key rows
    → HasRow id source key (map (set_relay target u) rows)
set_relay-HasRow target u rows h =
    let there = IsIn-map (set_relay target u) h.row rows h.listed in
    elim (Bool-cases (h.row.id == target)) [
      | inl own ↦ record {
        row = set_relay target u h.row;
        listed = there;
        same_id = rw own h.same_id;
        same_source = rw own h.same_source;
        same_key = rw own h.same_key;
      }
      | inr other ↦ record {
        row = set_relay target u h.row;
        listed = there;
        same_id = rw other h.same_id;
        same_source = rw other h.same_source;
        same_key = rw other h.same_key;
      }
    ]

module _ {Db : Type 0} (db : Database Db) (p : Platform) (settings : Settings) where
  abbrev pub reach_after :
      {initial app later : App Db} {lost : List String}
      → Reach db p settings initial lost app
      → Onward db p settings app later
      → (gone : List String) × Reach db p settings initial gone later
  reach_after {lost = lost} reached same_state = (lost, reached)
  reach_after reached (then_request call on) =
      let (gone, r) = reach_after reached on in (gone, request call r)
  reach_after reached (then_turn t on) =
      let (gone, r) = reach_after reached on in (lost_by db p t gone, turn t r)
  reach_after reached (then_counted metrics on) =
      let (gone, r) = reach_after reached on in (gone, counted metrics r)
  reach_after reached (then_restart {later} metrics on) =
      let (gone, r) = reach_after reached on in
      (dropped later.dispatcher ++ gone, restarted metrics r)

  module _ (id source key : String) where
    abbrev Has : App Db → Type 0
    Has app = HasRow id source key (db.rows app.db)

    turn-Has :
        {app : App Db} (t : Turn db p app) → app.session ≡ true → Has app → Has (turned db p t)
    turn-Has (take_job d job queue before behind e first idle) live h = h
    turn-Has {app} (job_done d job before behind net begin done e runs ran) live h =
        let (r, _, same) = done_lem db p net job begin app done live ran in
        let rows =
          ap (λ x. db.rows x.db) same
          ∙ db.rows-update_relay job.event_id (relay_update_values r) app.db in
        subst (HasRow id source key) (sym rows) (set_relay-HasRow job.event_id _ (db.rows app.db) h)
    turn-Has {app} (job_failed d job before behind net begin done error e runs ran) live h =
        let same = failed_lem db p net job begin app done error live ran in
        subst (HasRow id source key) (sym (ap (λ x. db.rows x.db) same)) h

    request-Has :
        {lost : List String} (call : Call) (app : App Db)
        → IsTracked db lost app
        → Has app
        → Has (create_event db p settings call app).1
    request-Has call app t h =
        elim (create_event-Ending db p settings call app t.live
          (subst (IsRunning settings) (sym t.there) tt) t.unique) [
            | refused e bad run ↦ subst Has (sym (ap (λ x. x.1) run)) h
            | replayed existing there same run ↦ subst Has (sym (ap (λ x. x.1) run)) h
            | violated payload good clash run ↦ subst Has (sym (ap (λ x. x.1) run)) h
            | accepted payload d' good fresh rows run ↦ subst Has (sym (ap (λ x. x.1) run)) (
                subst (HasRow id source key) (sym rows) (record {
                  row = h.row;
                  listed = IsIn-append h.row (db.rows app.db) _ h.listed;
                  same_id = h.same_id;
                  same_source = h.same_source;
                  same_key = h.same_key;
                }))
          ]

    restart-Has :
        (metrics : Metrics) (app : App Db)
        → Has app
        → Has (startup settings (record (shutdown app) { metrics = metrics }))
    unfolding startup startup_relay_dispatcher startup_http_client shutdown
        shutdown_relay_dispatcher shutdown_http_client
    restart-Has metrics app h = h

    Onward-Has :
        {initial app later : App Db} {lost : List String}
        → Reach db p settings initial lost app
        → IsUnique (db.rows initial.db)
        → All (λ row. ¬ IsScheduled row) (db.rows initial.db)
        → Onward db p settings app later
        → Has app
        → Has later
    Onward-Has reached unique fresh same_state h = h
    Onward-Has reached unique fresh (then_request {later} call on) h =
        request-Has call later
          (reach-IsTracked db p settings (reach_after reached on).1 unique fresh)
          (Onward-Has reached unique fresh on h)
    Onward-Has reached unique fresh (then_turn t on) h =
        turn-Has t (reach-IsTracked db p settings (reach_after reached on).1 unique fresh).live
          (Onward-Has reached unique fresh on h)
    Onward-Has reached unique fresh (then_counted {later} metrics on) h =
        Onward-Has reached unique fresh on h
    Onward-Has reached unique fresh (then_restart {later} metrics on) h =
        restart-Has metrics later (Onward-Has reached unique fresh on h)

  -- In a state of the process since its startup, on a table with unique rows of which none says
  -- scheduled: where a request with an idempotency key that is not empty is accepted and clashes with
  -- no row, and after it any requests, turns of the workers and restarts follow, but no cleanup, an
  -- accepted request of the same source with the same key is answered with the row that has
  -- the first one's event id, source and key, as it then is, and changes nothing.
  pub retry_replays :
      {initial app later : App Db} {lost : List String} (call again : Call)
      (payload payload' : Fields) (key : String)
      → Reach db p settings initial lost app
      → IsUnique (db.rows initial.db)
      → All (λ row. ¬ IsScheduled row) (db.rows initial.db)
      → check_request p settings call ≡ ok payload
      → call.header "Idempotency-Key" ≡ some key
      → truthy key ≡ true
      → any (clashes (planned db p settings call payload app)) (db.rows app.db) ≡ false
      → Onward db p settings (create_event db p settings call app).1 later
      → check_request p settings again ≡ ok payload'
      → again.source ≡ call.source
      → again.header "Idempotency-Key" ≡ some key
      → (existing : Event) × IsIn existing (db.rows later.db)
        × (existing.id ≡ call.fresh_event_id)
        × (existing.source ≡ call.source)
        × (existing.idempotency_key ≡ some key)
        × (create_event db p settings again later ≡ (ok (create_response existing), later))
  retry_replays {initial} {app} {later} call again payload payload' key reached unique fresh good
        keyed set free on good' same_source keyed' =
      let t = reach-IsTracked db p settings reached unique fresh in
      let (d', rows, run) =
        create_event-stores db p settings call payload app t.live
          (subst (IsRunning settings) (sym t.there) tt) good free in
      let event = stored db.store_time (planned db p settings call payload app) in
      let here : HasRow call.fresh_event_id call.source key
          (db.rows (create_event db p settings call app).1.db) =
        subst (HasRow call.fresh_event_id call.source key)
          (sym (ap (λ x. db.rows x.1.db) run ∙ rows))
          (record {
            row = event;
            listed = IsIn-last event (db.rows app.db);
            same_id = refl;
            same_source = refl;
            same_key = keyed;
          }) in
      let stored_once = request call reached in
      let h = Onward-Has call.fresh_event_id call.source key stored_once unique fresh on here in
      let now = reach-IsTracked db p settings (reach_after stored_once on).1 unique fresh in
      (
        h.row,
        h.listed,
        h.same_id,
        h.same_source,
        h.same_key,
        create_event-replays db p settings again payload' later key h.row now.live
            (subst (IsRunning settings) (sym now.there) tt) good' keyed' set now.unique h.listed
            (h.same_source ∙ sym same_source) h.same_key,
      )
