-- ===== src/Routes/Intake/Replay.antt =====
-- What `create_event` does where the source and the idempotency key are known already.
use mathlib.Core.List.{Perm}
use webhook_relay_api.Prelude.{
  ◌≡◌, ◌≤◌, refl, subst, String, true, Option, none, some, List, [], ◌∷◌, ◌||◌, ◌&&◌, arith, truthy,
  keep, length, IsIn, eq_iff, ◌==◌,
}
use webhook_relay_api.Prelude.Perms.{perm_singleton}
use webhook_relay_api.Result.{ok, err, integrity_error}
use webhook_relay_api.Json.{Fields}
use webhook_relay_api.Platform.{Platform}
use webhook_relay_api.Config.{Settings}
use webhook_relay_api.Event.{Event, Event-set, clashes, sql_eq}
use webhook_relay_api.Event.Unique.{IsUnique, any_of_IsIn, keep_only, keep-le_one}
use webhook_relay_api.Database.{Database}
use webhook_relay_api.App.{App, get_db}
use webhook_relay_api.Routes.{create_response}
use webhook_relay_api.Routes.Request.{Call, check_request, new_event}
use webhook_relay_api.Routes.Intake.{
  same_key, find_event, store_event, after_insert, respond, create_event,
}
use webhook_relay_api.Routes.Intake.Stored.{IsRunning, planned, mark_relay_lem}

-- Two rows with one source and one key clash.
same_key-clashes :
    (source key : String) (e r : Event)
    → same_key source (some key) e ≡ true
    → same_key source (some key) r ≡ true
    → clashes e r ≡ true
unfolding clashes
same_key-clashes source key e r = both e.source r.source e.idempotency_key r.idempotency_key
  where
    both :
        (s t : String) (k l : Option String)
        → (s == source && sql_eq k (some key)) ≡ true
        → (t == source && sql_eq l (some key)) ≡ true
        → (r.id == e.id || (t == s && sql_eq l k)) ≡ true
    both s t none l h g = ground arith
    both s t (some k) none h g = ground arith
    both s t (some k) (some l) h g = ground (
      arith,
      eq_iff s source,
      eq_iff t source,
      eq_iff k key,
      eq_iff l key,
      eq_iff t s,
      eq_iff l k,
    )

same_key-true :
    (source key : String) (e : Event)
    → e.source ≡ source
    → e.idempotency_key ≡ some key
    → same_key source (some key) e ≡ true
same_key-true source key e s k = rw (k, (eq_iff e.source source).1 s) ((eq_iff key key).1 refl)

-- A table with the constraints holds one row at most for a source and a key.
pub keep-same_key-le_one :
    (source key : String) (rows : List Event)
    → IsUnique rows
    → length (keep (same_key source (some key)) rows) ≤ 1
keep-same_key-le_one source key =
    keep-le_one (same_key source (some key)) (same_key-clashes source key)

module _ {Db : Type 0} (db : Database Db) where
  find_event_lem :
      (source key : String) (d : Db) (existing : Event)
      → keep (same_key source (some key)) (db.rows d) ≡ existing ∷ []
      → find_event db source (some key) d ≡ ok (some existing, d)
  find_event_lem source key d existing h = rw (
      perm_singleton Event-set _ existing (
        subst (λ l. Perm (db.select (same_key source (some key)) d) l) h
          (db.select_perm (same_key source (some key)) d)))

  store_event_replays :
      (event : Event) (key : String) (app : App Db) (existing : Event)
      → app.session ≡ true
      → event.idempotency_key ≡ some key
      → truthy key ≡ true
      → db.insert event app.db ≡ none
      → find_event db event.source event.idempotency_key app.db ≡ ok (some existing, app.db)
      → store_event db event app ≡ (ok (some existing), app)
  unfolding store_event after_insert get_db
  store_event_replays event key app existing live keyed set clash found = ground (arith, keyed)

module _ {Db : Type 0} (db : Database Db) where
  store_event_refused :
      (event : Event) (app : App Db)
      → app.session ≡ true
      → event.idempotency_key ≡ some ""
      → db.insert event app.db ≡ none
      → store_event db event app ≡ (err integrity_error, app)
  unfolding store_event after_insert get_db
  store_event_refused event app live keyed clash = ground (arith, keyed)

module _ {Db : Type 0} (db : Database Db) (p : Platform) (settings : Settings) (call : Call)
    (payload : Fields) (app : App Db) where
  -- Where the session exists, the dispatcher is there, if the target is set, and the rows are
  -- unique: an accepted request whose source and idempotency key, not empty, are those of a row is
  -- answered with that row as it is stored. Nothing changes: no row is added or updated, no job is
  -- queued, no counter moves.
  pub create_event-replays :
      (key : String) (existing : Event)
      → app.session ≡ true
      → IsRunning settings app.dispatcher
      → check_request p settings call ≡ ok payload
      → call.header "Idempotency-Key" ≡ some key
      → truthy key ≡ true
      → IsUnique (db.rows app.db)
      → IsIn existing (db.rows app.db)
      → existing.source ≡ call.source
      → existing.idempotency_key ≡ some key
      → create_event db p settings call app ≡ (ok (create_response existing), app)
  unfolding create_event respond
  create_event-replays key existing live running accepted keyed set unique listed source same =
      let event = planned db p settings call payload app in
      let selected = same_key-true call.source key existing source same in
      let clash : clashes event existing ≡ true =
        same_key-clashes call.source key event existing
          (same_key-true call.source key event refl keyed) selected in
      let only : keep (same_key call.source (some key)) (db.rows app.db) ≡ existing ∷ [] =
        keep_only (same_key call.source (some key)) existing (db.rows app.db) listed selected
          (keep-same_key-le_one call.source key (db.rows app.db) unique) in
      let found : find_event db call.source (call.header "Idempotency-Key") app.db
          ≡ ok (some existing, app.db) =
        rw keyed (find_event_lem db call.source key app.db existing only) in
      rw accepted (
        rw
          (mark_relay_lem db settings (new_event call payload) app app.dispatcher refl refl running)
          (rw
            (store_event_replays db event key app existing live keyed set
              (db.insert_clash event app.db
                (any_of_IsIn (clashes event) existing (db.rows app.db) listed clash))
              found)
            refl))

  -- Where the session exists and the dispatcher is there, if the target is set: an accepted request
  -- whose idempotency key is present but empty, and whose source has a row with an empty key, is not
  -- answered as a replay: the violated constraint leaves the handler as
  -- `IntegrityError`, and nothing changes.
  pub create_event_empty_key :
      (existing : Event)
      → app.session ≡ true
      → IsRunning settings app.dispatcher
      → check_request p settings call ≡ ok payload
      → call.header "Idempotency-Key" ≡ some ""
      → IsIn existing (db.rows app.db)
      → existing.source ≡ call.source
      → existing.idempotency_key ≡ some ""
      → create_event db p settings call app ≡ (err integrity_error, app)
  unfolding create_event
  create_event_empty_key existing live running accepted keyed listed source same =
      let event = planned db p settings call payload app in
      let selected = same_key-true call.source "" existing source same in
      let clash : clashes event existing ≡ true =
        same_key-clashes call.source "" event existing
          (same_key-true call.source "" event refl keyed) selected in
      let refused = store_event_refused db event app live keyed (
        db.insert_clash event app.db
          (any_of_IsIn (clashes event) existing (db.rows app.db) listed clash)) in
      rw accepted (
        rw
          (mark_relay_lem db settings (new_event call payload) app app.dispatcher refl refl running)
          (rw refused refl))
