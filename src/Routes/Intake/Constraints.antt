-- ===== src/Routes/Intake/Constraints.antt =====
-- `create_event` keeps the constraints of the table.
use webhook_relay_api.Prelude.{
  ◌≡◌, refl, sym, subst, ◌∙◌, String, Bool, true, false, Option, none, some, List, any, Bool-cases,
  inl, inr, ◌==◌, arith,
}
use webhook_relay_api.Result.{Result, ok, err, integrity_error}
use webhook_relay_api.Platform.{Platform}
use webhook_relay_api.Config.{Settings}
use webhook_relay_api.Event.{Event, RelayColumns, clashes}
use webhook_relay_api.Event.Unique.{IsUnique, IsUnique-append, IsUnique-map}
use webhook_relay_api.Database.{Database, set_relay, stored_columns, stored}
use webhook_relay_api.Datetime.{Datetime}
use webhook_relay_api.App.{Job, App, get_db}
use webhook_relay_api.App.Keeps.{
  Keeps, keeps_rules, Keeps-get_db, CommitsTo, Keeps-pure, Keeps-bind,
}
use webhook_relay_api.Relay.Dispatch.{enqueue_relay_job, relay_queue_has_capacity}
use webhook_relay_api.Routes.Request.{Call}
use webhook_relay_api.Routes.Intake.{
  same_key, with_state, one_or_none, add_event, find_event, mark_relay, or_raise, store_event,
  after_insert, after_enqueue, enqueue_event, count_event, respond, create_event,
}

-- An update of the relay columns leaves what the constraints are about.
clashes-set_relay :
    (id : String) (u : RelayColumns) (e r : Event)
    → clashes (set_relay id u e) (set_relay id u r) ≡ clashes e r
unfolding clashes
clashes-set_relay id u e r = elim (Bool-cases (e.id == id)) [
  | inl a ↦ elim (Bool-cases (r.id == id)) [ inl b ↦ rw (a, b) | inr b ↦ rw (a, b) ]
  | inr a ↦ elim (Bool-cases (r.id == id)) [ inl b ↦ rw (a, b) | inr b ↦ rw (a, b) ]
]

any-clashes-stored :
    (store_time : Datetime → Datetime) (e : Event) (rows : List Event)
    → any (clashes (stored store_time e)) rows ≡ any (clashes e) rows
unfolding clashes
any-clashes-stored store_time e rows = refl

module _ {Db : Type 0} (db : Database Db) where
  abbrev pub Rows : Db → Type 0
  Rows d = IsUnique (db.rows d)

  abbrev pub IsSound : App Db → Type 0
  IsSound app = Rows app.db

  pub Rows-update_relay :
      (id : String) (u : RelayColumns) (d : Db) → Rows d → Rows (db.update_relay id u d)
  Rows-update_relay id u d h = subst IsUnique (sym (db.rows-update_relay id u d)) (
      IsUnique-map (set_relay id (stored_columns db.store_time u)) (clashes-set_relay id _)
        (db.rows d) h)

  add_event-commits : (event : Event) (d : Db) → Rows d → CommitsTo Rows (add_event db event d)
  add_event-commits event d h = elim (Bool-cases (any (clashes event) (db.rows d))) [
    | inl clash ↦
        let refused : add_event db event d ≡ err integrity_error =
          rw (db.insert_clash event d clash, add_event) in
        subst (CommitsTo Rows) (sym refused) tt
    | inr fresh ↦
        let (d', inserted, same) = db.insert_fresh event d fresh in
        let added : add_event db event d ≡ ok (tt, d') = rw (inserted, add_event) in
        subst (CommitsTo Rows) (sym added) (
          subst IsUnique (sym same) (
            IsUnique-append (db.rows d) (stored db.store_time event) h
              (any-clashes-stored db.store_time event (db.rows d) ∙ fresh)))
  ]

  add_event-Keeps : (event : Event) → Keeps IsSound (get_db (add_event db event))
  add_event-Keeps event = Keeps-get_db Rows (add_event db event) (add_event-commits event)

  find_event-Keeps :
      (source : String) (key : Option String) → Keeps IsSound (get_db (find_event db source key))
  find_event-Keeps source key =
      Keeps-get_db Rows (find_event db source key)
        (λ d h. reads d (one_or_none (db.select (same_key source key) d)) h)
    where
      reads : (d : Db) (r : Result (Option Event)) → Rows d → CommitsTo Rows (with_state db d r)
      reads d (ok found) h = h
      reads d (err e) h = tt

  capacity-Keeps : Keeps IsSound (relay_queue_has_capacity {Db = Db})
  unfolding relay_queue_has_capacity
  capacity-Keeps = record { at = λ app h. ground arith }

  mark_relay-Keeps :
      (settings : Settings) (event : Event) → Keeps IsSound (mark_relay db settings event)
  unfolding mark_relay
  mark_relay-Keeps settings event = search (keeps_rules, capacity-Keeps)

  or_raise-Keeps : (found : Option Event) → Keeps IsSound (or_raise db found)
  or_raise-Keeps none = search keeps_rules
  or_raise-Keeps (some e) = search keeps_rules

  after_insert-Keeps :
      (event : Event) (r : Result (Unit {0})) → Keeps IsSound (after_insert db event r)
  unfolding after_insert
  after_insert-Keeps event (ok _) = search keeps_rules
  after_insert-Keeps event (err integrity_error) =
      search (keeps_rules, find_event-Keeps, or_raise-Keeps)
  after_insert-Keeps event (err e) = search keeps_rules

  store_event-Keeps : (event : Event) → Keeps IsSound (store_event db event)
  unfolding store_event
  store_event-Keeps event = record {
    at = λ app h. (after_insert-Keeps event _).at _ ((add_event-Keeps event).at app h);
  }

  after_enqueue-Keeps :
      (event : Event) (accepted : Bool) → Keeps IsSound (after_enqueue db event accepted)
  unfolding after_enqueue
  after_enqueue-Keeps event true = search keeps_rules
  after_enqueue-Keeps event false =
      Keeps-bind _ _ (Keeps-get_db Rows _ (λ d h. Rows-update_relay event.id _ d h))
        (λ _. Keeps-pure _)

  enqueue-Keeps : (job : Job) → Keeps IsSound (enqueue_relay_job {Db = Db} job)
  unfolding enqueue_relay_job
  enqueue-Keeps job = record { at = λ app h. ground arith }

  enqueue_event-Keeps :
      (p : Platform) (settings : Settings) (event : Event) (pre_full : Bool)
      → Keeps IsSound (enqueue_event db p settings event pre_full)
  unfolding enqueue_event
  enqueue_event-Keeps p settings event pre_full =
      search (keeps_rules, enqueue-Keeps, after_enqueue-Keeps)

  count_event-Keeps : (event : Event) → Keeps IsSound (count_event db event)
  count_event-Keeps event = record { at = λ app h. h }

  respond-Keeps :
      (p : Platform) (settings : Settings) (event : Event) (pre_full : Bool) (found : Option Event)
      → Keeps IsSound (respond db p settings event pre_full found)
  unfolding respond
  respond-Keeps p settings event pre_full (some existing) = search keeps_rules
  respond-Keeps p settings event pre_full none =
      search (keeps_rules, count_event-Keeps, enqueue_event-Keeps)

  create_event-Keeps :
      (p : Platform) (settings : Settings) (call : Call)
      → Keeps IsSound (create_event db p settings call)
  unfolding create_event
  create_event-Keeps p settings call =
      search (keeps_rules, mark_relay-Keeps, store_event-Keeps, respond-Keeps)

  -- Whatever the request and however it ends, the ids of the rows and their pairs of source and
  -- idempotency key stay distinct, if they were.
  pub create_event-IsSound :
      (p : Platform) (settings : Settings) (call : Call) (app : App Db)
      → IsSound app
      → IsSound (create_event db p settings call app).1
  create_event-IsSound p settings call app h = (create_event-Keeps p settings call).at app h
