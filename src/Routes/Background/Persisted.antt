-- ===== src/Routes/Background/Persisted.antt =====
-- What a client reads of an event whose relay has ended.
use webhook_relay_api.Prelude.{
  ℕ, ◌⊎◌, ◌≡◌, refl, sym, ap, ◌∙◌, String, Bool, true, Option, none, some, List, [], ◌∷◌, map, keep,
  ◌==◌, if◌then◌else◌, arith, Bool-cases, inl, inr, keep-true, keep-false,
}
use webhook_relay_api.Result.{ok}
use webhook_relay_api.Datetime.{Datetime, aware, utc, as_utc}
use webhook_relay_api.Platform.{Platform}
use webhook_relay_api.Event.{Event, RelayColumns}
use webhook_relay_api.Database.{Database, set_relay, stored_columns}
use webhook_relay_api.App.{App, Job, get_db}
use webhook_relay_api.Relay.{RelayResult}
use webhook_relay_api.Relay.Attempts.{Network, Trace, relay_event}
use webhook_relay_api.Routes.{event_item, event_relay_result, relay_update_values}
use webhook_relay_api.Routes.Listing.{get_event}
use webhook_relay_api.Routes.Background.{count_relay, persist, relay_and_persist}

-- The row of an id among updated rows.
keep-set_relay :
    (id : String) (u : RelayColumns) (rows : List Event)
    → keep (λ row. row.id == id) (map (set_relay id u) rows)
      ≡ map (set_relay id u) (keep (λ row. row.id == id) rows)
keep-set_relay id u [] = refl
keep-set_relay id u (x ∷ rows) = elim (Bool-cases (x.id == id)) [
  | inl h ↦ ground (arith, h, keep-set_relay id u rows)
  | inr h ↦ ground (arith, h, keep-set_relay id u rows)
]

keep_head :
    (test : Event → Bool) (l : List Event) {x : Event} {more : List Event}
    → keep test l ≡ x ∷ more
    → test x ≡ true
keep_head test [] h = cc
keep_head test (y ∷ l) {x} {more} h = elim (Bool-cases (test y)) [
  | inl yes_y ↦ ap test (cons_injective (sym h ∙ keep-true test y l yes_y)) ∙ yes_y
  | inr no_y ↦ keep_head test l (sym (keep-false test y l no_y) ∙ h)
]
  where
    cons_injective : {a b : Event} {l m : List Event} → a ∷ l ≡ b ∷ m → a ≡ b
    cons_injective e = cc

-- A time that the program takes from the clock, if any.
abbrev pub IsClockTime : Option Datetime → Type 0
IsClockTime value = (value ≡ none) ⊎ ((t : ℕ) × (value ≡ some (aware t utc)))

module _ {Db : Type 0} (db : Database Db) where
  -- The row of an event after a relay.
  abbrev pub relayed : RelayResult → Event → Event
  relayed r event = record event { relay = stored_columns db.store_time (relay_update_values r) }

  shown_result :
      (r : RelayResult) (event : Event)
      → IsClockTime r.last_attempt_at
      → (event_item (relayed r event)).relay ≡ some r
  unfolding event_item relay_update_values event_relay_result as_utc
  shown_result r event (inl nothing) = rw nothing (ground arith)
  shown_result r event (inr (t, at)) = rw at (rw (db.store_time_utc t) (ground arith))

  get_event_lem :
      (id : String) (app : App Db) (event : Event) (more : List Event)
      → app.session ≡ true
      → keep (λ row. row.id == id) (db.rows app.db) ≡ event ∷ more
      → get_event db id app ≡ (ok (event_item event), app)
  unfolding get_event get_db
  get_event_lem id app event more live found =
      rw live (rw (db.get_first id app.db event more found) refl)

  selected_relayed :
      (id : String) (r : RelayResult) (d : Db) (event : Event) (more : List Event)
      → keep (λ row. row.id == id) (db.rows d) ≡ event ∷ more
      → (rest : List Event) × (keep
            (λ row. row.id == id)
            (db.rows (db.update_relay id (relay_update_values r) d))
          ≡ relayed r event ∷ rest)
  selected_relayed id r d event more found =
      let u = stored_columns db.store_time (relay_update_values r) in
      (
        map (set_relay id u) more,
        ap (keep (λ row. row.id == id)) (db.rows-update_relay id (relay_update_values r) d)
            ∙ keep-set_relay id u (db.rows d)
            ∙ ap (map (set_relay id u)) found
            ∙ ap (λ x. x ∷ map (set_relay id u) more)
                (ap (λ b. if b then record event { relay = u } else event)
                  (keep_head (λ row. row.id == id) (db.rows d) found)),
      )

  -- Where `relay_event` returns a result for a job and other tasks run meanwhile, after which the
  -- session exists and the job's event is in the table, the job persists the result: only the relay
  -- columns of the rows with that id change, the counters move by what the relay counted, and
  -- `get_event` then answers with the event and with exactly that result, if its time is one of the
  -- clock or absent.
  pub relay_and_persist-shows :
      (p : Platform) (net : Network) (meanwhile : App Db → App Db) (job : Job) (app : App Db)
      (r : RelayResult) (t : Trace) (event : Event) (more : List Event)
      → relay_event p net app.client job.target_url job.relay_allow_hosts
          job.relay_allow_private_ips
        ≡ (ok r, t)
      → (meanwhile app).session ≡ true
      → keep (λ row. row.id == job.event_id) (db.rows (meanwhile app).db) ≡ event ∷ more
      → IsClockTime r.last_attempt_at
      → (after : App Db) × (relay_and_persist db p net meanwhile job app ≡ (ok tt, after))
        × (db.rows after.db
            ≡ map
                (set_relay job.event_id (stored_columns db.store_time (relay_update_values r)))
                (db.rows (meanwhile app).db))
        × (after.metrics ≡ count_relay t (meanwhile app).metrics)
        × (get_event db job.event_id after ≡ (ok (event_item (relayed r event)), after))
        × ((event_item (relayed r event)).relay ≡ some r)
  unfolding relay_and_persist persist get_db
  relay_and_persist-shows p net meanwhile job app r t event more done live found clock =
      let later = meanwhile app in
      let d = db.update_relay job.event_id (relay_update_values r) later.db in
      let final = record later { db = d; metrics = count_relay t later.metrics } in
      let (rest, selected) = selected_relayed job.event_id r later.db event more found in
      (
        final,
        rw done (rw live refl),
        db.rows-update_relay job.event_id (relay_update_values r) later.db,
        refl,
        get_event_lem job.event_id final (relayed r event) rest live selected,
        shown_result r event clock,
      )
