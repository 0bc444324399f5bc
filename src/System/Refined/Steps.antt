-- ===== src/System/Refined/Steps.antt =====
-- What a change of the rows is to the ledger.
use webhook_relay_api.Prelude.{
  ℕ, String, ◌≡◌, refl, sym, ap, ◌∙◌, inl, inr, false, not, Option, some, List, ◌∷◌, [], ◌++◌, map,
  any, ◌==◌, if◌then◌else◌, Bool-cases, Option-cases, eq_iff, truthy, arith, IsIn, keep,
}
use webhook_relay_api.App.{App, Dispatcher}
use webhook_relay_api.Datetime.{Datetime}
use webhook_relay_api.Event.{Event, RelayColumns, clashes}
use webhook_relay_api.Event.Lookup.{
  lookup, lookup-IsIn, lookup-append, lookup-none, lookup-keep, keep_if,
}
use webhook_relay_api.Event.Unique.{IsUnique, any_of_IsIn}
use webhook_relay_api.Json.{Fields}
use webhook_relay_api.Platform.{Platform}
use webhook_relay_api.Config.{Settings}
use webhook_relay_api.Database.{Database, set_relay, stored, stored_columns}
use webhook_relay_api.Database.View.{get-lookup, lookup-set_relay}
use webhook_relay_api.Routes.Request.{Call}
use webhook_relay_api.Routes.Intake.Stored.{planned, planned_columns, pre_full}
use webhook_relay_api.Routes.Admin.{is_older}
use webhook_relay_api.System.Ledger.{Ledger, IsNew, Same, Adds, Settles, Expires}
use webhook_relay_api.System.Pending.{IsScheduled}

stored-IsNew :
    (store_time : Datetime → Datetime) (settings : Settings) (q : Option Dispatcher)
    → IsNew (stored_columns store_time (planned_columns settings q))
stored-IsNew store_time settings q = elim (Bool-cases (truthy settings.target_url)) [
  | inr off ↦ inl (rw off refl)
  | inl target ↦ elim (Bool-cases (pre_full settings q)) [
    | inl full ↦ inr (inr (rw target (rw full refl)))
    | inr room ↦ inr (inl (rw target (rw room refl)))
  ]
]

module _ {Db : Type 0} (db : Database Db) where
  abbrev pub ledger_of : App Db → Ledger
  ledger_of app id = db.get id app.db

  pub unchanged : {app after : App Db} → after ≡ app → Same (ledger_of app) (ledger_of after)
  unchanged {app} {after} same id = ap (λ x. db.get id x.db) same

  -- A state with the rows is shown by what is found in them.
  found :
      (id : String) (d : Db) (rows : List Event) → db.rows d ≡ rows → db.get id d ≡ lookup id rows
  found id d rows same = get-lookup db id d ∙ ap (lookup id) same

  pub stored-step :
      (p : Platform) (settings : Settings) (call : Call) (payload : Fields) (app : App Db) (d' : Db)
      → any (clashes (planned db p settings call payload app)) (db.rows app.db) ≡ false
      → db.rows d'
        ≡ db.rows app.db ++ stored db.store_time (planned db p settings call payload app) ∷ []
      → Adds
          (stored db.store_time (planned db p settings call payload app))
          (ledger_of app)
          (λ id. db.get id d')
  unfolding clashes
  stored-step p settings call payload app d' fresh rows =
      let event = planned db p settings call payload app in
      let row = stored db.store_time event in
      (
        stored-IsNew db.store_time settings app.dispatcher,
        (λ id other there. elim (Bool-cases (clashes event other)) [
          | inr apart ↦ apart
          | inl clash ↦
              let (within, _) =
                lookup-IsIn id (db.rows app.db) other (sym (get-lookup db id app.db) ∙ there) in
              absurd (
                ground
                  (arith, fresh, any_of_IsIn (clashes event) other (db.rows app.db) within clash))
        ]),
        (λ id.
            found id d' _ rows
            ∙ lookup-append id (db.rows app.db) row (lookup-none event (db.rows app.db) fresh)
            ∙ ap (λ e. if row.id == id then some row else e) (sym (get-lookup db id app.db))),
      )

  pub cleanup-step :
      (cutoff : ℕ) (app : App Db) (d : Db)
      → IsUnique (db.rows app.db)
      → db.rows d ≡ keep (λ row. not (is_older cutoff row)) (db.rows app.db)
      → Expires cutoff (ledger_of app) (λ id. db.get id d)
  cleanup-step cutoff app d unique rows id =
      let test = λ (row : Event). not (is_older cutoff row) in
      found id d _ rows
      ∙ lookup-keep test id (db.rows app.db) unique
      ∙ ap (keep_if test) (sym (get-lookup db id app.db))

  -- A result that is written settles the event of the job, if it is there.
  pub written-step :
      (target : String) (u : RelayColumns) (app : App Db) (d' : Db)
      → db.rows d' ≡ map (set_relay target u) (db.rows app.db)
      → ((row : Event) → IsIn row (db.rows app.db) → row.id ≡ target → IsScheduled row)
      → Settles target u (ledger_of app) (λ id. db.get id d')
  written-step target u app d' rows waits =
      let now =
        λ (id : String). found id d' _ rows ∙ lookup-set_relay id target u (db.rows app.db) in
      elim (Option-cases (lookup target (db.rows app.db))) [
        | inl nothing ↦ inl (
          get-lookup db target app.db ∙ nothing,
          λ id. now id ∙ ground (arith, nothing, eq_iff target id, get-lookup db id app.db),
        )
        | inr (row, there) ↦
            let (within, named) = lookup-IsIn target (db.rows app.db) row there in
            inr (
              row,
              get-lookup db target app.db ∙ there,
              waits row within named,
              λ id. now id ∙ ground (arith, there, eq_iff target id, get-lookup db id app.db),
            )
      ]
