-- ===== src/Routes/Intake/Endings.antt =====
-- The ways in which `create_event` ends, while the session and the dispatcher are there.
use mathlib.Core.List.{Perm}
use webhook_relay_api.Prelude.{
  ◌≤◌, ◌≡◌, refl, sym, subst, ◌⊎◌, inl, inr, String, true, false, Option, none, some, List, [], ◌∷◌,
  ◌++◌, arith, any, keep, keep-true, keep-false, IsIn, Bool, ap, ◌∙◌, length, truthy, Bool-cases,
}
use webhook_relay_api.Prelude.Perms.{perm_singleton, perm_nil}
use webhook_relay_api.Result.{Error, integrity_error, ok, err, Result-cases}
use webhook_relay_api.Json.{Fields}
use webhook_relay_api.Platform.{Platform}
use webhook_relay_api.Config.{Settings}
use webhook_relay_api.Event.{Event, Event-set, clashes}
use webhook_relay_api.Event.Unique.{IsUnique}
use webhook_relay_api.Database.{Database, stored}
use webhook_relay_api.App.{App, get_db}
use webhook_relay_api.Routes.{create_response}
use webhook_relay_api.Routes.Request.{Call, check_request, new_event}
use webhook_relay_api.Routes.Intake.{
  same_key, find_event, store_event, after_insert, respond, create_event, count_received,
}
use webhook_relay_api.Routes.Intake.Stored.{
  IsRunning, planned, queued, mark_relay_lem, create_event-stores,
}
use webhook_relay_api.Routes.Intake.Replay.{keep-same_key-le_one}

one-or_none : (l : List Event) → length l ≤ 1 → (l ≡ []) ⊎ ((e : Event) × (l ≡ e ∷ []))
one-or_none [] h = inl refl
one-or_none (e ∷ []) h = inr (e, refl)
one-or_none (e ∷ f ∷ l) h = absurd (omega arith)

-- The only row that passes is one of the rows.
only-IsIn :
    (test : Event → Bool) (rows : List Event) (e : Event)
    → keep test rows ≡ e ∷ []
    → IsIn e rows × (test e ≡ true)
only-IsIn test [] e h = cc
only-IsIn test (x ∷ rows) e h = elim (Bool-cases (test x)) [
  | inl passes ↦
      let own : x ≡ e = cons_injective (sym (keep-true test x rows passes) ∙ h) in
      (inl (sym own), ap test (sym own) ∙ passes)
  | inr fails ↦
      let (m, good) = only-IsIn test rows e (sym (keep-false test x rows fails) ∙ h) in
      (inr m, good)
]
  where
    cons_injective : {x e : Event} {l : List Event} → x ∷ l ≡ e ∷ [] → x ≡ e
    cons_injective h = cc

module _ {Db : Type 0} (db : Database Db) where
  -- The row that the violated constraint is about, if it is the pair of source and key.
  found_cases :
      (source key : String) (d : Db)
      → IsUnique (db.rows d)
      → (find_event db source (some key) d ≡ ok (none, d))
        ⊎ ((existing : Event) × IsIn existing (db.rows d)
            × (same_key source (some key) existing ≡ true)
            × (find_event db source (some key) d ≡ ok (some existing, d)))
  found_cases source key d unique =
      let test = same_key source (some key) in
      let selected = db.select_perm test d in
      elim (one-or_none (keep test (db.rows d))
        (keep-same_key-le_one source key (db.rows d) unique)) [
          | inl nothing ↦
              inl (rw (perm_nil Event-set _ (subst (Perm (db.select test d)) nothing selected)))
          | inr (existing, only) ↦ inr (
            existing,
            (only-IsIn test (db.rows d) existing only).0,
            (only-IsIn test (db.rows d) existing only).1,
            rw (
                perm_singleton Event-set _ existing
                  (subst (Perm (db.select test d)) only selected)),
          )
        ]

  -- What the handler makes of a clash, for each kind of key.
  clash_cases :
      (event : Event) (key : Option String) (app : App Db)
      → event.idempotency_key ≡ key
      → app.session ≡ true
      → IsUnique (db.rows app.db)
      → db.insert event app.db ≡ none
      → (store_event db event app ≡ (err integrity_error, app))
        ⊎ ((existing : Event) × IsIn existing (db.rows app.db)
            × (same_key event.source key existing ≡ true)
            × (store_event db event app ≡ (ok (some existing), app)))
  unfolding store_event after_insert get_db
  clash_cases event none app keyed live unique clash = inl (ground (arith, keyed))
  clash_cases event (some key) app keyed live unique clash = elim (Bool-cases (truthy key)) [
    | inl set ↦ elim (found_cases event.source key app.db unique) [
      | inl nothing ↦
          let keyless =
            subst (λ k. find_event db event.source k app.db ≡ ok (none, app.db)) (sym keyed)
              nothing in
          inl (ground (arith, keyed))
      | inr (existing, there, same, found) ↦ inr (
        existing,
        there,
        same,
        let keyless =
              subst (λ k. find_event db event.source k app.db ≡ ok (some existing, app.db))
                (sym keyed) found in
            ground (arith, keyed),
      )
    ]
    | inr empty ↦ inl (ground (arith, keyed))
  ]

module _ {Db : Type 0} (db : Database Db) (p : Platform) (settings : Settings) (call : Call)
    (app : App Db) where
  -- Refused by a check, stored as a new event, answered with an event that is there, or stopped by
  -- a constraint; only the second changes anything.
  pub data Ending : Type 0 where
    refused :
        (e : Error)
        → check_request p settings call ≡ err e
        → create_event db p settings call app ≡ (err e, app)
        → Ending
    accepted :
        (payload : Fields) (d' : Db)
        → check_request p settings call ≡ ok payload
        → any (clashes (planned db p settings call payload app)) (db.rows app.db) ≡ false
        → db.rows d'
          ≡ db.rows app.db ++ stored db.store_time (planned db p settings call payload app) ∷ []
        → create_event db p settings call app ≡ (
          ok (create_response (planned db p settings call payload app)),
          record app {
            db = d';
            dispatcher = queued p settings (planned db p settings call payload app) app.dispatcher;
            metrics = count_received call.source app.metrics;
          },
        )
        → Ending
    replayed :
        (existing : Event)
        → IsIn existing (db.rows app.db)
        → same_key call.source (call.header "Idempotency-Key") existing ≡ true
        → create_event db p settings call app ≡ (ok (create_response existing), app)
        → Ending
    violated :
        (payload : Fields)
        → check_request p settings call ≡ ok payload
        → any (clashes (planned db p settings call payload app)) (db.rows app.db) ≡ true
        → create_event db p settings call app ≡ (err integrity_error, app)
        → Ending

  refused_lem :
      (e : Error)
      → check_request p settings call ≡ err e
      → create_event db p settings call app ≡ (err e, app)
  unfolding create_event
  refused_lem e h = rw h refl

  module _ (payload : Fields) (ok_request : check_request p settings call ≡ ok payload)
      (running : IsRunning settings app.dispatcher) where
    abbrev event : Event
    event = planned db p settings call payload app

    violated_lem :
        store_event db event app ≡ (err integrity_error, app)
        → create_event db p settings call app ≡ (err integrity_error, app)
    unfolding create_event
    violated_lem h = rw ok_request (
        rw
          (mark_relay_lem db settings (new_event call payload) app app.dispatcher refl refl running)
          (rw h refl))

    replayed_lem :
        (existing : Event)
        → store_event db event app ≡ (ok (some existing), app)
        → create_event db p settings call app ≡ (ok (create_response existing), app)
    unfolding create_event respond
    replayed_lem existing h = rw ok_request (
        rw
          (mark_relay_lem db settings (new_event call payload) app app.dispatcher refl refl running)
          (rw h refl))

    ok-Ending : app.session ≡ true → IsUnique (db.rows app.db) → Ending
    ok-Ending live unique = elim (Bool-cases (any (clashes event) (db.rows app.db))) [
      | inl clash ↦
          elim (clash_cases db event event.idempotency_key app refl live unique
            (db.insert_clash event app.db clash)) [
              | inl stopped ↦ violated payload ok_request clash (violated_lem stopped)
              | inr (existing, there, same, found) ↦
                  replayed existing there same (replayed_lem existing found)
            ]
      | inr fresh ↦
          let (d', same, run) =
            create_event-stores db p settings call payload app live running ok_request fresh in
          accepted payload d' ok_request fresh same run
    ]

  -- There is no other way to end while the rows are unique.
  pub create_event-Ending :
      app.session ≡ true → IsRunning settings app.dispatcher → IsUnique (db.rows app.db) → Ending
  create_event-Ending live running unique = elim (Result-cases (check_request p settings call)) [
    | inl (payload, h) ↦ ok-Ending payload h running live unique
    | inr (e, h) ↦ refused e h (refused_lem e h)
  ]
