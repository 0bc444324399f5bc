-- ===== src/Http/Endpoints/Rendered.antt =====
-- The routes that read events: an answer that cannot be written as JSON.
use webhook_relay_api.Prelude.{
  ℕ, String, ◌≡◌, refl, Bool, true, false, arith, ap, sym, ◌∙◌, Option, none, some, List, [], ◌∷◌,
  inl, inr, ◌⊎◌, IsIn, Bool-cases, Option-cases, truthy,
}
use webhook_relay_api.Result.{Error, Result, ok, err, http_exception}
use webhook_relay_api.Platform.{Platform}
use webhook_relay_api.Config.{Settings}
use webhook_relay_api.Event.{Event}
use webhook_relay_api.Database.{Database}
use webhook_relay_api.App.{App, Exec, get_db}
use webhook_relay_api.Routes.Cursor.{decode_cursor, read_cursor}
use webhook_relay_api.Routes.Listing.{list_events, get_event, cursor_test, older_than}
use webhook_relay_api.Http.{Response, Content, http_exception_handler, error_response, listed}
use webhook_relay_api.Http.Endpoints.{Framework, route_rendered}

cursor_test_cases :
    (p : Platform) (cursor : Option String)
    → ((test : Event → Bool) × (cursor_test p cursor ≡ ok test))
      ⊎ (cursor_test p cursor ≡ err (http_exception 400 "Invalid cursor"))
unfolding cursor_test decode_cursor
cursor_test_cases p none = inl ((λ row. true), refl)
cursor_test_cases p (some cursor) = elim (Bool-cases (truthy cursor)) [
  | inr empty ↦ inl ((λ row. true), rw empty refl)
  | inl set ↦ elim (Option-cases (read_cursor p cursor)) [
    | inl bad ↦ inr (rw set (rw bad refl))
    | inr (at, good) ↦ inl (older_than at, rw set (rw good refl))
  ]
]

module _ {Db : Type 0} (db : Database Db) (p : Platform) (settings : Settings)
    (framework : Framework Db) where
  -- A route that only reads answers with something that cannot be written as JSON.
  abbrev pub IsUnrendered : {A : Type 0} → (A → Content) → Exec (App Db) A → App Db → Type 0
  IsUnrendered {A} content_of run app =
      (a : A) × (run app ≡ (ok a, app)) × (framework.can_render (content_of a) ≡ false)

  -- A response with one of the statuses and no header, and the state as before.
  abbrev pub Answers : List ℕ → App Db → Result Response × App Db → Type 0
  Answers statuses app (result, after) =
      (content : Content) × (status : ℕ) × IsIn status statuses
      × (result ≡ ok (record { status_code = status; content = content; headers = [] }))
      × (after ≡ app)

  abbrev pub Raises : App Db → Result Response × App Db → Type 0
  Raises app (result, after) = (e : Error) × (result ≡ err e) × (after ≡ app)

  abbrev pub AnswersOrRaises : Type 0 → List ℕ → App Db → Result Response × App Db → Type 0
  AnswersOrRaises Bad statuses app run = (¬ Bad × Answers statuses app run) ⊎ (Bad × Raises app run)

  -- A route that only reads, and raises nothing but its own HTTPExceptions.
  abbrev Reading : {A : Type 0} → List ℕ → Exec (App Db) A → App Db → Type 0
  Reading {A} statuses run app =
      ((a : A) × (run app ≡ (ok a, app)))
      ⊎ ((status : ℕ) × (detail : String) × IsIn status statuses
          × (run app ≡ (err (http_exception status detail), app)))

  same_answer :
      {A : Type 0} (content_of : A → Content) (run : Result A × App Db) (app : App Db) (a b : A)
      → run ≡ (ok a, app)
      → run ≡ (ok b, app)
      → framework.can_render (content_of a) ≡ framework.can_render (content_of b)
  same_answer content_of run app a b first second =
      ap (λ r. elim r.0 [ ok x ↦ framework.can_render (content_of x) | err e ↦ true ])
        (sym first ∙ second)

  no_answer :
      {A : Type 0} {run : Result A × App Db} {app : App Db} {a : A} {e : Error}
      → run ≡ (err e, app)
      → run ≡ (ok a, app)
      → ⊥
  no_answer raised returned = cc

  pub route_rendered-Reading :
      {A : Type 0} (content_of : A → Content) (run : Exec (App Db) A) (statuses : List ℕ)
      (app : App Db)
      → Reading statuses run app
      → AnswersOrRaises
          (IsUnrendered content_of run app)
          (200 ∷ statuses)
          app
          (route_rendered db p settings framework content_of run app)
  unfolding http_exception_handler error_response
  route_rendered-Reading content_of run statuses app (inl (a, returned)) =
      elim (Bool-cases (framework.can_render (content_of a))) [
        | inl fine ↦ inl (
          (λ (b, returned_b, bad). absurd (
              ground
                (arith, fine, bad, same_answer content_of (run app) app a b returned returned_b))),
          rw returned (rw fine (_, 200, inl refl, refl, refl)),
        )
        | inr bad ↦ inr ((a, returned, bad), rw returned (rw bad (_, refl, refl)))
      ]
  route_rendered-Reading content_of run statuses app (inr (status, detail, within, raised)) = inl (
    (λ (b, returned, bad). no_answer raised returned),
    rw raised (_, status, inr within, refl, refl),
  )

  list_events-Reading :
      (n : ℕ) (cursor source : Option String) (app : App Db)
      → app.session ≡ true
      → Reading (400 ∷ 422 ∷ []) (list_events p db n cursor source) app
  unfolding list_events get_db
  list_events-Reading n cursor source app live = elim (cursor_test_cases p cursor) [
    | inl (test, good) ↦ inl (rw good (rw live (_, refl)))
    | inr bad ↦ inr (400, "Invalid cursor", inl refl, rw bad refl)
  ]

  pub get_event-Reading :
      (id : String) (app : App Db) → app.session ≡ true → Reading (404 ∷ []) (get_event db id) app
  unfolding get_event get_db
  get_event-Reading id app live = elim (Option-cases (db.get id app.db)) [
    | inl nothing ↦ inr (404, "Event not found", inl refl, rw live (rw nothing refl))
    | inr (row, there) ↦ inl (rw live (rw there (_, refl)))
  ]

  pub list_events-Answers :
      (n : ℕ) (cursor source : Option String) (app : App Db)
      → app.session ≡ true
      → AnswersOrRaises
          (IsUnrendered listed (list_events p db n cursor source) app)
          (200 ∷ 400 ∷ 422 ∷ [])
          app
          (route_rendered db p settings framework listed (list_events p db n cursor source) app)
  list_events-Answers n cursor source app live =
      route_rendered-Reading listed (list_events p db n cursor source) (400 ∷ 422 ∷ []) app
        (list_events-Reading n cursor source app live)

  pub within_bounds :
      (within : Type 0) {Bad : Type 0} (statuses : List ℕ) {app : App Db}
      {run : Result Response × App Db}
      → within
      → AnswersOrRaises Bad statuses app run
      → AnswersOrRaises (within × Bad) statuses app run
  within_bounds within statuses holds (inl (fine, answers)) = inl ((λ (_, bad). fine bad), answers)
  within_bounds within statuses holds (inr (bad, raises)) = inr ((holds, bad), raises)
