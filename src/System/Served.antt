-- ===== src/System/Served.antt =====
-- The requests of HTTP as steps of the process.
use webhook_relay_api.Prelude.{
  ℕ, String, Bool, ◌≡◌, refl, sym, subst, inl, inr, ◌&&◌, leb, Bool-cases, Option, none, some, List,
  Option-cases,
}
use webhook_relay_api.Prelude.Int.{pos, negsuc}
use webhook_relay_api.Result.{Result-cases}
use webhook_relay_api.Platform.{Platform}
use webhook_relay_api.Config.{Settings}
use webhook_relay_api.Database.{Database}
use webhook_relay_api.App.{App, Metrics, Exec, get_db}
use webhook_relay_api.Routes.Listing.{list_events, get_event, cursor_test}
use webhook_relay_api.Routes.Probes.{health, ready, check_db}
use webhook_relay_api.Http.{
  Request, Response, req_id, serve, add_request_id, label_path, count_request, in_context,
}
use webhook_relay_api.Http.Endpoints.{
  Framework, Endpoint, get_health, get_ready, get_metrics, post_webhook, get_events, get_one_event,
  post_cleanup, unrouted, call_next, serve_endpoint,
}
use webhook_relay_api.System.{Reach, request, cleanup, counted}

module _ {Db : Type 0} where
  -- The middleware moves the counters, and nothing else.
  served_lem :
      (p : Platform) (r : Request) (m : String → Exec (App Db) Response) (app : App Db)
      → (metrics : Metrics) × ((serve p r m app).1
          ≡ record (m (req_id r) app).1 { metrics = metrics })
  unfolding add_request_id
  served_lem p r m app = elim (Result-cases (m (req_id r) app).0) [
    | inl (response, returned) ↦ (
      count_request r.method (label_path r) (p.show response.status_code)
          (m (req_id r) app).1.metrics,
      rw returned refl,
    )
    | inr (e, raised) ↦ ((m (req_id r) app).1.metrics, rw raised refl)
  ]

  list_events-reads :
      (db : Database Db) (p : Platform) (n : ℕ) (cursor source : Option String) (app : App Db)
      → (list_events p db n cursor source app).1 ≡ app
  unfolding list_events get_db
  list_events-reads db p n cursor source app = elim (Result-cases (cursor_test p cursor)) [
    | inr (e, bad) ↦ rw bad refl
    | inl (test, good) ↦ elim (Bool-cases app.session) [
      | inl live ↦ rw good (rw live refl)
      | inr off ↦ rw good (rw off refl)
    ]
  ]

  get_event-reads : (db : Database Db) (id : String) (app : App Db) → (get_event db id app).1 ≡ app
  unfolding get_event get_db
  get_event-reads db id app = elim (Bool-cases app.session) [
    | inr off ↦ rw off refl
    | inl live ↦ elim (Option-cases (db.get id app.db)) [
      | inl nothing ↦ rw live (rw nothing refl)
      | inr (row, there) ↦ rw live (rw there refl)
    ]
  ]

  ready-reads : (answers_select : Db → Bool) (app : App Db) → (ready answers_select app).1 ≡ app
  unfolding ready check_db get_db
  ready-reads answers_select app = elim (Bool-cases app.session) [
    | inr off ↦ rw off refl
    | inl live ↦ elim (Bool-cases (answers_select app.db)) [
      | inl up ↦ rw live (rw up refl)
      | inr down ↦ rw live (rw down refl)
    ]
  ]

module _ {Db : Type 0} (db : Database Db) (p : Platform) (settings : Settings)
    (framework : Framework Db) (r : Request) (id : String) where
  module _ {initial : App Db} {lost : List String} where
    -- What the middleware calls is a step, or none.
    call_next-Reach :
        (endpoint : Endpoint) {app : App Db}
        → Reach db p settings initial lost app
        → Reach db p settings initial lost (call_next db p settings framework endpoint r id app).1
    unfolding call_next health
    call_next-Reach get_health so_far = so_far
    call_next-Reach get_ready {app} so_far =
        subst (Reach db p settings initial lost) (sym (ready-reads framework.answers_select app))
          so_far
    call_next-Reach get_metrics so_far = so_far
    call_next-Reach (post_webhook call) so_far = request (in_context db p settings call r id) so_far
    call_next-Reach (get_events none cursor source) {app} so_far =
        subst (Reach db p settings initial lost) (sym (list_events-reads db p 50 cursor source app))
          so_far
    call_next-Reach (get_events (some (negsuc n)) cursor source) so_far = so_far
    call_next-Reach (get_events (some (pos n)) cursor source) {app} so_far =
        elim (Bool-cases (leb 1 n && leb n 100)) [
          | inl within ↦ rw within (
              subst (Reach db p settings initial lost)
                (sym (list_events-reads db p n cursor source app)) so_far)
          | inr outside ↦ rw outside so_far
        ]
    call_next-Reach (get_one_event event_id) {app} so_far =
        subst (Reach db p settings initial lost) (sym (get_event-reads db event_id app)) so_far
    call_next-Reach (post_cleanup now token) so_far = cleanup now token so_far
    call_next-Reach (unrouted status detail) so_far = so_far

module _ {Db : Type 0} (db : Database Db) (p : Platform) (settings : Settings)
    (framework : Framework Db) where
  -- Whatever request of HTTP is served in a state of the process since its startup, however it
  -- ends: the state after it is one of the process since its startup, with the same events lost.
  pub serve_endpoint-Reach :
      {initial app : App Db} {lost : List String} (endpoint : Endpoint) (r : Request)
      → Reach db p settings initial lost app
      → Reach db p settings initial lost (serve_endpoint db p settings framework endpoint r app).1
  unfolding serve_endpoint
  serve_endpoint-Reach {initial} {app} {lost} endpoint r so_far =
      let (metrics, same) = served_lem p r (call_next db p settings framework endpoint r) app in
      subst (Reach db p settings initial lost) (sym same)
        (counted metrics (call_next-Reach db p settings framework r (req_id r) endpoint so_far))
