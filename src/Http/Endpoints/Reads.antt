-- ===== src/Http/Endpoints/Reads.antt =====
-- The requests that only read.
use webhook_relay_api.Prelude.{ℕ, ◌≡◌, true, false, ◌&&◌, none, some, List, [], ◌∷◌, leb}
use webhook_relay_api.Prelude.Int.{pos, negsuc}
use webhook_relay_api.Platform.{Platform}
use webhook_relay_api.Config.{Settings}
use webhook_relay_api.Database.{Database}
use webhook_relay_api.App.{App}
use webhook_relay_api.Routes.Listing.{list_events, get_event}
use webhook_relay_api.Http.{item, listed}
use webhook_relay_api.Http.Endpoints.{
  Framework, Endpoint, get_health, get_ready, get_metrics, post_webhook, get_events, get_one_event,
  post_cleanup, unrouted,
}
use webhook_relay_api.Http.Endpoints.Rendered.{IsUnrendered}

-- The statuses that a read can have; no other request is a read.
abbrev pub read_statuses : Endpoint → List ℕ
read_statuses get_health = 200 ∷ []
read_statuses get_ready = 200 ∷ []
read_statuses get_metrics = 200 ∷ []
read_statuses (get_events limit cursor source) = 200 ∷ 400 ∷ 422 ∷ []
read_statuses (get_one_event id) = 200 ∷ 404 ∷ []
read_statuses (unrouted status detail) = status ∷ []
read_statuses (post_webhook call) = []
read_statuses (post_cleanup now token) = []

abbrev pub IsRead : Endpoint → Type 0
IsRead (post_webhook call) = ⊥
IsRead (post_cleanup now token) = ⊥
IsRead get_health = Unit
IsRead get_ready = Unit
IsRead get_metrics = Unit
IsRead (get_events limit cursor source) = Unit
IsRead (get_one_event id) = Unit
IsRead (unrouted status detail) = Unit

module _ {Db : Type 0} (db : Database Db) (p : Platform) (settings : Settings)
    (framework : Framework Db) where
  -- The read finds what cannot be written as JSON, or it is the probe and the database does not answer.
  abbrev pub IsUnanswerable : Endpoint → App Db → Type 0
  IsUnanswerable get_ready app = framework.answers_select app.db ≡ false
  IsUnanswerable (get_one_event id) app =
      IsUnrendered db p settings framework item (get_event db id) app
  IsUnanswerable (get_events none cursor source) app =
      IsUnrendered db p settings framework listed (list_events p db 50 cursor source) app
  IsUnanswerable (get_events (some (pos n)) cursor source) app =
      (leb 1 n && leb n 100 ≡ true)
      × IsUnrendered db p settings framework listed (list_events p db n cursor source) app
  IsUnanswerable (get_events (some (negsuc n)) cursor source) app = ⊥
  IsUnanswerable get_health app = ⊥
  IsUnanswerable get_metrics app = ⊥
  IsUnanswerable (unrouted status detail) app = ⊥
  IsUnanswerable (post_webhook call) app = ⊥
  IsUnanswerable (post_cleanup now token) app = ⊥
