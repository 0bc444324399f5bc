-- ===== src/App.antt =====
-- The state of the process, and the methods that change it: app/db/session.py (`get_db`, `init_db`,
-- `get_engine`), the module globals of app/services/relay.py, the counters of app/metrics.py.
pub mod Keeps
use webhook_relay_api.Prelude.{ℕ, String, Bool, Option, List, if◌then◌else◌, ◌≡◌, arith}
use webhook_relay_api.Result.{Error, runtime_error, Result, ok, err}
use webhook_relay_api.Event.{Headers}
use webhook_relay_api.Json.{Fields}

-- A queued relay job: what the closure `relay_job` of `create_event` holds.
pub record RelayPayload : Type 0 where
  pub event_id : String
  pub source : String
  pub received_at : String
  pub payload : Fields
  pub headers : Headers

pub record Job : Type 0 where
  pub event_id : String
  pub relay_payload : RelayPayload
  pub target_url : String
  pub request_id : String
  pub relay_allow_hosts : List String
  pub relay_allow_private_ips : Bool

-- `_dispatch_queue` and `_dispatch_workers`: each worker is idle or runs a job.
pub record Dispatcher : Type 0 where
  pub queue : List Job
  pub maxsize : ℕ
  pub workers : List (Option Job)

pub record Metrics : Type 0 where
  -- REQUEST_COUNT by method, path and status, REQUEST_LATENCY by method and path
  pub requests : String → String → String → ℕ
  pub request_latencies : String → String → ℕ
  -- EVENTS_RECEIVED_TOTAL by source
  pub events_received : String → ℕ
  pub relay_attempts : ℕ
  pub relay_successes : ℕ
  pub relay_latencies : ℕ

pub record App (Db : Type 0) : Type 0 where
  -- `_SessionLocal is not None`
  pub session : Bool
  pub db : Db
  -- `_client is not None`
  pub client : Bool
  pub dispatcher : Option Dispatcher
  pub metrics : Metrics

-- A method that may raise: what it wrote before stays written.
abbrev pub Exec {ℓ κ} : Type ℓ → Type κ → Type (ℓ ⊔ κ)
Exec S A = S → Result A × S

module _ {ℓ} {S A : Type ℓ} where
  abbrev pub pure : A → Exec S A
  pure a s = (ok a, s)

  abbrev pub raise : Error → Exec S A
  raise e s = (err e, s)

  abbrev pub lift : Result A → Exec S A
  lift r s = (r, s)

module _ {ℓ} {S A B : Type ℓ} where
  abbrev pub after : Result A → S → (A → Exec S B) → Result B × S
  after (ok a) s f = f a s
  after (err e) s f = (err e, s)

  infixl 5 ◌>>=◌ ◌>>◌
  abbrev pub ◌>>=◌ : Exec S A → (A → Exec S B) → Exec S B
  ◌>>=◌ m f s = let (r, s') = m s in after r s' f

  abbrev pub ◌>>◌ : Exec S A → Exec S B → Exec S B
  m >> n = m >>= λ _. n

module _ {Db A : Type 0} where
  abbrev pub close : App Db → Result (A × Db) → Result A × App Db
  close app (ok (a, d)) = (ok a, record app { db = d })
  close app (err e) = (err e, app)

  -- `with get_db() as db: ...`: what the body writes is committed as a whole, or rolled back.
  unfoldable pub get_db : (Db → Result (A × Db)) → Exec (App Db) A
  get_db body app =
      if app.session
      then close app (body app.db)
      else (err (runtime_error "Database not initialized"), app)

  -- A body that raises changes nothing.
  pub get_db-err :
      (body : Db → Result (A × Db)) (app : App Db) (e : Error)
      → (get_db body app).0 ≡ err e
      → (get_db body app).1 ≡ app
  unfolding get_db
  get_db-err body app e h = ground arith

-- `_ENGINE` is set with `_SessionLocal`; the engine is the database.
unfoldable pub get_engine : {Db : Type 0} → App Db → Result Db
get_engine app = if app.session then ok app.db else err (runtime_error "Database not initialized")
