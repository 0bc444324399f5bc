-- ===== src/System.antt =====
-- The running process: the requests, the cleanups and the workers' turns in any order, from the
-- startup on (app/main.py `lifespan`, app/api/routes.py, `_relay_dispatch_worker` of
-- app/services/relay.py). A request changes the state in one step, since `create_event` awaits
-- nothing after it has read the body; a relay begins in one step and ends in another.
pub mod Pending
pub mod Dropped
pub mod Moves
pub mod Tracked
pub mod Reached
pub mod Statuses
pub mod Columns
pub mod Jobs
pub mod Once
pub mod Retried
pub mod Ledger
pub mod Refined
pub mod Served
pub mod Final
pub mod Bounded
pub mod Delivered
pub mod Drain
pub mod Quiet
use webhook_relay_api.Prelude.{
  ℕ, suc, ◌+◌, ◌*◌, String, ◌≡◌, Option, none, some, List, [], ◌∷◌, ◌++◌, map, length,
}
use webhook_relay_api.Result.{Error, ok, err}
use webhook_relay_api.Platform.{Platform}
use webhook_relay_api.Config.{Settings}
use webhook_relay_api.Database.{Database}
use webhook_relay_api.App.{App, Dispatcher, Job, Metrics}
use webhook_relay_api.Relay.Attempts.{Network}
use webhook_relay_api.Routes.Request.{Call}
use webhook_relay_api.Routes.Intake.{create_event}
use webhook_relay_api.Routes.Background.{relay_and_persist}
use webhook_relay_api.Routes.Admin.{admin_cleanup}
use webhook_relay_api.Main.{startup, shutdown}

-- The jobs that run.
abbrev pub count_running : List (Option Job) → ℕ
count_running [] = 0
count_running (none ∷ workers) = count_running workers
count_running (some job ∷ workers) = 1 + count_running workers

-- The turns that the workers still need: two for a queued job, one for a job that runs.
abbrev pub turns_left : Option Dispatcher → ℕ
turns_left none = 0
turns_left (some d) = 2 * length d.queue + count_running d.workers

abbrev pub running_ids : List (Option Job) → List String
running_ids [] = []
running_ids (none ∷ workers) = running_ids workers
running_ids (some job ∷ workers) = job.event_id ∷ running_ids workers

-- The ids of the events whose jobs go with the dispatcher.
abbrev pub dropped : Option Dispatcher → List String
dropped none = []
dropped (some d) = map (λ job. job.event_id) d.queue ++ running_ids d.workers

module _ {Db : Type 0} (db : Database Db) (p : Platform) where
  -- A turn of a worker. It takes the first job of the queue if it is idle; a job that it runs
  -- returns, or raises, which the worker logs. The job began at a state `begin`, and the state when
  -- its relay has ended is `app`.
  pub data Turn (app : App Db) : Type 0 where
    take_job :
        (d : Dispatcher) (job : Job) (queue : List Job) (before behind : List (Option Job))
        → app.dispatcher ≡ some d
        → d.queue ≡ job ∷ queue
        → d.workers ≡ before ++ none ∷ behind
        → Turn app
    job_done :
        (d : Dispatcher) (job : Job) (before behind : List (Option Job)) (net : Network)
        (begin done : App Db)
        → app.dispatcher ≡ some d
        → d.workers ≡ before ++ some job ∷ behind
        → relay_and_persist db p net (λ _. app) job begin ≡ (ok tt, done)
        → Turn app
    job_failed :
        (d : Dispatcher) (job : Job) (before behind : List (Option Job)) (net : Network)
        (begin done : App Db) (e : Error)
        → app.dispatcher ≡ some d
        → d.workers ≡ before ++ some job ∷ behind
        → relay_and_persist db p net (λ _. app) job begin ≡ (err e, done)
        → Turn app

  -- The state after a turn.
  abbrev pub turned : {app : App Db} → Turn app → App Db
  turned {app} (take_job d job queue before behind _ _ _) = record app {
    dispatcher = some (record d { queue = queue; workers = before ++ some job ∷ behind });
  }
  turned (job_done d job before behind net begin done _ _ _) = record done {
    dispatcher = some (record d { workers = before ++ none ∷ behind });
  }
  turned (job_failed d job before behind net begin done e _ _ _) = record done {
    dispatcher = some (record d { workers = before ++ none ∷ behind });
  }

  -- The ids of the events whose job has raised.
  abbrev pub lost_by : {app : App Db} → Turn app → List String → List String
  lost_by (take_job _ _ _ _ _ _ _ _) lost = lost
  lost_by (job_done _ _ _ _ _ _ _ _ _ _) lost = lost
  lost_by (job_failed d job _ _ _ _ _ _ _ _ _) lost = job.event_id ∷ lost

  module _ (settings : Settings) where
    -- The states of the process since its startup at a state with no dispatcher, with the ids of
    -- the events whose job has raised, or was dropped by a shutdown.
    pub data Reach (initial : App Db) : List String → App Db → Type 0 where
      booted : initial.dispatcher ≡ none → Reach initial [] (startup settings initial)
      request :
          {lost : List String} {app : App Db} (call : Call)
          → Reach initial lost app
          → Reach initial lost (create_event db p settings call app).1
      cleanup :
          {lost : List String} {app : App Db} (now : ℕ) (token : Option String)
          → Reach initial lost app
          → Reach initial lost (admin_cleanup db now settings token app).1
      turn :
          {lost : List String} {app : App Db} (t : Turn app)
          → Reach initial lost app
          → Reach initial (lost_by t lost) (turned t)
      -- The counters move: a request is counted when it is answered, an attempt while the relay runs.
      counted :
          {lost : List String} {app : App Db} (metrics : Metrics)
          → Reach initial lost app
          → Reach initial lost (record app { metrics = metrics })
      -- A shutdown, which cancels the workers, and the next startup; the counters may be others by
      -- then, since a relay is cut off between its attempts, or the process is a new one.
      restarted :
          {lost : List String} {app : App Db} (metrics : Metrics)
          → Reach initial lost app
          → Reach initial
              (dropped app.dispatcher ++ lost)
              (startup settings (record (shutdown app) { metrics = metrics }))

    -- What can follow a state, cleanups aside.
    pub data Onward (app : App Db) : App Db → Type 0 where
      same_state : Onward app app
      then_request :
          {later : App Db} (call : Call)
          → Onward app later
          → Onward app (create_event db p settings call later).1
      then_turn : {later : App Db} (t : Turn later) → Onward app later → Onward app (turned t)
      then_counted :
          {later : App Db} (metrics : Metrics)
          → Onward app later
          → Onward app (record later { metrics = metrics })
      then_restart :
          {later : App Db} (metrics : Metrics)
          → Onward app later
          → Onward app (startup settings (record (shutdown later) { metrics = metrics }))

  -- Turns of the workers, with nothing between them.
  pub data Turns : ℕ → List String → App Db → List String → App Db → Type 0 where
    stay : (lost : List String) (app : App Db) → Turns 0 lost app lost app
    next :
        {n : ℕ} {lost lost' : List String} {app app' : App Db} (t : Turn app')
        → Turns n lost app lost' app'
        → Turns (suc n) lost app (lost_by t lost') (turned t)
