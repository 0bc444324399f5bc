-- ===== src/Relay/Dispatch.antt =====
-- The bounded dispatch queue and its workers (app/services/relay.py).
pub mod Bounds
use webhook_relay_api.Prelude.{
  ℕ, zero, suc, Bool, true, false, Option, none, some, List, [], ◌∷◌, ◌++◌, if◌then◌else◌, ltb, leb,
  length, ◌&&◌, max, ◌≡◌,
}
use webhook_relay_api.Result.{ok, err, runtime_error}
use webhook_relay_api.App.{Job, Dispatcher, App, Exec}

-- `[_relay_dispatch_worker(idx) for idx in range(n)]`, all waiting for a job.
unfoldable pub idle_workers : ℕ → List (Option Job)
idle_workers zero = []
idle_workers (suc n) = none ∷ idle_workers n

-- `asyncio.Queue.full`
abbrev pub full : Dispatcher → Bool
full d = ltb 0 d.maxsize && leb d.maxsize (length d.queue)

-- The queue with one more job at its end.
abbrev pub put_job : Job → Dispatcher → Dispatcher
put_job job d = record d { queue = d.queue ++ job ∷ [] }

-- `_relay_dispatch_worker`, as the steps of one worker between others: it takes the first job of the
-- queue when it is idle, and is idle again when the job has returned or raised. The steps of a
-- dispatcher are these and `put_nowait`; beside them stand the jobs that were accepted, that were
-- started and that have ended, each in its order, since the start.
pub data Run : Dispatcher → List Job → List Job → List Job → Dispatcher → Type 0 where
  here : (d : Dispatcher) → Run d [] [] [] d
  accept :
      {d d' : Dispatcher} {accepted started ended : List Job} (job : Job)
      → full d' ≡ false
      → Run d accepted started ended d'
      → Run d (accepted ++ job ∷ []) started ended (put_job job d')
  start :
      {d d' : Dispatcher} {accepted started ended queue : List Job} (job : Job)
      (before behind : List (Option Job))
      → d'.queue ≡ job ∷ queue
      → d'.workers ≡ before ++ none ∷ behind
      → Run d accepted started ended d'
      → Run d accepted
          (started ++ job ∷ [])
          ended
          (record d' { queue = queue; workers = before ++ some job ∷ behind })
  end :
      {d d' : Dispatcher} {accepted started ended : List Job} (job : Job)
      (before behind : List (Option Job))
      → d'.workers ≡ before ++ some job ∷ behind
      → Run d accepted started ended d'
      → Run d accepted started (ended ++ job ∷ []) (record d' { workers = before ++ none ∷ behind })

-- What `startup_relay_dispatcher` makes.
abbrev pub new_dispatcher : ℕ → ℕ → Dispatcher
new_dispatcher worker_count queue_size = record {
  queue = [];
  maxsize = max queue_size 1;
  workers = idle_workers (max worker_count 1);
}

module _ {Db : Type 0} where
  unfoldable pub startup_relay_dispatcher : ℕ → ℕ → App Db → App Db
  startup_relay_dispatcher worker_count queue_size app = elim app.dispatcher [
    | some running ↦ app
    | none ↦ record app { dispatcher = some (new_dispatcher worker_count queue_size) }
  ]

  -- The workers are cancelled, and what is queued is dropped with the queue.
  unfoldable pub shutdown_relay_dispatcher : App Db → App Db
  shutdown_relay_dispatcher app = record app { dispatcher = none }

  unfoldable pub startup_http_client : App Db → App Db
  startup_http_client app = record app { client = true }

  unfoldable pub shutdown_http_client : App Db → App Db
  shutdown_http_client app = record app { client = false }

  unfoldable pub enqueue_relay_job : Job → Exec (App Db) Bool
  enqueue_relay_job job app = elim app.dispatcher [
    | none ↦ (err (runtime_error "Relay dispatcher is not initialized"), app)
    | some d ↦
        if full d
        then (ok false, app)
        else (ok true, record app { dispatcher = some (put_job job d) })
  ]

  unfoldable pub relay_queue_has_capacity : Exec (App Db) Bool
  relay_queue_has_capacity app = elim app.dispatcher [
    | none ↦ (err (runtime_error "Relay dispatcher is not initialized"), app)
    | some d ↦ (ok (ltb (length d.queue) d.maxsize), app)
  ]
