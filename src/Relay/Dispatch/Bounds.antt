-- ===== src/Relay/Dispatch/Bounds.antt =====
-- The dispatcher under any sequence of steps: no job is lost, reordered or started twice, and the
-- queue and the workers are bounded.
use mathlib.Core.List.{append_assoc}
use webhook_relay_api.Prelude.{
  ℕ, zero, suc, ◌+◌, ◌≤◌, ◌≡◌, refl, sym, ap, ◌∙◌, Option, none, some, List, [], ◌∷◌, ◌++◌, arith,
  length, length-append, max, true, false, ◌<◌, ◌⊎◌, inl, inr, Bool-cases,
}
use webhook_relay_api.App.{Job, Dispatcher, App}
use webhook_relay_api.Result.{ok}
use webhook_relay_api.Relay.Dispatch.{
  idle_workers, full, put_job, Run, here, accept, start, end, new_dispatcher,
  startup_relay_dispatcher, enqueue_relay_job,
}

-- How many workers run a job.
unfoldable pub running : List (Option Job) → ℕ
running [] = 0
running (none ∷ workers) = running workers
running (some job ∷ workers) = suc (running workers)

running-append :
    (before : List (Option Job)) (behind : List (Option Job))
    → running (before ++ behind) ≡ running before + running behind
unfolding running
running-append [] behind = omega arith
running-append (none ∷ before) behind = running-append before behind
running-append (some job ∷ before) behind = omega (arith, running-append before behind)

running-le-length : (workers : List (Option Job)) → running workers ≤ length workers
unfolding running
running-le-length [] = omega arith
running-le-length (none ∷ workers) = omega (arith, running-le-length workers)
running-le-length (some job ∷ workers) = omega (arith, running-le-length workers)

idle_workers-length : (n : ℕ) → length (idle_workers n) ≡ n
unfolding idle_workers
idle_workers-length zero = refl
idle_workers-length (suc n) = ap suc (idle_workers-length n)

idle_workers-running : (n : ℕ) → running (idle_workers n) ≡ 0
unfolding idle_workers running
idle_workers-running zero = refl
idle_workers-running (suc n) = idle_workers-running n

-- What holds of a dispatcher that was started with `worker_count` and `queue_size`.
pub record IsBounded (worker_count queue_size : ℕ) (accepted started ended : List Job)
    (d : Dispatcher) : Type 0 where
  pub in_order : accepted ≡ started ++ d.queue
  pub room : length d.queue ≤ d.maxsize
  pub size : d.maxsize ≡ max queue_size 1
  pub crew : length d.workers ≡ max worker_count 1
  pub busy : running d.workers + length ended ≡ length started
  pub few : running d.workers ≤ max worker_count 1

module _ (worker_count queue_size : ℕ) where
  pub steps :
      {first d : Dispatcher} {accepted started ended : List Job}
      → first ≡ new_dispatcher worker_count queue_size
      → Run first accepted started ended d
      → IsBounded worker_count queue_size accepted started ended d
  unfolding running
  steps e (here d) = rw e (record {
    in_order = refl;
    room = omega arith;
    size = refl;
    crew = idle_workers-length (max worker_count 1);
    busy = omega (arith, idle_workers-running (max worker_count 1));
    few = omega (arith, idle_workers-running (max worker_count 1));
  })
  steps e (accept {d' = d} {accepted} {started} job free run) =
      let b = steps e run in
      record {
        in_order = ap (λ l. l ++ job ∷ []) b.in_order ∙ append_assoc started d.queue (job ∷ []);
        room = ground (arith, length-append {0} d.queue (job ∷ []), b.size);
        size = b.size;
        crew = b.crew;
        busy = b.busy;
        few = b.few;
      }
  steps e (start {d' = d} {accepted} {started} {queue = queue} job before behind next idle run) =
      let b = steps e run in
      let shorter : length d.queue ≡ suc (length queue) = ap length next in
      let crew : length d.workers ≡ length (before ++ none ∷ behind) = ap length idle in
      let busy : running d.workers ≡ running (before ++ none ∷ behind) = ap running idle in
      record {
        in_order =
            b.in_order ∙ ap (λ l. started ++ l) next ∙ sym (append_assoc started (job ∷ []) queue);
        room = omega (arith, b.room);
        size = b.size;
        crew = omega (
          arith,
          b.crew,
          length-append {0} before (none ∷ behind),
          length-append {0} before (some job ∷ behind),
        );
        few = omega (
          arith,
          b.crew,
          length-append {0} before (none ∷ behind),
          length-append {0} before (some job ∷ behind),
          running-le-length (before ++ some job ∷ behind),
        );
        busy = omega (
          arith,
          b.busy,
          length-append {0} started (job ∷ []),
          running-append before (none ∷ behind),
          running-append before (some job ∷ behind),
        );
      }
  steps e (end {d' = d} {ended = ended} job before behind busy run) =
      let b = steps e run in
      let crew : length d.workers ≡ length (before ++ some job ∷ behind) = ap length busy in
      let ran : running d.workers ≡ running (before ++ some job ∷ behind) = ap running busy in
      record {
        in_order = b.in_order;
        room = b.room;
        size = b.size;
        crew = omega (
          arith,
          b.crew,
          length-append {0} before (none ∷ behind),
          length-append {0} before (some job ∷ behind),
        );
        few = omega (
          arith,
          b.few,
          running-append before (none ∷ behind),
          running-append before (some job ∷ behind),
        );
        busy = omega (
          arith,
          b.busy,
          length-append {0} ended (job ∷ []),
          running-append before (none ∷ behind),
          running-append before (some job ∷ behind),
        );
      }

-- Whatever steps follow the start of a dispatcher that was not running: the accepted jobs are the
-- started ones and then the queued ones, in one order; the queue is within its size, which is at
-- least one; the workers stay as many as were asked for, at least one, and the jobs that run are
-- those that were started and have not ended, one for a worker at most.
pub startup-IsBounded :
    {Db : Type 0} (worker_count queue_size : ℕ) (app : App Db) (first d : Dispatcher)
    (accepted started ended : List Job)
    → app.dispatcher ≡ none
    → (startup_relay_dispatcher worker_count queue_size app).dispatcher ≡ some first
    → Run first accepted started ended d
    → IsBounded worker_count queue_size accepted started ended d
unfolding startup_relay_dispatcher
startup-IsBounded worker_count queue_size app first d accepted started ended off on run =
    steps worker_count queue_size (some_injective (sym on ∙ rw off refl)) run
  where
    some_injective : {a b : Dispatcher} → some a ≡ some b → a ≡ b
    some_injective e = cc

-- After any steps since the start, `enqueue_relay_job` accepts the job exactly if the queue is
-- shorter than its size, and this is one step more; otherwise it answers no and changes nothing.
pub enqueue_relay_job-Run :
    {Db : Type 0} (worker_count queue_size : ℕ) (app : App Db) (job : Job) (d : Dispatcher)
    (accepted started ended : List Job)
    → app.dispatcher ≡ some d
    → Run (new_dispatcher worker_count queue_size) accepted started ended d
    → ((length d.queue ≡ max queue_size 1) × (enqueue_relay_job job app ≡ (ok false, app)))
      ⊎ ((length d.queue < max queue_size 1)
          × (enqueue_relay_job job app
              ≡ (ok true, record app { dispatcher = some (put_job job d) }))
          × Run
              (new_dispatcher worker_count queue_size)
              (accepted ++ job ∷ [])
              started
              ended
              (put_job job d))
unfolding enqueue_relay_job
enqueue_relay_job-Run worker_count queue_size app job d accepted started ended on run =
    let b = steps worker_count queue_size refl run in
    elim (Bool-cases (full d)) [
      | inl no_room ↦ inl (ground (arith, b.room, b.size), rw on (rw (no_room, full) refl))
      | inr free ↦
          inr (ground (arith, b.room, b.size), rw on (rw (free, full) refl), accept job free run)
    ]
