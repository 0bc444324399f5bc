-- ===== src/System/Dropped.antt =====
-- What a shutdown does to the jobs that are pending.
use webhook_relay_api.Prelude.Alls.{IsIn-append, IsIn-after}
use webhook_relay_api.Prelude.{String, inl, inr, Option, none, some, List, [], ◌∷◌, ◌++◌, map, IsIn}
use webhook_relay_api.App.{Job, Dispatcher}
use webhook_relay_api.System.{running_ids, dropped}
use webhook_relay_api.System.Pending.{IsQueued, IsRelaying, IsPending}

IsQueued-IsIn :
    (id : String) (queue : List Job) → IsQueued id queue → IsIn id (map (λ job. job.event_id) queue)
IsQueued-IsIn id [] h = elim h [ ]
IsQueued-IsIn id (job ∷ queue) (inl same) = inl same
IsQueued-IsIn id (job ∷ queue) (inr h) = inr (IsQueued-IsIn id queue h)

IsRelaying-IsIn :
    (id : String) (workers : List (Option Job))
    → IsRelaying id workers
    → IsIn id (running_ids workers)
IsRelaying-IsIn id [] h = elim h [ ]
IsRelaying-IsIn id (none ∷ workers) h = IsRelaying-IsIn id workers h
IsRelaying-IsIn id (some job ∷ workers) (inl same) = inl same
IsRelaying-IsIn id (some job ∷ workers) (inr h) = inr (IsRelaying-IsIn id workers h)

-- A job that is pending is dropped with the dispatcher, if it is not lost already.
pub IsIn-dropped :
    (id : String) (q : Option Dispatcher) (lost : List String)
    → IsPending id q lost
    → IsIn id (dropped q ++ lost)
IsIn-dropped id none lost h = h
IsIn-dropped id (some d) lost (inl waits) = IsIn-append id (dropped (some d)) lost (
    IsIn-append id (map (λ job. job.event_id) d.queue) (running_ids d.workers)
      (IsQueued-IsIn id d.queue waits))
IsIn-dropped id (some d) lost (inr (inl works)) = IsIn-append id (dropped (some d)) lost (
    IsIn-after id (map (λ job. job.event_id) d.queue) (running_ids d.workers)
      (IsRelaying-IsIn id d.workers works))
IsIn-dropped id (some d) lost (inr (inr gone)) = IsIn-after id (dropped (some d)) lost gone
